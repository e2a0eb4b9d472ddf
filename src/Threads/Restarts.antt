-- ===== src/Threads/Restarts.antt =====
-- A process that is started over the cache file that another one left.
use latte_rs.Base.{
  String, ◌≡◌, refl, ap, ◌∙◌, ◌⊎◌, inl, inr, Bool, true, Option, none, some, List, [], ◌∷◌, All,
  Result, ok, err, map_err-eq-ok,
}
use latte_rs.Time.{SystemTime}
use latte_rs.Crates.{Crates, Bytes}
use latte_rs.Errors.{LatteError, not_activated}
use latte_rs.Domain.{CertChain}
use latte_rs.Check.{PublicLicense}
use latte_rs.Config.{Sdk}
use latte_rs.Renewal
use latte_rs.Renewal.{verify_and_validate}
use latte_rs.Storage.{CachedActivation, FilePath, Disk, Calls, Io, IoError, record_of, load, clear}
use latte_rs.Storage.Atomic.{IsSeen, IsEnded, saved, save-atomic}
use latte_rs.Storage.Cached.{is_ok, file-Cached}
use latte_rs.Sdk.{check}
use latte_rs.Sdk.Cached.{answer, check-answer}
use latte_rs.Threads.{start_of}

module _ (C : Crates) (sdk : Sdk C) (to_vec : CachedActivation → Result Bytes String)
    (from_slice : Bytes → Result CachedActivation String) (path : FilePath)
    (contended spawns : Bool) (now later : SystemTime) where
  abbrev first_check : Option (String × CertChain) → Result PublicLicense LatteError
  first_check file =
      (check C sdk.master_pubs sdk.machine_id contended spawns now later
        (start_of true file).shared).result

  -- What the first `check` of a process answers over a disk.
  abbrev pub restarted : Disk → Result PublicLicense LatteError
  restarted d = first_check (load to_vec from_slice true path d)

  first_check-some :
      (token : String) (chain : CertChain) (lic : PublicLicense)
      → verify_and_validate C sdk.master_pubs sdk.machine_id now (token, chain) ≡ ok lic
      → first_check (some (token, chain)) ≡ ok lic
  unfolding verify_and_validate
  first_check-some token chain lic good =
      (check-answer C sdk.master_pubs sdk.machine_id contended spawns now later
          (start_of true (some (token, chain))).shared).0
        token chain refl refl
      ∙ ap answer (map_err-eq-ok _ _ good)

  first_check-none : first_check none ≡ err not_activated
  first_check-none =
      (check-answer C sdk.master_pubs sdk.machine_id contended spawns now later
          (start_of true none).shared).1
        refl

  module _ (calls : Calls) (token : String) (chain : CertChain) (base : Disk) where
    abbrev pub saving : Io
    saving = saved to_vec from_slice calls path token chain base

    abbrev pub clearing : Bool → Io
    clearing allowed = clear allowed path (record { disk = base; seen = base ∷ [] })

    abbrev pub IsBefore : Disk → Type 0
    IsBefore d = restarted d ≡ restarted base

    All-restarted :
        (lic : PublicLicense) (ds : List Disk)
        → first_check (some (token, chain)) ≡ ok lic
        → All (IsSeen to_vec from_slice calls path token chain base) ds
        → All (λ d. IsBefore d ⊎ (restarted d ≡ ok lic)) ds
    All-restarted lic [] good seen = tt
    All-restarted lic (d ∷ ds) good (seen, rest) = (
      elim seen.answers [
        | inl old ↦ inl (ap first_check old)
        | inr new ↦ inr (ap first_check new ∙ good)
      ],
      All-restarted lic ds good rest,
    )

    cleared-restarted :
        (result : Result (Unit {0}) IoError) (d : Disk)
        → load to_vec from_slice true path d
          ≡ (Renewal.clear
              (is_ok result)
              (start_of true (load to_vec from_slice true path base)).shared).file
        → ((result ≡ ok tt) × (restarted d ≡ err not_activated))
          ⊎ ((e : IoError) × (result ≡ err e) × IsBefore d)
    cleared-restarted (ok _) d same = inl (refl, ap first_check same ∙ first_check-none)
    cleared-restarted (err e) d same = inr (e, refl, ap first_check same)

    saved-restarted :
        (lic : PublicLicense) (io : Io)
        → first_check (some (token, chain)) ≡ ok lic
        → IsEnded to_vec from_slice calls path token chain base io
        → ((io.0 ≡ ok tt) × (restarted io.1.disk ≡ ok lic))
          ⊎ ((e : IoError) × (io.0 ≡ err e) × IsBefore io.1.disk)
    saved-restarted lic (ok _, log) good ended =
        inl (refl, ap first_check (ended.succeeded refl).0 ∙ good)
    saved-restarted lic (err e, log) good ended =
        inr (e, refl, ap first_check (ended.failed e refl))

    -- A process that is started over the cache file in the middle of a save of an activation that
    -- the pipeline accepts now, or after the process that saved it stopped there, answers its first
    -- `check` as if the save had not begun, or with the licence of the activation. After the save it
    -- answers with that licence if the save succeeded, and as before if it failed; and after a
    -- removal of the file, that nothing is activated, or as before. This takes that `serde_json` reads
    -- back the record that it wrote.
    pub save-restarted :
        (lic : PublicLicense) (allowed : Bool)
        → ((bytes : Bytes)
            → to_vec (record_of calls.now token chain) ≡ ok bytes
            → from_slice bytes ≡ ok (record_of calls.now token chain))
        → verify_and_validate C sdk.master_pubs sdk.machine_id now (token, chain) ≡ ok lic
        → All (λ d. IsBefore d ⊎ (restarted d ≡ ok lic)) saving.1.seen
          × (((saving.0 ≡ ok tt) × (restarted saving.1.disk ≡ ok lic))
              ⊎ ((e : IoError) × (saving.0 ≡ err e) × IsBefore saving.1.disk))
          × ((((clearing allowed).0 ≡ ok tt)
                × (restarted (clearing allowed).1.disk ≡ err not_activated))
              ⊎ ((e : IoError) × ((clearing allowed).0 ≡ err e)
                  × IsBefore (clearing allowed).1.disk))
    save-restarted lic allowed reads_back good =
        let fresh = first_check-some token chain lic good in
        let (seen, ended) = save-atomic to_vec from_slice calls path token chain base reads_back in
        let stored =
          file-Cached to_vec from_slice path base
            (start_of true (load to_vec from_slice true path base)).shared refl calls token chain
            allowed reads_back in
        (
          All-restarted lic saving.1.seen fresh seen,
          saved-restarted lic saving fresh ended,
          cleared-restarted (clearing allowed).0 (clearing allowed).1.disk stored.1,
        )
