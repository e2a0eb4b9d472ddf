-- ===== src/Storage/Cached.antt =====
-- What the `Sdk` takes the cache file to be: one activation, or nothing.
use latte_rs.Base.{
  String, ◌≡◌, refl, sym, ◌∙◌, inl, inr, Bool, true, false, Option, none, some, [], ◌∷◌, arith,
  Result, ok, err, Bool-cases, Option-cases, eq_iff,
}
use latte_rs.Crates.{Bytes}
use latte_rs.Domain.{CertChain}
use latte_rs.HashMap.{lookup, remove, lookup-remove}
use latte_rs.Renewal.{Shared}
use latte_rs.Renewal
use latte_rs.Storage.{
  CachedActivation, FilePath, text_of, Disk, Log, Io, Calls, record_of, load, remove_file, save,
  clear,
}
use latte_rs.Storage.Atomic.{saved, save-atomic}

-- `is_ok`
abbrev pub is_ok {ℓ κ} : {A : Type ℓ} {E : Type κ} → Result A E → Bool
is_ok (ok a) = true
is_ok (err e) = false

removed : (key : String) (d : Disk) → lookup key (remove key d) ≡ none
removed key d = lookup-remove key key d ∙ ground (arith, eq_iff key key)

module _ (to_vec : CachedActivation → Result Bytes String)
    (from_slice : Bytes → Result CachedActivation String) (path : FilePath) (disk : Disk)
    (s : Shared) (cached : s.file ≡ load to_vec from_slice true path disk) where
  abbrev cache_at : Disk → Option (String × CertChain)
  cache_at d = load to_vec from_slice true path d

  abbrev start : Log
  start = record { disk = disk; seen = disk ∷ [] }

  saved_cases :
      (token : String) (chain : CertChain) (io : Io)
      → (io.0 ≡ ok tt → cache_at io.1.disk ≡ some (token, chain))
      → ((e : _) → io.0 ≡ err e → cache_at io.1.disk ≡ cache_at disk)
      → cache_at io.1.disk ≡ (Renewal.save (is_ok io.0) (token, chain) s).file
  saved_cases token chain (ok _, log) done failed = done refl
  saved_cases token chain (err e, log) done failed = failed e refl ∙ sym cached

  cleared :
      (allowed : Bool)
      → cache_at (clear allowed path start).1.disk
        ≡ (Renewal.clear (is_ok (clear allowed path start).0) s).file
  unfolding clear remove_file load
  cleared allowed = elim (Option-cases (lookup (text_of path) disk)) [
    | inl missing ↦ rw missing (rw missing refl)
    | inr (bytes, there) ↦ elim (Bool-cases allowed) [
      | inl may ↦ rw (there, may, removed (text_of path) disk) refl
      | inr may_not ↦ rw (there, may_not) (sym cached)
    ]
  ]

  -- The cache file behaves as the one place for an activation that the `Sdk` takes it for: a save
  -- that succeeds, and a removal that succeeds or finds no file, give what the place then holds, and
  -- those that fail leave it. This takes that `serde_json` reads back the record that it wrote.
  pub file-Cached :
      (calls : Calls) (token : String) (chain : CertChain) (allowed : Bool)
      → ((bytes : Bytes)
          → to_vec (record_of calls.now token chain) ≡ ok bytes
          → from_slice bytes ≡ ok (record_of calls.now token chain))
      → let saving = save to_vec from_slice calls path token chain start in
        let clearing = clear allowed path start in
        (cache_at saving.1.disk ≡ (Renewal.save (is_ok saving.0) (token, chain) s).file)
        × (cache_at clearing.1.disk ≡ (Renewal.clear (is_ok clearing.0) s).file)
  file-Cached calls token chain allowed reads_back =
      let (_, ends) = save-atomic to_vec from_slice calls path token chain disk reads_back in
      (
        saved_cases token chain (saved to_vec from_slice calls path token chain disk)
            (λ h. (ends.succeeded h).0) ends.failed,
        cleared allowed,
      )
