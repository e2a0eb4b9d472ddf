-- ===== src/Storage/Savers/Runs.antt =====
-- A call of `save` or `clear` is steps of the relation.
use latte_rs.Base.{
  ℕ, zero, suc, String, inl, inr, ◌≡◌, refl, ap, ◌∙◌, Bool, true, false, Option, none, some, List,
  [], ◌∷◌, ◌++◌, Result, ok, err, Bool-cases, Option-cases, arith, if◌then◌else◌,
}
use latte_rs.Crates.{Bytes}
use latte_rs.Domain.{CertChain}
use latte_rs.HashMap.{lookup, insert}
use latte_rs.Storage.{
  CachedActivation, FilePath, text_of, Disk, IoError, Log, Io, Calls, pass, record_of, create_new,
  write_all, rename_found, rename, remove_file, written, clean_up, save_bytes, save, clear,
  and_then_io, other, invalid_data,
}
use latte_rs.Storage.Savers.{
  Saver, waiting, writing, failing, ended, Scene, update, act, log_of, renamed_as, tmp, opening,
  renaming, Step, opens, writes, stops, renames, removes, dies, clears, Reach, here, next,
}

update_self : (saver : ℕ → ℕ → Saver) (p c : ℕ) (x : Saver) → update saver p c x p c ≡ x
update_self saver p c x = ground arith

-- What two ends of an operation have in common that differ in what they passed through alone.
abbrev IsAlike : Io → Io → Type 0
IsAlike io io' = (io.1.disk ≡ io'.1.disk) × (renamed_as io ≡ renamed_as io')

found_Alike :
    (allowed : Bool) (from to : String) (o : Option Bytes) (d : Disk) (seen : List Disk)
    → IsAlike
        (rename_found allowed from to o (log_of d))
        (rename_found allowed from to o (record { disk = d; seen = seen }))
found_Alike allowed from to none d seen = (refl, refl)
found_Alike true from to (some bytes) d seen = (refl, refl)
found_Alike false from to (some bytes) d seen = (refl, refl)

rename_Alike :
    (allowed : Bool) (from to : String) (log : Log)
    → IsAlike (rename allowed from to (log_of log.disk)) (rename allowed from to log)
unfolding rename
rename_Alike allowed from to log =
    found_Alike allowed from to (lookup from log.disk) log.disk log.seen

remove_disk :
    (allowed : Bool) (name : String) (log : Log)
    → (remove_file allowed name (log_of log.disk)).1.disk ≡ (remove_file allowed name log).1.disk
unfolding remove_file
remove_disk allowed name log = elim (Option-cases (lookup name log.disk)) [
  | inl missing ↦ rw missing refl
  | inr (b, there) ↦
      rw there (elim (Bool-cases allowed) [ inl may ↦ rw may refl | inr may_not ↦ rw may_not refl ])
]

module _ (to_vec : CachedActivation → Result Bytes String) (path : FilePath)
    (Given : String × CertChain → Type 0) where
  module _ (p c : ℕ) (start : Scene) where
    abbrev name : String
    name = tmp to_vec path Given p c

    -- The steps of a call up to an end of it.
    abbrev Ran : Io → Type 0
    Ran io =
        (v : Scene) × Reach to_vec path Given start v
        × (v.disk ≡ io.1.disk)
        × (v.saver p c ≡ renamed_as io)

    rename-Ran :
        (allowed : Bool) (w : Scene) (log : Log) (activation : String × CertChain) (done : Bytes)
        → Reach to_vec path Given start w
        → w.disk ≡ log.disk
        → w.saver p c ≡ writing activation done []
        → Ran (rename allowed name (text_of path) log)
    rename-Ran allowed w log activation done reach same at =
        let (disks, ends) = rename_Alike allowed name (text_of path) log in
        (
          renaming to_vec path Given w p c (rename allowed name (text_of path) (log_of w.disk)),
          next reach (renames p c allowed activation done at),
          rw same disks,
          update_self w.saver p c _ ∙ rw same ends,
        )

    write_all-Ran :
        (room : ℕ) (allowed : Bool) (w : Scene) (log : Log) (activation : String × CertChain)
        (done bytes : Bytes)
        → Reach to_vec path Given start w
        → w.disk ≡ log.disk
        → w.saver p c ≡ writing activation done bytes
        → Ran (
            and_then_io
              (write_all room name done bytes log)
              (λ full. rename allowed name (text_of path) full))
    unfolding write_all
    write_all-Ran room allowed w log activation done [] reach same at =
        rename-Ran allowed w log activation done reach same at
    write_all-Ran zero allowed w log activation done (b ∷ bytes) reach same at = (
      act w p c failing w.disk,
      next reach (stops p c activation done b bytes at),
      same,
      update_self w.saver p c failing,
    )
    write_all-Ran (suc room) allowed w log activation done (b ∷ bytes) reach same at =
        let longer : Bytes = done ++ (b ∷ []) in
        write_all-Ran room allowed
          (act w p c (writing activation longer bytes) (insert name longer w.disk))
          (pass (insert name longer log.disk) log) activation longer bytes
          (next reach (writes p c activation done b bytes at)) (ap (insert name longer) same)
          (update_self w.saver p c (writing activation longer bytes))

    clean_up-Ran :
        (allowed : Bool) (io : Io)
        → Ran io
        → (v : Scene) × Reach to_vec path Given start v
          × (v.disk ≡ (clean_up allowed name io).1.disk)
          × (v.saver p c ≡ ended)
    clean_up-Ran allowed (ok _, log) ran = ran
    clean_up-Ran allowed (err e, log) (v, reach, same, at) = (
      act v p c ended (remove_file allowed name (log_of v.disk)).1.disk,
      next reach (removes p c allowed at),
      rw same (remove_disk allowed name log),
      update_self v.saver p c ended,
    )

    abbrev Ends : Io → Type 0
    Ends io =
        (v : Scene) × Reach to_vec path Given start v × (v.disk ≡ io.1.disk) × (v.saver p c ≡ ended)

    module _ (fresh : start.saver p c ≡ waiting) where
      written-Ran :
          (calls : Calls) (activation : String × CertChain) (bytes : Bytes)
          → Given activation
          → to_vec (record_of calls.now activation.0 activation.1) ≡ ok bytes
          → Ran (written calls name (text_of path) bytes (log_of start.disk))
      unfolding written create_new
      written-Ran calls activation bytes given encoded =
          let step : Step to_vec path Given start (
              opening to_vec path Given start p c activation bytes
                (create_new calls.creates name (log_of start.disk))) =
            opens p c calls.creates calls.now activation bytes fresh given encoded in
          elim (Option-cases (lookup name start.disk)) [
            | inr (b, there) ↦ rw there (
              act start p c failing start.disk,
              next here (rw there at step),
              refl,
              update_self start.saver p c failing,
            )
            | inl free ↦ rw free (elim (Bool-cases calls.creates) [
              | inr may_not ↦ rw may_not (
                act start p c failing start.disk,
                next here (rw (free, may_not) at step),
                refl,
                update_self start.saver p c failing,
              )
              | inl may ↦ rw may (
                  write_all-Ran calls.room calls.renames
                    (act start p c (writing activation [] bytes) (insert name [] start.disk))
                    (pass (insert name [] start.disk) (log_of start.disk)) activation [] bytes
                    (next here (rw (free, may) at step)) refl
                    (update_self start.saver p c (writing activation [] bytes)))
            ])
          ]

      unbegun : (e : IoError) → Ends (err e, log_of start.disk)
      unbegun e = (
        act start p c ended start.disk,
        next here (dies p c),
        refl,
        update_self start.saver p c ended,
      )

      dir_Ends :
          (makes_dir : Bool) (io : Io)
          → Ends io
          → Ends (if makes_dir then io else (err other, log_of start.disk))
      dir_Ends true io ends = ends
      dir_Ends false io ends = unbegun other

  module _ (from_slice : Bytes → Result CachedActivation String) where
    save_bytes-Ends :
        (calls : Calls) (start : Scene) (activation : String × CertChain)
        (encoded : Result Bytes String)
        → start.saver calls.process calls.counter ≡ waiting
        → Given activation
        → to_vec (record_of calls.now activation.0 activation.1) ≡ encoded
        → Ends calls.process calls.counter start
            (save_bytes to_vec from_slice calls path encoded (log_of start.disk))
    save_bytes-Ends calls start activation (err e) fresh given encoded =
        unbegun calls.process calls.counter start fresh (invalid_data e)
    save_bytes-Ends calls start activation (ok bytes) fresh given encoded =
        clean_up-Ran calls.process calls.counter start calls.removes _
          (written-Ran calls.process calls.counter start fresh calls activation bytes given encoded)

    -- A call of `save` that has not begun, with an activation that may be saved, can take its steps one
    -- after the other to its end, and it then leaves the disk that `save` gives, whatever the system
    -- allows. A call of `clear` is one step to the disk that `clear` gives.
    pub save-Reach :
        (calls : Calls) (start : Scene) (token : String) (chain : CertChain) (allowed : Bool)
        → start.saver calls.process calls.counter ≡ waiting
        → Given (token, chain)
        → ((v : Scene) × Reach to_vec path Given start v
            × (v.disk ≡ (save to_vec from_slice calls path token chain (log_of start.disk)).1.disk)
            × (v.saver calls.process calls.counter ≡ ended))
          × ((v : Scene) × Step to_vec path Given start v
              × (v.disk ≡ (clear allowed path (log_of start.disk)).1.disk))
    unfolding save
    save-Reach calls start token chain allowed fresh given = (
      dir_Ends calls.process calls.counter start fresh calls.makes_dir _
          (save_bytes-Ends calls start (token, chain) _ fresh given refl),
      (_, clears allowed, refl),
    )
