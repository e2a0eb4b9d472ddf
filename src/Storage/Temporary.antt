-- ===== src/Storage/Temporary.antt =====
-- What a save does to the file system, but for its temporary file.
use mathlib.Core.List.{append-nil, append_assoc}
use latte_rs.Base.{
  ℕ, zero, suc, String, ◌≡◌, ◌≢◌, sym, ap, ◌∙◌, ◌⊎◌, inl, inr, Bool, true, false, none, some, List,
  [], ◌∷◌, ◌++◌, All, arith, ok, err, Bool-cases, Option-cases, eq_iff,
}
use latte_rs.Crates.{Bytes}
use latte_rs.HashMap.{lookup, insert, remove, lookup-insert, lookup-remove}
use latte_rs.Storage.{
  IoError, Disk, Log, pass, Io, and_then_io, create_new, write_all, rename, remove_file, Calls,
  written, clean_up,
}

module _ (tmp path : String) (distinct : tmp ≢ path) (base : Disk) where
  -- The file system before the rename, and after it, but for the temporary file.
  abbrev pub Old : Disk → Type 0
  Old d = (asked : String) → asked ≢ tmp → lookup asked d ≡ lookup asked base

  module _ (bytes : Bytes) where
    abbrev pub New : Disk → Type 0
    New d =
        (lookup path d ≡ some bytes)
        × ((asked : String) → asked ≢ tmp → asked ≢ path → lookup asked d ≡ lookup asked base)

  abbrev pub Kept : Log → Type 0
  Kept log = Old log.disk × All Old log.seen

  insert-Old : (b : Bytes) (d : Disk) → Old d → Old (insert tmp b d)
  insert-Old b d old asked ne =
      lookup-insert tmp asked b d ∙ ground (arith, old asked ne, eq_iff tmp asked)

  remove-Old : (d : Disk) → Old d → Old (remove tmp d)
  remove-Old d old asked ne =
      lookup-remove tmp asked d ∙ ground (arith, old asked ne, eq_iff tmp asked)

  inserted : (b : Bytes) (d : Disk) → lookup tmp (insert tmp b d) ≡ some b
  inserted b d = lookup-insert tmp tmp b d ∙ ground (arith, eq_iff tmp tmp)

  -- The temporary file holds these bytes, unless something failed.
  Filled : Bytes → Io → Type 0
  Filled b (ok _, log) = Kept log × (lookup tmp log.disk ≡ some b)
  Filled b (err e, log) = Kept log

  create_new-Filled :
      (allowed : Bool) (log : Log) → Kept log → Filled [] (create_new allowed tmp log)
  unfolding create_new Filled
  create_new-Filled allowed log kept = elim (Option-cases (lookup tmp log.disk)) [
    | inr (b, there) ↦ rw there kept
    | inl free ↦ rw free (elim (Bool-cases allowed) [
      | inl opens ↦ rw opens (
        (insert-Old [] log.disk kept.0, (insert-Old [] log.disk kept.0, kept.1)),
        inserted [] log.disk,
      )
      | inr shut ↦ rw shut kept
    ])
  ]

  write_all-Filled :
      (room : ℕ) (done bytes : Bytes) (log : Log)
      → Kept log
      → lookup tmp log.disk ≡ some done
      → Filled (done ++ bytes) (write_all room tmp done bytes log)
  unfolding write_all Filled
  write_all-Filled room done [] log kept there = (kept, there ∙ ap some (sym (append-nil done)))
  write_all-Filled zero done (b ∷ bytes) log kept there = kept
  write_all-Filled (suc room) done (b ∷ bytes) log kept there =
      rw (sym (append_assoc done (b ∷ []) bytes)) (
        write_all-Filled room (done ++ (b ∷ [])) bytes
          (pass (insert tmp (done ++ (b ∷ [])) log.disk) log)
          (insert-Old _ log.disk kept.0, (insert-Old _ log.disk kept.0, kept.1))
          (inserted _ log.disk))

  then-Filled :
      (Q : Io → Type 0)
      → ((e : IoError) (log : Log) → Kept log → Q (err e, log))
      → (b : Bytes) (io : Io) (next : Log → Io) → Filled b io
      → ((log : Log) → Kept log → lookup tmp log.disk ≡ some b → Q (next log))
      → Q (and_then_io io next)
  unfolding Filled
  then-Filled Q failed b (ok _, log) next h k = k log h.0 h.1
  then-Filled Q failed b (err e, log) next h k = failed e log h

  module _ (bytes : Bytes) where
    abbrev pub Step : Disk → Type 0
    Step d = Old d ⊎ New bytes d

    unfoldable pub Finished : Io → Type 0
    Finished (ok _, log) = New bytes log.disk × (lookup tmp log.disk ≡ none) × All Step log.seen
    Finished (err e, log) = Kept log

    Old-Step : (ds : List Disk) → All Old ds → All Step ds
    Old-Step [] h = tt
    Old-Step (d ∷ ds) (h, hs) = (inl h, Old-Step ds hs)

    moved-New : (d : Disk) → Old d → New bytes (insert path bytes (remove tmp d))
    moved-New d old = (
      lookup-insert path path bytes _ ∙ ground (arith, eq_iff path path),
      λ asked ne elsewhere.
          lookup-insert path asked bytes _
          ∙ ground (arith, remove-Old d old asked ne, eq_iff path asked),
    )

    moved_away : (d : Disk) → lookup tmp (insert path bytes (remove tmp d)) ≡ none
    moved_away d =
        lookup-insert path tmp bytes _
        ∙ ground (arith, eq_iff path tmp, distinct, lookup-remove tmp tmp d, eq_iff tmp tmp)

    rename-Finished :
        (allowed : Bool) (log : Log)
        → Kept log
        → lookup tmp log.disk ≡ some bytes
        → Finished (rename allowed tmp path log)
    unfolding rename Finished
    rename-Finished true log kept there = rw there (
      moved-New log.disk kept.0,
      moved_away log.disk,
      (inr (moved-New log.disk kept.0), Old-Step log.seen kept.1),
    )
    rename-Finished false log kept there = rw there kept

    pub written-Finished :
        (calls : Calls) (log : Log) → Kept log → Finished (written calls tmp path bytes log)
    unfolding written Finished
    written-Finished calls log kept =
        then-Filled Finished (λ e l k. k) [] _ _ (create_new-Filled calls.creates log kept)
          (λ created k there.
            then-Filled Finished (λ e l k'. k') bytes _ _
              (write_all-Filled calls.room [] bytes created k there)
              (λ full k' there'. rename-Finished calls.renames full k' there'))

    removed-Old : (removes : Bool) (log : Log) → Kept log → Kept (remove_file removes tmp log).1
    unfolding remove_file
    removed-Old removes log kept = elim (Option-cases (lookup tmp log.disk)) [
      | inl gone ↦ rw gone kept
      | inr (b, there) ↦ rw there (elim (Bool-cases removes) [
        | inl may ↦ rw may (remove-Old log.disk kept.0, (remove-Old log.disk kept.0, kept.1))
        | inr may_not ↦ rw may_not kept
      ])
    ]

    pub clean_up-Finished :
        (removes : Bool) (io : Io) → Finished io → Finished (clean_up removes tmp io)
    unfolding Finished
    clean_up-Finished removes (ok _, log) h = h
    clean_up-Finished removes (err e, log) h = removed-Old removes log h
