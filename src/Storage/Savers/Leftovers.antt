-- ===== src/Storage/Savers/Leftovers.antt =====
-- The temporary files that overlapping calls of `save` and `clear` leave behind.
use latte_rs.Base.{
  ℕ, String, ◌≡◌, ◌≢◌, refl, sym, ◌∙◌, ◌⊎◌, inl, inr, Bool, true, false, Option, none, some, [],
  Result, ok, err, Bool-cases, Option-cases, arith, ◌==◌, ◌&&◌,
}
use latte_rs.Crates.{Bytes}
use latte_rs.Domain.{CertChain}
use latte_rs.HashMap.{lookup, lookup-insert_ne, lookup-remove_self, lookup-remove_ne}
use latte_rs.Storage.{
  CachedActivation, FilePath, text_of, Disk, Io, create_new, rename, remove_file,
}
use latte_rs.Storage.Names.{tmp_path_ne, tmp_path-injective}
use latte_rs.Storage.Savers.{
  Saver, waiting, writing, failing, ended, Scene, act, log_of, tmp, opened_as, renamed_as, Step,
  opens, writes, stops, renames, removes, dies, clears, Reach, here, next, scene_of,
}
use latte_rs.Storage.Savers.Kept.{removed_frame, cleared_disk}

-- A call that has opened its file and has not ended.
abbrev pub IsUnderWay : Saver → Type 0
IsUnderWay waiting = ⊥
IsUnderWay (writing activation done left) = Unit
IsUnderWay failing = Unit
IsUnderWay ended = ⊥

-- A file is there only while its call is under way.
abbrev IsTidy : Saver → Option Bytes → Type 0
IsTidy saver file = (file ≡ none) ⊎ IsUnderWay saver

opened_as-IsUnderWay :
    (activation : String × CertChain) (bytes : Bytes) (io : Io)
    → IsUnderWay (opened_as activation bytes io)
opened_as-IsUnderWay activation bytes (ok _, log) = tt
opened_as-IsUnderWay activation bytes (err e, log) = tt

module _ (to_vec : CachedActivation → Result Bytes String) (path : FilePath)
    (Given : String × CertChain → Type 0) where
  -- The death of the process in a call, and the refusal to remove its file.
  abbrev pub Strands : {w v : Scene} → Step to_vec path Given w v → (process counter : ℕ) → Type 0
  Strands (opens p c allowed now activation bytes fresh given encoded) q d = ⊥
  Strands (writes p c activation done b left at) q d = ⊥
  Strands (stops p c activation done b left at) q d = ⊥
  Strands (renames p c allowed activation done at) q d = ⊥
  Strands (removes p c allowed at) q d = (allowed ≡ false) × (p ≡ q) × (c ≡ d)
  Strands (dies p c) q d = (p ≡ q) × (c ≡ d)
  Strands (clears allowed) q d = ⊥

  -- Whether a step of the run did so.
  abbrev pub IsStranded :
      {w v : Scene} → Reach to_vec path Given w v → (process counter : ℕ) → Type 0
  IsStranded here q d = ⊥
  IsStranded (next run step) q d = IsStranded run q d ⊎ Strands step q d

  abbrev temporary : ℕ → ℕ → String
  temporary = tmp to_vec path Given

  abbrev IsTidyAt : Scene → ℕ → ℕ → Type 0
  IsTidyAt v q d = IsTidy (v.saver q d) (lookup (temporary q d) v.disk)

  module _ (w : Scene) where
    -- A step of one call leaves the others tidy.
    act-IsTidy :
        (p c : ℕ) (x : Saver) (disk : Disk) (q d : ℕ) {S : Type 0}
        → (p ≡ q → c ≡ d → IsTidy x (lookup (temporary p c) disk) ⊎ S)
        → ((asked : String)
            → asked ≢ temporary p c
            → asked ≢ text_of path
            → lookup asked disk ≡ lookup asked w.disk)
        → IsTidyAt w q d
        → IsTidyAt (act w p c x disk) q d ⊎ S
    act-IsTidy p c x disk q d mine frame tidy = elim (Bool-cases ((q == p) && (d == c))) [
      | inl same ↦
          let q≡p : q ≡ p = ground (arith, same) in
          let d≡c : d ≡ c = ground (arith, same) in rw (same, q≡p, d≡c) (mine (sym q≡p) (sym d≡c))
      | inr theirs ↦
          let apart : temporary q d ≢ temporary p c = λ e.
            let (q≡p, d≡c) = tmp_path-injective path q d p c e in
            absurd (ground (arith, theirs, q≡p, d≡c)) in
          rw (theirs, frame (temporary q d) apart (tmp_path_ne path q d)) (inl tidy)
    ]

    create_new-frame :
        (allowed : Bool) (name asked : String)
        → asked ≢ name
        → lookup asked (create_new allowed name (log_of w.disk)).1.disk ≡ lookup asked w.disk
    unfolding create_new
    create_new-frame allowed name asked ne = elim (Option-cases (lookup name w.disk)) [
      | inr (b, there) ↦ rw there refl
      | inl free ↦ rw free (elim (Bool-cases allowed) [
        | inl may ↦ rw may (lookup-insert_ne name asked [] w.disk ne)
        | inr may_not ↦ rw may_not refl
      ])
    ]

    rename-frame :
        (allowed : Bool) (from to asked : String)
        → asked ≢ from
        → asked ≢ to
        → lookup asked (rename allowed from to (log_of w.disk)).1.disk ≡ lookup asked w.disk
    unfolding rename
    rename-frame allowed from to asked ne elsewhere = elim (Option-cases (lookup from w.disk)) [
      | inl missing ↦ rw missing refl
      | inr (b, there) ↦ rw there (elim (Bool-cases allowed) [
        | inl may ↦
            rw may (lookup-insert_ne to asked b _ elsewhere ∙ lookup-remove_ne from asked w.disk ne)
        | inr may_not ↦ rw may_not refl
      ])
    ]

    -- A renaming takes the file away, or fails.
    rename-IsTidy :
        (allowed : Bool) (from to : String)
        → from ≢ to
        → IsTidy
            (renamed_as (rename allowed from to (log_of w.disk)))
            (lookup from (rename allowed from to (log_of w.disk)).1.disk)
    unfolding rename
    rename-IsTidy allowed from to ne = elim (Option-cases (lookup from w.disk)) [
      | inl missing ↦ rw missing (inr tt)
      | inr (b, there) ↦ rw there (elim (Bool-cases allowed) [
        | inl may ↦ rw may (inl (lookup-insert_ne to from b _ ne ∙ lookup-remove_self from w.disk))
        | inr may_not ↦ rw may_not (inr tt)
      ])
    ]

    remove_file-gone :
        (name : String) → lookup name (remove_file true name (log_of w.disk)).1.disk ≡ none
    unfolding remove_file
    remove_file-gone name = elim (Option-cases (lookup name w.disk)) [
      | inl missing ↦ rw missing missing
      | inr (b, there) ↦ rw there (lookup-remove_self name w.disk)
    ]

    Step-IsTidy :
        (v : Scene) (step : Step to_vec path Given w v) (q d : ℕ)
        → IsTidyAt w q d
        → IsTidyAt v q d ⊎ Strands step q d
    Step-IsTidy v (opens p c allowed now activation bytes fresh given encoded) q d tidy =
        act-IsTidy p c _ _ q d
          (λ _ _. inl (
            inr (
              opened_as-IsUnderWay activation bytes
                (create_new allowed (temporary p c) (log_of w.disk)))))
          (λ asked ne elsewhere. create_new-frame allowed (temporary p c) asked ne) tidy
    Step-IsTidy v (writes p c activation done b left at) q d tidy =
        act-IsTidy p c _ _ q d (λ _ _. inl (inr tt))
          (λ asked ne elsewhere. lookup-insert_ne (temporary p c) asked _ w.disk ne) tidy
    Step-IsTidy v (stops p c activation done b left at) q d tidy =
        act-IsTidy p c failing w.disk q d (λ _ _. inl (inr tt)) (λ asked ne elsewhere. refl) tidy
    Step-IsTidy v (renames p c allowed activation done at) q d tidy =
        act-IsTidy p c _ _ q d
          (λ _ _. inl (rename-IsTidy allowed (temporary p c) (text_of path) (tmp_path_ne path p c)))
          (rename-frame allowed (temporary p c) (text_of path)) tidy
    Step-IsTidy v (removes p c false at) q d tidy =
        act-IsTidy p c ended _ q d (λ p≡q c≡d. inr (refl, p≡q, c≡d))
          (λ asked ne elsewhere.
            removed_frame to_vec path Given w.disk false (temporary p c) asked w.disk ne)
          tidy
    Step-IsTidy v (removes p c true at) q d tidy =
        act-IsTidy p c ended _ q d (λ _ _. inl (inl (remove_file-gone (temporary p c))))
          (λ asked ne elsewhere.
            removed_frame to_vec path Given w.disk true (temporary p c) asked w.disk ne)
          tidy
    Step-IsTidy v (dies p c) q d tidy =
        act-IsTidy p c ended w.disk q d (λ p≡q c≡d. inr (p≡q, c≡d)) (λ asked ne elsewhere. refl)
          tidy
    Step-IsTidy v (clears allowed) q d tidy =
        rw
          (
            cleared_disk to_vec path Given w.disk allowed w.disk,
            removed_frame to_vec path Given w.disk allowed (text_of path) (temporary q d) w.disk
                (tmp_path_ne path q d),
          )
          (inl tidy)

  -- While any number of calls of `save` and `clear` are under way on one path, with their system
  -- calls in any order, a temporary file that is there, and was not there before the first of them,
  -- is that of a call that has opened it and has not ended, or whose process died in it, or whose
  -- removal of it was refused.
  pub leftover-Reach :
      (base : Disk) (w : Scene) (run : Reach to_vec path Given (scene_of base) w) (q d : ℕ)
      (held : Bytes)
      → lookup (temporary q d) base ≡ none
      → lookup (temporary q d) w.disk ≡ some held
      → IsUnderWay (w.saver q d) ⊎ IsStranded run q d
  leftover-Reach base w run q d held fresh there = elim (tidy w run) [
    | inl (inl missing) ↦ cc
    | inl (inr busy) ↦ inl busy
    | inr stranded ↦ inr stranded
  ]
    where
      tidy :
          (w : Scene) (run : Reach to_vec path Given (scene_of base) w)
          → IsTidyAt w q d ⊎ IsStranded run q d
      tidy w here = inl (inl fresh)
      tidy w (next {u = u} run step) = elim (tidy u run) [
        | inr stranded ↦ inr (inl stranded)
        | inl ok_before ↦ elim (Step-IsTidy u w step q d ok_before) [
          | inl still ↦ inl still
          | inr now_stranded ↦ inr (inr now_stranded)
        ]
      ]
