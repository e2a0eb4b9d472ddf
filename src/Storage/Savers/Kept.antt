-- ===== src/Storage/Savers/Kept.antt =====
-- What a step of one of the overlapping calls keeps.
use mathlib.Core.List.{append_assoc, append-nil}
use latte_rs.Base.{
  ℕ, String, ◌≡◌, ◌≢◌, refl, sym, ◌∙◌, inl, inr, Bool, Option, none, some, [], ◌∷◌, ◌++◌, Result,
  ok, err, Bool-cases, Option-cases, arith, ◌==◌, ◌&&◌,
}
use latte_rs.Time.{SystemTime}
use latte_rs.Crates.{Bytes}
use latte_rs.Domain.{CertChain}
use latte_rs.HashMap.{
  lookup, insert, remove, lookup-insert_self, lookup-insert_ne, lookup-remove_self,
  lookup-remove_ne,
}
use latte_rs.Storage.{
  CachedActivation, FilePath, text_of, Disk, Io, missing_is_fine, not_found, already_exists, other,
  invalid_data, record_of, create_new, rename, remove_file, clear,
}
use latte_rs.Storage.Names.{tmp_path_ne, tmp_path-injective}
use latte_rs.Storage.Savers.{
  Saver, waiting, writing, failing, ended, Scene, act, log_of, tmp, opening, renaming, Step, opens,
  writes, stops, renames, removes, dies, clears,
}

module _ (to_vec : CachedActivation → Result Bytes String) (path : FilePath)
    (Given : String × CertChain → Type 0) where
  -- The bytes that a call writes for an activation.
  abbrev pub Encoded : String × CertChain → Bytes → Type 0
  Encoded activation bytes =
      Given activation
      × ((now : SystemTime) × (to_vec (record_of now activation.0 activation.1) ≡ ok bytes))

  -- What the temporary file of a call holds.
  abbrev pub Holds : Saver → Option Bytes → Type 0
  Holds waiting file = Unit
  Holds (writing activation done left) file = (file ≡ some done) × Encoded activation (done ++ left)
  Holds failing file = Unit
  Holds ended file = Unit

  abbrev pub cache : String
  cache = text_of path

  abbrev temporary : ℕ → ℕ → String
  temporary = tmp to_vec path Given

  module _ (base : Disk) where
    -- The cache file is the first one, or is gone, or is a whole new one.
    pub data Cached (file : Option Bytes) : Type 0 where
      old : file ≡ lookup cache base → Cached file
      gone : file ≡ none → Cached file
      new :
          (activation : String × CertChain) (bytes : Bytes)
          → file ≡ some bytes
          → Encoded activation bytes
          → Cached file

    -- The files that are neither the cache file nor a temporary file of it.
    abbrev pub IsKept : Disk → Type 0
    IsKept d =
        (asked : String)
        → asked ≢ cache
        → ((p c : ℕ) → asked ≢ temporary p c)
        → lookup asked d ≡ lookup asked base

    pub record Held (w : Scene) : Type 0 where
      pub temps : (p c : ℕ) → Holds (w.saver p c) (lookup (temporary p c) w.disk)
      pub cached : Cached (lookup cache w.disk)
      pub others : IsKept w.disk

    same_Cached :
        (d e : Disk)
        → lookup cache e ≡ lookup cache d
        → Cached (lookup cache d)
        → Cached (lookup cache e)
    same_Cached d e same h = rw same h

    -- A step of one call touches no temporary file of another.
    act-Held :
        (w : Scene) (p c : ℕ) (x : Saver) (d : Disk)
        → Held w
        → Holds x (lookup (temporary p c) d)
        → ((asked : String)
            → asked ≢ temporary p c
            → asked ≢ cache
            → lookup asked d ≡ lookup asked w.disk)
        → Cached (lookup cache d)
        → Held (act w p c x d)
    act-Held w p c x d held holds frame cached = record {
      temps = λ q e. elim (Bool-cases ((q == p) && (e == c))) [
        | inl mine ↦
            let q≡p : q ≡ p = ground (arith, mine) in
            let e≡c : e ≡ c = ground (arith, mine) in rw (mine, q≡p, e≡c) holds
        | inr theirs ↦
            let apart : temporary q e ≢ temporary p c = λ same.
              let (q≡p, e≡c) = tmp_path-injective path q e p c same in
              absurd (ground (arith, theirs, q≡p, e≡c)) in
            rw (theirs, frame (temporary q e) apart (tmp_path_ne path q e)) (held.temps q e)
      ];
      cached = cached;
      others = λ asked elsewhere foreign.
          frame asked (foreign p c) elsewhere ∙ held.others asked elsewhere foreign;
    }

    -- Nothing but the cache and the call's temporary file changes in a step of a call.
    inserted_frame :
        (name : String) (bytes : Bytes) (d : Disk) (asked : String)
        → asked ≢ name
        → asked ≢ cache
        → lookup asked (insert name bytes d) ≡ lookup asked d
    inserted_frame name bytes d asked ne elsewhere = lookup-insert_ne name asked bytes d ne

    apart : (p c : ℕ) → cache ≢ temporary p c
    apart p c e = tmp_path_ne path p c (sym e)

    opening-Held :
        (w : Scene) (p c : ℕ) (allowed : Bool) (activation : String × CertChain) (bytes : Bytes)
        → Held w
        → Encoded activation bytes
        → Held (
            opening to_vec path Given w p c activation bytes
              (create_new allowed (temporary p c) (log_of w.disk)))
    unfolding create_new
    opening-Held w p c allowed activation bytes held encoded =
        elim (Option-cases (lookup (temporary p c) w.disk)) [
          | inr (b, there) ↦
              rw there (act-Held w p c failing w.disk held tt (λ asked n e. refl) held.cached)
          | inl free ↦ rw free (elim (Bool-cases allowed) [
            | inl may ↦ rw may (
                act-Held w p c (writing activation [] bytes) (insert (temporary p c) [] w.disk) held
                  (lookup-insert_self (temporary p c) [] w.disk, encoded)
                  (inserted_frame (temporary p c) [] w.disk)
                  (same_Cached w.disk _
                    (lookup-insert_ne (temporary p c) cache [] w.disk (apart p c)) held.cached))
            | inr may_not ↦
                rw may_not (act-Held w p c failing w.disk held tt (λ asked n e. refl) held.cached)
          ])
        ]

    writing-Held :
        (w : Scene) (p c : ℕ) (activation : String × CertChain) (done : Bytes) (b : ℕ)
        (left : Bytes)
        → Held w
        → w.saver p c ≡ writing activation done (b ∷ left)
        → Held (
            act w p c
              (writing activation (done ++ (b ∷ [])) left)
              (insert (temporary p c) (done ++ (b ∷ [])) w.disk))
    writing-Held w p c activation done b left held at =
        let (_, encoded) : Holds (writing activation done (b ∷ left))
            (lookup (temporary p c) w.disk) =
          rw at at (held.temps p c) in
        act-Held w p c (writing activation (done ++ (b ∷ [])) left) _ held
          (
            lookup-insert_self (temporary p c) _ w.disk,
            rw (append_assoc done (b ∷ []) left) encoded,
          )
          (inserted_frame (temporary p c) _ w.disk)
          (same_Cached w.disk _ (lookup-insert_ne (temporary p c) cache _ w.disk (apart p c))
            held.cached)

    renaming-Held :
        (w : Scene) (p c : ℕ) (allowed : Bool) (activation : String × CertChain) (done : Bytes)
        → Held w
        → w.saver p c ≡ writing activation done []
        → Held (
            renaming to_vec path Given w p c (rename allowed (temporary p c) cache (log_of w.disk)))
    unfolding rename
    renaming-Held w p c allowed activation done held at =
        let (there, encoded) : Holds (writing activation done []) (lookup (temporary p c) w.disk) =
          rw at at (held.temps p c) in
        rw there (elim (Bool-cases allowed) [
          | inl may ↦ rw may (
              act-Held w p c ended (insert cache done (remove (temporary p c) w.disk)) held tt
                (λ asked n elsewhere.
                  lookup-insert_ne cache asked done _ elsewhere
                  ∙ lookup-remove_ne (temporary p c) asked w.disk n)
                (new activation done (lookup-insert_self cache done _)
                  (rw (append-nil done) at encoded)))
          | inr may_not ↦
              rw may_not (act-Held w p c failing w.disk held tt (λ asked n e. refl) held.cached)
        ])

    pub removed_frame :
        (allowed : Bool) (name asked : String) (d : Disk)
        → asked ≢ name
        → lookup asked (remove_file allowed name (log_of d)).1.disk ≡ lookup asked d
    unfolding remove_file
    removed_frame allowed name asked d ne = elim (Option-cases (lookup name d)) [
      | inl missing ↦ rw missing refl
      | inr (b, there) ↦ rw there (elim (Bool-cases allowed) [
        | inl may ↦ rw may (lookup-remove_ne name asked d ne)
        | inr may_not ↦ rw may_not refl
      ])
    ]

    fine_disk : (io : Io) → (missing_is_fine io).1.disk ≡ io.1.disk
    fine_disk (ok _, log) = refl
    fine_disk (err not_found, log) = refl
    fine_disk (err already_exists, log) = refl
    fine_disk (err other, log) = refl
    fine_disk (err (invalid_data e), log) = refl

    pub cleared_disk :
        (allowed : Bool) (d : Disk)
        → (clear allowed path (log_of d)).1.disk ≡ (remove_file allowed cache (log_of d)).1.disk
    unfolding clear
    cleared_disk allowed d = fine_disk (remove_file allowed cache (log_of d))

    cleared-Cached :
        (allowed : Bool) (d : Disk)
        → Cached (lookup cache d)
        → Cached (lookup cache (remove_file allowed cache (log_of d)).1.disk)
    unfolding remove_file
    cleared-Cached allowed d cached = elim (Option-cases (lookup cache d)) [
      | inl missing ↦ rw missing cached
      | inr (b, there) ↦ rw there (elim (Bool-cases allowed) [
        | inl may ↦ rw may (gone (lookup-remove_self cache d))
        | inr may_not ↦ rw may_not cached
      ])
    ]

    pub Step-Held : (w v : Scene) → Held w → Step to_vec path Given w v → Held v
    Step-Held w v held (opens p c allowed now activation bytes fresh given written) =
        opening-Held w p c allowed activation bytes held (given, (now, written))
    Step-Held w v held (writes p c activation done b left at) =
        writing-Held w p c activation done b left held at
    Step-Held w v held (stops p c activation done b left at) =
        act-Held w p c failing w.disk held tt (λ asked n e. refl) held.cached
    Step-Held w v held (renames p c allowed activation done at) =
        renaming-Held w p c allowed activation done held at
    Step-Held w v held (removes p c allowed at) =
        act-Held w p c ended _ held tt
          (λ asked n e. removed_frame allowed (temporary p c) asked w.disk n)
          (same_Cached w.disk _ (removed_frame allowed (temporary p c) cache w.disk (apart p c))
            held.cached)
    Step-Held w v held (dies p c) =
        act-Held w p c ended w.disk held tt (λ asked n e. refl) held.cached
    Step-Held w v held (clears allowed) = rw (cleared_disk allowed w.disk) (record {
      temps = λ p c.
          rw (removed_frame allowed cache (temporary p c) w.disk (tmp_path_ne path p c))
            (held.temps p c);
      cached = cleared-Cached allowed w.disk held.cached;
      others = λ asked elsewhere foreign.
          removed_frame allowed cache asked w.disk elsewhere ∙ held.others asked elsewhere foreign;
    })
