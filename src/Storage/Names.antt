-- ===== src/Storage/Names.antt =====
-- The temporary file is another file than the one that it is renamed to.
use Prim.Native.Char.{Char, code}
use Prim.Native.String.{String}
use native.Mathlib.Decide.{ℕ_discrete}
use text.Mathlib.TextEquality.{Char-path}
use text.Mathlib.TextLemmas.{
  nil-append, cons-append, append-nil, append_cancel_left, append_cancel_right, cons≢nil,
  tail-eq_of_cons-eq,
}
use latte_rs.Base.{
  ℕ, ◌≡◌, ◌≢◌, refl, sym, ap, ◌∙◌, Bool-cases, Option-cases, inl, inr, none, some, ◌<>◌, is_empty,
  show_ℕ, arith,
}
use latte_rs.Base.Text.Split.{Lacks, split-append}
use latte_rs.Base.Text.Decimal.{show_ℕ-injective, show_ℕ-Lacks}
use latte_rs.Base.{split, ◌∷◌}
use latte_rs.Storage.{FilePath, text_of, before_dot, file_stem, tmp_path}

Lacks-left : (sep : Char) (s t : String) → Lacks sep (s <> t) → Lacks sep s
Lacks-left sep String.[] t h = tt
Lacks-left sep (String.◌∷◌ c s) t h =
    let (ne, rest) = rw cons-append at h in (ne, Lacks-left sep s t rest)

-- What the last dot leaves behind it.
After : String → String → Type 0
After s before = (after : String) × (s ≡ before <> (String.◌∷◌ "." after)) × Lacks "." after

before_dot-none : (s : String) → before_dot s ≡ none → Lacks "." s
unfolding before_dot
before_dot-none String.[] h = tt
before_dot-none (String.◌∷◌ c s) h = elim (Option-cases (before_dot s)) [
  | inl e ↦ (ground (arith, rw e at h), before_dot-none s e)
  | inr (t, e) ↦ absurd (cc (rw e at h))
]

before_dot-some : (s before : String) → before_dot s ≡ some before → After s before
unfolding before_dot After
before_dot-some String.[] before h = cc
before_dot-some (String.◌∷◌ c s) before h = elim (Option-cases (before_dot s)) [
  | inr (t, e) ↦
      let (after, split, clean) = before_dot-some s t e in
      let longer : String.◌∷◌ c t ≡ before = cc (rw e at h) in
      (
        after,
        ap (String.◌∷◌ c) split
            ∙ sym (cons-append c t _)
            ∙ ap (λ b. b <> (String.◌∷◌ "." after)) longer,
        clean,
      )
  | inl e ↦ elim (ℕ_discrete (code c) (code ".")) [
    | no other ↦ absurd (ground (arith, rw e at h))
    | yes dot ↦
        let empty : "" ≡ before = ground (arith, rw e at h) in
        (
          s,
          ap (λ d. String.◌∷◌ d s) (Char-path c "." dot)
              ∙ sym (nil-append _)
              ∙ ap (λ b. b <> (String.◌∷◌ "." s)) empty,
          before_dot-none s e,
        )
  ]
]

no_fixpoint : (s : String) (c : Char) (t : String) → s <> (String.◌∷◌ c t) ≢ s
no_fixpoint s c t e = cons≢nil (append_cancel_left s (String.◌∷◌ c t) "" (e ∙ sym (append-nil s)))

pub with_extension_ne :
    (name extension : String)
    → (Lacks "." extension → ⊥)
    → file_stem name <> (String.◌∷◌ "." extension) ≢ name
unfolding file_stem After
with_extension_ne name extension dotted e = elim (Option-cases (before_dot name)) [
  | inl whole ↦ no_fixpoint name "." extension (rw whole at e)
  | inr (before, split) ↦ elim (Bool-cases (is_empty before)) [
    | inl hidden ↦ no_fixpoint name "." extension (rw (split, hidden) at e)
    | inr stem ↦
        let (after, whole, clean) = before_dot-some name before split in
        let same : before <> (String.◌∷◌ "." extension) ≡ before <> (String.◌∷◌ "." after) =
          (rw (split, stem) at e) ∙ whole in
        dotted (rw (tail-eq_of_cons-eq (append_cancel_left before _ _ same)) clean)
  ]
]

pub tmp_path_ne :
    (path : FilePath) (process counter : ℕ) → text_of (tmp_path path process counter) ≢ text_of path
tmp_path_ne path process counter e =
    with_extension_ne path.name ("json." <> (show_ℕ process <> ("." <> (show_ℕ counter <> ".tmp"))))
      (λ h. (Lacks-left "." "json." _ h).1.1.1.1.0 refl)
      (tail-eq_of_cons-eq (append_cancel_left path.dir _ _ e))

dot-append : (s : String) → "." <> s ≡ String.◌∷◌ "." s
dot-append s = cons-append "." "" s ∙ ap (String.◌∷◌ ".") (nil-append s)

-- What stands before the first dot.
before_first :
    (p q s t : String) → Lacks "." p → Lacks "." q → p <> ("." <> s) ≡ q <> ("." <> t) → p ≡ q
before_first p q s t h k e =
    let same : p <> (String.◌∷◌ "." s) ≡ q <> (String.◌∷◌ "." t) =
      rw (dot-append s, dot-append t) at e in
    let parts : p ∷ split "." s ≡ q ∷ split "." t =
      sym (split-append "." p s h) ∙ ap (split ".") same ∙ split-append "." q t k in
    cc parts

-- Calls with different numbers write to different temporary files.
pub tmp_path-injective :
    (path : FilePath) (process counter process' counter' : ℕ)
    → text_of (tmp_path path process counter) ≡ text_of (tmp_path path process' counter')
    → (process ≡ process') × (counter ≡ counter')
tmp_path-injective path p c p' c' e =
    let tails : show_ℕ p <> ("." <> (show_ℕ c <> ".tmp"))
        ≡ show_ℕ p' <> ("." <> (show_ℕ c' <> ".tmp")) =
      append_cancel_left "json." _ _ (
        tail-eq_of_cons-eq (
          append_cancel_left (file_stem path.name) _ _
            (tail-eq_of_cons-eq (append_cancel_left path.dir _ _ e)))) in
    let same : p ≡ p' = show_ℕ-injective p p' (
      before_first (show_ℕ p) (show_ℕ p') (show_ℕ c <> ".tmp") (show_ℕ c' <> ".tmp")
        (show_ℕ-Lacks p) (show_ℕ-Lacks p') tails) in
    let ends : show_ℕ c <> ".tmp" ≡ show_ℕ c' <> ".tmp" =
      append_cancel_left "." _ _ (append_cancel_left (show_ℕ p') _ _ (rw same at tails)) in
    (same, show_ℕ-injective c c' (append_cancel_right (show_ℕ c) (show_ℕ c') ".tmp" ends))
