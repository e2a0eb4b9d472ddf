-- ===== src/Key/Normal.antt =====
-- The normal forms of a key: what they leave out, and that a second pass changes nothing.
use text.Mathlib.TextLemmas.{nil-append, cons-append}
use latte_rs.Base.{Char, code, String, ◌<>◌, ◌≡◌, ◌≢◌, refl, ap, arith, Bool-cases, inl, inr, ◌==◌}
use latte_rs.Key.{retain, fold_char, fold_ambiguous, to_uppercase, normalize_key, sanitize_key}

-- A property of every character.
abbrev pub Every : (Char → Type 0) → String → Type 0
Every P String.[] = Unit
Every P (String.◌∷◌ c s) = P c × Every P s

-- Uppercasing gives characters that have no other uppercase, and the digits have none.
pub record IsUpperTable (upper : Char → String) : Type 0 where
  pub upper_again : (c : Char) → Every (λ d. upper d ≡ String.◌∷◌ d "") (upper c)
  pub digits : (upper "0" ≡ "0") × (upper "1" ≡ "1")

Every-append : (P : Char → Type 0) (s t : String) → Every P s → Every P t → Every P (s <> t)
Every-append P String.[] t h k = rw nil-append k
Every-append P (String.◌∷◌ c s) t h k = rw cons-append (h.0, Every-append P s t h.1 k)

Every-retain : (P : Char → Type 0) (s : String) → Every P s → Every P (retain s)
unfolding retain
Every-retain P String.[] h = tt
Every-retain P (String.◌∷◌ c s) (h, hs) = ground (arith, Every-retain P s hs)

abbrev IsKept : Char → Type 0
IsKept c = (code c ≢ b'-') × (code c ≢ b' ')

retain-IsKept : (s : String) → Every IsKept (retain s)
unfolding retain
retain-IsKept String.[] = tt
retain-IsKept (String.◌∷◌ c s) = ground (arith, retain-IsKept s)

retain_of_IsKept : (s : String) → Every IsKept s → retain s ≡ s
unfolding retain
retain_of_IsKept String.[] h = refl
retain_of_IsKept (String.◌∷◌ c s) h = ground (arith, retain_of_IsKept s h.1)

-- The characters that a sanitized key can hold: no separator and none that the fold replaces.
abbrev pub IsClean : Char → Type 0
IsClean c = (code c ≢ b'-') × (code c ≢ b' ') × (code c ≢ b'O') × (code c ≢ b'I') × (code c ≢ b'L')

-- What holds of the digits 0 and 1, and of every character that the fold leaves, holds of the
-- folded character.
fold_char_rule :
    (P : Char → Type 0) (c : Char)
    → P "0"
    → P "1"
    → (code c ≢ b'O' → code c ≢ b'I' → code c ≢ b'L' → P c)
    → P (fold_char c)
fold_char_rule P c zero_case one_case kept = elim (Bool-cases (code c == b'O')) [
  | inl e ↦ rw e zero_case
  | inr o ↦ rw o (elim (Bool-cases (code c == b'I')) [
    | inl e ↦ rw e one_case
    | inr i ↦ rw i (elim (Bool-cases (code c == b'L')) [
      | inl e ↦ rw e one_case
      | inr l ↦ rw l (kept (ground arith) (ground arith) (ground arith))
    ])
  ])
]

fold_ambiguous-IsClean : (s : String) → Every IsKept s → Every IsClean (fold_ambiguous s)
unfolding fold_ambiguous
fold_ambiguous-IsClean String.[] h = tt
fold_ambiguous-IsClean (String.◌∷◌ c s) h = (
  fold_char_rule IsClean c (omega arith) (omega arith) (λ o i l. (h.0.0, h.0.1, o, i, l)),
  fold_ambiguous-IsClean s h.1,
)

fold_ambiguous_of_IsClean : (s : String) → Every IsClean s → fold_ambiguous s ≡ s
unfolding fold_ambiguous
fold_ambiguous_of_IsClean String.[] h = refl
fold_ambiguous_of_IsClean (String.◌∷◌ c s) h = ground (arith, fold_ambiguous_of_IsClean s h.1)

IsClean-IsKept : (s : String) → Every IsClean s → Every IsKept s
IsClean-IsKept String.[] h = tt
IsClean-IsKept (String.◌∷◌ c s) h = ((h.0.0, h.0.1), IsClean-IsKept s h.1)

module _ (upper : Char → String) (table : IsUpperTable upper) where
  abbrev IsUpper : Char → Type 0
  IsUpper d = upper d ≡ String.◌∷◌ d ""

  to_uppercase-IsUpper : (s : String) → Every IsUpper (to_uppercase upper s)
  unfolding to_uppercase
  to_uppercase-IsUpper String.[] = tt
  to_uppercase-IsUpper (String.◌∷◌ c s) =
      Every-append IsUpper (upper c) (to_uppercase upper s) (table.upper_again c)
        (to_uppercase-IsUpper s)

  to_uppercase_of_IsUpper : (s : String) → Every IsUpper s → to_uppercase upper s ≡ s
  unfolding to_uppercase
  to_uppercase_of_IsUpper String.[] h = refl
  to_uppercase_of_IsUpper (String.◌∷◌ c s) h =
      rw (h.0, cons-append, nil-append) (ap (String.◌∷◌ c) (to_uppercase_of_IsUpper s h.1))

  fold_ambiguous-IsUpper : (s : String) → Every IsUpper s → Every IsUpper (fold_ambiguous s)
  unfolding fold_ambiguous
  fold_ambiguous-IsUpper String.[] h = tt
  fold_ambiguous-IsUpper (String.◌∷◌ c s) h = (
    fold_char_rule IsUpper c table.digits.0 table.digits.1 (λ _ _ _. h.0),
    fold_ambiguous-IsUpper s h.1,
  )

  -- For any uppercase table whose results have no other uppercase, and in which the digits 0 and 1 are
  -- their own uppercase: normalizing a key twice is normalizing it once; sanitizing it twice is
  -- sanitizing it once; sanitizing a normalized key is sanitizing the key itself; and a sanitized key
  -- holds no hyphen, no space and none of O, I and L.
  pub normal_forms :
      (s : String)
      → (normalize_key upper (normalize_key upper s) ≡ normalize_key upper s)
        × (sanitize_key upper (sanitize_key upper s) ≡ sanitize_key upper s)
        × (sanitize_key upper (normalize_key upper s) ≡ sanitize_key upper s)
        × Every IsClean (sanitize_key upper s)
  unfolding normalize_key sanitize_key
  normal_forms s =
      let up = to_uppercase-IsUpper s in
      let kept = retain-IsKept (to_uppercase upper s) in
      let up_kept = Every-retain IsUpper (to_uppercase upper s) up in
      let clean = fold_ambiguous-IsClean (retain (to_uppercase upper s)) kept in
      let up_clean = fold_ambiguous-IsUpper (retain (to_uppercase upper s)) up_kept in
      let stay = to_uppercase_of_IsUpper (retain (to_uppercase upper s)) up_kept in
      (
        rw (stay, retain_of_IsKept _ kept),
        rw (
          to_uppercase_of_IsUpper _ up_clean,
          retain_of_IsKept _ (IsClean-IsKept _ clean),
          fold_ambiguous_of_IsClean _ clean,
        ),
        rw (stay, retain_of_IsKept _ kept),
        clean,
      )
