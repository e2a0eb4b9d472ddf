-- ===== src/Key/Typos.antt =====
-- Which typing errors in the data of a key its checksum shows.
use mathlib.Core.List.{append_assoc}
use mathlib.Core.Option.{some-injective}
use text.Mathlib.TextLemmas.{nil-append, cons-append}
use latte_rs.Base.{
  ℕ, suc, ◌+◌, ◌*◌, ◌%◌, ◌<◌, code, Char, String, ◌<>◌, ◌≡◌, refl, ap, sym, ◌∙◌, ◌↔◌, ◌⊎◌, Bool,
  true, ◌&&◌, arith, ◌==◌, List, [], ◌∷◌, ◌++◌, length, length-append, len, len_utf8, some, ltb,
  eq_iff, if◌then◌else◌,
}
use latte_rs.Base.Int.{ℤ, pos, pos_part, neg_part, ◌+ℤ◌, int_laws, scale, eqb_ℤ, eqb_ℤ_iff}
use latte_rs.Key.{
  alphabet, rem_euclid, char_of, sum_from, bytes, utf8, calculate_checksum, alphabet_index, weight,
  validate_key,
}
use latte_rs.Key.Checksum.{all_below, all_below-at, sum_of, calculate_checksum_iff}
use latte_rs.Key.RoundTrip.{validate_key-append}

bytes-append : (s t : String) → bytes (s <> t) ≡ bytes s ++ bytes t
unfolding bytes
bytes-append String.[] t = rw nil-append refl
bytes-append (String.◌∷◌ c s) t =
    rw (cons-append, bytes-append s t) (sym (append_assoc (utf8 c) (bytes s) (bytes t)))

length-utf8 : (c : Char) → length (utf8 c) ≡ len_utf8 c
unfolding utf8 len_utf8
length-utf8 c = ground arith

length-bytes : (s : String) → length (bytes s) ≡ len s
unfolding bytes len
length-bytes String.[] = refl
length-bytes (String.◌∷◌ c s) =
    omega (arith, length-append (utf8 c) (bytes s), length-utf8 c, length-bytes s)

sum_from-append :
    (i : ℕ) (a : ℤ) (xs ys : List ℕ)
    → sum_from i a (xs ++ ys) ≡ sum_from (i + length xs) (sum_from i a xs) ys
unfolding sum_from
sum_from-append i a [] ys = ap (λ k. sum_from k a ys) (omega arith)
sum_from-append i a (x ∷ xs) ys =
    sum_from-append (suc i) (a +ℤ weight i x) xs ys
    ∙ ap (λ k. sum_from k (sum_from (suc i) (a +ℤ weight i x) xs) ys) (omega arith)

+ℤ-assoc : (a b c : ℤ) → a +ℤ b +ℤ c ≡ a +ℤ (b +ℤ c)
+ℤ-assoc a b c = omega int_laws

zero-+ℤ : (a : ℤ) → pos 0 +ℤ a ≡ a
zero-+ℤ a = omega int_laws

sum_from-+ℤ : (i : ℕ) (a : ℤ) (xs : List ℕ) → sum_from i a xs ≡ a +ℤ sum_from i (pos 0) xs
unfolding sum_from
sum_from-+ℤ i a [] = omega int_laws
sum_from-+ℤ i a (x ∷ xs) =
    sum_from-+ℤ (suc i) (a +ℤ weight i x) xs
    ∙ +ℤ-assoc a (weight i x) (sum_from (suc i) (pos 0) xs)
    ∙ ap (λ r. a +ℤ r)
        (sym (
          sum_from-+ℤ (suc i) (pos 0 +ℤ weight i x) xs
          ∙ ap (λ w. w +ℤ sum_from (suc i) (pos 0) xs) (zero-+ℤ (weight i x))))

rem_euclid_iff :
    (a b : ℤ)
    → (rem_euclid a 32 ≡ rem_euclid b 32)
      ↔ ((pos_part a + neg_part b) % 32 ≡ (pos_part b + neg_part a) % 32)
unfolding rem_euclid
rem_euclid_iff a b = ground arith

-- The letter of a key at a place of the alphabet.
abbrev pub letter : ℕ → Char
letter i = char_of i alphabet

-- A letter is one byte, found at its place.
is_letter : ℕ → Bool
unfolding alphabet_index char_of
is_letter i = ltb (code (letter i)) 128 && eqb_ℤ (alphabet_index (code (letter i))) (pos i)

all_letters : all_below is_letter 32 ≡ true
unfolding all_below is_letter
all_letters = refl

letter_lem :
    (i : ℕ)
    → i < 32
    → (utf8 (letter i) ≡ code (letter i) ∷ []) × (alphabet_index (code (letter i)) ≡ pos i)
unfolding is_letter utf8
letter_lem i h = ground (
  arith,
  all_below-at is_letter 32 i all_letters h,
  eqb_ℤ_iff (alphabet_index (code (letter i))) (pos i),
)

-- What a letter adds to the sum at an index.
abbrev worth : ℕ → ℕ → ℕ
worth k i = if k % 2 == 0 then 2 * i else i

weight-letter : (k i : ℕ) → i < 32 → weight k (code (letter i)) ≡ pos (worth k i)
unfolding scale
weight-letter k i h = rw (letter_lem i h).1 (ground arith)

sum_from-letter :
    (k i : ℕ) (a : ℤ) (t : String)
    → i < 32
    → sum_from k a (bytes (String.◌∷◌ (letter i) t))
      ≡ a +ℤ pos (worth k i) +ℤ sum_from (suc k) (pos 0) (bytes t)
unfolding bytes sum_from
sum_from-letter k i a t h =
    ap (λ l. sum_from k a (l ++ bytes t)) (letter_lem i h).0
    ∙ sum_from-+ℤ (suc k) (a +ℤ weight k (code (letter i))) (bytes t)
    ∙ ap (λ w. a +ℤ w +ℤ sum_from (suc k) (pos 0) (bytes t)) (weight-letter k i h)

sum_of-append : (s t : String) → sum_of (s <> t) ≡ sum_from (len s) (sum_of s) (bytes t)
sum_of-append s t =
    ap (sum_from 0 (pos 0)) (bytes-append s t)
    ∙ sum_from-append 0 (pos 0) (bytes s) (bytes t)
    ∙ ap (λ k. sum_from k (sum_of s) (bytes t)) (omega (arith, length-bytes s))

shifted_iff :
    (a b : ℤ) (m n : ℕ)
    → (rem_euclid (a +ℤ pos m +ℤ b) 32 ≡ rem_euclid (a +ℤ pos n +ℤ b) 32) ↔ (m % 32 ≡ n % 32)
shifted_iff a b m n =
    let parts = rem_euclid_iff (a +ℤ pos m +ℤ b) (a +ℤ pos n +ℤ b) in
    (λ h. omega (int_laws, parts.0 h), λ h. parts.1 (omega (int_laws, h)))

sum_of-letter :
    (s t : String) (i : ℕ)
    → i < 32
    → sum_of (s <> String.◌∷◌ (letter i) t)
      ≡ sum_of s +ℤ pos (worth (len s) i) +ℤ sum_from (suc (len s)) (pos 0) (bytes t)
sum_of-letter s t i h =
    sum_of-append s (String.◌∷◌ (letter i) t) ∙ sum_from-letter (len s) i (sum_of s) t h

+ℤ-merge : (a b : ℤ) (m n : ℕ) → a +ℤ pos m +ℤ (pos 0 +ℤ pos n +ℤ b) ≡ a +ℤ pos (m + n) +ℤ b
+ℤ-merge a b m n = omega int_laws

sum_of-letters :
    (s t : String) (i j : ℕ)
    → i < 32
    → j < 32
    → sum_of (s <> String.◌∷◌ (letter i) (String.◌∷◌ (letter j) t))
      ≡ sum_of s
        +ℤ pos (worth (len s) i + worth (suc (len s)) j)
        +ℤ sum_from (suc (suc (len s))) (pos 0) (bytes t)
sum_of-letters s t i j hi hj =
    sum_of-letter s (String.◌∷◌ (letter j) t) i hi
    ∙ ap (λ r. sum_of s +ℤ pos (worth (len s) i) +ℤ r)
        (sum_from-letter (suc (len s)) j (pos 0) t hj)
    ∙ +ℤ-merge (sum_of s) _ _ _

-- Whether the key with data `typed` passes, where its checksum was made for `data'`.
abbrev pub Passes : String → String → ℕ → Type 0
Passes data' typed n = validate_key (typed <> calculate_checksum data' n) n ≡ some true

Passes-iff :
    (data' typed : String) (n : ℕ)
    → Passes data' typed n ↔ (calculate_checksum typed n ≡ calculate_checksum data' n)
Passes-iff data' typed n =
    let same = eq_iff (calculate_checksum typed n) (calculate_checksum data' n) in
    (
      λ h. same.0 (some-injective _ _ (sym (validate_key-append data' typed n) ∙ h)),
      λ h. validate_key-append data' typed n ∙ ap some (same.1 h),
    )

-- A typing error that changes what one place of the sum gets.
Passes-shifted :
    (data' typed : String) (n : ℕ) (a b : ℤ) (m k : ℕ)
    → sum_of data' ≡ a +ℤ pos m +ℤ b
    → sum_of typed ≡ a +ℤ pos k +ℤ b
    → Passes data' typed (suc n) ↔ (k % 32 ≡ m % 32)
Passes-shifted data' typed n a b m k hd ht =
    let same = rw (sym ht, sym hd) at (shifted_iff a b k m) in
    let passes = Passes-iff data' typed (suc n) in
    let sums = calculate_checksum_iff typed data' n in
    (λ h. same.0 (sums.0 (passes.0 h)), λ h. passes.1 (sums.1 (same.1 h)))

module _ (s t : String) (i j n : ℕ) (hi : i < 32) (hj : j < 32) where
  -- In a valid key with a checksum of at least one character, one letter of the data typed for
  -- another goes unseen exactly when it is at an even index, counted in bytes, and the two letters
  -- are 16 places apart in the alphabet. Two neighbouring letters that differ never go unseen when
  -- they are swapped.
  pub typos_iff :
      (Passes (s <> String.◌∷◌ (letter i) t) (s <> String.◌∷◌ (letter j) t) (suc n)
        ↔ ((i ≡ j) ⊎ (len s % 2 ≡ 0) × ((i ≡ j + 16) ⊎ (j ≡ i + 16))))
      × (Passes
            (s <> String.◌∷◌ (letter i) (String.◌∷◌ (letter j) t))
            (s <> String.◌∷◌ (letter j) (String.◌∷◌ (letter i) t))
            (suc n)
          ↔ (i ≡ j))
  typos_iff =
      let replaced =
        Passes-shifted _ _ n _ _ _ _ (sum_of-letter s t i hi) (sum_of-letter s t j hj) in
      let swapped =
        Passes-shifted _ _ n _ _ _ _ (sum_of-letters s t i j hi hj)
          (sum_of-letters s t j i hj hi) in
      (
        (λ h. ground (arith, replaced.0 h), λ h. replaced.1 (ground (arith, h))),
        (λ h. ground (arith, swapped.0 h), λ h. swapped.1 (ground (arith, h))),
      )
