-- ===== src/Key/Checksum.antt =====
-- How much of the data a checksum tells: its sum modulo 32, and no more.
use text.Mathlib.TextLemmas.{head-eq_of_cons-eq}
use latte_rs.Base.{
  ℕ, zero, suc, ◌*◌, ◌<◌, code, String, ◌≡◌, refl, ap, ap₂, sym, ◌∙◌, ◌↔◌, Bool, true, ◌&&◌, arith,
  ◌==◌, ==→eq,
}
use latte_rs.Base.Int.{ℤ, pos, pos_part, ◌+ℤ◌, int_laws}
use latte_rs.Key.{
  alphabet, rem_euclid, char_of, push_from, sum_from, bytes, calculate_checksum, alphabet_index,
}

-- The sum that a checksum is made of.
abbrev pub sum_of : String → ℤ
sum_of s = sum_from 0 (pos 0) (bytes s)

rem_euclid-lt : (a : ℤ) → rem_euclid a 32 < 32
unfolding rem_euclid
rem_euclid-lt a = ground arith

rem_euclid-add :
    (a b : ℤ) (k : ℕ)
    → rem_euclid a 32 ≡ rem_euclid b 32
    → rem_euclid (a +ℤ pos k) 32 ≡ rem_euclid (b +ℤ pos k) 32
unfolding rem_euclid ◌+ℤ◌
rem_euclid-add a b k h = ground arith

push_from-congruent :
    (a b : ℤ) (i n : ℕ) → rem_euclid a 32 ≡ rem_euclid b 32 → push_from a i n ≡ push_from b i n
unfolding push_from
push_from-congruent a b i zero h = refl
push_from-congruent a b i (suc n) h =
    ap₂ String.◌∷◌ (ap (λ r. char_of r alphabet) (rem_euclid-add a b (i * 31) h))
      (push_from-congruent a b (suc i) n h)

-- The characters of the alphabet are told apart by their place in it.
place : ℕ → Bool
unfolding alphabet_index char_of
place i = pos_part (alphabet_index (code (char_of i alphabet))) == i

unfoldable pub all_below : (ℕ → Bool) → ℕ → Bool
all_below test zero = true
all_below test (suc n) = test n && all_below test n

pub all_below-at : (test : ℕ → Bool) (n i : ℕ) → all_below test n ≡ true → i < n → test i ≡ true
unfolding all_below
all_below-at test zero i h lt = absurd (omega arith)
all_below-at test (suc n) i h lt = ground (arith, all_below-at test n i)

all_places : all_below place 32 ≡ true
unfolding all_below place
all_places = refl

char_of-injective : (i j : ℕ) → i < 32 → j < 32 → char_of i alphabet ≡ char_of j alphabet → i ≡ j
unfolding place
char_of-injective i j hi hj e =
    sym (==→eq _ i (all_below-at place 32 i all_places hi))
    ∙ ap (λ c. pos_part (alphabet_index (code c))) e
    ∙ ==→eq _ j (all_below-at place 32 j all_places hj)

+ℤ-zero : (a : ℤ) → a +ℤ pos 0 ≡ a
+ℤ-zero a = omega int_laws

first_char :
    (a b : ℤ) (n : ℕ)
    → push_from a 0 (suc n) ≡ push_from b 0 (suc n)
    → rem_euclid a 32 ≡ rem_euclid b 32
unfolding push_from
first_char a b n e =
    let same =
      char_of-injective (rem_euclid (a +ℤ pos 0) 32) (rem_euclid (b +ℤ pos 0) 32)
        (rem_euclid-lt (a +ℤ pos 0)) (rem_euclid-lt (b +ℤ pos 0)) (head-eq_of_cons-eq e) in
    rw (+ℤ-zero a, +ℤ-zero b) at same

-- Two texts have the same checksum, of any length but zero, exactly when their sums agree modulo
-- 32.
pub calculate_checksum_iff :
    (s t : String) (n : ℕ)
    → (calculate_checksum s (suc n) ≡ calculate_checksum t (suc n))
      ↔ (rem_euclid (sum_of s) 32 ≡ rem_euclid (sum_of t) 32)
unfolding calculate_checksum
calculate_checksum_iff s t n = (
  (λ e. first_char (sum_of s) (sum_of t) n e),
  (λ h. push_from-congruent (sum_of s) (sum_of t) 0 (suc n) h),
)
