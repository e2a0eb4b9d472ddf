-- ===== src/Rfc3339/Fraction.antt =====
-- Printed fractions of a second are read as their nanoseconds.
use native.Mathlib.Nat.{one-le-pow, div-add-mod', mod-lt, div-lt_iff_lt-mul}
use latte_rs.Base.{
  ℕ, zero, suc, ◌+◌, ◌-◌, ◌*◌, ◌/◌, ◌%◌, ◌^◌, ◌≤◌, ◌<◌, ◌≡◌, refl, sym, ap, ap₂, ◌∙◌, true, false,
  ◌==◌, some, List, [], ◌∷◌, ◌++◌, arith,
}
use latte_rs.Rfc3339.{is_digit, fraction, fraction_digits, with_fraction}

abbrev pub digit : ℕ → ℕ
digit n = b'0' + n % 10

pub digit-is_digit : (n : ℕ) → is_digit (digit n) ≡ true
digit-is_digit n = ground arith

-- A number below 10 ^ k in k digits.
abbrev pub printed : (k n : ℕ) → List ℕ
printed zero n = []
printed (suc k) n = digit (n / 10 ^ k) ∷ printed k (n % 10 ^ k)

-- A point with k digits, if there are any, before the zone.
abbrev pub fraction_text : (k n : ℕ) → List ℕ → List ℕ
fraction_text zero n zone = zone
fraction_text (suc k) n zone = b'.' ∷ (printed (suc k) n ++ zone)

pub pow_suc : (k : ℕ) → 10 ^ suc k ≡ 10 * 10 ^ k
pow_suc k = grind arith

split_digits :
    (k n : ℕ)
    → n < 10 ^ suc k
    → (n / 10 ^ k < 10) × (n ≡ (n / 10 ^ k) * 10 ^ k + n % 10 ^ k) × (n % 10 ^ k < 10 ^ k)
split_digits k n h =
    let positive : 0 < 10 ^ k = one-le-pow k 10 (omega arith) in
    let whole : n < 10 * 10 ^ k = rw (pow_suc k) at h in
    ((div-lt_iff_lt-mul positive).1 whole, sym (div-add-mod' n (10 ^ k)), mod-lt n positive)

shifted : (v q r p : ℕ) → (v * 10 + q) * p + r ≡ v * (10 * p) + (q * p + r)
shifted v q r p = grind arith

module _ (c : ℕ) (zone : List ℕ) (stops : is_digit c ≡ false) where
  printed-digits :
      (k j v n : ℕ)
      → n < 10 ^ k
      → fraction_digits (k + j) v (printed k n ++ (c ∷ zone))
        ≡ (k, (v * 10 ^ k + n) * 10 ^ j, c ∷ zone)
  printed-digits zero j v n h =
      let none_left : n ≡ 0 = omega (arith, h) in
      let all : v * 1 + n ≡ v = omega (arith, none_left) in
      let same : 0 + j ≡ j = omega arith in rw (stops, same, all) refl
  printed-digits (suc k) j v n h =
      let (small, split, below) = split_digits k n h in
      let q = n / 10 ^ k in
      let r = n % 10 ^ k in
      let left : suc k + j - 1 ≡ k + j = omega arith in
      let more : (suc k + j == 0) ≡ false = ground arith in
      let value : digit q - b'0' ≡ q = omega (arith, small) in
      let next = printed-digits k j (v * 10 + q) r below in
      let total : (v * 10 + q) * 10 ^ k + r ≡ v * 10 ^ suc k + n =
        shifted v q r (10 ^ k) ∙ ap₂ (λ a b. v * a + b) (sym (pow_suc k)) (sym split) in
      rw (digit-is_digit q, left, more, value, next, total) refl

  pub fraction-fraction_text :
      (k n : ℕ)
      → k ≤ 9
      → n < 10 ^ k
      → (c == b'.') ≡ false
      → fraction (fraction_text k n (c ∷ zone)) ≡ some (n * 10 ^ (9 - k), c ∷ zone)
  fraction-fraction_text zero n few small point =
      let none_left : n ≡ 0 = omega (arith, small) in rw (point, none_left) refl
  fraction-fraction_text (suc k) n few small point =
      let nine : 9 ≡ suc k + (9 - suc k) = omega arith in
      let read : fraction_digits 9 0 (printed (suc k) n ++ (c ∷ zone))
          ≡ (suc k, (0 * 10 ^ suc k + n) * 10 ^ (9 - suc k), c ∷ zone) =
        ap (λ left. fraction_digits left 0 (printed (suc k) n ++ (c ∷ zone))) nine
        ∙ printed-digits (suc k) (9 - suc k) 0 n small in
      let value : 0 * 10 ^ suc k + n ≡ n = omega arith in
      let more : (suc k == 0) ≡ false = ground arith in
      ap with_fraction read ∙ rw (more, value) refl
