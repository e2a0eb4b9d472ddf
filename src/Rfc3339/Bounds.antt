-- ===== src/Rfc3339/Bounds.antt =====
-- Bounds of the numbers that `parse_rfc3339` computes.
use native.Mathlib.Nat.{one-le-pow}
use mathlib.Core.Option.{some-injective}
use latte_rs.Base.{
  ℕ, zero, suc, ◌+◌, ◌-◌, ◌*◌, ◌^◌, ◌≤◌, ◌<◌, ◌≡◌, refl, Bool, true, false, Option, none, some,
  List, [], ◌∷◌, arith, ltb, ◌==◌, inl, inr, Bool-cases, if◌then◌else◌,
}
use latte_rs.Base.Int.{ℤ, pos, negsuc, ◌+ℤ◌, ◌-ℤ◌, ◌≤ℤ◌, scale, int_laws, scale_parts, InI64}
use latte_rs.Rfc3339.{is_digit, require, number, fraction, fraction_digits, days_from_civil, ◌>>=◌}
use latte_rs.Rfc3339.Fraction.{pow_suc}
use latte_rs.Rfc3339.Calendar.{years, day_of_year, from_march, before_march, year_zero}

-- One digit after the other.
number_step :
    (count value : ℕ) (xs : List ℕ) (n : ℕ)
    → number (suc count) value xs ≡ some n
    → (r : ℕ) × (rest : List ℕ) × (r ≤ 9) × (number count (value * 10 + r) rest ≡ some n)
number_step count value [] n h = cc
number_step count value (x ∷ xs) n h = elim (Bool-cases (is_digit x)) [
  | inr other ↦ absurd (cc (rw other at h))
  | inl digit ↦ (x - b'0', xs, ground (arith, digit), rw digit at h)
]

pub four_bound : (xs : List ℕ) (n : ℕ) → number 4 0 xs ≡ some n → n < 10_000
four_bound xs n h =
    let (a, ys, ha, h₁) = number_step 3 0 xs n h in
    let (b, bs, hb, h₂) = number_step 2 _ ys n h₁ in
    let (c, cs, hc, h₃) = number_step 1 _ bs n h₂ in
    let (d, ds, hd, h₄) = number_step 0 _ cs n h₃ in
    let same : (((0 * 10 + a) * 10 + b) * 10 + c) * 10 + d ≡ n = some-injective _ _ h₄ in
    omega (arith, same, ha, hb, hc, hd)

pub >>=-eq-some :
    {A B : Type 0} (o : Option A) (f : A → Option B) {b : B}
    → (o >>= f) ≡ some b
    → (a : A) × (o ≡ some a) × (f a ≡ some b)
>>=-eq-some none f h = cc
>>=-eq-some (some a) f h = (a, refl, h)

pub require-true : (b : Bool) {u : Unit {0}} → require b ≡ some u → b ≡ true
require-true true h = refl
require-true false h = cc

pow_pos : (l : ℕ) → 1 ≤ 10 ^ l
pow_pos l = one-le-pow l 10 (omega arith)

-- The nanoseconds so far are below the power of ten for the digits that they have.
abbrev IsBelow : ℕ → ℕ → Type 0
IsBelow left nanos = (nanos + 1) * 10 ^ left ≤ 10 ^ 9

padded : (left nanos : ℕ) → IsBelow left nanos → nanos * 10 ^ left < 10 ^ 9
padded left nanos h = grind (arith, pow_pos left)

digit_below :
    (nanos r p : ℕ) → r ≤ 9 → (nanos + 1) * (10 * p) ≤ 10 ^ 9 → (nanos * 10 + r + 1) * p ≤ 10 ^ 9
digit_below nanos r p small h = grind arith

with_digit :
    (left nanos r : ℕ)
    → r ≤ 9
    → IsBelow left nanos
    → IsBelow (left - 1) (if left == 0 then nanos else nanos * 10 + r)
with_digit zero nanos r small h = h
with_digit (suc left) nanos r small h =
    let before : suc left - 1 ≡ left = omega arith in
    let more : (suc left == 0) ≡ false = ground arith in
    let below : (nanos + 1) * (10 * 10 ^ left) ≤ 10 ^ 9 = rw (pow_suc left) at h in
    rw (before, more) (digit_below nanos r (10 ^ left) small below)

fraction_bound :
    (left nanos : ℕ) (xs : List ℕ) → IsBelow left nanos → (fraction_digits left nanos xs).1 < 10 ^ 9
fraction_bound left nanos [] h = padded left nanos h
fraction_bound left nanos (x ∷ xs) h = elim (Bool-cases (is_digit x)) [
  | inr other ↦ rw other (padded left nanos h)
  | inl digit ↦ rw digit (
      fraction_bound (left - 1) (if left == 0 then nanos else nanos * 10 + (x - b'0')) xs
        (with_digit left nanos (x - b'0') (ground (arith, digit)) h))
]

abbrev pub IsOffset : ℤ → Type 0
IsOffset a = (negsuc 362_339 ≤ℤ a) × (a ≤ℤ pos 362_340)

abbrev pub IsDay : ℤ → Type 0
IsDay a = (negsuc 719_999 ≤ℤ a) × (a ≤ℤ pos 3_700_000)

years_bound : (k : ℕ) → k < 10_000 → years k ≤ 3_660_000
years_bound k h = omega arith

doy_bound : (mo d : ℕ) → d ≤ 31 → day_of_year mo d ≤ 400
doy_bound mo d h = omega arith

pub days_bound : (y mo d : ℕ) → y < 10_000 → d ≤ 31 → IsDay (days_from_civil y mo d)
days_bound y mo d h k = elim (Bool-cases (ltb 2 mo)) [
  | inl late ↦
      rw (from_march y mo d (ground (arith, late)))
        (omega (int_laws, years_bound y h, doy_bound mo d k))
  | inr early ↦ early_bound y mo d h k (ground (arith, early))
]
  where
    early_bound : (y mo d : ℕ) → y < 10_000 → d ≤ 31 → mo ≤ 2 → IsDay (days_from_civil y mo d)
    early_bound zero mo d h k le = rw (year_zero mo d le) (omega (int_laws, doy_bound mo d k))
    early_bound (suc y) mo d h k le =
        rw (before_march y mo d le)
          (omega (int_laws, years_bound y (omega arith), doy_bound mo d k))

-- The seconds of a time that was read.
module _ (days offset : ℤ) (h mi sec : ℕ) (day : IsDay days) (off : IsOffset offset)
    (clock : (h ≤ 23) × (mi ≤ 59) × (sec ≤ 60)) where
  pub date_bound : InI64 (scale 86_400 days)
  date_bound = omega (int_laws, scale_parts 86_400 days)

  pub clock_bound : InI64 (scale 86_400 days +ℤ pos (h * 3600 + mi * 60 + sec))
  clock_bound = omega (int_laws, scale_parts 86_400 days)

  pub seconds_bound : InI64 (scale 86_400 days +ℤ pos (h * 3600 + mi * 60 + sec) -ℤ offset)
  seconds_bound = omega (int_laws, scale_parts 86_400 days)

pub fraction_nanos : (xs : List ℕ) (x : ℕ × List ℕ) → fraction xs ≡ some x → x.0 < 10 ^ 9
fraction_nanos [] x h = let e : (0, []) ≡ x = some-injective _ _ h in rw⁻¹ e (omega arith)
fraction_nanos (c ∷ xs) x h = elim (Bool-cases (c == b'.')) [
  | inr whole ↦ let e : (0, c ∷ xs) ≡ x = some-injective _ _ (rw whole at h) in rw⁻¹ e (omega arith)
  | inl point ↦ elim (Bool-cases ((fraction_digits 9 0 xs).0 == 0)) [
    | inl empty ↦ absurd (cc (rw (point, empty) at h))
    | inr digits_there ↦
        let e : ((fraction_digits 9 0 xs).1, (fraction_digits 9 0 xs).2) ≡ x =
          some-injective _ _ (rw (point, digits_there) at h) in
        rw⁻¹ e (fraction_bound 9 0 xs (omega arith))
  ]
]
