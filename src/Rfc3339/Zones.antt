-- ===== src/Rfc3339/Zones.antt =====
-- The zones that `parse_rfc3339` reads.
use mathlib.Core.Option.{some-injective}
use latte_rs.Base.{
  ℕ, suc, ◌+◌, ◌-◌, ◌*◌, ◌≤◌, ◌<◌, ◌≡◌, refl, Bool, true, ◌&&◌, ◌||◌, some, List, [], ◌∷◌, arith,
  length, ◌==◌, sym, ap, ◌∙◌, ==→eq, ◌⊎◌, inl, inr, Bool-cases,
}
use latte_rs.Base.Int.{ℤ, pos, ◌-ℤ◌, int_laws}
use latte_rs.Rfc3339.{
  is_digit, require, number, digits, get_elem?, has_byte, offset_of, signed_offset,
}
use latte_rs.Rfc3339.Bounds.{>>=-eq-some, require-true, IsOffset}

-- A digit as it is read.
read_digit :
    (count value x : ℕ) (xs : List ℕ) (n : ℕ)
    → number (suc count) value (x ∷ xs) ≡ some n
    → (r : ℕ) × (r ≤ 9) × (x ≡ b'0' + r) × (number count (value * 10 + r) xs ≡ some n)
read_digit count value x xs n h = elim (Bool-cases (is_digit x)) [
  | inr other ↦ absurd (cc (rw other at h))
  | inl digit ↦ (x - b'0', ground (arith, digit), ground (arith, digit), rw digit at h)
]

-- The two digits of a number.
abbrev pub IsTwo : (x y n : ℕ) → Type 0
IsTwo x y n = (a b : ℕ) × (a ≤ 9) × (b ≤ 9) × (x ≡ b'0' + a) × (y ≡ b'0' + b) × (n ≡ a * 10 + b)

number-IsTwo : (x y : ℕ) (xs : List ℕ) (n : ℕ) → number 2 0 (x ∷ y ∷ xs) ≡ some n → IsTwo x y n
number-IsTwo x y xs n h =
    let (a, ha, at_x, h₁) = read_digit 1 0 x (y ∷ xs) n h in
    let (b, hb, at_y, h₂) = read_digit 0 _ y xs n h₁ in
    let same : (0 * 10 + a) * 10 + b ≡ n = some-injective _ _ h₂ in
    (a, b, ha, hb, at_x, at_y, omega (arith, same))

-- The zones, with the seconds that they are ahead of UTC: a Z, or a sign with two digits of hours, a
-- colon and two digits of minutes.
pub data IsZone (zone : List ℕ) (offset : ℤ) : Type 0 where
  utc : (z : ℕ) → (z ≡ b'Z') ⊎ (z ≡ b'z') → zone ≡ z ∷ [] → offset ≡ pos 0 → IsZone zone offset
  ahead :
      (x y u v hours minutes : ℕ)
      → zone ≡ b'+' ∷ x ∷ y ∷ b':' ∷ u ∷ v ∷ []
      → IsTwo x y hours
      → IsTwo u v minutes
      → offset ≡ pos (hours * 3600 + minutes * 60)
      → IsZone zone offset
  behind :
      (x y u v hours minutes : ℕ)
      → zone ≡ b'-' ∷ x ∷ y ∷ b':' ∷ u ∷ v ∷ []
      → IsTwo x y hours
      → IsTwo u v minutes
      → offset ≡ pos 0 -ℤ pos (hours * 3600 + minutes * 60)
      → IsZone zone offset

signed-IsZone :
    (sign x y colon u v hours minutes : ℕ) (offset : ℤ)
    → colon ≡ b':'
    → IsTwo x y hours
    → IsTwo u v minutes
    → signed_offset sign (hours * 3600 + minutes * 60) ≡ some offset
    → IsZone (sign ∷ x ∷ y ∷ colon ∷ u ∷ v ∷ []) offset
signed-IsZone sign x y colon u v hours minutes offset is_colon hh mm h =
    elim (Bool-cases (sign == b'+')) [
      | inl plus ↦
          ahead x y u v hours minutes (rw (==→eq _ _ plus, is_colon) refl) hh mm
            (sym (some-injective _ _ (rw plus at h)))
      | inr other ↦ elim (Bool-cases (sign == b'-')) [
        | inl minus ↦
            behind x y u v hours minutes (rw (==→eq _ _ minus, is_colon) refl) hh mm
              (sym (some-injective _ _ (rw (other, minus) at h)))
        | inr neither ↦ absurd (cc (rw (other, neither) at h))
      ]
    ]

abbrev is_six : List ℕ → Bool
is_six xs = (length xs == 6) && has_byte b':' (get_elem? xs 3)

six_bytes :
    (xs : List ℕ) (hours minutes : ℕ)
    → is_six xs ≡ true
    → digits xs 1 3 ≡ some hours
    → digits xs 4 6 ≡ some minutes
    → (s x y c u v : ℕ) × (xs ≡ s ∷ x ∷ y ∷ c ∷ u ∷ v ∷ [])
      × (c ≡ b':')
      × IsTwo x y hours
      × IsTwo u v minutes
six_bytes [] hours minutes six hh mm = cc
six_bytes (s ∷ []) hours minutes six hh mm = cc
six_bytes (s ∷ x ∷ []) hours minutes six hh mm = cc
six_bytes (s ∷ x ∷ y ∷ []) hours minutes six hh mm = cc
six_bytes (s ∷ x ∷ y ∷ c ∷ []) hours minutes six hh mm = cc
six_bytes (s ∷ x ∷ y ∷ c ∷ u ∷ []) hours minutes six hh mm = cc
six_bytes (s ∷ x ∷ y ∷ c ∷ u ∷ v ∷ []) hours minutes six hh mm = (
  s,
  x,
  y,
  c,
  u,
  v,
  refl,
  ground (arith, six),
  number-IsTwo x y (c ∷ u ∷ v ∷ []) hours hh,
  number-IsTwo u v [] minutes mm,
)
six_bytes (s ∷ x ∷ y ∷ c ∷ u ∷ v ∷ w ∷ xs) hours minutes six hh mm = ground (arith, six)

zulu-IsZone :
    (z : ℕ) (rest : List ℕ)
    → ((length rest == 0) && ((z == b'Z') || (z == b'z'))) ≡ true
    → IsZone (z ∷ rest) (pos 0)
zulu-IsZone z [] h = utc z (ground (arith, h)) refl refl
zulu-IsZone z (x ∷ rest) h = absurd (ground (arith, h))

signed_shape :
    (sign : ℕ) (rest : List ℕ) (s x y c u v hours minutes : ℕ) (offset : ℤ)
    → sign ∷ rest ≡ s ∷ x ∷ y ∷ c ∷ u ∷ v ∷ []
    → c ≡ b':'
    → IsTwo x y hours
    → IsTwo u v minutes
    → signed_offset sign (hours * 3600 + minutes * 60) ≡ some offset
    → IsZone (sign ∷ rest) offset
signed_shape sign rest s x y c u v hours minutes offset shape colon hh mm h =
    let first : s ≡ sign = cc in
    rw shape (
      signed-IsZone s x y c u v hours minutes offset colon hh mm
        (ap (λ n. signed_offset n (hours * 3600 + minutes * 60)) first ∙ h))

pub offset_of-IsZone : (xs : List ℕ) (offset : ℤ) → offset_of xs ≡ some offset → IsZone xs offset
offset_of-IsZone [] offset h = cc
offset_of-IsZone (sign ∷ rest) offset h =
    elim (Bool-cases ((length rest == 0) && ((sign == b'Z') || (sign == b'z')))) [
      | inl zulu ↦
          let e : pos 0 ≡ offset = some-injective _ _ (rw zulu at h) in
          rw⁻¹ e (zulu-IsZone sign rest zulu)
      | inr signed ↦
          let (_, _, h₁) =
            >>=-eq-some (require ((sign == b'+') || (sign == b'-'))) _ (rw signed at h) in
          let (_, six, h₂) = >>=-eq-some (require (is_six (sign ∷ rest))) _ h₁ in
          let (hours, at_hours, h₃) = >>=-eq-some (digits (sign ∷ rest) 1 3) _ h₂ in
          let (minutes, at_minutes, h₄) = >>=-eq-some (digits (sign ∷ rest) 4 6) _ h₃ in
          let (s, x, y, c, u, v, shape, colon, hh, mm) =
            six_bytes (sign ∷ rest) hours minutes (require-true (is_six (sign ∷ rest)) six) at_hours
              at_minutes in
          signed_shape sign rest s x y c u v hours minutes offset shape colon hh mm h₄
    ]

IsTwo-bound : (x y n : ℕ) → IsTwo x y n → n < 100
IsTwo-bound x y n (a, b, ha, hb, at_x, at_y, value) = omega arith

pub IsZone-bound : (xs : List ℕ) (offset : ℤ) → IsZone xs offset → IsOffset offset
IsZone-bound xs offset (utc z is_z shape e) = rw e (omega arith)
IsZone-bound xs offset (ahead x y u v hours minutes shape hh mm e) =
    rw e (omega (arith, IsTwo-bound x y hours hh, IsTwo-bound u v minutes mm))
IsZone-bound xs offset (behind x y u v hours minutes shape hh mm e) =
    rw e (omega (int_laws, IsTwo-bound x y hours hh, IsTwo-bound u v minutes mm))
