-- ===== src/Rfc3339.antt =====
-- `parse_rfc3339` of src/http.rs, on the UTF-8 bytes of the text. Its slices of the text start and
-- end beside ASCII bytes that it has just tested, or have a byte that is no digit, so that a slice
-- inside a character is `None` either way.
pub mod Calendar
pub mod Printed
pub mod Bounds
pub mod Fraction
pub mod Read
pub mod Zones
use mathlib.Core.Option
use latte_rs.Base.{
  ℕ, zero, suc, ◌+◌, ◌-◌, ◌*◌, ◌/◌, ◌%◌, ◌^◌, String, Bool, true, false, not, ◌&&◌, ◌||◌, Option,
  none, some, List, [], ◌∷◌, ltb, leb, ◌==◌, length, if◌then◌else◌, Result, ok, ok_or, ◌<>◌,
}
use latte_rs.Base.Int.{ℤ, pos, negsuc, pos_part, ◌+ℤ◌, ◌-ℤ◌, scale}
use latte_rs.Time.{SystemTime, unix_to_system_time}
use latte_rs.Key.{bytes}

infixl 5 ◌>>=◌ ◌>>◌
abbrev pub ◌>>=◌ : {A B : Type 0} → Option A → (A → Option B) → Option B
none >>= f = none
some a >>= f = f a

abbrev pub ◌>>◌ : {B : Type 0} → Option (Unit {0}) → Option B → Option B
m >> k = m >>= λ _. k

-- `if !test { return None }`
abbrev pub require : Bool → Option (Unit {0})
require true = some tt
require false = none

abbrev pub is_digit : ℕ → Bool
is_digit c = leb b'0' c && leb c b'9'

abbrev pub get_elem? : List ℕ → ℕ → Option ℕ
get_elem? [] i = none
get_elem? (x ∷ xs) zero = some x
get_elem? (x ∷ xs) (suc i) = get_elem? xs i

-- Whether the byte at an index is there and is this one.
abbrev pub has_byte : ℕ → Option ℕ → Bool
has_byte c none = false
has_byte c (some b) = b == c

abbrev pub drop : ℕ → List ℕ → List ℕ
drop zero xs = xs
drop (suc n) [] = []
drop (suc n) (x ∷ xs) = drop n xs

-- The value of `count` digits at the front.
abbrev pub number : (count value : ℕ) → List ℕ → Option ℕ
number zero value xs = some value
number (suc count) value [] = none
number (suc count) value (x ∷ xs) =
    let rest = number count (value * 10 + (x - b'0')) xs in if is_digit x then rest else none

-- `digits(s, from..to)`
abbrev pub digits : List ℕ → (from to : ℕ) → Option ℕ
digits s from to = number (to - from) 0 (drop from s)

-- The digits after the point: the first nine make up the nanoseconds, as if zeros followed. The
-- result is their number, the nanoseconds, and what follows.
abbrev pub fraction_digits : (left nanos : ℕ) → List ℕ → ℕ × ℕ × List ℕ
fraction_digits left nanos [] = (0, nanos * 10 ^ left, [])
fraction_digits left nanos (x ∷ xs) =
    let (n, value, rest) =
      fraction_digits (left - 1) (if left == 0 then nanos else nanos * 10 + (x - b'0')) xs in
    if is_digit x then (suc n, value, rest) else (0, nanos * 10 ^ left, x ∷ xs)

abbrev pub with_fraction : ℕ × ℕ × List ℕ → Option (ℕ × List ℕ)
with_fraction (n, nanos, rest) = if n == 0 then none else some (nanos, rest)

abbrev pub fraction : List ℕ → Option (ℕ × List ℕ)
fraction [] = some (0, [])
fraction (x ∷ xs) = if x == b'.' then with_fraction (fraction_digits 9 0 xs) else some (0, x ∷ xs)

abbrev pub signed_offset : ℕ → ℕ → Option ℤ
signed_offset sign seconds =
    if sign == b'+'
    then some (pos seconds)
    else if sign == b'-'
    then some (pos 0 -ℤ pos seconds)
    else none

abbrev pub offset_of : List ℕ → Option ℤ
offset_of [] = none
offset_of (sign ∷ rest) =
    if (length rest == 0) && ((sign == b'Z') || (sign == b'z')) then some (pos 0) else (do
      require ((sign == b'+') || (sign == b'-'))
      require ((length (sign ∷ rest) == 6) && has_byte b':' (get_elem? (sign ∷ rest) 3))
      h ← digits (sign ∷ rest) 1 3
      m ← digits (sign ∷ rest) 4 6
      signed_offset sign (h * 3600 + m * 60))

-- `div_euclid`
abbrev pub div_euclid : ℤ → ℕ → ℤ
div_euclid (pos n) m = pos (n / m)
div_euclid (negsuc n) m = negsuc (n / m)

-- Days since 1970-01-01.
unfoldable pub days_from_civil : ℕ → ℕ → ℕ → ℤ
days_from_civil y mo d =
    let y' = if leb mo 2 then pos y -ℤ pos 1 else pos y in
    let era = div_euclid y' 400 in
    let yoe = pos_part (y' -ℤ scale 400 era) in
    let doy = (153 * ((mo + 9) % 12) + 2) / 5 + d - 1 in
    scale 146_097 era +ℤ pos (yoe * 365 + yoe / 4 - yoe / 100 + doy) -ℤ pos 719_468

unfoldable pub seconds_of : (y mo d h mi sec : ℕ) → ℤ → ℤ
seconds_of y mo d h mi sec offset =
    scale 86_400 (days_from_civil y mo d) +ℤ pos (h * 3600 + mi * 60 + sec) -ℤ offset

unfoldable pub parse_bytes : List ℕ → Option SystemTime
parse_bytes b = do
  require (not (ltb (length b) 20))
  require (
      has_byte b'-' (get_elem? b 4)
      && has_byte b'-' (get_elem? b 7)
      && (has_byte b'T' (get_elem? b 10) || has_byte b't' (get_elem? b 10))
      && has_byte b':' (get_elem? b 13)
      && has_byte b':' (get_elem? b 16))
  y ← digits b 0 4
  mo ← digits b 5 7
  d ← digits b 8 10
  h ← digits b 11 13
  mi ← digits b 14 16
  sec ← digits b 17 19
  require ((leb 1 mo && leb mo 12) && (leb 1 d && leb d 31) && leb h 23 && leb mi 59 && leb sec 60)
  (nanos, rest) ← fraction (drop 19 b)
  offset ← offset_of rest
  some (unix_to_system_time (seconds_of y mo d h mi sec offset) +ℤ pos nanos)

unfoldable pub parse_rfc3339 : String → Option SystemTime
parse_rfc3339 s = parse_bytes (bytes s)

-- The decoding of a time in a body, given how a text is quoted in an error.
module _ (quoted : String → String) where
  unfoldable pub de_time : String → Result SystemTime String
  de_time s = ok_or ("invalid timestamp " <> quoted s) (parse_rfc3339 s)

  abbrev pub de_opt_time : Option String → Result (Option SystemTime) String
  de_opt_time none = ok none
  de_opt_time (some s) =
      ok_or ("invalid timestamp " <> quoted s) (Option.map some (parse_rfc3339 s))
