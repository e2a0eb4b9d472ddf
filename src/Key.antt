-- ===== src/Key.antt =====
-- src/key.rs: the checksum of a key, its validation, and the normal forms of a key that a user
-- types. The sum of a checksum is an i64 in the source; it stays within 62 times the length of the
-- data, so it does not wrap around for any text that fits in memory.
pub mod Checksum
pub mod Typos
pub mod RoundTrip
pub mod Normal
use Prim.Native.String
use mathlib.Core.Option
use latte_rs.Base.{
  ℕ, zero, suc, ◌+◌, ◌-◌, ◌*◌, ◌/◌, ◌%◌, Char, code, String, ◌<>◌, Bool, true, false, ◌||◌, Option,
  none, some, List, [], ◌∷◌, ◌++◌, str_eq, ◌==◌, ltb, leb, get_or, codes, len, len_utf8,
  if◌then◌else◌,
}
use latte_rs.Base.Int.{ℤ, pos, negsuc, ◌+ℤ◌, scale}

abbrev pub alphabet : String
alphabet = "0123456789ABCDEFGHJKMNPQRSTVWXYZ"

-- The UTF-8 bytes of a character, and of a text.
unfoldable pub utf8 : Char → List ℕ
utf8 c =
    let n = code c in
    if ltb n 128
    then n ∷ []
    else if ltb n 2048
    then (192 + n / 64) ∷ (128 + n % 64) ∷ []
    else if ltb n 65536
    then (224 + n / 4096) ∷ (128 + n / 64 % 64) ∷ (128 + n % 64) ∷ []
    else (240 + n / 262144) ∷ (128 + n / 4096 % 64) ∷ (128 + n / 64 % 64) ∷ (128 + n % 64) ∷ []

unfoldable pub bytes : String → List ℕ
unfolding utf8
bytes String.[] = []
bytes (String.◌∷◌ c s) = utf8 c ++ bytes s

-- `position`
unfoldable pub position : ℕ → List ℕ → Option ℕ
position c [] = none
position c (a ∷ as') = if a == c then some 0 else Option.map suc (position c as')

unfoldable pub alphabet_index : ℕ → ℤ
unfolding position
alphabet_index c = get_or (negsuc 0) (Option.map pos (position c (codes alphabet)))

-- What byte `c` at index `i` adds to the sum.
abbrev pub weight : ℕ → ℕ → ℤ
weight i c = if i % 2 == 0 then scale 2 (alphabet_index c) else alphabet_index c

-- The loop over the bytes, from index `i`.
unfoldable pub sum_from : ℕ → ℤ → List ℕ → ℤ
sum_from i sum [] = sum
sum_from i sum (c ∷ cs) = sum_from (suc i) (sum +ℤ weight i c) cs

-- `rem_euclid`
unfoldable pub rem_euclid : ℤ → ℕ → ℕ
rem_euclid (pos n) m = n % m
rem_euclid (negsuc n) m = m - 1 - n % m

-- The character at an index.
unfoldable pub char_of : ℕ → String → Char
char_of i String.[] = "0"
char_of zero (String.◌∷◌ c s) = c
char_of (suc i) (String.◌∷◌ c s) = char_of i s

abbrev pub checksum_char : ℤ → ℕ → Char
checksum_char sum i = char_of (rem_euclid (sum +ℤ pos (i * 31)) 32) alphabet

-- The loop that pushes the characters, from index `i` with `left` to go.
unfoldable pub push_from : ℤ → ℕ → ℕ → String
push_from sum i zero = ""
push_from sum i (suc left) = String.◌∷◌ (checksum_char sum i) (push_from sum (suc i) left)

unfoldable pub calculate_checksum : String → ℕ → String
calculate_checksum s length = push_from (sum_from 0 (pos 0) (bytes s)) 0 length

abbrev pub cons_fst : Char → String × String → String × String
cons_fst c (a, b) = (String.◌∷◌ c a, b)

-- `str::split_at`, where `none` is its panic: the index must lie between two characters.
unfoldable pub split_at : ℕ → String → Option (String × String)
split_at k String.[] = if k == 0 then some ("", "") else none
split_at k (String.◌∷◌ c s) =
    let rest = Option.map (cons_fst c) (split_at (k - len_utf8 c) s) in
    if k == 0 then some ("", String.◌∷◌ c s) else if leb (len_utf8 c) k then rest else none

abbrev pub matches : ℕ → String × String → Bool
matches checksum_len (data_part, provided) =
    str_eq (calculate_checksum data_part checksum_len) provided

-- `none` is a panic.
unfoldable pub validate_key : String → ℕ → Option Bool
validate_key key checksum_len =
    if ltb (len key) checksum_len
    then some false
    else Option.map (matches checksum_len) (split_at (len key - checksum_len) key)

abbrev is_separator : Char → Bool
is_separator c = code c == b'-' || code c == b' '

-- `retain`
unfoldable pub retain : String → String
retain String.[] = ""
retain (String.◌∷◌ c s) = let rest = retain s in if is_separator c then rest else String.◌∷◌ c rest

abbrev pub fold_char : Char → Char
fold_char c =
    if code c == b'O'
    then "0"
    else if code c == b'I'
    then "1"
    else if code c == b'L'
    then "1"
    else c

unfoldable pub fold_ambiguous : String → String
fold_ambiguous String.[] = ""
fold_ambiguous (String.◌∷◌ c s) = String.◌∷◌ (fold_char c) (fold_ambiguous s)

-- `upper` is the Unicode table of `char::to_uppercase`.
module _ (upper : Char → String) where
  unfoldable pub to_uppercase : String → String
  to_uppercase String.[] = ""
  to_uppercase (String.◌∷◌ c s) = upper c <> to_uppercase s

  unfoldable pub normalize_key : String → String
  normalize_key input = retain (to_uppercase input)

  unfoldable pub sanitize_key : String → String
  sanitize_key input = fold_ambiguous (retain (to_uppercase input))
