-- ===== src/Key/RoundTrip.antt =====
-- Keys that carry their checksum are accepted; and where `validate_key` panics.
use mathlib.Core.Option
use text.Mathlib.TextLemmas.{nil-append, cons-append}
use text.Mathlib.TextPositions.{eq_refl}
use latte_rs.Base.{
  ℕ, zero, suc, ◌+◌, ◌-◌, ◌<◌, Char, code, String, ◌<>◌, ◌≡◌, refl, ap, true, none, some, arith,
  len, len_utf8, ltb_of_le, ◌∙◌, ◌*◌, str_eq,
}
use latte_rs.Base.Int.{ℤ, pos, ◌+ℤ◌}
use latte_rs.Key.{
  checksum_char, push_from, calculate_checksum, split_at, cons_fst, validate_key, char_of, alphabet,
  rem_euclid, sum_from, bytes,
}

len_utf8_pos : (c : Char) → 0 < len_utf8 c
unfolding len_utf8
len_utf8_pos c = ground arith

pub len-append : (s t : String) → len (s <> t) ≡ len s + len t
unfolding len
len-append String.[] t = rw nil-append (omega arith)
len-append (String.◌∷◌ c s) t = rw cons-append (omega (arith, len-append s t))

split_at-cons :
    (c : Char) (k : ℕ) (s : String)
    → split_at (len_utf8 c + k) (String.◌∷◌ c s) ≡ Option.map (cons_fst c) (split_at k s)
unfolding split_at
split_at-cons c k s =
    let e : len_utf8 c + k - len_utf8 c ≡ k = omega arith in rw e (ground (arith, len_utf8_pos c))

split_at-zero : (s : String) → split_at 0 s ≡ some ("", s)
unfolding split_at
split_at-zero String.[] = refl
split_at-zero (String.◌∷◌ c s) = refl

-- Cutting between two texts gives them back.
pub split_at-append : (s t : String) → split_at (len s) (s <> t) ≡ some (s, t)
unfolding len
split_at-append String.[] t = rw nil-append (split_at-zero t)
split_at-append (String.◌∷◌ c s) t =
    rw cons-append
      (split_at-cons c (len s) (s <> t) ∙ ap (Option.map (cons_fst c)) (split_at-append s t))

abbrev IsAscii : String → Type 0
IsAscii String.[] = Unit
IsAscii (String.◌∷◌ c s) = (code c < 128) × IsAscii s

char_of-IsAscii : (i : ℕ) (s : String) → IsAscii s → code (char_of i s) < 128
unfolding char_of
char_of-IsAscii i String.[] h = omega arith
char_of-IsAscii zero (String.◌∷◌ c s) h = h.0
char_of-IsAscii (suc i) (String.◌∷◌ c s) h = char_of-IsAscii i s h.1

-- Every character of a checksum is one byte.
checksum_char-len_utf8 : (sum : ℤ) (i : ℕ) → len_utf8 (checksum_char sum i) ≡ 1
unfolding len_utf8
checksum_char-len_utf8 sum i =
    ground (arith, char_of-IsAscii (rem_euclid (sum +ℤ pos (i * 31)) 32) alphabet (omega arith))

len-push_from : (sum : ℤ) (i left : ℕ) → len (push_from sum i left) ≡ left
unfolding push_from len
len-push_from sum i zero = refl
len-push_from sum i (suc left) =
    omega (arith, len-push_from sum (suc i) left, checksum_char-len_utf8 sum i)

-- A key is accepted when the checksum of its data is the one that it ends in.
pub validate_key-append :
    (s t : String) (n : ℕ)
    → validate_key (t <> calculate_checksum s n) n
      ≡ some (str_eq (calculate_checksum t n) (calculate_checksum s n))
unfolding validate_key calculate_checksum
validate_key-append s t n =
    let sum = sum_from 0 (pos 0) (bytes s) in
    let whole : len (t <> push_from sum 0 n) ≡ len t + n =
      omega (arith, len-append t (push_from sum 0 n), len-push_from sum 0 n) in
    let rest : len t + n - n ≡ len t = omega arith in
    rw (whole, ltb_of_le (len t + n) n (omega arith), rest, split_at-append t (push_from sum 0 n))

-- Whatever the data, followed by its checksum it is a valid key.
validate_key-checksum :
    (s : String) (n : ℕ) → validate_key (s <> calculate_checksum s n) n ≡ some true
validate_key-checksum s n = rw (validate_key-append s s n, eq_refl (calculate_checksum s n)) refl

split_at_inside :
    (d e : String) (c : Char) (k : ℕ)
    → len d < k
    → k < len d + len_utf8 c
    → split_at k (d <> (String.◌∷◌ c e)) ≡ none
unfolding split_at len
split_at_inside String.[] e c k h l = rw nil-append (ground arith)
split_at_inside (String.◌∷◌ b d) e c k h l =
    rw cons-append (ground (arith, split_at_inside d e c (k - len_utf8 b)))

-- `validate_key` panics on every key that has a character of several bytes across the place where
-- its checksum would begin.
pub validate_key_panics :
    (d e : String) (c : Char) (n : ℕ)
    → len e < n
    → n < len_utf8 c + len e
    → validate_key (d <> (String.◌∷◌ c e)) n ≡ none
unfolding validate_key len
validate_key_panics d e c n h l =
    let whole : len (d <> (String.◌∷◌ c e)) ≡ len d + (len_utf8 c + len e) =
      len-append d (String.◌∷◌ c e) in
    rw (
      whole,
      ltb_of_le (len d + (len_utf8 c + len e)) n (omega arith),
      split_at_inside d e c (len d + (len_utf8 c + len e) - n) (omega arith) (omega arith),
    )
