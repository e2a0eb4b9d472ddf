-- ===== src/MachineId/Texts.antt =====
-- The methods of `str` that src/machine_id.rs calls.
use latte_rs.Base.{
  Char, code, String, is_empty, split, Bool, ◌||◌, ◌&&◌, Option, none, some, List, [], ◌∷◌, ◌==◌,
  leb, is_some, if◌then◌else◌,
}

-- Unicode's White_Space.
abbrev pub is_whitespace : Char → Bool
is_whitespace c =
    let n = code c in
    (leb 9 n && leb n 13)
    || n == 32
    || n == 133
    || n == 160
    || n == 5760
    || (leb 8192 n && leb n 8202)
    || n == 8232
    || n == 8233
    || n == 8239
    || n == 8287
    || n == 12288

unfoldable pub trim_start : String → String
trim_start String.[] = ""
trim_start (String.◌∷◌ c s) =
    let rest = trim_start s in if is_whitespace c then rest else String.◌∷◌ c s

unfoldable pub trim_end_matches : (Char → Bool) → String → String
trim_end_matches test String.[] = ""
trim_end_matches test (String.◌∷◌ c s) =
    let rest = trim_end_matches test s in if is_empty rest && test c then "" else String.◌∷◌ c rest

abbrev pub trim : String → String
trim s = trim_end_matches is_whitespace (trim_start s)

unfoldable pub strip_prefix : (prefix s : String) → Option String
strip_prefix String.[] s = some s
strip_prefix (String.◌∷◌ p prefix) String.[] = none
strip_prefix (String.◌∷◌ p prefix) (String.◌∷◌ c s) =
    let rest = strip_prefix prefix s in if code c == code p then rest else none

unfoldable pub contains : (pattern s : String) → Bool
contains pattern String.[] = is_some (strip_prefix pattern "")
contains pattern (String.◌∷◌ c s) =
    is_some (strip_prefix pattern (String.◌∷◌ c s)) || contains pattern s

abbrev pub cut : Char → Option String → Option (String × String) → Option (String × String)
cut c (some after) later = some ("", after)
cut c none none = none
cut c none (some (before, after)) = some (String.◌∷◌ c before, after)

unfoldable pub split_once : (separator s : String) → Option (String × String)
split_once separator String.[] = elim (strip_prefix separator "") [
  | none ↦ none
  | some after ↦ some ("", after)
]
split_once separator (String.◌∷◌ c s) =
    cut c (strip_prefix separator (String.◌∷◌ c s)) (split_once separator s)

-- One carriage return at the end.
unfoldable pub strip_return : String → String
strip_return String.[] = ""
strip_return (String.◌∷◌ c s) =
    let rest = strip_return s in if is_empty s && (code c == 13) then "" else String.◌∷◌ c rest

-- What follows the last newline is a line unless it is empty, and keeps its carriage return.
abbrev pub lines_of : List String → List String
lines_of [] = []
lines_of (last ∷ []) = if is_empty last then [] else last ∷ []
lines_of (p ∷ q ∷ ps) = strip_return p ∷ lines_of (q ∷ ps)

unfoldable pub lines : String → List String
lines s = lines_of (split "\n" s)

abbrev pub find_map {ℓ κ} : {A : Type ℓ} {B : Type κ} → (A → Option B) → List A → Option B
find_map f [] = none
find_map f (x ∷ xs) = let rest = find_map f xs in elim (f x) [ some b ↦ some b | none ↦ rest ]

abbrev pub filter {ℓ} : {A : Type ℓ} → (A → Bool) → List A → List A
filter test [] = []
filter test (x ∷ xs) = let rest = filter test xs in if test x then x ∷ rest else rest
