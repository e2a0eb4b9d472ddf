-- ===== src/Tests/Keys.antt =====
-- The theorems on keys, app ids and entitlements at concrete inputs.
use latte_rs.Base.{
  ℕ, Bool, ◌≡◌, ◌↔◌, refl, some, none, ok, true, arith, Char, code, String, ◌<>◌, len, len_utf8,
  ◌==◌, if◌then◌else◌, Bool-cases, inl, inr, ◌⊎◌, ◌+◌, ◌%◌,
}
use latte_rs.Base.Int.{ℤ, pos}
use latte_rs.Base.Float.{finite}
use latte_rs.Json.{number}
use latte_rs.Crates.{Crates}
use latte_rs.Entitlements.{int, bool, decode_value}
use latte_rs.Entitlements.Decode.{Stands, decode_value_iff}
use latte_rs.Json
use latte_rs.Key.{char_of, normalize_key, sanitize_key}
use latte_rs.Key.Typos.{Passes, typos_iff}
use latte_rs.Key.Normal.{Every, IsUpperTable, IsClean, normal_forms}
use latte_rs.AppId.{live, AppId, parse_app_id}
use latte_rs.AppId.Shape.{print, IsKeySegment, parse_app_id_iff, parse_app_id_panics}
use latte_rs.Tests.Toy.{toy}

-- No number is an i64, and every number is the float 2 * 2 ^ 1.
abbrev floats : Crates
floats = record toy { as_i64 = λ n. none; as_f64 = λ n. some (finite true 2 (pos 1)) }

decode_value_iff_example :
    ((b : Bool)
      → (decode_value floats (number (pos 7)) ≡ some (bool b)) ↔ (number (pos 7) ≡ Json.bool b))
    × ((i : ℤ)
        → (decode_value floats (number (pos 7)) ≡ some (int i))
          ↔ ((n : ℤ) × (number (pos 7) ≡ number n) × Stands floats n i))
decode_value_iff_example = decode_value_iff floats (number (pos 7))

abbrev project : AppId
project = record { env = live; key = "ABCDEFGH12345678ABCDEFGH1234" <> "0ZYX" }

parse_app_id_iff_example :
    (parse_app_id "pk_live_ABCDEFGH12345678ABCDEFGH12340ZYX" ≡ some (ok project))
    ↔ (("pk_live_ABCDEFGH12345678ABCDEFGH12340ZYX" ≡ print project) × IsKeySegment project.key)
parse_app_id_iff_example = parse_app_id_iff "pk_live_ABCDEFGH12345678ABCDEFGH12340ZYX" project

parse_app_id_panics_example :
    parse_app_id (print (record { env = live; key = "ABCDEFGH12345678ABCDEFGH123" <> "éXYZ" }))
    ≡ none
unfolding len len_utf8
parse_app_id_panics_example =
    parse_app_id_panics live "ABCDEFGH12345678ABCDEFGH123" "XYZ" "é" (omega arith) refl
      (omega arith) (omega arith)

abbrev sixteen : ℕ
sixteen = 16

typos_iff_example :
    (Passes ("AB" <> "GC") ("AB" <> "0C") 4
      ↔ ((sixteen ≡ 0) ⊎ (len "AB" % 2 ≡ 0) × ((sixteen ≡ 0 + 16) ⊎ (0 ≡ sixteen + 16))))
    × (Passes ("AB" <> "G0C") ("AB" <> "0GC") 4 ↔ (sixteen ≡ 0))
unfolding char_of
typos_iff_example = typos_iff "AB" "C" 16 0 3 (omega arith) (omega arith)

-- A zero typed for a G at an even index.
unseen : Passes "ABGC" "AB0C" 4
unfolding char_of len len_utf8
unseen = (typos_iff "AB" "C" 16 0 3 (omega arith) (omega arith)).0.1 (inr (refl, inl refl))

-- Uppercase of one letter.
abbrev upper : Char → String
upper c = if code c == b'o' then "O" else String.◌∷◌ c ""

upper-IsUpperTable : IsUpperTable upper
upper-IsUpperTable = record {
  upper_again = λ c. elim (Bool-cases (code c == b'o')) [
    | inl e ↦ rw e (refl, tt)
    | inr e ↦ rw e (rw e refl, tt)
  ];
  digits = (refl, refl);
}

normal_forms_example :
    (normalize_key upper (normalize_key upper "A-o 1") ≡ normalize_key upper "A-o 1")
    × (sanitize_key upper (sanitize_key upper "A-o 1") ≡ sanitize_key upper "A-o 1")
    × (sanitize_key upper (normalize_key upper "A-o 1") ≡ sanitize_key upper "A-o 1")
    × Every IsClean (sanitize_key upper "A-o 1")
normal_forms_example = normal_forms upper upper-IsUpperTable "A-o 1"
