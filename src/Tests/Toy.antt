-- ===== src/Tests/Toy.antt =====
-- Concrete stand-ins for the crates: numbers are integers, keys are bytes, a text decodes to its
-- code points, and a signature by a key is 64 times that byte.
use latte_rs.Base.{
  ℕ, zero, suc, Char, String, ◌<>◌, true, false, some, [], ◌∷◌, ◌==◌, codes, Result, ok, err,
  if◌then◌else◌,
}
use latte_rs.Base.Int.{ℤ, pos, negsuc}
use latte_rs.Base.Float.{F64, finite}
use latte_rs.Json.{Value, null, number, string, object, Map, empty, entry}
use latte_rs.Crates.{Crates, Bytes}
use latte_rs.Domain.{CertChain, from_claim}
use latte_rs.Base.{split, show_ℕ}
use latte_rs.Base.Int.{wrap_i64, ◌+ℤ◌, ◌-ℤ◌}
use latte_rs.Base.Float.{as_int, trunc, is_whole}
use latte_rs.Time.{duration_since, unix_to_system_time}
use latte_rs.HashMap.{insert, lookup}
use latte_rs.Json.{get}
use latte_rs.Entitlements.{decode_entitlements, decode_from, decode_value, whole}
use latte_rs.Jwt.{
  parse_and_verify, parse_and_verify_ignoring_expiry, parse_and_verify_with_infinite_leeway,
  parse_and_verify_inner, three_parts, check_header, decode_claims, check_signature,
  check_time_claims, now_unix, claim_i64, claim_str,
}
use latte_rs.Verify.{
  verify_activation_any_at, verify_activation_at, verify_submaster, pub_key_from_cert,
  pub_key_from_bytes, license_of, cross_check, decode_metadata,
}
use latte_rs.Validate.{validate_at, in_grace_period, is_valid}
use latte_rs.Check.{
  check_license_any_at_with_renewal_failed, check_license_any_at, to_public_license,
}

abbrev to_float : ℤ → F64
to_float (pos n) = finite false n (pos 0)
to_float (negsuc n) = finite true (suc n) (pos 0)

abbrev first : Bytes → ℕ
first [] = 0
first (b ∷ bs) = b

abbrev replicate : ℕ → ℕ → Bytes
replicate zero b = []
replicate (suc n) b = b ∷ replicate n b

abbrev pub header : Value ℤ
header = object (entry "alg" (string "EdDSA") empty)

abbrev pub submaster_claims : Map ℤ
submaster_claims = entry "iss" (string "licenselatte") (
    entry "iat" (number (pos 1000))
      (entry "exp" (number (pos 9000)) (entry "spk" (string "s") empty)))

abbrev pub project_claims : Map ℤ
project_claims = entry "iss" (string "licenselatte") (
    entry "iat" (number (pos 1000)) (
      entry "exp" (number (pos 9000))
        (entry "ppk" (string "p") (entry "pid" (string "proj") empty))))

abbrev pub daily_claims : Map ℤ
daily_claims = entry "iss" (string "licenselatte") (
    entry "iat" (number (pos 3000))
      (entry "exp" (number (pos 4000)) (entry "dpk" (string "d") empty)))

abbrev pub features : Map ℤ
features =
    entry "export" (Value.bool true) (entry "seats" (number (pos 25)) (entry "note" null empty))

abbrev pub token_claims : Map ℤ
token_claims = entry "iss" (string "licenselatte") (
    entry "sub" (string "KEY") (
      entry "aid" (string "ACT") (
        entry "pid" (string "proj") (
          entry "mid" (string "machine") (
            entry "iat" (number (pos 3500))
              (entry "exp" (number (pos 9500)) (entry "ent" (object features) empty)))))))

-- The payloads are named by one character.
abbrev parse : ℕ → Result (Value ℤ) String
parse c =
    if c == b'H'
    then ok header
    else if c == b'S'
    then ok (object submaster_claims)
    else if c == b'P'
    then ok (object project_claims)
    else if c == b'D'
    then ok (object daily_claims)
    else if c == b'T'
    then ok (object token_claims)
    else err "unknown"

abbrev pub toy : Crates
toy = record {
  Number = ℤ;
  as_i64 = λ n. some n;
  as_f64 = λ n. some (to_float n);
  from_slice = λ bytes. parse (first bytes);
  base64_decode = λ s. ok (codes s);
  hex_decode = λ s. ok (replicate 32 (first (codes s)));
  VerifyingKey = ℕ;
  key_from_bytes = λ bytes. ok (first bytes);
  verify_strict = λ key input sig. first sig == key;
}

abbrev repeat : ℕ → Char → String
repeat zero c = ""
repeat (suc n) c = String.◌∷◌ c (repeat n c)

abbrev pub signed : Char → Char → String
signed payload key = "H." <> (String.◌∷◌ payload ("." <> repeat 64 key))

abbrev pub chain : CertChain
chain = record { submaster = signed "S" "m"; project = signed "P" "s"; daily = signed "D" "p" }

abbrev pub token : String
token = signed "T" "d"

-- 6000 seconds after the epoch.
abbrev pub now : ℤ
now = pos 6_000_000_000_000

-- What a run of the pipeline computes with.
unfoldable pub evaluation : Unit {0}
unfolding check_license_any_at_with_renewal_failed check_license_any_at to_public_license
    verify_activation_any_at verify_activation_at verify_submaster pub_key_from_cert
    pub_key_from_bytes license_of cross_check decode_metadata parse_and_verify
    parse_and_verify_ignoring_expiry parse_and_verify_with_infinite_leeway parse_and_verify_inner
    three_parts split check_header decode_claims check_signature check_time_claims now_unix
    claim_i64 claim_str get wrap_i64 ◌+ℤ◌ ◌-ℤ◌ as_int trunc is_whole duration_since
    unix_to_system_time from_claim decode_entitlements decode_from decode_value whole insert lookup
    validate_at in_grace_period is_valid show_ℕ
evaluation = tt
