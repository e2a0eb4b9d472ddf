-- ===== src/Jwt.antt =====
-- src/jwt.rs: parsing a compact JWT, checking its Ed25519 signature, its issuer and its time claims.
pub mod Times
pub mod Authentic
use mathlib.Core.Option
use latte_rs.Base.{
  ℕ, ◌-◌, ◌^◌, String, ◌<>◌, Bool, true, false, not, ◌&&◌, Option, none, some, List, [], ◌∷◌,
  str_eq, ◌==◌, length, get_or, and_then, show_ℕ, split, if◌then◌else◌, Result, ok, err, ensure,
  map_err, ok_or, ◌>>=◌, ◌>>◌,
}
use latte_rs.Base.Int.{ℤ, pos, ◌+ℤ◌, ◌-ℤ◌, ltb_ℤ, i64_max, wrap_i64}
use latte_rs.Base.Float.{F64, as_int}
use latte_rs.Time.{SystemTime, Duration, unix_epoch, as_secs, duration_since}
use latte_rs.Json.{Value, number, Map, get, as_str, as_object, field}
use latte_rs.Crates.{Crates, Bytes}
use latte_rs.Errors.{
  VerifyError, malformed, invalid_signature, wrong_issuer, not_yet_valid, expired,
}

-- `u64::MAX`, which stands for an infinite leeway.
abbrev pub u64_max : ℕ
u64_max = 2 ^ 64 - 1

abbrev secs_or_zero : Option Duration → ℤ
secs_or_zero none = pos 0
secs_or_zero (some d) = wrap_i64 (pos (as_secs d))

-- `now` in whole seconds since the epoch, 0 before it. A u64 is cast to i64.
unfoldable pub now_unix : SystemTime → ℤ
now_unix now = secs_or_zero (duration_since now unix_epoch)

-- The tests of an optional claim: none holds when it is absent.
abbrev pub after : Option ℤ → ℤ → Bool
after none limit = false
after (some t) limit = ltb_ℤ limit t

abbrev pub before : Option ℤ → ℤ → Bool
before none limit = false
before (some t) limit = ltb_ℤ t limit

-- `.filter(|_| check)`
abbrev pub keep_if {ℓ} : {A : Type ℓ} → Bool → Option A → Option A
keep_if true o = o
keep_if false o = none

-- The split of a token into its three parts.
unfoldable pub three_parts : List String → Result (String × String × String) VerifyError
three_parts (header ∷ payload ∷ sig ∷ []) = ok (header, payload, sig)
three_parts parts =
    err (malformed ("expected 3 dot-separated parts, got " <> show_ℕ (length parts)))

module _ (C : Crates) where
  open C use {Number, as_f64, from_slice, base64_decode, VerifyingKey, verify_strict}

  -- `Value::as_f64`
  abbrev pub value_as_f64 : Value Number → Option F64
  value_as_f64 (number n) = as_f64 n
  value_as_f64 _ = none

  -- `claim_as_i64` and `claim_i64`
  unfoldable pub claim_i64 : Map Number → String → Option ℤ
  claim_i64 claims key = Option.map (as_int i64_max) (and_then (get key claims) value_as_f64)

  unfoldable pub claim_str : Map Number → String → Option String
  claim_str claims key = and_then (get key claims) as_str

  unfoldable pub check_time_claims :
      Map Number → SystemTime → ℕ → Bool → Result (Unit {0}) VerifyError
  check_time_claims claims now leeway_secs check_exp =
      let leeway = wrap_i64 (pos leeway_secs) in
      let latest = wrap_i64 (now_unix now +ℤ leeway) in
      let earliest = wrap_i64 (now_unix now -ℤ leeway) in
      do
        ensure (not (after (claim_i64 claims "iat") latest)) not_yet_valid
        ensure (not (after (claim_i64 claims "nbf") latest)) not_yet_valid
        ensure (not (before (keep_if check_exp (claim_i64 claims "exp")) earliest)) expired

  -- The header must name the algorithm.
  unfoldable pub check_header : String → Result (Unit {0}) VerifyError
  check_header header_b64 = do
    header_bytes ← map_err (λ e. malformed ("header base64: " <> e)) (base64_decode header_b64)
    header ← map_err (λ e. malformed ("header json: " <> e)) (from_slice header_bytes)
    let alg = get_or "" (and_then (field "alg" header) as_str)
    ensure (str_eq alg "EdDSA") (malformed ("unexpected alg: " <> alg))

  unfoldable pub decode_claims : String → Result (Map Number) VerifyError
  decode_claims payload_b64 = do
    payload_bytes ← map_err (λ e. malformed ("payload base64: " <> e)) (base64_decode payload_b64)
    payload ← map_err (λ e. malformed ("payload json: " <> e)) (from_slice payload_bytes)
    ok_or (malformed "payload is not a JSON object") (as_object payload)

  unfoldable pub check_signature : VerifyingKey → String → String → Result (Unit {0}) VerifyError
  check_signature pub_key signing_input sig_b64 = do
    sig ← map_err (λ e. malformed ("signature base64: " <> e)) (base64_decode sig_b64)
    ensure (length sig == 64) (malformed "signature is not 64 bytes")
    ensure (verify_strict pub_key signing_input sig) invalid_signature

  unfoldable pub parse_and_verify_inner :
      String → VerifyingKey → String → SystemTime → ℕ → Bool → Result (Map Number) VerifyError
  parse_and_verify_inner token pub_key expected_issuer now leeway_secs check_exp = do
    (header_b64, payload_b64, sig_b64) ← three_parts (split "." token)
    check_header header_b64
    claims ← decode_claims payload_b64
    check_signature pub_key (header_b64 <> "." <> payload_b64) sig_b64
    ensure (str_eq (get_or "" (claim_str claims "iss")) expected_issuer) wrong_issuer
    if leeway_secs == u64_max then ok tt else check_time_claims claims now leeway_secs check_exp
    ok claims

  unfoldable pub parse_and_verify :
      String → VerifyingKey → String → SystemTime → Result (Map Number) VerifyError
  parse_and_verify token pub_key expected_issuer now =
      parse_and_verify_inner token pub_key expected_issuer now 0 true

  unfoldable pub parse_and_verify_ignoring_expiry :
      String → VerifyingKey → String → SystemTime → Result (Map Number) VerifyError
  parse_and_verify_ignoring_expiry token pub_key expected_issuer now =
      parse_and_verify_inner token pub_key expected_issuer now 0 false

  unfoldable pub parse_and_verify_with_infinite_leeway :
      String → VerifyingKey → String → Result (Map Number) VerifyError
  parse_and_verify_with_infinite_leeway token pub_key expected_issuer =
      parse_and_verify_inner token pub_key expected_issuer unix_epoch u64_max false
