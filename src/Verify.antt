-- ===== src/Verify.antt =====
-- src/verify.rs: the certificate chain from a master key to the activation token, the licence that
-- the token states, and the cross-checks between the links.
pub mod Trust
pub mod Formats
use mathlib.Core.Option
use latte_rs.Base.{
  ℕ, ◌*◌, String, ◌<>◌, Bool, true, false, not, ◌&&◌, ◌||◌, Option, none, some, List, [], ◌∷◌,
  str_eq, ◌==◌, ltb, length, get_or, and_then, is_empty, show_ℕ, Result, ok, err, ensure, map_err,
  ok_or, ◌>>=◌, ◌>>◌,
}
use latte_rs.Base.Int.{ℤ, pos, pos_part, ◌-ℤ◌, ltb_ℤ, wrap_i64}
use latte_rs.Time.{SystemTime, Duration, from_secs, as_secs, unix_to_system_time}
use latte_rs.HashMap.{HashMap, insert_if}
use latte_rs.Json.{Value, Map, empty, entry, get, as_str, as_object}
use latte_rs.Crates.{Crates, Bytes}
use latte_rs.Errors.{
  VerifyError, invalid_signature, invalid_claim, missing_claim, chain_inconsistent,
}
use latte_rs.Entitlements.{decode_entitlements}
use latte_rs.Domain.{License, CertChain, from_claim}
use latte_rs.Jwt.{
  claim_i64, claim_str, parse_and_verify, parse_and_verify_ignoring_expiry,
  parse_and_verify_with_infinite_leeway,
}

abbrev pub issuer : String
issuer = "licenselatte"

-- 2099-01-01T00:00:00Z
abbrev pub no_licence_end : ℤ
no_licence_end = pos 4_070_908_800

abbrev pub max_grace_period : Duration
max_grace_period = from_secs (90 * 24 * 60 * 60)

-- When the licence ends and for how long it may be used offline, both in seconds. With `grc` the
-- end is `exp`; without it the end is `lex` and `exp` is the offline deadline.
abbrev pub end_and_grace : Option ℤ → Option ℤ → ℤ → ℤ → ℤ × ℤ
end_and_grace (some grc) lex exp iat = (exp, grc)
end_and_grace none lex exp iat = (get_or no_licence_end lex, wrap_i64 (exp -ℤ iat))

-- `if let Some(pid) = …` with its test: whether the certificate's project id lets the token pass.
abbrev pub pid_agrees : Option String → String → Bool
pid_agrees none project_id = true
pid_agrees (some pid) project_id = is_empty pid || str_eq pid project_id

abbrev pub pid_mismatch : String → String → VerifyError
pid_mismatch project_id pid = chain_inconsistent (
    "project_id mismatch between activation JWT (" <> project_id <> ") and project cert (" <> pid
    <> ")")

module _ (C : Crates) where
  open C use {Number, hex_decode, VerifyingKey, key_from_bytes}

  unfoldable pub pub_key_from_bytes : Bytes → Result VerifyingKey VerifyError
  pub_key_from_bytes bytes = do
    ensure (length bytes == 32) (invalid_claim "pubkey" "must be 32 bytes")
    map_err (invalid_claim "pubkey") (key_from_bytes bytes)

  unfoldable pub pub_key_from_cert : Map Number → String → Result VerifyingKey VerifyError
  pub_key_from_cert claims name = do
    hex_str ← ok_or (missing_claim name) (claim_str C claims name)
    bytes ← map_err (λ e. invalid_claim name ("not valid hex: " <> e)) (hex_decode hex_str)
    pub_key_from_bytes bytes

  -- The loop over the master keys: the first that verifies the submaster certificate ends it, and
  -- the error is that of the last.
  unfoldable pub verify_submaster :
      Result (Map Number) VerifyError
      → List VerifyingKey
      → String
      → SystemTime
      → Result (Map Number) VerifyError
  verify_submaster sub [] cert now = sub
  verify_submaster sub (master_pub ∷ master_pubs) cert now =
      elim (parse_and_verify C cert master_pub issuer now) [
        | ok claims ↦ ok claims
        | err e ↦ verify_submaster (err e) master_pubs cert now
      ]

  unfoldable pub decode_metadata : HashMap String → Map Number → HashMap String
  decode_metadata out empty = out
  decode_metadata out (entry k v pmd) = decode_metadata (insert_if k (as_str v) out) pmd

  abbrev metadata_of : Option (Map Number) → HashMap String
  metadata_of none = []
  metadata_of (some pmd) = decode_metadata [] pmd

  abbrev pub text : Map Number → String → String
  text claims name = get_or "" (claim_str C claims name)

  abbrev pub seconds : Map Number → String → ℤ
  seconds claims name = get_or (pos 0) (claim_i64 C claims name)

  abbrev pub ending : Map Number → ℤ × ℤ
  ending claims =
      end_and_grace (claim_i64 C claims "grc") (claim_i64 C claims "lex") (seconds claims "exp")
        (seconds claims "iat")

  -- The licence that an activation token states.
  unfoldable pub license_of : Map Number → License
  license_of claims = record {
    key = text claims "sub";
    alias = text claims "alias";
    activation_id = text claims "aid";
    project_id = text claims "pid";
    machine_id = text claims "mid";
    issued_at = unix_to_system_time (seconds claims "iat");
    expires_at = unix_to_system_time (ending claims).0;
    grace_period = from_secs (pos_part (ending claims).1);
    license_type = from_claim (text claims "ltype");
    metadata = metadata_of (and_then (get "pmd" claims) as_object);
    entitlements = decode_entitlements C claims;
  }

  unfoldable pub cross_check : Map Number → Map Number → License → Result License VerifyError
  cross_check proj daily license = do
    ensure (pid_agrees (claim_str C proj "pid") license.project_id)
        (pid_mismatch license.project_id (text proj "pid"))
    daily_iat ←
        ok_or (missing_claim "iat") (Option.map unix_to_system_time (claim_i64 C daily "iat"))
    daily_exp ←
        ok_or (missing_claim "exp") (Option.map unix_to_system_time (claim_i64 C daily "exp"))
    ensure (not (ltb_ℤ license.issued_at daily_iat))
        (chain_inconsistent "activation JWT iat is before daily cert iat")
    ensure (not (ltb_ℤ daily_exp license.issued_at))
        (chain_inconsistent "activation JWT iat is after daily cert exp")
    ensure (not (ltb max_grace_period license.grace_period)) (
        chain_inconsistent
          ("grace period too long: " <> show_ℕ (as_secs license.grace_period) <> "s"))
    ok license

  unfoldable pub verify_activation_any_at :
      List VerifyingKey → String → CertChain → SystemTime → Result License VerifyError
  verify_activation_any_at master_pubs token chain now = do
    sub ← verify_submaster (err invalid_signature) master_pubs chain.submaster now
    submaster_pub ← pub_key_from_cert sub "spk"
    proj ← parse_and_verify C chain.project submaster_pub issuer now
    project_pub ← pub_key_from_cert proj "ppk"
    daily ← parse_and_verify_ignoring_expiry C chain.daily project_pub issuer now
    daily_pub ← pub_key_from_cert daily "dpk"
    claims ← parse_and_verify_with_infinite_leeway C token daily_pub issuer
    cross_check proj daily (license_of claims)

  unfoldable pub verify_activation_at :
      VerifyingKey → String → CertChain → SystemTime → Result License VerifyError
  verify_activation_at master_pub token chain now =
      verify_activation_any_at (master_pub ∷ []) token chain now
