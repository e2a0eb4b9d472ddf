-- ===== src/Errors.antt =====
-- src/error.rs: the error types, with their `Display`.
use latte_rs.Base.{String, ◌<>◌, Option}
use latte_rs.Time.{SystemTime}

pub data VerifyError : Type 0 where
  malformed : String → VerifyError
  invalid_signature : VerifyError
  missing_claim : String → VerifyError
  invalid_claim : String → String → VerifyError
  wrong_issuer : VerifyError
  not_yet_valid : VerifyError
  expired : VerifyError
  chain_inconsistent : String → VerifyError

unfoldable pub display_verify : VerifyError → String
display_verify (malformed s) = "malformed token: " <> s
display_verify invalid_signature = "invalid signature"
display_verify (missing_claim c) = "missing claim: " <> c
display_verify (invalid_claim c why) = "invalid claim " <> c <> ": " <> why
display_verify wrong_issuer = "unexpected issuer"
display_verify not_yet_valid = "token used before issued"
display_verify expired = "token is expired"
display_verify (chain_inconsistent s) = "chain inconsistent: " <> s

pub data ValidateError : Type 0 where
  hard_expired : ValidateError
  grace_expired : ValidateError
  license_too_old : ValidateError
  machine_id_mismatch : ValidateError
  invalid_fields : String → ValidateError

unfoldable pub display_validate : ValidateError → String
display_validate hard_expired = "license expired"
display_validate grace_expired = "grace period expired"
display_validate license_too_old = "license too old"
display_validate machine_id_mismatch = "machine ID does not match"
display_validate (invalid_fields s) = "invalid license: " <> s

pub data AppIdError : Type 0 where
  invalid_format : AppIdError
  unknown_environment : String → AppIdError
  invalid_key_segment : AppIdError
  invalid_checksum : AppIdError

unfoldable pub display_app_id : AppIdError → String
display_app_id invalid_format = "invalid AppID"
display_app_id (unknown_environment e) = "unknown environment: " <> e
display_app_id invalid_key_segment = "invalid app id key segment"
display_app_id invalid_checksum = "invalid app id checksum"

pub data LatteError : Type 0 where
  invalid_key : LatteError
  license_expired : LatteError
  not_activated : LatteError
  seat_limit : LatteError
  license_not_found : LatteError
  invalid_project_key : LatteError
  deactivation_blocked : (message reason : String) (available_at : Option SystemTime) → LatteError
  invalid_app_id : AppIdError → LatteError
  machine_id_unavailable : LatteError
  storage : String → LatteError
  network : String → LatteError
  server : String → LatteError

unfoldable pub display_latte : LatteError → String
display_latte invalid_key = "invalid license key"
display_latte license_expired = "license expired"
display_latte not_activated = "not activated on this machine"
display_latte seat_limit = "activation seat limit reached"
display_latte license_not_found = "license not found"
display_latte invalid_project_key = "invalid project key"
display_latte (deactivation_blocked message reason available_at) =
    "deactivation blocked: " <> message
display_latte (invalid_app_id e) = display_app_id e
display_latte machine_id_unavailable = "cannot determine machine ID; set Config::machine_id"
display_latte (storage s) = "storage error: " <> s
display_latte (network s) = "network error: " <> s
display_latte (server s) = s
