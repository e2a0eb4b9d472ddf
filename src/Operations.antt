-- ===== src/Operations.antt =====
-- src/http.rs: the operations of `Sdk` that post from the caller's thread. An operation takes what
-- the clones share and gives it back with its result and with the requests that it sent. It is run
-- here with no other thread between its steps; `writes` and `clears` say whether the cache file can
-- be written and removed, and a time is an argument for each reading of the clock.
pub mod Effects
pub mod Replayed
pub mod Requests
pub mod Unreachable
pub mod Uncached
use latte_rs.Base.{
  ℕ, ◌+◌, String, ◌<>◌, Char, Bool, true, false, not, ◌&&◌, ◌||◌, Option, none, some, List, [], ◌∷◌,
  str_eq, is_empty, len, ltb, and_then, to_option, if◌then◌else◌, Result, ok, err, map_err, ensure,
  ◌>>=◌, ◌>>◌,
}
use latte_rs.Time.{SystemTime}
use latte_rs.Crates.{Crates}
use latte_rs.Errors.{
  LatteError, invalid_key, license_not_found, license_expired, invalid_project_key,
}
use latte_rs.Domain.{License, CertChain}
use latte_rs.Key.{sanitize_key, normalize_key}
use latte_rs.Verify.{verify_activation_any_at}
use latte_rs.Validate.{validate_at, in_grace_period}
use latte_rs.Check.{PublicLicense, to_public_license}
use latte_rs.Wire.{call, post}
use latte_rs.Server.{
  Server, Body, activate_request, credentials_request, CredentialsRequest, sdk_info,
  DeactivateResult, Machine, MachinesResponse, RenameResponse,
}
use latte_rs.Renewal.{Shared, save, clear, holds_activation, note_renewal, verify_and_validate}
use latte_rs.Config.{Sdk}

pub record Done (A : Type 0) : Type 0 where
  pub result : Result A LatteError
  pub after : Shared
  pub sent : List (String × Body)

abbrev pub validate_license_key : String → Result (Unit {0}) LatteError
validate_license_key normalized =
    ensure (not (is_empty normalized || ltb 256 (len normalized))) invalid_key

unfoldable pub save_to_cache : Bool → String × CertChain → Shared → Shared
save_to_cache writes activation s =
    let cleared = record s { renewal_failed = false } in
    if s.has_path then save writes activation cleared else cleared

unfoldable pub clear_cache : Bool → Shared → Shared
clear_cache clears s =
    let cleared = record s { renewal_failed = false } in
    if s.has_path then clear clears cleared else cleared

-- The three errors that mean that the activation no longer exists.
abbrev pub is_refusal : {A : Type 0} → Result A LatteError → Bool
is_refusal (err license_not_found) = true
is_refusal (err license_expired) = true
is_refusal (err invalid_project_key) = true
is_refusal _ = false

-- Whether a cached licence answers for the key that the caller gave.
abbrev pub answers_for : String → String → PublicLicense × String → Bool
answers_for sanitized normalized (lic, alias) =
    str_eq lic.key sanitized || (not (is_empty alias) && str_eq alias normalized)

module _ (C : Crates) (sdk : Sdk C) where
  -- A loaded activation with its alias, if it verifies and validates.
  abbrev pub usable : SystemTime → Bool → String × CertChain → Option (PublicLicense × String)
  usable now failed (token, chain) =
      and_then (to_option (verify_activation_any_at C sdk.master_pubs token chain now)) (λ license.
        and_then (to_option (validate_at license sdk.machine_id now)) (λ _.
          some (to_public_license license (in_grace_period license now failed), license.alias)))

  unfoldable pub cached_license : SystemTime → Shared → Option (PublicLicense × String)
  cached_license now s = if s.has_path then and_then s.file (usable now s.renewal_failed) else none

  abbrev pub credentials_of : String → String → Option String → CredentialsRequest
  credentials_of activation_id license_key machine_name = record {
    activation_id = activation_id;
    license_key = license_key;
    machine_id = sdk.machine_id;
    machine_name = machine_name;
    sdk = sdk_info;
  }

  abbrev pub activate_body : String → Body
  activate_body normalized = activate_request (record {
    project_key = sdk.app_id;
    license_key = normalized;
    machine_id = sdk.machine_id;
    machine_name = sdk.machine_name;
    sdk = sdk_info;
  })

  module _ (server : Server) where
    unfoldable pub post_token : String → Body → Result (String × CertChain) LatteError
    post_token path body =
        post server.show_status server.decode_error server.decode_token path
          (server.send (sdk.base_url <> path) body)

    module _ (writes clears : Bool) where
      -- What `post_and_handle_invalidation` does to the cache once the answer is there.
      abbrev pub handle_invalidation : Result (String × CertChain) LatteError → Shared → Shared
      handle_invalidation answer s = if is_refusal answer then clear_cache clears s else s

      abbrev pub keep : String × CertChain → Result PublicLicense LatteError → Shared → Shared
      keep activation (ok lic) s = save_to_cache writes activation s
      keep activation (err e) s = s

      -- The end of `activate` and `renew`: a token is verified, and cached if it is good.
      abbrev pub complete :
          SystemTime
          → Result (String × CertChain) LatteError
          → List (String × Body)
          → Shared
          → Done PublicLicense
      complete now (err e) sent s = record { result = err e; after = s; sent = sent }
      complete now (ok activation) sent s =
          let lic = verify_and_validate C sdk.master_pubs sdk.machine_id now activation in
          record { result = lic; after = keep activation lic s; sent = sent }

      abbrev pub activate_online : SystemTime → String → Shared → Done PublicLicense
      activate_online verified normalized s =
          let answer = post_token "/v1/activate" (activate_body normalized) in
          complete verified answer (("/v1/activate", activate_body normalized) ∷ [])
            (handle_invalidation answer s)

      abbrev pub activate_unless :
          SystemTime
          → String
          → String
          → Option (PublicLicense × String)
          → Shared
          → Done PublicLicense
      activate_unless verified sanitized normalized none s = activate_online verified normalized s
      activate_unless verified sanitized normalized (some (lic, alias)) s =
          if answers_for sanitized normalized (lic, alias)
          then record { result = ok lic; after = s; sent = [] }
          else activate_online verified normalized s

      unfoldable pub activate :
          (upper : Char → String) (cached verified : SystemTime)
          → String
          → Shared
          → Done PublicLicense
      activate upper cached verified license_key s =
          let normalized = normalize_key upper license_key in
          elim (validate_license_key normalized) [
            | err e ↦ record { result = err e; after = s; sent = [] }
            | ok _ ↦
                activate_unless verified (sanitize_key upper license_key) normalized
                  (cached_license cached s) s
          ]

      unfoldable pub renew :
          (started noted verified : SystemTime) → String → String → Shared → Done PublicLicense
      renew started noted verified activation_id license_key s =
          let begun = record s { renewal = record s.renewal { last_attempt = some started } } in
          let body = credentials_request (credentials_of activation_id license_key none) in
          let renewed = post_token "/v1/renew" body in
          let handled = handle_invalidation renewed begun in
          let holds = holds_activation C sdk.master_pubs activation_id noted handled in
          complete verified renewed (("/v1/renew", body) ∷ [])
            (note_renewal C sdk.master_pubs holds renewed handled)

      abbrev pub after_release : Result DeactivateResult LatteError → Shared → Shared
      after_release (ok _) s = clear_cache clears s
      after_release (err e) s = s

      unfoldable pub deactivate : String → String → Shared → Done DeactivateResult
      deactivate activation_id license_key s =
          let body = credentials_request (credentials_of activation_id license_key none) in
          let result =
            call server.show_status server.decode_error server.decode_deactivation "/v1/deactivate"
              (server.send (sdk.base_url <> "/v1/deactivate") body) in
          record {
            result = result;
            after = after_release result s;
            sent = ("/v1/deactivate", body) ∷ [];
          }

    unfoldable pub machines : String → String → Result (List Machine) LatteError
    machines activation_id license_key = do
      result ← call server.show_status server.decode_error server.decode_machines "/v1/machines" (
          server.send (sdk.base_url <> "/v1/machines")
            (credentials_request (credentials_of activation_id license_key none)))
      ok result.machines

    unfoldable pub rename_machine : String → String → String → Result String LatteError
    rename_machine activation_id license_key name = do
      result ←
          call server.show_status server.decode_error server.decode_rename "/v1/machines/rename" (
            server.send (sdk.base_url <> "/v1/machines/rename")
              (credentials_request (credentials_of activation_id license_key (some name))))
      ok result.machine_name
