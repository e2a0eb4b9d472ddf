-- ===== src/Operations/Uncached.antt =====
-- src/http.rs: the operations of the crate built without the feature `cache`, which share nothing
-- and keep nothing.
pub mod Same
use latte_rs.Base.{none, Char, String, ◌<>◌, List, [], ◌∷◌, Result, ok, err, ◌>>=◌, ◌>>◌}
use latte_rs.Time.{SystemTime}
use latte_rs.Crates.{Crates}
use latte_rs.Errors.{LatteError}
use latte_rs.Domain.{CertChain}
use latte_rs.Check.{PublicLicense}
use latte_rs.Key.{normalize_key}
use latte_rs.Wire.{call}
use latte_rs.Server.{Server, Body, credentials_request, DeactivateResult}
use latte_rs.Config.{Sdk}
use latte_rs.Renewal.{verify_and_validate}
use latte_rs.Operations.{validate_license_key, activate_body, credentials_of, post_token}

-- What an operation gives, and the requests that it sent.
abbrev pub Answered : Type 0 → Type 0
Answered A = Result A LatteError × List (String × Body)

module _ (C : Crates) (sdk : Sdk C) (server : Server) where
  -- The end of `activate` and `renew`.
  abbrev pub verified_answer :
      SystemTime → Result (String × CertChain) LatteError → Result PublicLicense LatteError
  verified_answer now answer = do
    activation ← answer
    verify_and_validate C sdk.master_pubs sdk.machine_id now activation

  unfoldable pub activate_uncached :
      (upper : Char → String) (verified : SystemTime) → String → Answered PublicLicense
  activate_uncached upper verified license_key =
      let normalized = normalize_key upper license_key in
      elim (validate_license_key normalized) [
        | err e ↦ (err e, [])
        | ok _ ↦
            let body = activate_body C sdk normalized in
            (
              verified_answer verified (post_token C sdk server "/v1/activate" body),
              ("/v1/activate", body) ∷ [],
            )
      ]

  unfoldable pub renew_uncached : (verified : SystemTime) → String → String → Answered PublicLicense
  renew_uncached verified activation_id license_key =
      let body = credentials_request (credentials_of C sdk activation_id license_key none) in
      (
        verified_answer verified (post_token C sdk server "/v1/renew" body),
        ("/v1/renew", body) ∷ [],
      )

  unfoldable pub deactivate_uncached : String → String → Answered DeactivateResult
  deactivate_uncached activation_id license_key =
      let body = credentials_request (credentials_of C sdk activation_id license_key none) in
      (
        (do
          result ←
              call server.show_status server.decode_error server.decode_deactivation
                "/v1/deactivate" (server.send (sdk.base_url <> "/v1/deactivate") body)
          ok result),
        ("/v1/deactivate", body) ∷ [],
      )
