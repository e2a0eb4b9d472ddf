-- ===== src/Check.antt =====
-- src/lib.rs: the pipeline over a token that is cached or just received, and the public licence.
pub mod Pipeline
pub mod Features
pub mod Between
pub mod Order
use latte_rs.Base.{
  String, ◌<>◌, Bool, true, false, Option, none, some, List, [], ◌∷◌, get_or, is_some, and_then,
  Result, ok, err, map_err, ◌>>=◌, ◌>>◌,
}
use latte_rs.Base.Int.{ℤ}
use latte_rs.Time.{SystemTime, Duration}
use latte_rs.HashMap.{HashMap, lookup}
use latte_rs.Crates.{Crates}
use latte_rs.Errors.{VerifyError, ValidateError, display_verify, display_validate}
use latte_rs.Entitlements.{EntitlementValue, as_bool, as_integer}
use latte_rs.Domain.{License, LicenseType, CertChain}
use latte_rs.Verify.{verify_activation_any_at}
use latte_rs.Validate.{validate_at, in_grace_period}

pub data CheckError : Type 0 where
  verify : VerifyError → CheckError
  validate : ValidateError → CheckError

unfoldable pub display_check : CheckError → String
display_check (verify e) = display_verify e
display_check (validate e) = display_validate e

pub record PublicLicense : Type 0 where
  pub key : String
  pub activation_id : String
  pub project_id : String
  pub issued_at : SystemTime
  pub expires_at : SystemTime
  pub grace_period : Duration
  pub in_grace_period : Bool
  pub license_type : LicenseType
  pub metadata : HashMap String
  pub entitlements : Option (HashMap EntitlementValue)

unfoldable pub can : PublicLicense → String → Bool
can l key = get_or false (and_then (and_then l.entitlements (lookup key)) as_bool)

unfoldable pub limit : PublicLicense → String → Option ℤ
limit l key = and_then (and_then l.entitlements (lookup key)) as_integer

unfoldable pub has_entitlements : PublicLicense → Bool
has_entitlements l = is_some l.entitlements

unfoldable pub to_public_license : License → Bool → PublicLicense
to_public_license license in_grace = record {
  key = license.key;
  activation_id = license.activation_id;
  project_id = license.project_id;
  issued_at = license.issued_at;
  expires_at = license.expires_at;
  grace_period = license.grace_period;
  in_grace_period = in_grace;
  license_type = license.license_type;
  metadata = license.metadata;
  entitlements = license.entitlements;
}

module _ (C : Crates) where
  open C use {VerifyingKey}

  unfoldable pub check_license_any_at_with_renewal_failed :
      List VerifyingKey
      → String
      → CertChain
      → String
      → SystemTime
      → Bool
      → Result PublicLicense CheckError
  check_license_any_at_with_renewal_failed master_pubs token chain machine_id now renewal_failed =
      do
        license ← map_err verify (verify_activation_any_at C master_pubs token chain now)
        map_err validate (validate_at license machine_id now)
        ok (to_public_license license (in_grace_period license now renewal_failed))

  unfoldable pub check_license_any_at :
      List VerifyingKey → String → CertChain → String → SystemTime → Result PublicLicense CheckError
  check_license_any_at master_pubs token chain machine_id now =
      check_license_any_at_with_renewal_failed master_pubs token chain machine_id now false

  unfoldable pub check_license_at_with_renewal_failed :
      VerifyingKey
      → String
      → CertChain
      → String
      → SystemTime
      → Bool
      → Result PublicLicense CheckError
  check_license_at_with_renewal_failed master_pub token chain machine_id now renewal_failed =
      check_license_any_at_with_renewal_failed (master_pub ∷ []) token chain machine_id now
        renewal_failed

  unfoldable pub check_license_at :
      VerifyingKey → String → CertChain → String → SystemTime → Result PublicLicense CheckError
  check_license_at master_pub token chain machine_id now =
      check_license_at_with_renewal_failed master_pub token chain machine_id now false
