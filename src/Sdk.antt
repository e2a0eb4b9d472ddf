-- ===== src/Sdk.antt =====
-- src/http.rs: `Sdk::check`, which answers from the cached token alone. The clock is read twice,
-- once for the verdict and once for the renewal that may start.
pub mod Cached
pub mod Renewed
use latte_rs.Base.{
  String, Bool, true, false, not, ◌&&◌, Option, none, some, List, str_eq, is_empty, if◌then◌else◌,
  Result, ok, err,
}
use latte_rs.Time.{SystemTime}
use latte_rs.Crates.{Crates}
use latte_rs.Errors.{
  LatteError, not_activated, license_expired, VerifyError, ValidateError, hard_expired,
}
use latte_rs.Domain.{License, CertChain}
use latte_rs.Verify.{verify_activation_any_at}
use latte_rs.Validate.{validate_at, in_grace_period}
use latte_rs.Check.{PublicLicense, to_public_license}
use latte_rs.Renewal.{Renewal, Shared, Job, renew_in_background}

-- The verdict on a verified licence, given what `validate_at` says.
abbrev pub verdict :
    License → SystemTime → Bool → Result (Unit {0}) ValidateError → Result PublicLicense LatteError
verdict license now failed (ok _) =
    ok (to_public_license license (in_grace_period license now failed))
verdict license now failed (err hard_expired) = err license_expired
verdict license now failed (err _) = err not_activated

-- Whether a verified licence names an activation of this machine.
abbrev pub is_renewable : String → License → Bool
is_renewable machine_id license =
    str_eq license.machine_id machine_id
    && (not (is_empty license.activation_id) && not (is_empty license.key))

pub record Outcome : Type 0 where
  pub result : Result PublicLicense LatteError
  pub after : Shared
  pub job : Option Job

abbrev pub refused : Shared → Outcome
refused s = record { result = err not_activated; after = s; job = none }

abbrev pub with_renewal : Shared → Result PublicLicense LatteError → Renewal × Option Job → Outcome
with_renewal s result (renewal, job) = record {
  result = result;
  after = record s { renewal = renewal };
  job = job;
}

module _ (C : Crates) (master_pubs : List C.VerifyingKey) (machine_id : String)
    (contended spawns : Bool) (now later : SystemTime) (s : Shared) where
  unfoldable pub check_verified : Result License VerifyError → Outcome
  check_verified (err e) = refused s
  check_verified (ok license) =
      let result = verdict license now s.renewal_failed (validate_at license machine_id now) in
      with_renewal s result (
        if is_renewable machine_id license
        then renew_in_background contended spawns later license s.renewal
        else (s.renewal, none))

  abbrev pub check_loaded : Option (String × CertChain) → Outcome
  check_loaded none = refused s
  check_loaded (some (token, chain)) =
      check_verified (verify_activation_any_at C master_pubs token chain now)

  unfoldable pub check : Outcome
  check = if s.has_path then check_loaded s.file else refused s
