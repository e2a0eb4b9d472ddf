-- ===== src/Sdk/Cached.antt =====
-- `Sdk::check` against the pipeline of src/lib.rs on the cached token.
use latte_rs.Base.{
  ◌≡◌, refl, String, Bool, true, Option, none, some, List, arith, Result, ok, err, map_err, ◌>>=◌,
  ap, ◌∙◌, if◌then◌else◌,
}
use latte_rs.Time.{SystemTime}
use latte_rs.Crates.{Crates}
use latte_rs.Errors.{
  LatteError, VerifyError, ValidateError, grace_expired, license_too_old, machine_id_mismatch,
  invalid_fields, not_activated, license_expired, hard_expired,
}
use latte_rs.Domain.{License, CertChain}
use latte_rs.Verify.{verify_activation_any_at}
use latte_rs.Validate.{validate_at, in_grace_period}
use latte_rs.Check.{
  PublicLicense, CheckError, validate, to_public_license, check_license_any_at_with_renewal_failed,
}
use latte_rs.Renewal.{Shared}
use latte_rs.Sdk.{Outcome, refused, check, check_verified, check_loaded, verdict}

-- What `check` answers, given what the pipeline answers.
abbrev pub answer : Result PublicLicense CheckError → Result PublicLicense LatteError
answer (ok public) = ok public
answer (err (validate hard_expired)) = err license_expired
answer (err _) = err not_activated

answer_of_verdict :
    (license : License) (now : SystemTime) (failed : Bool) (r : Result (Unit {0}) ValidateError)
    → verdict license now failed r
      ≡ answer (
          map_err validate r >>= λ _.
          ok (to_public_license license (in_grace_period license now failed)))
answer_of_verdict license now failed (ok _) = refl
answer_of_verdict license now failed (err hard_expired) = refl
answer_of_verdict license now failed (err grace_expired) = refl
answer_of_verdict license now failed (err license_too_old) = refl
answer_of_verdict license now failed (err machine_id_mismatch) = refl
answer_of_verdict license now failed (err (invalid_fields _)) = refl

module _ (C : Crates) (master_pubs : List C.VerifyingKey) (machine_id : String)
    (contended spawns : Bool) (now later : SystemTime) (s : Shared) where
  verified_answer :
      (r : Result License VerifyError)
      → let outcome = check_verified C master_pubs machine_id contended spawns now later s r in
        (outcome.result
          ≡ answer (
              map_err CheckError.verify r >>= λ l.
              map_err validate (validate_at l machine_id now) >>= λ _.
              ok (to_public_license l (in_grace_period l now s.renewal_failed))))
        × (outcome.after.file ≡ s.file)
        × (outcome.after.renewal_failed ≡ s.renewal_failed)
  unfolding check_verified
  verified_answer (err e) = (refl, refl, refl)
  verified_answer (ok l) = (
    answer_of_verdict l now s.renewal_failed (validate_at l machine_id now),
    ground arith,
    ground arith,
  )

  kept :
      (file : Option (String × CertChain))
      → let outcome = check_loaded C master_pubs machine_id contended spawns now later s file in
        (outcome.after.file ≡ s.file) × (outcome.after.renewal_failed ≡ s.renewal_failed)
  kept none = (refl, refl)
  kept (some (token, chain)) =
      let (_, file, failed) =
        verified_answer (verify_activation_any_at C master_pubs token chain now) in
      (file, failed)

  abbrev loaded : Option (String × CertChain) → Outcome
  loaded file = check_loaded C master_pubs machine_id contended spawns now later s file

  none_loaded : (b : Bool) → (if b then refused s else refused s).result ≡ err not_activated
  none_loaded b = ground arith

  -- With a cached activation, `check` answers what the pipeline answers on its token, with the
  -- flag as the renewal input; of the errors, only the hard expiry is told, and every other one is
  -- that nothing is activated. Without one that is its answer too. Whatever it answers, it leaves
  -- the cached activation and the flag alone.
  pub check-answer :
      let outcome = check C master_pubs machine_id contended spawns now later s in
      ((token : String) (chain : CertChain)
        → s.has_path ≡ true
        → s.file ≡ some (token, chain)
        → outcome.result
          ≡ answer (
              check_license_any_at_with_renewal_failed C master_pubs token chain machine_id now
                s.renewal_failed))
      × (s.file ≡ none → outcome.result ≡ err not_activated)
      × (outcome.after.file ≡ s.file)
      × (outcome.after.renewal_failed ≡ s.renewal_failed)
  unfolding check check_license_any_at_with_renewal_failed
  check-answer = (
    (λ token chain path file.
        ap (λ b. (if b then loaded s.file else refused s).result) path
        ∙ ap (λ f. (loaded f).result) file
        ∙ (verified_answer (verify_activation_any_at C master_pubs token chain now)).0),
    (λ file.
        ap (λ f. (if s.has_path then loaded f else refused s).result) file
        ∙ none_loaded s.has_path),
    ground (arith, kept s.file),
    ground (arith, kept s.file),
  )
