-- ===== src/Check/Pipeline.antt =====
-- The whole pipeline from a token to a public licence.
use latte_rs.Base.{
  String, ◌≡◌, ◌≢◌, refl, ap, ◌↔◌, Bool, false, true, List, ok, err, map_err, map_err-eq-ok,
  ok-injective, >>=-eq-ok, Result-cases, inl, inr, arith,
}
use latte_rs.Base.Int.{pos, ◌+ℤ◌, ◌<ℤ◌}
use latte_rs.Time.{SystemTime}
use latte_rs.Crates.{Crates}
use latte_rs.Errors.{license_too_old}
use latte_rs.Domain.{License, CertChain}
use latte_rs.Jwt.Times.{IsClock}
use latte_rs.Verify.{verify_activation_any_at}
use latte_rs.Verify.Trust.{IsTrusted, verify_activation_any_at_iff}
use latte_rs.Verify.Formats.{verified-not_too_old}
use latte_rs.Validate.{validate_at, in_grace_period, max_renewal_time}
use latte_rs.Validate.Windows.{in_grace_period_iff}
use latte_rs.Validate.Verdict.{IsUsable, validate_at_iff}
use latte_rs.Check.{
  verify, validate, PublicLicense, to_public_license, check_license_any_at_with_renewal_failed,
  check_license_any_at,
}

module _ (C : Crates) (masters : List C.VerifyingKey) (token : String) (chain : CertChain)
    (machine_id : String) (now : SystemTime) where
  -- The pipeline gives a public licence exactly when it is the public view of a licence with a
  -- chain of trust behind it that is usable on this machine now.
  pub check_license_iff :
      (failed : Bool) (public : PublicLicense)
      → IsClock now
      → (check_license_any_at_with_renewal_failed C masters token chain machine_id now failed
          ≡ ok public)
        ↔ ((license : License) × IsTrusted C masters token chain now license
            × IsUsable license machine_id now
            × (to_public_license license (in_grace_period license now failed) ≡ public))
  unfolding check_license_any_at_with_renewal_failed
  check_license_iff failed public clock = (
    (λ e.
        let (license, a, e₁) = >>=-eq-ok _ _ e in
        let (_, b, e₂) = >>=-eq-ok _ _ e₁ in
        (
          license,
          (verify_activation_any_at_iff C masters token chain now license clock).0
              (map_err-eq-ok _ _ a),
          (validate_at_iff license machine_id now).0 (map_err-eq-ok _ _ b),
          ok-injective e₂,
        )),
    (λ p.
        let (license, trusted, usable, same) = p in
        rw
          (
            (verify_activation_any_at_iff C masters token chain now license clock).1 trusted,
            (validate_at_iff license machine_id now).1 usable,
          )
          (ap ok same)),
  )

  -- The pipeline never refuses a licence for its age: the grace period ends first.
  pub check_license-not_too_old :
      (failed : Bool)
      → IsClock now
      → check_license_any_at_with_renewal_failed C masters token chain machine_id now failed
        ≢ err (validate license_too_old)
  unfolding check_license_any_at_with_renewal_failed
  check_license-not_too_old failed clock e =
      elim (Result-cases (verify_activation_any_at C masters token chain now)) [
        | inl (license, verified) ↦
            let not_old =
              (verified-not_too_old C masters token chain now now license machine_id clock
                verified).1 in
            elim (Result-cases (validate_at license machine_id now)) [
              | inl (_, usable) ↦ cc (rw (verified, usable) at e)
              | inr (f, refused) ↦ not_old (ground (arith, rw (verified, refused) at e))
            ]
        | inr (f, refused) ↦ cc (rw refused at e)
      ]

  -- Without a failed renewal the flag `in_grace_period` is false. A failed renewal changes nothing
  -- in an accepted licence but that flag, which is then set strictly between one hour after the
  -- issue and the end of the grace period.
  check_license_renewal_failed :
      (failed : Bool) (public : PublicLicense)
      → check_license_any_at C masters token chain machine_id now ≡ ok public
      → (public.in_grace_period ≡ false)
        × ((flag : Bool) × (check_license_any_at_with_renewal_failed C masters token chain
                machine_id now failed
              ≡ ok (record public { in_grace_period = flag }))
            × ((flag ≡ true) ↔ (
                (failed ≡ true)
                × (public.issued_at +ℤ pos max_renewal_time <ℤ now)
                × (now <ℤ public.issued_at +ℤ pos public.grace_period))))
  unfolding check_license_any_at check_license_any_at_with_renewal_failed to_public_license
      in_grace_period
  check_license_renewal_failed failed public e =
      let (license, a, e₁) =
        >>=-eq-ok (map_err verify (verify_activation_any_at C masters token chain now)) _ e in
      let (_, b, e₂) = >>=-eq-ok (map_err validate (validate_at license machine_id now)) _ e₁ in
      let same : to_public_license license (in_grace_period license now false) ≡ public =
        ok-injective e₂ in
      rw (← same) (
        refl,
        (
          in_grace_period license now failed,
          rw (map_err-eq-ok _ _ a, map_err-eq-ok _ _ b) refl,
          in_grace_period_iff license now failed,
        ),
      )
