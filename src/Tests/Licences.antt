-- ===== src/Tests/Licences.antt =====
-- The theorems on tokens and licences at a concrete chain.
use latte_rs.Base.{
  ok, err, some, true, false, ◌≡◌, ◌≢◌, ◌↔◌, Bool, List, ℕ, refl, [], ◌∷◌, arith, ◌≤◌, ◌^◌,
  and_then,
}
use latte_rs.Base.Int.{pos, ◌+ℤ◌}
use latte_rs.Time.{SystemTime}
use latte_rs.Json.{get}
use latte_rs.Errors.{hard_expired, grace_expired, license_too_old, machine_id_mismatch}
use latte_rs.Entitlements.{bool, int, decode_value}
use latte_rs.Domain.{License}
use latte_rs.Jwt.{
  parse_and_verify, parse_and_verify_ignoring_expiry, parse_and_verify_with_infinite_leeway,
}
use latte_rs.Jwt.Times.{IsTimely}
use latte_rs.Jwt.Authentic.{IsAuthentic, parse_and_verify_iff}
use latte_rs.Verify.{license_of, verify_activation_any_at, issuer, max_grace_period}
use latte_rs.Verify.Trust.{IsTrusted, verify_activation_any_at_iff}
use latte_rs.Verify.Formats.{verified-not_too_old}
use latte_rs.Validate.{validate_at, in_grace_period}
use latte_rs.Validate.Verdict.{
  IsUsable, IsHardExpired, IsGraceExpired, IsTooOld, IsForeign, validate_at_iff, validate_at_errors,
}
use latte_rs.Check.{
  can, limit, has_entitlements, to_public_license, PublicLicense,
  check_license_any_at_with_renewal_failed,
}
use latte_rs.Check.Pipeline.{check_license_iff}
use latte_rs.Check.Between.{flagged, check_license-between}
use latte_rs.Check.Features.{features_of_claim}
use latte_rs.Tests.Toy.{
  toy, submaster_claims, features, token_claims, chain, token, now, evaluation,
}

abbrev masters : List ℕ
masters = b'x' ∷ b'm' ∷ []

abbrev licence : License
licence = license_of toy token_claims

verifies : verify_activation_any_at toy masters token chain now ≡ ok licence
unfolding evaluation
verifies = refl

usable : validate_at licence "machine" now ≡ ok tt
unfolding evaluation
usable = refl

verify_activation_any_at_iff_example :
    (verify_activation_any_at toy masters token chain now ≡ ok licence)
    ↔ IsTrusted toy masters token chain now licence
verify_activation_any_at_iff_example =
    verify_activation_any_at_iff toy masters token chain now licence (omega arith)

abbrev public : PublicLicense
public = to_public_license licence (in_grace_period licence now false)

check_license_iff_example :
    (check_license_any_at_with_renewal_failed toy masters token chain "machine" now false
      ≡ ok public)
    ↔ ((l : License) × IsTrusted toy masters token chain now l
        × IsUsable l "machine" now
        × (to_public_license l (in_grace_period l now false) ≡ public))
check_license_iff_example =
    check_license_iff toy masters token chain "machine" now false public (omega arith)

parse_and_verify_iff_example :
    ((parse_and_verify toy chain.submaster b'm' issuer now ≡ ok submaster_claims) ↔ (
      IsAuthentic toy chain.submaster b'm' issuer submaster_claims
      × IsTimely toy submaster_claims now true))
    × ((parse_and_verify_ignoring_expiry toy chain.submaster b'm' issuer now ≡ ok submaster_claims)
        ↔ (IsAuthentic toy chain.submaster b'm' issuer submaster_claims
            × IsTimely toy submaster_claims now false))
    × ((parse_and_verify_with_infinite_leeway toy chain.submaster b'm' issuer ≡ ok submaster_claims)
        ↔ IsAuthentic toy chain.submaster b'm' issuer submaster_claims)
parse_and_verify_iff_example =
    parse_and_verify_iff toy chain.submaster b'm' issuer now submaster_claims (omega arith)

validate_at_iff_example :
    (validate_at licence "machine" now ≡ ok tt) ↔ IsUsable licence "machine" now
validate_at_iff_example = validate_at_iff licence "machine" now

validate_at_errors_example :
    ((validate_at licence "machine" now ≡ err hard_expired) ↔ IsHardExpired licence "machine" now)
    × ((validate_at licence "machine" now ≡ err grace_expired)
        ↔ IsGraceExpired licence "machine" now)
    × ((validate_at licence "machine" now ≡ err license_too_old) ↔ IsTooOld licence "machine" now)
    × ((validate_at licence "machine" now ≡ err machine_id_mismatch) ↔ IsForeign licence "machine")
validate_at_errors_example = validate_at_errors licence "machine" now

verified-not_too_old_example :
    (licence.grace_period ≤ max_grace_period)
    × (validate_at licence "machine" (pos (10 ^ 20)) ≢ err license_too_old)
verified-not_too_old_example =
    verified-not_too_old toy masters token chain now (pos (10 ^ 20)) licence "machine" (omega arith)
      verifies

checks :
    check_license_any_at_with_renewal_failed toy masters token chain "machine" now false ≡ ok public
unfolding evaluation
checks = refl

-- A thousand nanoseconds later.
abbrev soon : SystemTime
soon = now +ℤ pos 1000

checks_soon :
    check_license_any_at_with_renewal_failed toy masters token chain "machine" soon true ≡ ok public
unfolding evaluation
checks_soon = refl

check_license-between_example :
    (public ≡ flagged public.in_grace_period public)
    × ((flag : Bool) × (check_license_any_at_with_renewal_failed toy masters token chain "machine"
            (now +ℤ pos 1)
            false
          ≡ ok (flagged flag public)))
unfolding ◌+ℤ◌
check_license-between_example =
    check_license-between toy now (now +ℤ pos 1) soon (omega arith) (omega arith) masters token
      chain "machine" false false true public public (omega arith) (omega arith) checks checks_soon

features_of_claim_example :
    ((can public "export" ≡ true)
      ↔ (and_then (get "export" features) (decode_value toy) ≡ some (bool true)))
    × ((limit public "export" ≡ some (pos 25))
        ↔ (and_then (get "export" features) (decode_value toy) ≡ some (int (pos 25))))
    × (has_entitlements public ≡ true)
unfolding evaluation
features_of_claim_example =
    features_of_claim toy token_claims features false "export" (pos 25) refl
      (refl, (refl, (refl, tt)))
