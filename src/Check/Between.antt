-- ===== src/Check/Between.antt =====
-- The verdict on one activation as the clock moves.
use mathlib.Core.Path.{subst}
use latte_rs.Base.{
  String, ◌≡◌, sym, ap, ◌∙◌, Bool, true, false, Option, none, some, List, ok, arith,
}
use latte_rs.Base.Int.{ℤ, ◌≤ℤ◌}
use latte_rs.Time.{SystemTime}
use latte_rs.Json.{Map}
use latte_rs.Crates.{Crates}
use latte_rs.Domain.{License, CertChain}
use latte_rs.Jwt.{claim_i64, keep_if}
use latte_rs.Jwt.Times.{IsClock, IsTimely, IfPresent, HasBegun, HasNotEnded}
use latte_rs.Jwt.Authentic.{IsAuthentic-unique}
use latte_rs.Verify.{license_of}
use latte_rs.Verify.Trust.{IsTrusted}
use latte_rs.Validate.{in_grace_period}
use latte_rs.Validate.Verdict.{IsUsable, IsUsable-earlier}
use latte_rs.Check.{PublicLicense, to_public_license, check_license_any_at_with_renewal_failed}
use latte_rs.Check.Pipeline.{check_license_iff}

HasBegun-later :
    (o : Option ℤ) (first now : SystemTime)
    → first ≤ℤ now
    → IfPresent o (HasBegun first)
    → IfPresent o (HasBegun now)
HasBegun-later none first now h k = tt
HasBegun-later (some t) first now h k = omega arith

HasNotEnded-earlier :
    (o : Option ℤ) (now last : SystemTime)
    → now ≤ℤ last
    → IfPresent o (HasNotEnded last)
    → IfPresent o (HasNotEnded now)
HasNotEnded-earlier none now last h k = tt
HasNotEnded-earlier (some t) now last h k = omega arith

-- The same licence with this flag.
abbrev pub flagged : Bool → PublicLicense → PublicLicense
flagged flag public = record public { in_grace_period = flag }

module _ (C : Crates) (first now last : SystemTime) (after : first ≤ℤ now)
    (before : now ≤ℤ last) where
  IsTimely-between :
      (claims claims' : Map C.Number) (check_exp : Bool)
      → claims ≡ claims'
      → IsTimely C claims first check_exp
      → IsTimely C claims' last check_exp
      → IsTimely C claims now check_exp
  IsTimely-between claims claims' check_exp same a b =
      let b' = subst (λ c. IsTimely C c last check_exp) (sym same) b in
      record {
        issued = HasBegun-later (claim_i64 C claims "iat") first now after a.issued;
        begun = HasBegun-later (claim_i64 C claims "nbf") first now after a.begun;
        unexpired =
            HasNotEnded-earlier (keep_if check_exp (claim_i64 C claims "exp")) now last before
              b'.unexpired;
      }

  module _ (masters : List C.VerifyingKey) (token : String) (chain : CertChain) where
    IsTrusted-unique :
        {l m : License}
        → IsTrusted C masters token chain first l
        → IsTrusted C masters token chain last m
        → l ≡ m
    IsTrusted-unique a b =
        sym a.stated ∙ ap (license_of C) (IsAuthentic-unique C a.by_daily b.by_daily) ∙ b.stated

    IsTrusted-between :
        {l m : License}
        → IsTrusted C masters token chain first l
        → IsTrusted C masters token chain last m
        → IsTrusted C masters token chain now l
    IsTrusted-between a b = record {
      sub = a.sub;
      proj = a.proj;
      daily = a.daily;
      claims = a.claims;
      sub_key = a.sub_key;
      proj_key = a.proj_key;
      daily_key = a.daily_key;
      by_master = record {
        master = a.by_master.master;
        listed = a.by_master.listed;
        signed = a.by_master.signed;
        timely =
            IsTimely-between a.sub b.sub true
              (IsAuthentic-unique C a.by_master.signed b.by_master.signed) a.by_master.timely
              b.by_master.timely;
      };
      names_sub_key = a.names_sub_key;
      by_submaster = (
        a.by_submaster.0,
        IsTimely-between a.proj b.proj true (IsAuthentic-unique C a.by_submaster.0 b.by_submaster.0)
            a.by_submaster.1 b.by_submaster.1,
      );
      names_proj_key = a.names_proj_key;
      by_project = (
        a.by_project.0,
        IsTimely-between a.daily b.daily false (IsAuthentic-unique C a.by_project.0 b.by_project.0)
            a.by_project.1 b.by_project.1,
      );
      names_daily_key = a.names_daily_key;
      by_daily = a.by_daily;
      fits = a.fits;
      stated = a.stated;
    }

    -- An activation that the pipeline accepts at two times, it accepts at every time between them,
    -- and as the same licence, up to the flag `in_grace_period`; also, the two licences of the ends
    -- differ in that flag alone. The clock is between the epoch and the end of an i64 of seconds.
    pub check_license-between :
        (machine_id : String) (failed_first failed failed_last : Bool)
        (public public' : PublicLicense)
        → IsClock first
        → IsClock last
        → check_license_any_at_with_renewal_failed C masters token chain machine_id first
            failed_first
          ≡ ok public
        → check_license_any_at_with_renewal_failed C masters token chain machine_id last failed_last
          ≡ ok public'
        → (public' ≡ flagged public'.in_grace_period public)
          × ((flag : Bool) × (check_license_any_at_with_renewal_failed C masters token chain
                  machine_id now failed
                ≡ ok (flagged flag public)))
    unfolding to_public_license
    check_license-between machine_id failed_first failed failed_last public public' early late e₁
          e₂ =
        let (l, trusted, usable, shown) =
          (check_license_iff C masters token chain machine_id first failed_first public early).0
            e₁ in
        let (m, trusted', usable', shown') =
          (check_license_iff C masters token chain machine_id last failed_last public' late).0 e₂ in
        let same = IsTrusted-unique trusted trusted' in
        let clock : IsClock now = (omega (arith, early.0), omega (arith, late.1)) in
        let usable'' =
          IsUsable-earlier l machine_id now last before
            (subst (λ k. IsUsable k machine_id last) (sym same) usable') in
        (
          sym shown'
              ∙ ap (λ k. to_public_license k (in_grace_period m last failed_last)) (sym same)
              ∙ ap (flagged (in_grace_period m last failed_last)) shown
              ∙ ap (λ p. flagged p.in_grace_period public) shown',
          (
            in_grace_period l now failed,
            (check_license_iff C masters token chain machine_id now failed _ clock).1 (
              l,
              IsTrusted-between trusted trusted',
              usable'',
              ap (flagged (in_grace_period l now failed)) shown,
            ),
          ),
        )
