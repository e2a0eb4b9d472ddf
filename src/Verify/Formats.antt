-- ===== src/Verify/Formats.antt =====
-- The two token formats, and the bounds of every verified licence.
use mathlib.Core.List.{Memᴰ}
use mathlib.Core.List.Memᴰ
use latte_rs.Base.{
  ◌≤◌, String, ◌≡◌, ◌≢◌, refl, ◌↔◌, Option, none, some, List, ◌∷◌, [], arith, ok, err, get_or,
}
use latte_rs.Base.Int.{
  ℤ, pos, pos_part, ◌≤ℤ◌, ◌+ℤ◌, ◌-ℤ◌, InI64, wrap_i64, wrap_i64_of_InI64, int_laws, one_part,
  +ℤ_parts,
}
use latte_rs.Time.{SystemTime, from_secs, unix_to_system_time, unix_to_system_time_parts}
use latte_rs.Json.{Map}
use latte_rs.Crates.{Crates}
use latte_rs.Errors.{license_too_old}
use latte_rs.Domain.{License, CertChain}
use latte_rs.Jwt.{claim_i64}
use latte_rs.Jwt.Times.{IsClock}
use latte_rs.Verify.{
  end_and_grace, no_licence_end, seconds, license_of, max_grace_period, verify_activation_any_at,
  verify_activation_at,
}
use latte_rs.Verify.Trust.{IsTrusted, verify_activation_any_at_iff}
use latte_rs.Validate.{validate_at, max_age}
use latte_rs.Validate.Verdict.{validate_at_errors}

+ℤ-cancel : (a b : ℤ) → a +ℤ b -ℤ a ≡ b
+ℤ-cancel a b = omega int_laws

-- A perpetual licence reads the same in both formats: `exp` at the fixed end with an offline
-- window of `grc`, and no end at all with `exp` at `iat + grc`.
end_and_grace_perpetual :
    (grc iat : ℤ) (lex : Option ℤ)
    → InI64 grc
    → end_and_grace (some grc) lex no_licence_end iat ≡ end_and_grace none none (iat +ℤ grc) iat
end_and_grace_perpetual grc iat lex h = rw (+ℤ-cancel iat grc, wrap_i64_of_InI64 grc h)

module _ (C : Crates) where
  deadline_parts :
      (iat exp : ℤ)
      → iat ≤ℤ exp
      → InI64 (exp -ℤ iat)
      → unix_to_system_time iat +ℤ pos (from_secs (pos_part (wrap_i64 (exp -ℤ iat))))
        ≡ unix_to_system_time exp
  deadline_parts iat exp le h = rw (wrap_i64_of_InI64 (exp -ℤ iat) h) (
      omega (
        int_laws,
        one_part (exp -ℤ iat),
        unix_to_system_time_parts iat,
        unix_to_system_time_parts exp,
      ))

  -- Without `grc` the offline deadline of the licence is `exp` itself, when `exp` is not before
  -- `iat` and their distance fits an i64; and the licence ends at `lex`, or in 2099 without one.
  license_of_without_grc :
      (claims : Map C.Number)
      → claim_i64 C claims "grc" ≡ none
      → seconds C claims "iat" ≤ℤ seconds C claims "exp"
      → InI64 (seconds C claims "exp" -ℤ seconds C claims "iat")
      → let l = license_of C claims in
        (l.issued_at +ℤ pos l.grace_period ≡ unix_to_system_time (seconds C claims "exp"))
        × (l.expires_at ≡ unix_to_system_time (get_or no_licence_end (claim_i64 C claims "lex")))
  unfolding license_of
  license_of_without_grc claims e le h =
      (rw e (deadline_parts (seconds C claims "iat") (seconds C claims "exp") le h), rw e)

  with_masters :
      {masters : List C.VerifyingKey} {token : String} {chain : CertChain} {now : SystemTime}
      {license : License} (t : IsTrusted C masters token chain now license)
      (others : List C.VerifyingKey)
      → Memᴰ t.by_master.master others
      → IsTrusted C others token chain now license
  with_masters t others listed = record {
    sub = t.sub;
    proj = t.proj;
    daily = t.daily;
    claims = t.claims;
    sub_key = t.sub_key;
    proj_key = t.proj_key;
    daily_key = t.daily_key;
    by_master = record {
      master = t.by_master.master;
      listed = listed;
      signed = t.by_master.signed;
      timely = t.by_master.timely;
    };
    names_sub_key = t.names_sub_key;
    by_submaster = t.by_submaster;
    names_proj_key = t.names_proj_key;
    by_project = t.by_project;
    names_daily_key = t.names_daily_key;
    by_daily = t.by_daily;
    fits = t.fits;
    stated = t.stated;
  }

  -- Any one of the master keys is as good as being the only one: verification against several
  -- gives a licence exactly when verification against one of them gives that licence.
  verify_activation_any_at-iff_some :
      (masters : List C.VerifyingKey) (token : String) (chain : CertChain) (now : SystemTime)
      (license : License)
      → IsClock now
      → (verify_activation_any_at C masters token chain now ≡ ok license) ↔ (
          (m : C.VerifyingKey) × Memᴰ m masters
          × (verify_activation_at C m token chain now ≡ ok license))
  unfolding verify_activation_at
  verify_activation_any_at-iff_some masters token chain now license clock = (
    (λ e.
        let t = (verify_activation_any_at_iff C masters token chain now license clock).0 e in
        let m = t.by_master.master in
        (
          m,
          t.by_master.listed,
          (verify_activation_any_at_iff C (m ∷ []) token chain now license clock).1
              (with_masters t (m ∷ []) (Memᴰ.head refl)),
        )),
    (λ p.
        let (m, listed, e) = p in
        let t = (verify_activation_any_at_iff C (m ∷ []) token chain now license clock).0 e in
        (verify_activation_any_at_iff C masters token chain now license clock).1
          (with_masters t masters (Memᴰ.cast (Memᴰ.eq_of_singleton t.by_master.listed) listed))),
  )

  -- Every verified licence has a grace period of at most 90 days, so that of the limits that
  -- `validate_at` sets the one of 365 days is never the one that refuses it.
  pub verified-not_too_old :
      (masters : List C.VerifyingKey) (token : String) (chain : CertChain) (now later : SystemTime)
      (license : License) (machine_id : String)
      → IsClock now
      → verify_activation_any_at C masters token chain now ≡ ok license
      → (license.grace_period ≤ max_grace_period)
        × (validate_at license machine_id later ≢ err license_too_old)
  verified-not_too_old masters token chain now later license machine_id clock e =
      let t = (verify_activation_any_at_iff C masters token chain now license clock).0 e in
      let bounded : license.grace_period ≤ max_grace_period = rw t.stated at t.fits.bounded in
      (
        bounded,
        λ h.
            let old = (validate_at_errors license machine_id later).2.0 h in
            omega (
              arith,
              old.3,
              old.4,
              +ℤ_parts license.issued_at (pos license.grace_period),
              +ℤ_parts license.issued_at (pos max_age),
            ),
      )
