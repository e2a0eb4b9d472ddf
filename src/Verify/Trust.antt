-- ===== src/Verify/Trust.antt =====
-- What a verified activation rests on: the whole chain of trust, link by link.
use mathlib.Core.List.{Memᴰ}
use mathlib.Core.List.Memᴰ
use latte_rs.Base.{
  ◌≤◌, String, ◌≡◌, ◌≢◌, refl, ap, ◌∙◌, ◌↔◌, true, false, Option, none, some, List, [], ◌∷◌, arith,
  ok, err, length, >>=-eq-ok, map_err-eq-ok, Option-cases, Result-cases, inl, inr, ok_or-eq-ok,
  ensure-eq-ok, ==→eq, eq_iff, is_empty_iff, ltb_of_le,
}
use latte_rs.Base.Int.{ℤ, ◌≤ℤ◌, ltb_ℤ-false}
use latte_rs.Time.{SystemTime, unix_to_system_time}
use latte_rs.Json.{Map}
use latte_rs.Crates.{Crates, Bytes}
use latte_rs.Errors.{VerifyError, invalid_signature}
use latte_rs.Domain.{License, CertChain}
use latte_rs.Jwt.{
  claim_i64, claim_str, parse_and_verify, parse_and_verify_ignoring_expiry,
  parse_and_verify_with_infinite_leeway,
}
use latte_rs.Jwt.Times.{IsTimely, IsClock}
use latte_rs.Jwt.Authentic.{IsAuthentic, IsAuthentic-unique, parse_and_verify_iff}
use latte_rs.Verify.{
  issuer, max_grace_period, pub_key_from_bytes, pub_key_from_cert, verify_submaster, license_of,
  cross_check, verify_activation_any_at, pid_agrees,
}

module _ (C : Crates) where
  open C use {Number, hex_decode, VerifyingKey, key_from_bytes}

  -- The certificate carries this public key: 32 bytes in hex.
  pub record Carries (cert : Map Number) (name : String) (key : VerifyingKey) : Type 0 where
    pub hex : String
    pub bytes : Bytes
    pub claimed : claim_str C cert name ≡ some hex
    pub decoded : hex_decode hex ≡ ok bytes
    pub size : length bytes ≡ 32
    pub parsed : key_from_bytes bytes ≡ ok key

  Carries-iff :
      (cert : Map Number) (name : String) (key : VerifyingKey)
      → (pub_key_from_cert C cert name ≡ ok key) ↔ Carries cert name key
  unfolding pub_key_from_cert pub_key_from_bytes
  Carries-iff cert name key = (
    (λ e.
        let (hex, a, e₁) = >>=-eq-ok _ _ e in
        let (bytes, b, e₂) = >>=-eq-ok _ _ e₁ in
        let (_, c, e₃) = >>=-eq-ok _ _ e₂ in
        record {
          hex = hex;
          bytes = bytes;
          claimed = ok_or-eq-ok _ _ a;
          decoded = map_err-eq-ok _ _ b;
          size = ==→eq _ _ (ensure-eq-ok _ _ c);
          parsed = map_err-eq-ok _ _ e₃;
        }),
    (λ k. rw (k.claimed, k.decoded, k.size, k.parsed)),
  )

  -- A certificate with these claims, signed by one of the masters and current.
  pub record IsSubmaster (masters : List VerifyingKey) (cert : String) (now : SystemTime)
      (sub : Map Number) : Type 0 where
    pub master : VerifyingKey
    pub listed : Memᴰ master masters
    pub signed : IsAuthentic C cert master issuer sub
    pub timely : IsTimely C sub now true

  later_master :
      {masters : List VerifyingKey} {cert : String} {now : SystemTime} {sub : Map Number}
      (m : VerifyingKey)
      → IsSubmaster masters cert now sub
      → IsSubmaster (m ∷ masters) cert now sub
  later_master m s = record {
    master = s.master;
    listed = Memᴰ.tail s.listed;
    signed = s.signed;
    timely = s.timely;
  }

  module _ (cert : String) (now : SystemTime) (clock : IsClock now) where
    accepted_iff :
        (m : VerifyingKey) (sub : Map Number)
        → (parse_and_verify C cert m issuer now ≡ ok sub)
          ↔ (IsAuthentic C cert m issuer sub × IsTimely C sub now true)
    accepted_iff m sub = (parse_and_verify_iff C cert m issuer now sub clock).0

    found-IsSubmaster :
        (e : VerifyError) (masters : List VerifyingKey) (sub : Map Number)
        → verify_submaster C (err e) masters cert now ≡ ok sub
        → IsSubmaster masters cert now sub
    unfolding verify_submaster
    found-IsSubmaster e [] sub h = cc
    found-IsSubmaster e (m ∷ ms) sub h =
        elim (Result-cases (parse_and_verify C cert m issuer now)) [
          | inl (c, accepted) ↦
              let same : ok c ≡ ok sub = rw (accepted, verify_submaster) at h in
              let (signed, timely) = (accepted_iff m sub).0 (accepted ∙ same) in
              record { master = m; listed = Memᴰ.head refl; signed = signed; timely = timely }
          | inr (f, refused) ↦
              later_master m (found-IsSubmaster f ms sub (rw (refused, verify_submaster) at h))
        ]

    same_claims :
        (m k : VerifyingKey) (sub c : Map Number)
        → parse_and_verify C cert m issuer now ≡ ok sub
        → parse_and_verify C cert k issuer now ≡ ok c
        → c ≡ sub
    same_claims m k sub c h g =
        IsAuthentic-unique C ((accepted_iff k c).0 g).0 ((accepted_iff m sub).0 h).0

    find_submaster :
        (e : VerifyError) (masters : List VerifyingKey) (sub : Map Number) (m : VerifyingKey)
        → Memᴰ m masters
        → parse_and_verify C cert m issuer now ≡ ok sub
        → verify_submaster C (err e) masters cert now ≡ ok sub
    unfolding verify_submaster
    find_submaster e [] sub m mem h = absurd (Memᴰ.not-nil mem)
    find_submaster e (k ∷ ms) sub m mem h =
        elim (Result-cases (parse_and_verify C cert k issuer now)) [
          | inl (c, accepted) ↦
              rw (accepted, verify_submaster) (ap ok (same_claims m k sub c h accepted))
          | inr (f, refused) ↦
              rw (refused, verify_submaster)
                (elim (Memᴰ.cases_cons mem) [
                  | inl first ↦ cc
                  | inr later ↦ find_submaster f ms sub m later h
                ])
        ]

  -- The token fits the project certificate and the daily certificate that signed it.
  pub record Fits (proj daily : Map Number) (license : License) : Type 0 where
    pub daily_iat : ℤ
    pub daily_exp : ℤ
    pub project :
        (pid : String) → claim_str C proj "pid" ≡ some pid → pid ≢ "" → pid ≡ license.project_id
    pub starts : claim_i64 C daily "iat" ≡ some daily_iat
    pub ends : claim_i64 C daily "exp" ≡ some daily_exp
    pub not_before : unix_to_system_time daily_iat ≤ℤ license.issued_at
    pub not_after : license.issued_at ≤ℤ unix_to_system_time daily_exp
    pub bounded : license.grace_period ≤ max_grace_period

  pid_agrees_iff :
      (o : Option String) (project_id : String)
      → (pid_agrees o project_id ≡ true)
        ↔ ((pid : String) → o ≡ some pid → pid ≢ "" → pid ≡ project_id)
  pid_agrees_iff none project_id = (λ _. λ pid e. cc, λ _. refl)
  pid_agrees_iff (some p) project_id = (
    (λ h pid e ne. ground (arith, eq_iff p project_id, is_empty_iff p)),
    (λ h. ground (arith, eq_iff p project_id, is_empty_iff p, h p refl)),
  )

  -- The tests that a passed cross-check has gone through.
  passed_tests :
      (proj daily : Map Number) (l : License) {license : License}
      → cross_check C proj daily l ≡ ok license
      → (x y : ℤ) × (claim_i64 C daily "iat" ≡ some x)
        × (claim_i64 C daily "exp" ≡ some y)
        × (pid_agrees (claim_str C proj "pid") l.project_id ≡ true)
        × (unix_to_system_time x ≤ℤ l.issued_at)
        × (l.issued_at ≤ℤ unix_to_system_time y)
        × (l.grace_period ≤ max_grace_period)
        × (l ≡ license)
  unfolding cross_check
  passed_tests proj daily l e = elim (Option-cases (claim_i64 C daily "iat")) [
    | inl missing ↦ absurd (ground arith)
    | inr (x, starts) ↦ elim (Option-cases (claim_i64 C daily "exp")) [
      | inl missing ↦ absurd (ground arith)
      | inr (y, ends) ↦
          (x, y, starts, ends, ground arith, ground arith, ground arith, ground arith, ground arith)
    ]
  ]

  cross_check_iff :
      (proj daily : Map Number) (l license : License)
      → (cross_check C proj daily l ≡ ok license) ↔ (Fits proj daily l × (l ≡ license))
  unfolding cross_check
  cross_check_iff proj daily l license = (
    (λ e.
        let (x, y, starts, ends, agrees, not_before, not_after, bounded, same) =
          passed_tests proj daily l e in
        (
          record {
            daily_iat = x;
            daily_exp = y;
            project = (pid_agrees_iff (claim_str C proj "pid") l.project_id).0 agrees;
            starts = starts;
            ends = ends;
            not_before = not_before;
            not_after = not_after;
            bounded = bounded;
          },
          same,
        )),
    (λ p.
        let (fits, same) = p in
        rw
          (
            (pid_agrees_iff (claim_str C proj "pid") l.project_id).1 fits.project,
            fits.starts,
            fits.ends,
            (ltb_ℤ-false l.issued_at (unix_to_system_time fits.daily_iat)).1 fits.not_before,
            (ltb_ℤ-false (unix_to_system_time fits.daily_exp) l.issued_at).1 fits.not_after,
            ltb_of_le max_grace_period l.grace_period fits.bounded,
          )
          (ap ok same)),
  )

  -- The chain of trust behind a licence.
  pub record IsTrusted (masters : List VerifyingKey) (token : String) (chain : CertChain)
      (now : SystemTime) (license : License) : Type 0 where
    pub sub : Map Number
    pub proj : Map Number
    pub daily : Map Number
    pub claims : Map Number
    pub sub_key : VerifyingKey
    pub proj_key : VerifyingKey
    pub daily_key : VerifyingKey
    pub by_master : IsSubmaster masters chain.submaster now sub
    pub names_sub_key : Carries sub "spk" sub_key
    pub by_submaster : IsAuthentic C chain.project sub_key issuer proj × IsTimely C proj now true
    pub names_proj_key : Carries proj "ppk" proj_key
    pub by_project : IsAuthentic C chain.daily proj_key issuer daily × IsTimely C daily now false
    pub names_daily_key : Carries daily "dpk" daily_key
    pub by_daily : IsAuthentic C token daily_key issuer claims
    pub fits : Fits proj daily (license_of C claims)
    pub stated : license_of C claims ≡ license

  -- With a clock that an i64 of seconds holds, verification gives a licence exactly when the chain
  -- of trust stands behind it: a current submaster certificate signed by one of the masters, a
  -- current project certificate signed by the key it carries, a daily certificate signed by the
  -- next key, the token signed by the last, and the token fitting the project and the day; and
  -- the licence is the one that the token states.
  pub verify_activation_any_at_iff :
      (masters : List VerifyingKey) (token : String) (chain : CertChain) (now : SystemTime)
      (license : License)
      → IsClock now
      → (verify_activation_any_at C masters token chain now ≡ ok license)
        ↔ IsTrusted masters token chain now license
  unfolding verify_activation_any_at
  verify_activation_any_at_iff masters token chain now license clock = (
    (λ e.
        let (sub, a, e₁) =
          >>=-eq-ok (verify_submaster C (err invalid_signature) masters chain.submaster now) _ e in
        let (sub_key, b, e₂) = >>=-eq-ok (pub_key_from_cert C sub "spk") _ e₁ in
        let (proj, c, e₃) = >>=-eq-ok (parse_and_verify C chain.project sub_key issuer now) _ e₂ in
        let (proj_key, d, e₄) = >>=-eq-ok (pub_key_from_cert C proj "ppk") _ e₃ in
        let (daily, f, e₅) =
          >>=-eq-ok (parse_and_verify_ignoring_expiry C chain.daily proj_key issuer now) _ e₄ in
        let (daily_key, g, e₆) = >>=-eq-ok (pub_key_from_cert C daily "dpk") _ e₅ in
        let (claims, h, e₇) =
          >>=-eq-ok (parse_and_verify_with_infinite_leeway C token daily_key issuer) _ e₆ in
        let (fits, stated) = (cross_check_iff proj daily (license_of C claims) license).0 e₇ in
        record {
          sub = sub;
          proj = proj;
          daily = daily;
          claims = claims;
          sub_key = sub_key;
          proj_key = proj_key;
          daily_key = daily_key;
          by_master = found-IsSubmaster chain.submaster now clock invalid_signature masters sub a;
          names_sub_key = (Carries-iff sub "spk" sub_key).0 b;
          by_submaster = (parse_and_verify_iff C chain.project sub_key issuer now proj clock).0.0 c;
          names_proj_key = (Carries-iff proj "ppk" proj_key).0 d;
          by_project = (parse_and_verify_iff C chain.daily proj_key issuer now daily clock).1.0 f;
          names_daily_key = (Carries-iff daily "dpk" daily_key).0 g;
          by_daily = (parse_and_verify_iff C token daily_key issuer now claims clock).2.0 h;
          fits = fits;
          stated = stated;
        }),
    (λ t.
        rw
          (
            find_submaster chain.submaster now clock invalid_signature masters t.sub
                t.by_master.master t.by_master.listed
                ((accepted_iff chain.submaster now clock t.by_master.master t.sub).1
                  (t.by_master.signed, t.by_master.timely)),
            (Carries-iff t.sub "spk" t.sub_key).1 t.names_sub_key,
            (parse_and_verify_iff C chain.project t.sub_key issuer now t.proj clock).0.1
                t.by_submaster,
            (Carries-iff t.proj "ppk" t.proj_key).1 t.names_proj_key,
            (parse_and_verify_iff C chain.daily t.proj_key issuer now t.daily clock).1.1
                t.by_project,
            (Carries-iff t.daily "dpk" t.daily_key).1 t.names_daily_key,
            (parse_and_verify_iff C token t.daily_key issuer now t.claims clock).2.1 t.by_daily,
          )
          ((cross_check_iff t.proj t.daily (license_of C t.claims) license).1 (t.fits, t.stated))),
  )
