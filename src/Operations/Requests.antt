-- ===== src/Operations/Requests.antt =====
-- What `activate` asks the server, and what it answers from the cache.
use mathlib.Core.Option.{some-injective}
use latte_rs.Base.{
  ◌<◌, Char, String, ◌≡◌, ◌≢◌, refl, sym, ap, ◌∙◌, ◌⊎◌, inl, inr, Bool, true, false, Option, none,
  some, [], ◌∷◌, arith, Result, ok, err, Bool-cases, Result-cases, len, is_empty, is_empty_iff,
  eq_iff, ltb, ◌||◌, and_then, ◌↔◌, if◌then◌else◌,
}
use latte_rs.Time.{SystemTime}
use latte_rs.Crates.{Crates}
use latte_rs.Errors.{LatteError, invalid_key}
use latte_rs.Domain.{License, CertChain}
use latte_rs.Check.{PublicLicense, to_public_license}
use latte_rs.Key.{sanitize_key, normalize_key}
use latte_rs.Verify.{verify_activation_any_at}
use latte_rs.Validate.{validate_at, in_grace_period}
use latte_rs.Server.{Server}
use latte_rs.Config.{Sdk}
use latte_rs.Renewal.{Shared, verify_and_validate}
use latte_rs.Operations.{
  Done, validate_license_key, cached_license, usable, answers_for, activate_body, post_token,
  activate_online, activate_unless, activate,
}

abbrev pub IsInvalid : String → Type 0
IsInvalid normalized = (normalized ≡ "") ⊎ (256 < len normalized)

pub key_cases :
    (key : String)
    → (IsInvalid key × (validate_license_key key ≡ err invalid_key))
      ⊎ ((IsInvalid key → ⊥) × (validate_license_key key ≡ ok tt))
key_cases key = elim (Bool-cases (is_empty key || ltb 256 (len key))) [
  | inl bad ↦ inl (ground (arith, is_empty_iff key, bad), rw bad refl)
  | inr good ↦ inr ((λ i. ground (arith, is_empty_iff key, good)), rw good refl)
]

module _ (C : Crates) (sdk : Sdk C) (now : SystemTime) (s : Shared) where
  -- A cached activation that verifies and that this machine may use now.
  pub record Cached (lic : PublicLicense) (alias : String) : Type 0 where
    pub token : String
    pub chain : CertChain
    pub license : License
    pub path : s.has_path ≡ true
    pub file : s.file ≡ some (token, chain)
    pub verified : verify_activation_any_at C sdk.master_pubs token chain now ≡ ok license
    pub valid : validate_at license sdk.machine_id now ≡ ok tt
    pub shown : to_public_license license (in_grace_period license now s.renewal_failed) ≡ lic
    pub named : license.alias ≡ alias

  usable-Cached :
      (o : Option (String × CertChain)) (lic : PublicLicense) (alias : String)
      → s.has_path ≡ true
      → s.file ≡ o
      → and_then o (usable C sdk now s.renewal_failed) ≡ some (lic, alias)
      → Cached lic alias
  usable-Cached none lic alias path file h = cc
  usable-Cached (some (token, chain)) lic alias path file h =
      elim (Result-cases (verify_activation_any_at C sdk.master_pubs token chain now)) [
        | inr (e, bad) ↦ absurd (cc (rw bad at h))
        | inl (license, verified) ↦ elim (Result-cases (validate_at license sdk.machine_id now)) [
          | inr (e, bad) ↦ absurd (cc (rw (verified, bad) at h))
          | inl (_, valid) ↦
              let same : (
                to_public_license license (in_grace_period license now s.renewal_failed),
                license.alias,
              )
                  ≡ (lic, alias) =
                some-injective _ _ (rw (verified, valid) at h) in
              record {
                token = token;
                chain = chain;
                license = license;
                path = path;
                file = file;
                verified = verified;
                valid = valid;
                shown = ap (λ p. p.0) same;
                named = ap (λ p. p.1) same;
              }
        ]
      ]

  cached_license_iff :
      (lic : PublicLicense) (alias : String)
      → (cached_license C sdk now s ≡ some (lic, alias)) ↔ Cached lic alias
  unfolding cached_license
  cached_license_iff lic alias = (
    λ h. elim (Bool-cases s.has_path) [
      | inl path ↦ usable-Cached s.file lic alias path refl (opened path h)
      | inr no_path ↦ absurd (never (closed no_path h))
    ],
    λ c. rw (c.path, c.file, c.verified, c.valid, c.shown, c.named) refl,
  )
    where
      never : ◌≡◌ {A = Option (PublicLicense × String)} none (some (lic, alias)) → ⊥
      never e = cc

      opened :
          s.has_path ≡ true
          → cached_license C sdk now s ≡ some (lic, alias)
          → and_then s.file (usable C sdk now s.renewal_failed) ≡ some (lic, alias)
      opened path h =
          sym
            (ap (λ b. if b then and_then s.file (usable C sdk now s.renewal_failed) else none) path)
          ∙ h

      closed :
          s.has_path ≡ false
          → cached_license C sdk now s ≡ some (lic, alias)
          → ◌≡◌ {A = Option (PublicLicense × String)} none (some (lic, alias))
      closed path h =
          sym
            (ap (λ b. if b then and_then s.file (usable C sdk now s.renewal_failed) else none) path)
          ∙ h

module _ (C : Crates) (sdk : Sdk C) (server : Server) (writes clears : Bool) (upper : Char → String)
    (cached verified : SystemTime) (license_key : String) (s : Shared) where
  abbrev normalized : String
  normalized = normalize_key upper license_key

  -- A cached activation that is good, and is one of the key that the caller gave.
  abbrev pub Hit : PublicLicense → Type 0
  Hit lic =
      (alias : String) × Cached C sdk cached s lic alias
      × ((lic.key ≡ sanitize_key upper license_key) ⊎ ((alias ≢ "") × (alias ≡ normalized)))

  abbrev answer : Result (String × CertChain) LatteError
  answer = post_token C sdk server "/v1/activate" (activate_body C sdk normalized)

  -- What the server's answer gives.
  abbrev pub IsOnline : Result PublicLicense LatteError → Type 0
  IsOnline result =
      ((e : LatteError) × (answer ≡ err e) × (result ≡ err e))
      ⊎ ((a : String × CertChain) × (answer ≡ ok a)
          × (result ≡ verify_and_validate C sdk.master_pubs sdk.machine_id verified a))

  pub data IsActivation (done : Done PublicLicense) : Type 0 where
    invalid :
        IsInvalid normalized
        → done ≡ record { result = err invalid_key; after = s; sent = [] }
        → IsActivation done
    cached_hit :
        (lic : PublicLicense)
        → (IsInvalid normalized → ⊥)
        → Hit lic
        → done ≡ record { result = ok lic; after = s; sent = [] }
        → IsActivation done
    asked :
        (IsInvalid normalized → ⊥)
        → ((lic : PublicLicense) → Hit lic → ⊥)
        → done.sent ≡ ("/v1/activate", activate_body C sdk normalized) ∷ []
        → IsOnline done.result
        → IsActivation done

  online-IsActivation :
      (IsInvalid normalized → ⊥)
      → ((lic : PublicLicense) → Hit lic → ⊥)
      → IsActivation (activate_online C sdk server writes clears verified normalized s)
  online-IsActivation valid miss = elim (Result-cases answer) [
    | inl (a, good) ↦ rw good (asked valid miss refl (inr (a, good, refl)))
    | inr (e, bad) ↦ rw bad (asked valid miss refl (inl (e, bad, refl)))
  ]

  unless-IsActivation :
      (IsInvalid normalized → ⊥)
      → (o : Option (PublicLicense × String)) → cached_license C sdk cached s ≡ o
      → IsActivation (
          activate_unless C sdk server writes clears verified
            (sanitize_key upper license_key)
            normalized
            o
            s)
  unless-IsActivation valid none loaded =
      online-IsActivation valid
        (λ lic (alias, c, m). cc (loaded, (cached_license_iff C sdk cached s lic alias).1 c))
  unless-IsActivation valid (some (lic, alias)) loaded =
      elim (Bool-cases (answers_for (sanitize_key upper license_key) normalized (lic, alias))) [
        | inl hit ↦ rw hit (
            cached_hit lic valid
              (
                alias,
                (cached_license_iff C sdk cached s lic alias).0 loaded,
                ground (
                  arith,
                  hit,
                  eq_iff lic.key (sanitize_key upper license_key),
                  eq_iff alias normalized,
                  is_empty_iff alias,
                ),
              )
              refl)
        | inr miss ↦ rw miss (
            online-IsActivation valid (λ lic' (alias', c, m).
              let same : (lic', alias') ≡ (lic, alias) =
                some-injective _ _
                  (sym ((cached_license_iff C sdk cached s lic' alias').1 c) ∙ loaded) in
              missed lic alias miss (rw (ap (λ p. p.0.key) same, ap (λ p. p.1) same) at m)))
      ]
    where
      missed :
          (lic : PublicLicense) (alias : String)
          → answers_for (sanitize_key upper license_key) normalized (lic, alias) ≡ false
          → ((lic.key ≡ sanitize_key upper license_key) ⊎ ((alias ≢ "") × (alias ≡ normalized)))
          → ⊥
      missed lic alias miss m = ground (
        arith,
        miss,
        m,
        eq_iff lic.key (sanitize_key upper license_key),
        eq_iff alias normalized,
        is_empty_iff alias,
      )

  -- `activate` refuses a key that is empty or longer than 256 bytes once normalized, and changes
  -- nothing. For any other key it answers from the cache exactly when the cached activation verifies,
  -- may be used by this machine now and is one of the key that the caller gave, by its own key or by
  -- the alias that it was issued for; it then sends nothing and changes nothing. Otherwise it sends
  -- one request, and its result is the error of the server's answer or the verdict on the activation
  -- in it.
  pub activate-IsActivation :
      IsActivation (activate C sdk server writes clears upper cached verified license_key s)
  unfolding activate
  activate-IsActivation = elim (key_cases normalized) [
    | inl (bad, invalid_key') ↦ rw (invalid_key', activate) (invalid bad refl)
    | inr (valid, ok_key) ↦
        rw (ok_key, activate) (unless-IsActivation valid (cached_license C sdk cached s) refl)
  ]
