-- ===== src/Operations/Replayed.antt =====
-- An operation, and then a check with the same clock.
use latte_rs.Base.{
  Char, String, ◌≡◌, refl, sym, ap, ◌∙◌, inl, inr, Bool, true, false, Option, none, some, List,
  arith, Result, ok, err, Bool-cases, Result-cases, Option-cases, map_err-eq-ok, ok-injective,
  and_then, if◌then◌else◌,
}
use latte_rs.Time.{SystemTime}
use latte_rs.Crates.{Crates}
use latte_rs.Errors.{LatteError}
use latte_rs.Domain.{CertChain}
use latte_rs.Key.{sanitize_key, normalize_key}
use latte_rs.Verify.{verify_activation_any_at}
use latte_rs.Validate.{validate_at}
use latte_rs.Check.{PublicLicense, check_license_any_at_with_renewal_failed}
use latte_rs.Server.{Server, Body}
use latte_rs.Config.{Sdk}
use latte_rs.Renewal.{Shared, verify_and_validate}
use latte_rs.Sdk.{check}
use latte_rs.Sdk.Cached.{answer, check-answer}
use latte_rs.Operations.Effects.{saved_flag}
use latte_rs.Operations.{
  save_to_cache, clear_cache, handle_invalidation, usable, cached_license, complete, answers_for,
  validate_license_key, activate_unless, activate,
}

path_of_clear : (clears : Bool) (s : Shared) → (clear_cache clears s).has_path ≡ s.has_path
unfolding clear_cache
path_of_clear true s = ground arith
path_of_clear false s = ground arith

module _ (C : Crates) (sdk : Sdk C) where
  usable-eq-some :
      (now : SystemTime) (failed : Bool) (token : String) (chain : CertChain) (lic : PublicLicense)
      (alias : String)
      → usable C sdk now failed (token, chain) ≡ some (lic, alias)
      → check_license_any_at_with_renewal_failed C sdk.master_pubs token chain sdk.machine_id now
          failed
        ≡ ok lic
  unfolding check_license_any_at_with_renewal_failed
  usable-eq-some now failed token chain lic alias h =
      elim (Result-cases (verify_activation_any_at C sdk.master_pubs token chain now)) [
        | inr (e, bad) ↦ cc (rw bad at h)
        | inl (l, good) ↦ elim (Result-cases (validate_at l sdk.machine_id now)) [
          | inr (e, refused) ↦ cc (rw (good, refused) at h)
          | inl (_, valid) ↦ rw (good, valid) (cc (rw (good, valid) at h))
        ]
      ]

  -- A state that answers a check with this licence.
  record Answers (now : SystemTime) (lic : PublicLicense) (s : Shared) : Type 0 where
    token : String
    chain : CertChain
    path : s.has_path ≡ true
    file : s.file ≡ some (token, chain)
    accepted :
        check_license_any_at_with_renewal_failed C sdk.master_pubs token chain sdk.machine_id now
          s.renewal_failed
        ≡ ok lic

  opened :
      (now : SystemTime) (s : Shared) {a : String × CertChain}
      → s.has_path ≡ true
      → s.file ≡ some a
      → cached_license C sdk now s ≡ usable C sdk now s.renewal_failed a
  unfolding cached_license
  opened now s path file =
      ap (λ b. if b then and_then s.file (usable C sdk now s.renewal_failed) else none) path
      ∙ ap (λ f. and_then f (usable C sdk now s.renewal_failed)) file

  cached-Answers :
      (now : SystemTime) (lic : PublicLicense) (alias : String) (s : Shared)
      → cached_license C sdk now s ≡ some (lic, alias)
      → Answers now lic s
  unfolding cached_license
  cached-Answers now lic alias s h = elim (Bool-cases s.has_path) [
    | inr no_path ↦ absurd (ground (arith, no_path))
    | inl path ↦ elim (Option-cases s.file) [
      | inl empty ↦ absurd (ground (arith, path, empty))
      | inr ((token, chain), file) ↦ record {
        token = token;
        chain = chain;
        path = path;
        file = file;
        accepted =
            usable-eq-some now s.renewal_failed token chain lic alias
              (sym (opened now s path file) ∙ h);
      }
    ]
  ]

  saved-Answers :
      (now : SystemTime) (lic : PublicLicense) (a : String × CertChain) (s : Shared)
      → s.has_path ≡ true
      → verify_and_validate C sdk.master_pubs sdk.machine_id now a ≡ ok lic
      → Answers now lic (save_to_cache true a s)
  unfolding verify_and_validate save_to_cache
  saved-Answers now lic (token, chain) s path good = record {
    token = token;
    chain = chain;
    path = ground (arith, path);
    file = ground (arith, path);
    accepted =
        ap
          (check_license_any_at_with_renewal_failed C sdk.master_pubs token chain sdk.machine_id
            now)
          (saved_flag true (token, chain) s)
        ∙ map_err-eq-ok _ _ good;
  }

  Answers-check :
      (contended spawns : Bool) (now later : SystemTime) (lic : PublicLicense) (s : Shared)
      → Answers now lic s
      → (check C sdk.master_pubs sdk.machine_id contended spawns now later s).result ≡ ok lic
  Answers-check contended spawns now later lic s a =
      (check-answer C sdk.master_pubs sdk.machine_id contended spawns now later s).0 a.token a.chain
        a.path a.file
      ∙ ap answer a.accepted

  module _ (server : Server) (clears : Bool) (now : SystemTime) (lic : PublicLicense) where
    kept_path :
        (o : Result (String × CertChain) LatteError) (s : Shared)
        → (handle_invalidation C sdk server true clears o s).has_path ≡ s.has_path
    unfolding clear_cache
    kept_path o s = ground (arith, path_of_clear clears s)

    complete-Answers :
        (o : Result (String × CertChain) LatteError) (sent : List (String × Body)) (s : Shared)
        → s.has_path ≡ true
        → (complete C sdk server true clears now o sent s).result ≡ ok lic
        → Answers now lic (complete C sdk server true clears now o sent s).after
    complete-Answers (err e) sent s path h = cc
    complete-Answers (ok a) sent s path h = rw h (saved-Answers now lic a s path h)

    unless-Answers :
        (sanitized normalized : String) (s : Shared)
        → s.has_path ≡ true
        → (o : Option (PublicLicense × String)) → cached_license C sdk now s ≡ o
        → let d = activate_unless C sdk server true clears now sanitized normalized o s in
          d.result ≡ ok lic → Answers now lic d.after
    unless-Answers sanitized normalized s path none e h =
        complete-Answers _ _ _ (kept_path _ s ∙ path) h
    unless-Answers sanitized normalized s path (some (cached, alias)) e h =
        elim (Bool-cases (answers_for sanitized normalized (cached, alias))) [
          | inl hit ↦ rw hit (
              cached-Answers now lic alias s
                (e ∙ ap (λ l. some (l, alias)) (ok-injective (rw hit at h))))
          | inr miss ↦ rw miss (complete-Answers _ _ _ (kept_path _ s ∙ path) (rw miss at h))
        ]

    activate-Answers :
        (upper : Char → String) (license_key : String) (s : Shared)
        → s.has_path ≡ true
        → (activate C sdk server true clears upper now now license_key s).result ≡ ok lic
        → Answers now lic (activate C sdk server true clears upper now now license_key s).after
    unfolding activate
    activate-Answers upper license_key s path h =
        elim (Result-cases (validate_license_key (normalize_key upper license_key))) [
          | inr (e, invalid) ↦ absurd (cc (rw (invalid, activate) at h))
          | inl (_, valid) ↦
              rw (valid, activate)
                (unless-Answers (sanitize_key upper license_key) (normalize_key upper license_key) s
                  path (cached_license C sdk now s) refl (rw (valid, activate) at h))
        ]

  -- With a cache path that can be written, a licence that `activate` gives, from the cache or from
  -- the server, is what `check` gives next at the same time.
  pub check-activate :
      (server : Server) (clears contended spawns : Bool) (now later : SystemTime)
      (upper : Char → String) (license_key : String) (s : Shared) (lic : PublicLicense)
      → s.has_path ≡ true
      → (activate C sdk server true clears upper now now license_key s).result ≡ ok lic
      → (check C sdk.master_pubs sdk.machine_id contended spawns now later
          (activate C sdk server true clears upper now now license_key s).after).result
        ≡ ok lic
  check-activate server clears contended spawns now later upper license_key s lic path h =
      Answers-check contended spawns now later lic _
        (activate-Answers server clears now lic upper license_key s path h)
