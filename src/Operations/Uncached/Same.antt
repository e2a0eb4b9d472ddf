-- ===== src/Operations/Uncached/Same.antt =====
-- src/http.rs: what the feature `cache` changes in the answers of `activate`, `renew` and
-- `deactivate`.
use latte_rs.Base.{
  Char, String, ◌≡◌, refl, ap, inl, inr, Bool, none, List, [], ◌∷◌, Result, ok, err, ◌>>=◌, ◌⊎◌,
}
use latte_rs.Time.{SystemTime}
use latte_rs.Crates.{Crates}
use latte_rs.Errors.{LatteError}
use latte_rs.Domain.{CertChain}
use latte_rs.Check.{PublicLicense}
use latte_rs.Key.{normalize_key}
use latte_rs.Server.{Server, Body, credentials_request}
use latte_rs.Config.{Sdk}
use latte_rs.Renewal.{Shared}
use latte_rs.Operations.{
  Done, complete, activate_body, post_token, activate, renew, deactivate, credentials_of,
}
use latte_rs.Operations.Uncached.{
  Answered, verified_answer, activate_uncached, renew_uncached, deactivate_uncached,
}
use latte_rs.Operations.Requests.{
  Hit, IsActivation, activate-IsActivation, key_cases, invalid, cached_hit, asked, IsOnline,
}

-- What the caller and the server see of an operation.
abbrev pub answer_of : {A : Type 0} → Done A → Answered A
answer_of done = (done.result, done.sent)

module _ (C : Crates) (sdk : Sdk C) (server : Server) (writes clears : Bool) where
  complete-answer :
      (now : SystemTime) (answer : Result (String × CertChain) LatteError)
      (sent : List (String × Body)) (s : Shared)
      → answer_of (complete C sdk server writes clears now answer sent s)
        ≡ (verified_answer C sdk server now answer, sent)
  complete-answer now (err e) sent s = refl
  complete-answer now (ok a) sent s = refl

  renew-answer :
      (started noted verified : SystemTime) (activation_id license_key : String) (s : Shared)
      → answer_of
          (renew C sdk server writes clears started noted verified activation_id license_key s)
        ≡ renew_uncached C sdk server verified activation_id license_key
  unfolding renew renew_uncached
  renew-answer started noted verified activation_id license_key s = complete-answer verified _ _ _

  same_ok : {A E : Type 0} (r : Result A E) → r ≡ (do a ← r; ok a)
  same_ok (ok a) = refl
  same_ok (err e) = refl

  deactivate-answer :
      (activation_id license_key : String) (s : Shared)
      → answer_of (deactivate C sdk server writes clears activation_id license_key s)
        ≡ deactivate_uncached C sdk server activation_id license_key
  unfolding deactivate deactivate_uncached
  deactivate-answer activation_id license_key s =
      ap
        (λ r. (
          r,
          (
            "/v1/deactivate",
            credentials_request (credentials_of C sdk activation_id license_key none),
          )
              ∷ [],
        ))
        (same_ok _)

  module _ (upper : Char → String) (cached verified : SystemTime) (license_key : String)
      (s : Shared) where
    abbrev normalized : String
    normalized = normalize_key upper license_key

    online-answer :
        (result : Result PublicLicense LatteError)
        → IsOnline C sdk server writes clears upper cached verified license_key s result
        → result
          ≡ verified_answer C sdk server verified
              (post_token C sdk server "/v1/activate" (activate_body C sdk normalized))
    online-answer result (inl (e, bad, same)) = rw (same, bad) refl
    online-answer result (inr (a, good, same)) = rw (same, good) refl

    -- The two ways that an activation can go.
    abbrev pub IsSame : Answered PublicLicense → Type 0
    IsSame done =
        (done ≡ activate_uncached C sdk server upper verified license_key)
        ⊎ ((lic : PublicLicense) × Hit C sdk server writes clears upper cached verified license_key
              s lic
            × (done ≡ (ok lic, [])))

    activation-IsSame :
        (done : Done PublicLicense)
        → IsActivation C sdk server writes clears upper cached verified license_key s done
        → IsSame (answer_of done)
    unfolding activate_uncached
    activation-IsSame done (invalid bad e) = elim (key_cases normalized) [
      | inl (_, refused) ↦ inl (rw (e, activate_uncached, refused) refl)
      | inr (good, _) ↦ absurd (good bad)
    ]
    activation-IsSame done (cached_hit lic good hit e) = inr (lic, hit, rw e refl)
    activation-IsSame done (asked good miss sent online) = elim (key_cases normalized) [
      | inl (bad, _) ↦ absurd (good bad)
      | inr (_, accepted) ↦
          inl (rw (activate_uncached, accepted, sent, online-answer done.result online) refl)
    ]

  -- The feature `cache` changes neither the result nor the requests of `renew` and `deactivate`. It
  -- changes those of `activate` only when the cached activation verifies, may be used by this machine
  -- now and is one of the key that the caller gave: the answer is then that licence, and no request
  -- is sent.
  pub operations-uncached :
      (upper : Char → String) (cached started noted verified : SystemTime)
      (license_key activation_id : String) (s : Shared)
      → IsSame upper cached verified license_key s
          (answer_of (activate C sdk server writes clears upper cached verified license_key s))
        × (answer_of
              (renew C sdk server writes clears started noted verified activation_id license_key s)
            ≡ renew_uncached C sdk server verified activation_id license_key)
        × (answer_of (deactivate C sdk server writes clears activation_id license_key s)
            ≡ deactivate_uncached C sdk server activation_id license_key)
  operations-uncached upper cached started noted verified license_key activation_id s = (
    activation-IsSame upper cached verified license_key s _
        (activate-IsActivation C sdk server writes clears upper cached verified license_key s),
    renew-answer started noted verified activation_id license_key s,
    deactivate-answer activation_id license_key s,
  )
