-- ===== src/Sdk/Renewed.antt =====
-- src/http.rs: `Sdk::check` that starts a renewal, the end of the renewal, and the next `check`.
use latte_rs.Base.{
  ℕ, ◌≡◌, refl, sym, ap, ◌∙◌, inl, inr, String, Bool, true, false, ◌==◌, eq_iff, Option, none, some,
  List, arith, Result, ok, err, if◌then◌else◌,
}
use mathlib.Core.Option.{some-injective}
use latte_rs.Time.{SystemTime}
use latte_rs.Crates.{Crates}
use latte_rs.Errors.{
  LatteError, network, not_activated, license_not_found, license_expired, invalid_project_key,
}
use latte_rs.Domain.{License, CertChain}
use latte_rs.Verify.{verify_activation_any_at}
use latte_rs.Check.{PublicLicense, check_license_any_at_with_renewal_failed}
use latte_rs.Renewal.{
  Renewal, Shared, Job, renew_in_background, spawn, is_network, holds_activation, note_renewal,
  store, finish,
}
use latte_rs.Renewal.Steps.{held}
use latte_rs.Threads.Spacing.{background_cases}
use latte_rs.Sdk
use latte_rs.Sdk.{Outcome, is_renewable, check, check_verified, check_loaded, with_renewal}
use latte_rs.Sdk.Cached.{answer, check-answer}

-- A started renewal has the number of the latest attempt, and is one of the licence's activation.
abbrev IsJobOf : Renewal × Option Job → Job → License → Type 0
IsJobOf made job license =
    (made.0.attempt ≡ job.number) × (license.activation_id ≡ job.activation_id)

spawn-IsJobOf :
    (spawns : Bool) (now : SystemTime) (license : License) (number : ℕ) (job : Job)
    → (spawn spawns now license number).1 ≡ some job
    → IsJobOf (spawn spawns now license number) job license
spawn-IsJobOf false now license number job h = cc
spawn-IsJobOf true now license number job h =
    let same = some-injective _ _ h in (ap (λ j. j.number) same, ap (λ j. j.activation_id) same)

renew_in_background-IsJobOf :
    (contended spawns : Bool) (now : SystemTime) (license : License) (state : Renewal) (job : Job)
    → (renew_in_background contended spawns now license state).1 ≡ some job
    → IsJobOf (renew_in_background contended spawns now license state) job license
renew_in_background-IsJobOf contended spawns now license state job h =
    elim (background_cases contended spawns now license state) [
      | inl none_started ↦ absurd (cc (rw none_started at h))
      | inr (_, made) ↦ rw made (spawn-IsJobOf spawns now license _ job (rw made at h))
    ]

if-IsJobOf :
    (renewable : Bool) (state : Renewal) (made : Renewal × Option Job) (job : Job)
    (license : License)
    → (made.1 ≡ some job → IsJobOf made job license)
    → (if renewable then made else (state, none)).1 ≡ some job
    → IsJobOf (if renewable then made else (state, none)) job license
if-IsJobOf true state made job license h started = h started
if-IsJobOf false state made job license h started = cc

module _ (C : Crates) (masters : List C.VerifyingKey) (machine_id : String) where
  -- What the next `check` answers, given how the renewal of a cached token ended.
  abbrev pub next_answer :
      (token : String) (chain : CertChain)
      → SystemTime
      → Result (String × CertChain) LatteError
      → Result PublicLicense LatteError
  next_answer token chain next (ok (token', chain')) =
      answer
        (check_license_any_at_with_renewal_failed C masters token' chain' machine_id next false)
  next_answer token chain next (err license_not_found) = err not_activated
  next_answer token chain next (err license_expired) = err not_activated
  next_answer token chain next (err invalid_project_key) = err not_activated
  next_answer token chain next (err e) = answer (
      check_license_any_at_with_renewal_failed C masters token chain machine_id next
        (is_network {A = String × CertChain} (err e)))

  module _ (contended spawns : Bool) (now later : SystemTime) (s : Shared) (token : String)
      (chain : CertChain) (license : License) (job : Job) where
    abbrev pub first : Outcome
    first = check C masters machine_id contended spawns now later s

    first-verified :
        s.has_path ≡ true
        → s.file ≡ some (token, chain)
        → verify_activation_any_at C masters token chain now ≡ ok license
        → first ≡ check_verified C masters machine_id contended spawns now later s (ok license)
    unfolding check
    first-verified path file verified =
        ap
          (λ b.
            if b
            then check_loaded C masters machine_id contended spawns now later s s.file
            else Sdk.refused s)
          path
        ∙ ap (check_loaded C masters machine_id contended spawns now later s) file
        ∙ ap (check_verified C masters machine_id contended spawns now later s) verified

    verified-IsJobOf :
        let made = check_verified C masters machine_id contended spawns now later s (ok license) in
        made.job ≡ some job
        → IsJobOf (made.after.renewal, made.job) job license × (made.after.has_path ≡ s.has_path)
    unfolding check_verified
    verified-IsJobOf started = (
      if-IsJobOf (is_renewable machine_id license) s.renewal
          (renew_in_background contended spawns later license s.renewal) job license
          (renew_in_background-IsJobOf contended spawns later license s.renewal job) started,
      refl,
    )

    abbrev next_check :
        (contended' spawns' : Bool) (next later' : SystemTime)
        → Shared
        → Result PublicLicense LatteError
    next_check contended' spawns' next later' after =
        (check C masters machine_id contended' spawns' next later' after).result

    stored-next_answer :
        (contended' spawns' : Bool) (next later' : SystemTime)
        (renewed : Result (String × CertChain) LatteError) (after : Shared)
        → after.has_path ≡ true
        → after.file ≡ some (token, chain)
        → next_check contended' spawns' next later'
            (store true renewed (note_renewal C masters true renewed after))
          ≡ next_answer token chain next renewed
    unfolding store
    stored-next_answer contended' spawns' next later' (ok (token', chain')) after path file =
        (check-answer C masters machine_id contended' spawns' next later' _).0 token' chain' path
          refl
    stored-next_answer contended' spawns' next later' (err license_not_found) after path file =
        (check-answer C masters machine_id contended' spawns' next later' _).1 refl
    stored-next_answer contended' spawns' next later' (err license_expired) after path file =
        (check-answer C masters machine_id contended' spawns' next later' _).1 refl
    stored-next_answer contended' spawns' next later' (err invalid_project_key) after path file =
        (check-answer C masters machine_id contended' spawns' next later' _).1 refl
    stored-next_answer contended' spawns' next later' (err (network e)) after path file =
        (check-answer C masters machine_id contended' spawns' next later' _).0 token chain path file
    stored-next_answer contended' spawns' next later' (err _) after path file =
        (check-answer C masters machine_id contended' spawns' next later' _).0 token chain path file

    held_by_file :
        (ended : SystemTime) (after : Shared)
        → after.has_path ≡ true
        → after.file ≡ some (token, chain)
        → verify_activation_any_at C masters token chain ended ≡ ok license
        → license.activation_id ≡ job.activation_id
        → holds_activation C masters job.activation_id ended after ≡ true
    unfolding holds_activation
    held_by_file ended after path file verified same =
        rw (path, file, verified) ((eq_iff license.activation_id job.activation_id).1 same)

    -- If `check` on a cached token starts a renewal, and the token still verifies, as the same licence,
    -- when the renewal ends with a cache that can be written and nothing else done in between, then the
    -- next `check` answers from the renewed token, whatever the first one answered; after one of the
    -- three refusals it answers that nothing is activated; and after any other failure it answers from
    -- the old token, with the flag set if the server could not be reached.
    pub check-renewed :
        (ended : SystemTime) (renewed : Result (String × CertChain) LatteError)
        (contended' spawns' : Bool) (next later' : SystemTime)
        → s.has_path ≡ true
        → s.file ≡ some (token, chain)
        → verify_activation_any_at C masters token chain now ≡ ok license
        → verify_activation_any_at C masters token chain ended ≡ ok license
        → first.job ≡ some job
        → (check C masters machine_id contended' spawns' next later'
            (finish C masters true job ended renewed first.after)).result
          ≡ next_answer token chain next renewed
    check-renewed ended renewed contended' spawns' next later' path file verified still started =
        let made = first-verified path file verified in
        let ((number, owner), same_path) =
          verified-IsJobOf (sym (ap (λ o. o.job) made) ∙ started) in
        let cached = check-answer C masters machine_id contended spawns now later s in
        let path' : first.after.has_path ≡ true =
          ap (λ o. o.after.has_path) made ∙ same_path ∙ path in
        let file' : first.after.file ≡ some (token, chain) = cached.2 ∙ file in
        let mine : (first.after.renewal.attempt == job.number) ≡ true =
          ground (arith, ap (λ o. o.after.renewal.attempt) made ∙ number) in
        ap (next_check contended' spawns' next later') (
          held C masters true job ended renewed first.after mine
            (held_by_file ended first.after path' file' still owner))
        ∙ stored-next_answer contended' spawns' next later' renewed first.after path' file'
