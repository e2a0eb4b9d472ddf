-- ===== src/Tests/Renewals.antt =====
-- The theorems on background renewals and on `Sdk::check` at a concrete shared state.
use latte_rs.Base.{
  ◌≡◌, ◌≢◌, ◌↔◌, ◌⊎◌, true, false, some, none, List, [], ◌∷◌, ℕ, ◌*◌, err, ok, refl, String,
}
use latte_rs.Base.Int.{ℤ, pos}
use latte_rs.Errors.{license_not_found, not_activated, network}
use latte_rs.Domain.{License, CertChain}
use latte_rs.Verify.{license_of, verify_activation_any_at}
use latte_rs.Renewal.{
  Renewal, Shared, Job, renew_after, renew_retry, renew_in_background, holds_activation, finish,
}
use latte_rs.Renewal.Steps.{
  AtLeast, MoreThan, started, renew_in_background_iff, IsReplaced, IsCleared, finish_effect,
}
use latte_rs.Check.{check_license_any_at_with_renewal_failed}
use latte_rs.Sdk.{Outcome, check, check_verified}
use latte_rs.Sdk.Renewed.{next_answer, check-renewed}
use latte_rs.Sdk.Cached.{answer, check-answer}
use latte_rs.Tests.Toy.{toy, token_claims, chain, token, now, evaluation}

abbrev pub masters : List ℕ
masters = b'm' ∷ []

abbrev pub licence : License
licence = license_of toy token_claims

abbrev pub idle : Renewal
idle = record { attempt = 0; in_flight = none; last_attempt = none }

abbrev pub evening : ℤ
evening = pos 8_000_000_000_000

renew_in_background_iff_example :
    (renew_in_background false true evening licence idle ≡ started evening licence idle) ↔ (
      (false ≡ false)
      × (true ≡ true)
      × AtLeast renew_after evening (some licence.issued_at)
      × AtLeast renew_retry evening none
      × MoreThan (2 * renew_retry) evening none)
renew_in_background_iff_example = renew_in_background_iff false true evening licence idle

abbrev job : Job
job = record { number = 0; activation_id = "ACT"; license_key = "KEY" }

abbrev pub shared : Shared
shared = record {
  has_path = true;
  file = some (token, chain);
  renewal = idle;
  renewal_failed = false;
}

finish_effect_example :
    let after = finish toy masters true job now (err license_not_found) shared in
    (after.renewal ≡ idle)
    × (idle.attempt ≢ job.number → after ≡ shared)
    × (idle.attempt ≡ job.number
        → (after.renewal_failed ≡ true)
          ↔ ((holds_activation toy masters "ACT" now shared ≡ true) × (false ≡ true)))
    × (after.file ≢ some (token, chain)
        → (idle.attempt ≡ job.number)
          × (holds_activation toy masters "ACT" now shared ≡ true)
          × (IsReplaced (err license_not_found) after.file
              ⊎ IsCleared (err license_not_found) after.file))
finish_effect_example = finish_effect toy masters true job now (err license_not_found) shared

-- What `check` gives on the shared state, later on the same day.
abbrev outcome : Outcome
outcome = check toy masters "machine" false true now evening shared

check-answer_example :
    ((token : String) (chain : CertChain)
      → true ≡ true
      → shared.file ≡ some (token, chain)
      → outcome.result
        ≡ answer
            (check_license_any_at_with_renewal_failed toy masters token chain "machine" now false))
    × (shared.file ≡ none → outcome.result ≡ err not_activated)
    × (outcome.after.file ≡ shared.file)
    × (outcome.after.renewal_failed ≡ false)
check-answer_example = check-answer toy masters "machine" false true now evening shared

abbrev begun : Job
begun = record { number = 1; activation_id = "ACT"; license_key = "KEY" }

begins : outcome.job ≡ some begun
unfolding evaluation check check_verified renew_in_background
begins = refl

verifies : verify_activation_any_at toy masters token chain now ≡ ok licence
unfolding evaluation
verifies = refl

-- The server could not be reached.
check-renewed_example :
    (check toy masters "machine" false true now evening
      (finish toy masters true begun now (err (network "down")) outcome.after)).result
    ≡ next_answer toy masters "machine" token chain now (err (network "down"))
check-renewed_example =
    check-renewed toy masters "machine" false true now evening shared token chain licence begun now
      (err (network "down")) false true now evening refl refl verifies verifies begins
