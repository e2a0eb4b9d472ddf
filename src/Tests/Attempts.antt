-- ===== src/Tests/Attempts.antt =====
-- The theorem on the thread of a renewal at a server that never answers.
use latte_rs.Base.{ℕ, ◌+◌, ◌≤◌, ◌≡◌, ◌≢◌, ◌↔◌, ◌⊎◌, String, true, none, Result, ok, err, []}
use latte_rs.Time.{Duration, from_secs}
use latte_rs.Crates.{Bytes}
use latte_rs.Wire.{TokenResponse, ErrorResponse, Reply}
use latte_rs.Server.{Body}
use latte_rs.Client.{Helper, hangs}
use latte_rs.Renewal.{Job, holds_activation}
use latte_rs.Renewal.Steps.{IsReplaced, IsCleared}
use latte_rs.Renewal.Thread.{renewed_of, posted, renew_and_store}
use latte_rs.Renewal.Thread.Ends.{IsReplyTo, IsReplied, renew_and_store_effect}
use latte_rs.Tests.Toy.{toy, chain, now}
use latte_rs.Tests.Renewals.{masters, idle, shared}
use latte_rs.Tests.Operations.{sdk}

abbrev show_status : ℕ → String
show_status n = "status"

abbrev decode_error : Bytes → Result ErrorResponse String
decode_error bytes = err "no error"

abbrev decode : Bytes → Result TokenResponse String
decode bytes = ok (record { token = "token"; chain = chain })

abbrev show_duration : Duration → String
show_duration d = "10s"

abbrev to_vec : Body → Result Bytes String
to_vec body = ok []

abbrev silent : String → Bytes → Helper
silent url bytes = hangs

abbrev job : Job
job = record { number = 0; activation_id = "ACT"; license_key = "KEY" }

renew_and_store_effect_example :
    let ended =
      renew_and_store toy sdk show_status decode_error decode show_duration to_vec silent true now
        now job shared in
    let renewed =
      renewed_of toy sdk show_status decode_error decode now
        (posted toy sdk show_status decode_error decode show_duration to_vec silent (ok [])).0 in
    (ended.waited ≤ from_secs 10 + from_secs 1)
    × (idle.attempt ≢ job.number → ended.after ≡ shared)
    × (idle.attempt ≡ job.number
        → (ended.after.renewal ≡ record idle { in_flight = none })
          × ((ended.after.renewal_failed ≡ true) ↔ (
              (holds_activation toy masters "ACT" now shared ≡ true)
              × ((reply : Reply)
                  → IsReplyTo toy sdk show_status decode_error decode show_duration to_vec silent
                      job reply
                  → ⊥))))
    × (ended.after.file ≢ shared.file
        → (holds_activation toy masters "ACT" now shared ≡ true)
          × IsReplied toy sdk show_status decode_error decode show_duration to_vec silent job
          × (IsReplaced renewed ended.after.file ⊎ IsCleared renewed ended.after.file))
renew_and_store_effect_example =
    renew_and_store_effect toy sdk show_status decode_error decode show_duration to_vec silent true
      now now job shared
