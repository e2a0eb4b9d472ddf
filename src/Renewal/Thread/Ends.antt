-- ===== src/Renewal/Thread/Ends.antt =====
-- How the thread of a renewal ends.
use latte_rs.Base.{
  ℕ, ◌+◌, ◌≤◌, String, ◌≡◌, ◌≢◌, refl, ap, ◌∙◌, ◌↔◌, ◌⊎◌, inl, inr, Bool, true, false, Option, none,
  Result, ok, err, Result-cases, Bool-cases, arith, ◌==◌,
}
use latte_rs.Time.{SystemTime, Duration, from_secs}
use latte_rs.Crates.{Crates, Bytes}
use latte_rs.Errors.{LatteError, network}
use latte_rs.Wire.{TokenResponse, ErrorResponse, Reply, call}
use latte_rs.Wire
use latte_rs.Server.{Body}
use latte_rs.Config.{Sdk}
use latte_rs.Client.{Helper, Waited}
use latte_rs.Client.Waiting.{post-bounded}
use latte_rs.Client.Refusals.{call-IsOutcome}
use latte_rs.Check.{check_license_any_at_with_renewal_failed}
use latte_rs.Renewal.{
  Renewal, Shared, Job, is_network, holds_activation, verify_and_validate, checked_answer,
  drop_in_flight,
}
use latte_rs.Renewal.Steps.{finish_effect, IsReplaced, IsCleared}
use latte_rs.Renewal.Thread.{
  Activation, with_bookkeeping, drop_mark, renewed_of, stored_and_dropped, renew_url, renewal_body,
  posted, renew_and_store, IsReply,
}

is_network-IsLost :
    {A : Type 0} (r : Result A LatteError)
    → (is_network r ≡ true) ↔ ((text : String) × (r ≡ err (network text)))
is_network-IsLost (ok a) = (λ h. cc, λ (text, e). cc)
is_network-IsLost (err (network text)) = (λ h. (text, refl), λ h. refl)
is_network-IsLost (err _) = (λ h. cc, λ (text, e). cc)

drop_in_flight-mine :
    (number : ℕ) (r r' : Renewal)
    → r' ≡ r
    → r.attempt ≡ number
    → drop_in_flight number r' ≡ record r { in_flight = none }
unfolding drop_in_flight
drop_in_flight-mine number r r' same mine =
    let e : (r.attempt == number) ≡ true = ground (arith, mine) in rw (same, e) refl

drop_in_flight-other : (number : ℕ) (r : Renewal) → r.attempt ≢ number → drop_in_flight number r ≡ r
unfolding drop_in_flight
drop_in_flight-other number r other =
    let e : (r.attempt == number) ≡ false = ground (arith, other) in rw e refl

stored_not_lost :
    (renewed : Result Activation LatteError) (file : Option Activation)
    → IsReplaced renewed file ⊎ IsCleared renewed file
    → is_network renewed ≡ false
stored_not_lost renewed file (inl (activation, e, _)) = rw e refl
stored_not_lost renewed file (inr (_, inl e)) = rw e refl
stored_not_lost renewed file (inr (_, inr (inl e))) = rw e refl
stored_not_lost renewed file (inr (_, inr (inr e))) = rw e refl

module _ (C : Crates) (sdk : Sdk C) (show_status : ℕ → String)
    (decode_error : Bytes → Result ErrorResponse String)
    (decode : Bytes → Result TokenResponse String) where
  abbrev renewed_by : SystemTime → Result Reply LatteError → Result Activation LatteError
  renewed_by = renewed_of C sdk show_status decode_error decode

  checked_answer-is_network :
      (checked : SystemTime) (answer : Result Activation LatteError)
      → is_network (checked_answer C sdk.master_pubs sdk.machine_id checked answer)
        ≡ is_network answer
  unfolding checked_answer verify_and_validate
  checked_answer-is_network checked (err e) = refl
  checked_answer-is_network checked (ok (token, chain)) =
      elim (Result-cases (
        check_license_any_at_with_renewal_failed C sdk.master_pubs token chain sdk.machine_id
          checked false)) [ inl (license, good) ↦ rw good refl | inr (e, bad) ↦ rw bad refl ]

  post-is_network :
      (sent : Result Reply LatteError)
      → is_network (Wire.post show_status decode_error decode "/v1/renew" sent)
        ≡ is_network (call show_status decode_error decode "/v1/renew" sent)
  unfolding Wire.post
  post-is_network sent =
      elim (Result-cases (call show_status decode_error decode "/v1/renew" sent)) [
        | inr (e, bad) ↦ rw bad refl
        | inl (a, good) ↦ rw good (ground arith)
      ]

  module _ (show_duration : Duration → String) (to_vec : Body → Result Bytes String)
      (helper : String → Bytes → Helper) where
    abbrev posted_by : Result Bytes String → Waited
    posted_by = posted C sdk show_status decode_error decode show_duration to_vec helper

    abbrev body : Job → Body
    body = renewal_body C sdk show_status decode_error decode show_duration to_vec helper

    abbrev pub IsReplyTo : Job → Reply → Type 0
    IsReplyTo = IsReply C sdk show_status decode_error decode show_duration to_vec helper

    abbrev address : String
    address = renew_url C sdk show_status decode_error decode show_duration to_vec helper

    abbrev pub IsReplied : Job → Type 0
    IsReplied job = (reply : Reply) × IsReplyTo job reply

    IsHeard : Job → Result Activation LatteError → Type 0
    IsHeard job renewed =
        ((is_network renewed ≡ true) × ((reply : Reply) → IsReplyTo job reply → ⊥))
        ⊎ ((is_network renewed ≡ false) × IsReplied job)

    sent_is_network :
        (checked : SystemTime) (sent : Result Reply LatteError)
        → is_network (renewed_by checked sent)
          ≡ is_network (call show_status decode_error decode "/v1/renew" sent)
    sent_is_network checked sent =
        checked_answer-is_network checked
          (Wire.post show_status decode_error decode "/v1/renew" sent)
        ∙ post-is_network sent

    -- A body that was encoded is heard about as the reply to its post is.
    module _ (job : Job) (bytes : Bytes) (encoded : to_vec (body job) ≡ ok bytes) where
      abbrev answer : Result TokenResponse LatteError
      answer = call show_status decode_error decode "/v1/renew" (posted_by (ok bytes)).0

      answered : is_network answer ≡ false → IsReplied job
      unfolding call
      answered h =
          let (bound, timely, failed) =
            post-bounded show_duration sdk.background_http.timeout (helper address bytes) in
          elim (Result-cases (posted_by (ok bytes)).0) [
            | inl (reply, got) ↦ (reply, (bytes, encoded, (timely reply).0 got))
            | inr (e, lost) ↦
                let (text, network_error) = failed e lost in
                absurd (cc (rw (lost, network_error) at h))
          ]

      unanswered : is_network answer ≡ true → (reply : Reply) → IsReplyTo job reply → ⊥
      unanswered h reply (other, same, timely) =
          let (outcome, lost) =
            call-IsOutcome show_status decode_error decode "/v1/renew" show_duration
              sdk.background_http.timeout (helper address bytes) in
          let one : other ≡ bytes = cc in
          lost.0 ((is_network-IsLost answer).0 h) reply (rw one at timely)

    posted-IsHeard :
        (checked : SystemTime) (job : Job)
        → IsHeard job (renewed_by checked (posted_by (to_vec (body job))).0)
    unfolding IsHeard call
    posted-IsHeard checked job = elim (Result-cases (to_vec (body job))) [
      | inr (e, bad) ↦
          rw bad
            (inl (sent_is_network checked (err (network e)), λ reply (bytes, good, timely). cc))
      | inl (bytes, good) ↦
          let same = sent_is_network checked (posted_by (ok bytes)).0 in
          let e : (posted_by (to_vec (body job))).0 ≡ (posted_by (ok bytes)).0 =
            ap (λ r. (posted_by r).0) good in
          elim (Bool-cases (is_network (answer job bytes good))) [
            | inl lost ↦ inl (
              ap (λ r. is_network (renewed_by checked r)) e ∙ same ∙ lost,
              unanswered job bytes good lost,
            )
            | inr reached ↦ inr (
              ap (λ r. is_network (renewed_by checked r)) e ∙ same ∙ reached,
              answered job bytes good reached,
            )
          ]
    ]

    heard_iff :
        (job : Job) (renewed : Result Activation LatteError)
        → IsHeard job renewed
        → (is_network renewed ≡ true) ↔ ((reply : Reply) → IsReplyTo job reply → ⊥)
    unfolding IsHeard
    heard_iff job renewed (inl (lost, silent)) = (λ h. silent, λ h. lost)
    heard_iff job renewed (inr (reached, (reply, got))) =
        (λ h. cc, λ silent. absurd (silent reply got))

    heard_reply :
        (job : Job) (renewed : Result Activation LatteError)
        → IsHeard job renewed
        → is_network renewed ≡ false
        → IsReplied job
    unfolding IsHeard
    heard_reply job renewed (inl (lost, silent)) h = cc
    heard_reply job renewed (inr (reached, (reply, got))) h = (reply, got)

    posted_waited :
        (encoded : Result Bytes String)
        → (posted_by encoded).1 ≤ sdk.background_http.timeout + from_secs 1
    posted_waited (err e) = omega arith
    posted_waited (ok bytes) =
        (post-bounded show_duration sdk.background_http.timeout (helper address bytes)).0

    abbrev pub holds : SystemTime → Job → Shared → Bool
    holds noted job s = holds_activation C sdk.master_pubs job.activation_id noted s

    -- Whatever becomes of its post, the thread of a renewal waits at most a second past the background
    -- limit. With no other thread between its steps from the lock on: if a newer renewal has overtaken
    -- it, it changes nothing. Otherwise no renewal is marked as running after it; the flag is set exactly
    -- when the cache holds the renewed activation and no reply arrived by then; and the cached
    -- activation changes only if the cache held the renewed one and a reply arrived, and then to the
    -- checked activation that the post gave, or to nothing after one of the three refusals.
    pub renew_and_store_effect :
        (writes : Bool) (checked noted : SystemTime) (job : Job) (s : Shared)
        → let ended =
            renew_and_store C sdk show_status decode_error decode show_duration to_vec helper writes
              checked noted job s in
          let renewed = renewed_by checked (posted_by (to_vec (body job))).0 in
          (ended.waited ≤ sdk.background_http.timeout + from_secs 1)
          × (s.renewal.attempt ≢ job.number → ended.after ≡ s)
          × (s.renewal.attempt ≡ job.number
              → (ended.after.renewal ≡ record s.renewal { in_flight = none })
                × ((ended.after.renewal_failed ≡ true)
                    ↔ ((holds noted job s ≡ true) × ((reply : Reply) → IsReplyTo job reply → ⊥))))
          × (ended.after.file ≢ s.file
              → (holds noted job s ≡ true)
                × IsReplied job
                × (IsReplaced renewed ended.after.file ⊎ IsCleared renewed ended.after.file))
    unfolding renew_and_store stored_and_dropped
    renew_and_store_effect writes checked noted job s =
        let sent = (posted_by (to_vec (body job))).0 in
        let (kept, overtaken, flag, file) =
          finish_effect C sdk.master_pubs writes job noted (renewed_by checked sent) s in
        let heard = posted-IsHeard checked job in
        let (lost, silent) = heard_iff job (renewed_by checked sent) heard in
        (
          posted_waited (to_vec (body job)),
          (λ other.
              ap (drop_mark job.number) (overtaken other)
              ∙ ap (with_bookkeeping s) (drop_in_flight-other job.number s.renewal other)),
          (λ mine. (
            drop_in_flight-mine job.number s.renewal _ kept mine,
            (
              (λ h. let (held, net) = (flag mine).0 h in (held, lost net)),
              (λ (held, none_came). (flag mine).1 (held, silent none_came)),
            ),
          )),
          (λ ne.
              let (mine, held, change) = file ne in
              (held, heard_reply job _ heard (stored_not_lost _ _ change), change)),
        )
