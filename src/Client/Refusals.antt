-- ===== src/Client/Refusals.antt =====
-- Which error a call gives.
use latte_rs.Base.{
  ℕ, ◌≤◌, ◌<◌, String, ◌<>◌, ◌≡◌, ◌≢◌, ◌↔◌, ◌⊎◌, refl, Option, inl, inr, Bool-cases, Result-cases,
  arith, Result, ok, err, eq_iff, get_or, and_then, to_option, is_empty_iff, ==→eq, ◌==◌, is_empty,
  str_eq, if◌then◌else◌,
}
use latte_rs.Time.{SystemTime, Duration}
use latte_rs.Crates.{Bytes}
use latte_rs.Errors.{
  LatteError, license_not_found, license_expired, deactivation_blocked, seat_limit,
  invalid_project_key, server, network,
}
use latte_rs.Wire.{ErrorResponse, Reply, default_error, is_success, error_of_status, call}
use latte_rs.Client.{Helper, post}
use latte_rs.Client.Waiting.{IsTimely, post-bounded}

-- The error of the server under any other status: with the text of the body, or with one of the status
-- where the body has none.
abbrev pub IsServed : (show_status : ℕ → String) → ℕ → ErrorResponse → LatteError → Type 0
IsServed show_status status body e =
    (text : String) × (e ≡ server text)
    × (((body.error ≡ text) × (text ≢ ""))
        ⊎ ((body.error ≡ "") × (text ≡ "HTTP " <> show_status status)))

-- The errors with the statuses that they stand for.
pub record Stands (show_status : ℕ → String) (path : String) (status : ℕ) (body : ErrorResponse)
    (e : LatteError) : Type 0 where
  pub not_found : (e ≡ license_not_found) ↔ (status ≡ 404)
  pub expired : (e ≡ license_expired) ↔ (status ≡ 403)
  pub bad_key : (e ≡ invalid_project_key) ↔ (status ≡ 401)
  pub no_seat : (e ≡ seat_limit) ↔ (status ≡ 409) × (path ≢ "/v1/deactivate")
  pub blocked :
      (message reason : String) (available_at : Option SystemTime)
      → (e ≡ deactivation_blocked message reason available_at)
        ↔ (status ≡ 409)
          × (path ≡ "/v1/deactivate")
          × (body ≡ record { error = message; reason = reason; available_at = available_at })
  pub other :
      (status ≡ 404)
      ⊎ (status ≡ 403)
      ⊎ (status ≡ 401)
      ⊎ (status ≡ 409)
      ⊎ IsServed show_status status body e

module _ (show_status : ℕ → String) where
  server-IsServed :
      (status : ℕ) (body : ErrorResponse)
      → IsServed show_status status body
          (server (if is_empty body.error then "HTTP " <> show_status status else body.error))
  server-IsServed status body = elim (Bool-cases (is_empty body.error)) [
    | inl none_there ↦
        rw none_there
          ("HTTP " <> show_status status, refl, inr ((is_empty_iff body.error).0 none_there, refl))
    | inr given ↦
        rw given (body.error, refl, inl (refl, ground (arith, is_empty_iff body.error, given)))
  ]

  other_status :
      (path : String) (status : ℕ) (body : ErrorResponse)
      → (status ≡ 404)
        ⊎ (status ≡ 403)
        ⊎ (status ≡ 401)
        ⊎ (status ≡ 409)
        ⊎ IsServed show_status status body (error_of_status show_status path status body)
  unfolding error_of_status
  other_status path status body = elim (Bool-cases (status == 404)) [
    | inl a ↦ inl (==→eq _ _ a)
    | inr a ↦ inr (elim (Bool-cases (status == 403)) [
      | inl b ↦ inl (==→eq _ _ b)
      | inr b ↦ inr (elim (Bool-cases (status == 401)) [
        | inl c ↦ inl (==→eq _ _ c)
        | inr c ↦ inr (elim (Bool-cases (status == 409)) [
          | inl d ↦ inl (==→eq _ _ d)
          | inr d ↦ inr (rw (a, b, c, d) (server-IsServed status body))
        ])
      ])
    ])
  ]

  Stands-error_of_status :
      (path : String) (status : ℕ) (body : ErrorResponse)
      → Stands show_status path status body (error_of_status show_status path status body)
  unfolding error_of_status
  Stands-error_of_status path status body = record {
    not_found = ground (arith, eq_iff path "/v1/deactivate");
    expired = ground (arith, eq_iff path "/v1/deactivate");
    bad_key = ground (arith, eq_iff path "/v1/deactivate");
    no_seat = ground (arith, eq_iff path "/v1/deactivate");
    blocked = λ message reason available_at. ground (arith, eq_iff path "/v1/deactivate");
    other = other_status path status body;
  }

  -- No status stands for a network error.
  Stands-network_ne :
      (path : String) (status : ℕ) (body : ErrorResponse) (e : LatteError) (text : String)
      → Stands show_status path status body e
      → e ≢ network text
  Stands-network_ne path status body e text stands same = elim stands.other [
    | inl a ↦ let b : e ≡ license_not_found = stands.not_found.1 a in cc
    | inr (inl a) ↦ let b : e ≡ license_expired = stands.expired.1 a in cc
    | inr (inr (inl a)) ↦ let b : e ≡ invalid_project_key = stands.bad_key.1 a in cc
    | inr (inr (inr (inl a))) ↦ elim (Bool-cases (str_eq path "/v1/deactivate")) [
      | inl there ↦
          let b : e ≡ deactivation_blocked body.error body.reason body.available_at =
            (stands.blocked body.error body.reason body.available_at).1
              (a, (eq_iff path "/v1/deactivate").0 there, refl) in
          cc
      | inr elsewhere ↦
          let b : e ≡ seat_limit =
            stands.no_seat.1 (a, ground (arith, eq_iff path "/v1/deactivate", elsewhere)) in
          cc
    ]
    | inr (inr (inr (inr (t, b, given)))) ↦ cc
  ]

  module _ (decode_error : Bytes → Result ErrorResponse String) {A : Type 0}
      (decode : Bytes → Result A String) (path : String) (show_duration : Duration → String)
      (timeout : Duration) (helper : Helper) where
    abbrev body_of : Reply → ErrorResponse
    body_of reply =
        get_or default_error (and_then (to_option reply.body) (λ b. to_option (decode_error b)))

    abbrev IsDecoded : Reply → A → Type 0
    IsDecoded reply a = (bytes : Bytes) × (reply.body ≡ ok bytes) × (decode bytes ≡ ok a)

    -- What becomes of a call, by the reply that arrives in time.
    pub data IsOutcome (result : Result A LatteError) : Type 0 where
      unanswered :
          ((reply : Reply) → IsTimely show_duration timeout helper reply → ⊥)
          → (text : String) → result ≡ err (network text)
          → IsOutcome result
      decoded :
          (reply : Reply) (answer : A)
          → IsTimely show_duration timeout helper reply
          → (200 ≤ reply.status) × (reply.status < 300)
          → IsDecoded reply answer
          → result ≡ ok answer
          → IsOutcome result
      undecoded :
          (reply : Reply) (text : String)
          → IsTimely show_duration timeout helper reply
          → (200 ≤ reply.status) × (reply.status < 300)
          → ((answer : A) → IsDecoded reply answer → ⊥)
          → result ≡ err (server ("decode response: " <> text))
          → IsOutcome result
      refused :
          (reply : Reply) (e : LatteError)
          → IsTimely show_duration timeout helper reply
          → (reply.status < 200) ⊎ (300 ≤ reply.status)
          → Stands show_status path reply.status (body_of reply) e
          → result ≡ err e
          → IsOutcome result

    abbrev called : Result Reply LatteError → Result A LatteError
    called sent = call show_status decode_error decode path sent

    replied-IsOutcome :
        (reply : Reply)
        → IsTimely show_duration timeout helper reply
        → IsOutcome (called (ok reply))
    unfolding call
    replied-IsOutcome reply timely = elim (Bool-cases (is_success reply.status)) [
      | inr failed ↦ rw failed (
          refused reply _ timely (ground (arith, failed))
            (Stands-error_of_status path reply.status (body_of reply)) refl)
      | inl success ↦ rw success (elim (Result-cases reply.body) [
        | inr (e, cut) ↦
            rw cut (undecoded reply e timely (ground (arith, success)) (λ a (b, h, d). cc) refl)
        | inl (bytes, whole) ↦ rw whole (elim (Result-cases (decode bytes)) [
          | inl (a, good) ↦
              rw good (decoded reply a timely (ground (arith, success)) (bytes, whole, good) refl)
          | inr (e, bad) ↦ rw bad (
              undecoded reply e timely (ground (arith, success))
                (λ a (b, h, d). let same : bytes ≡ b = cc in cc (rw same at bad)) refl)
        ])
      ])
    ]

    -- That no reply arrives in time.
    abbrev pub IsUnanswered : Type 0
    IsUnanswered = (reply : Reply) → IsTimely show_duration timeout helper reply → ⊥

    abbrev pub IsLost : Result A LatteError → Type 0
    IsLost result = (text : String) × (result ≡ err (network text))

    IsLost-iff : (result : Result A LatteError) → IsOutcome result → IsLost result ↔ IsUnanswered
    IsLost-iff result (unanswered silent text e) = (λ lost. silent, λ h. (text, e))
    IsLost-iff result (decoded reply answer timely status given e) =
        (λ (text, lost). cc, λ h. absurd (h reply timely))
    IsLost-iff result (undecoded reply text timely status bad e) =
        (λ (t, lost). cc, λ h. absurd (h reply timely))
    IsLost-iff result (refused reply e' timely status stands e) = (
      λ (text, lost).
          absurd (Stands-network_ne path reply.status (body_of reply) e' text stands cc),
      λ h. absurd (h reply timely),
    )

    outcome : IsOutcome (called (post show_duration timeout helper).0)
    unfolding call
    outcome =
        let (bound, answered, failed) = post-bounded show_duration timeout helper in
        elim (Result-cases (post show_duration timeout helper).0) [
          | inl (reply, got) ↦ rw got (replied-IsOutcome reply ((answered reply).0 got))
          | inr (e, lost) ↦
              let (text, network_error) = failed e lost in
              rw (lost, network_error)
                (unanswered (λ reply timely. cc (lost, (answered reply).1 timely)) text refl)
        ]

    -- A call gives a network error exactly when no reply arrives within a second of its limit. A reply
    -- with a status of 200 to 299 gives what its body decodes to, or an error of the server that the
    -- answer cannot be decoded. Any other reply gives one error: a 404 that there is no such licence, a
    -- 403 that it has expired, a 401 that the project key is wrong, a 409 of `deactivate` that it is
    -- blocked, with the message, the reason and the time of the body, any other 409 that there is no
    -- seat, and any other status an error of the server with the text of the body, or with one of the
    -- status where the body has none.
    pub call-IsOutcome :
        IsOutcome (called (post show_duration timeout helper).0)
        × (IsLost (called (post show_duration timeout helper).0) ↔ IsUnanswered)
    call-IsOutcome = (outcome, IsLost-iff _ outcome)
