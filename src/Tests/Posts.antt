-- ===== src/Tests/Posts.antt =====
-- The theorems on posts and replies at a concrete reply.
use latte_rs.Base.{ℕ, String, Result, ok, err, [], ◌↔◌}
use latte_rs.Errors.{LatteError}
use latte_rs.Crates.{Bytes}
use latte_rs.Wire.{TokenResponse, ErrorResponse, call}
use latte_rs.Time.{Duration, from_secs}
use latte_rs.Client.{Helper, replies}
use latte_rs.Client
use latte_rs.Client.Waiting.{IsAnswered, post-bounded}
use latte_rs.Client.Refusals.{IsOutcome, IsLost, IsUnanswered, call-IsOutcome}
use latte_rs.Tests.Toy.{chain}

abbrev show_status : ℕ → String
show_status n = "status"

abbrev decode_error : Bytes → Result ErrorResponse String
decode_error bytes = err "no error"

abbrev decode : Bytes → Result TokenResponse String
decode bytes = ok (record { token = "token"; chain = chain })

abbrev show_duration : Duration → String
show_duration d = "10s"

abbrev quick : Helper
quick = replies (from_secs 2) (ok (record { status = 200; body = ok [] }))

post-bounded_example :
    IsAnswered show_duration (from_secs 10) quick (Client.post show_duration (from_secs 10) quick)
post-bounded_example = post-bounded show_duration (from_secs 10) quick

-- A machine that the seller does not let go.
abbrev blocking : Helper
blocking = replies (from_secs 2) (ok (record { status = 409; body = ok [] }))

abbrev blocked_call : Result TokenResponse LatteError
blocked_call =
    call show_status decode_error decode "/v1/deactivate"
      (Client.post show_duration (from_secs 10) blocking).0

call-IsOutcome_example :
    IsOutcome show_status decode_error decode "/v1/deactivate" show_duration
      (from_secs 10)
      blocking
      blocked_call
    × (IsLost show_status decode_error decode "/v1/deactivate" show_duration
          (from_secs 10)
          blocking
          blocked_call
        ↔ IsUnanswered show_status decode_error decode "/v1/deactivate" show_duration
            (from_secs 10)
            blocking)
call-IsOutcome_example =
    call-IsOutcome show_status decode_error decode "/v1/deactivate" show_duration (from_secs 10)
      blocking
