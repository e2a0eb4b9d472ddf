-- ===== src/Wire.antt =====
-- src/http.rs: what the server's reply to a post becomes. The client, with its timeouts and its
-- helper thread, is an argument: the status and the body, or the error that it gives; so are the
-- decoding of a body and the `Display` of a status.
pub mod Replies
use latte_rs.Base.{
  ℕ, String, ◌<>◌, Bool, true, false, not, ◌&&◌, ◌||◌, Option, none, some, str_eq, is_empty, ◌==◌,
  leb, ltb, get_or, and_then, if◌then◌else◌, Result, ok, err, ensure, map_err, to_option, ◌>>=◌,
  ◌>>◌,
}
use latte_rs.Time.{SystemTime}
use latte_rs.Crates.{Bytes}
use latte_rs.Errors.{
  LatteError, license_not_found, license_expired, deactivation_blocked, seat_limit,
  invalid_project_key, server,
}
use latte_rs.Domain.{CertChain}

pub record TokenResponse : Type 0 where
  pub token : String
  pub chain : CertChain

pub record ErrorResponse : Type 0 where
  pub error : String
  pub reason : String
  pub available_at : Option SystemTime

abbrev pub default_error : ErrorResponse
default_error = record { error = ""; reason = ""; available_at = none }

-- The status and the body, which may have been cut short.
pub record Reply : Type 0 where
  pub status : ℕ
  pub body : Result Bytes String

-- `StatusCode::is_success`
abbrev pub is_success : ℕ → Bool
is_success status = leb 200 status && ltb status 300

module _ (show_status : ℕ → String) where
  unfoldable pub error_of_status : String → ℕ → ErrorResponse → LatteError
  error_of_status path status e =
      if status == 404
      then license_not_found
      else if status == 403
      then license_expired
      else if (status == 409) && str_eq path "/v1/deactivate"
      then deactivation_blocked e.error e.reason e.available_at
      else if status == 409
      then seat_limit
      else if status == 401
      then invalid_project_key
      else server (if is_empty e.error then "HTTP " <> show_status status else e.error)

  module _ (decode_error : Bytes → Result ErrorResponse String) where
    unfoldable pub call :
        {A : Type 0}
        → (Bytes → Result A String)
        → String
        → Result Reply LatteError
        → Result A LatteError
    call decode path sent = do
      reply ← sent
      ensure (is_success reply.status) (
          error_of_status path reply.status (
            get_or default_error
              (and_then (to_option reply.body) (λ b. to_option (decode_error b)))))
      map_err (λ e. server ("decode response: " <> e)) (reply.body >>= decode)

    unfoldable pub post :
        (Bytes → Result TokenResponse String)
        → String
        → Result Reply LatteError
        → Result (String × CertChain) LatteError
    post decode path sent = do
      result ← call decode path sent
      ensure (not (is_empty result.token)) (server "server returned empty token")
      ensure
          (not (
            is_empty result.chain.daily
            || (is_empty result.chain.project || is_empty result.chain.submaster)))
          (server "server returned empty chain")
      ok (result.token, result.chain)
