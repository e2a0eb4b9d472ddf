-- ===== src/Renewal/Thread.antt =====
-- src/http.rs: `Sdk::renew_and_store`, the whole thread of a background renewal. `to_vec` encodes a
-- body, `helper` is what becomes of the helper thread that posts it, and the shared state is the one
-- that the thread finds when its answer is checked and it takes the lock; no other thread comes
-- between the steps from there.
pub mod Ends
use latte_rs.Base.{ℕ, String, ◌<>◌, ◌≡◌, Bool, none, Result, ok, err}
use latte_rs.Time.{SystemTime, Duration}
use latte_rs.Crates.{Crates, Bytes}
use latte_rs.Errors.{LatteError, network}
use latte_rs.Domain.{CertChain}
use latte_rs.Wire
use latte_rs.Wire.{TokenResponse, ErrorResponse, Reply}
use latte_rs.Server.{Body, credentials_request}
use latte_rs.Config.{Sdk}
use latte_rs.Client
use latte_rs.Client.{Helper, Waited}
use latte_rs.Client.Waiting.{IsTimely}
use latte_rs.Operations.{credentials_of}
use latte_rs.Renewal.{Renewal, Shared, Job, checked_answer, finish, drop_in_flight}

abbrev pub Activation : Type 0
Activation = String × CertChain

-- The shared state when the thread has ended, and how long it waited for the server.
pub record Ended : Type 0 where
  pub after : Shared
  pub waited : Duration

abbrev pub with_bookkeeping : Shared → Renewal → Shared
with_bookkeeping s renewal = record s { renewal = renewal }

abbrev pub drop_mark : ℕ → Shared → Shared
drop_mark number s = with_bookkeeping s (drop_in_flight number s.renewal)

-- What the thread does once the post has ended.
module _ (C : Crates) (sdk : Sdk C) (show_status : ℕ → String)
    (decode_error : Bytes → Result ErrorResponse String)
    (decode : Bytes → Result TokenResponse String) where
  abbrev pub renewed_of : SystemTime → Result Reply LatteError → Result Activation LatteError
  renewed_of checked sent =
      checked_answer C sdk.master_pubs sdk.machine_id checked
        (Wire.post show_status decode_error decode "/v1/renew" sent)

  unfoldable pub stored_and_dropped :
      Bool → (checked noted : SystemTime) → Job → Shared → Waited → Ended
  stored_and_dropped writes checked noted job s (sent, waited) = record {
    after =
        drop_mark job.number
          (finish C sdk.master_pubs writes job noted (renewed_of checked sent) s);
    waited = waited;
  }

  module _ (show_duration : Duration → String) (to_vec : Body → Result Bytes String)
      (helper : String → Bytes → Helper) where
    abbrev pub renew_url : String
    renew_url = sdk.base_url <> "/v1/renew"

    abbrev pub renewal_body : Job → Body
    renewal_body job =
        credentials_request (credentials_of C sdk job.activation_id job.license_key none)

    abbrev pub posted : Result Bytes String → Waited
    posted (err e) = (err (network e), 0)
    posted (ok bytes) =
        Client.post show_duration sdk.background_http.timeout (helper renew_url bytes)

    -- The clock is read when the answer is checked and when it is noted.
    unfoldable pub renew_and_store : Bool → (checked noted : SystemTime) → Job → Shared → Ended
    renew_and_store writes checked noted job s =
        stored_and_dropped writes checked noted job s (posted (to_vec (renewal_body job)))

    -- A reply that arrives within a second of the limit.
    abbrev pub IsReply : Job → Reply → Type 0
    IsReply job reply =
        (bytes : Bytes) × (to_vec (renewal_body job) ≡ ok bytes)
        × IsTimely show_duration sdk.background_http.timeout (helper renew_url bytes) reply
