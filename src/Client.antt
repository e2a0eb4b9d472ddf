-- ===== src/Client.antt =====
-- src/http.rs: `Http`, which posts on a helper thread and waits for it. What `ureq` makes of the
-- request is part of what becomes of that thread, which is an argument.
pub mod Refusals
pub mod Waiting
use latte_rs.Base.{
  ◌+◌, String, ◌<>◌, Result, ok, err, map_err, ◌>>=◌, ◌>>◌, leb, if◌then◌else◌, Bool, false, Option,
  some,
}
use latte_rs.Time.{Duration, from_secs}
use latte_rs.Crates.{Bytes}
use latte_rs.Errors.{LatteError, network}
use latte_rs.Server.{Body}
use latte_rs.Wire.{Reply}

abbrev pub abandon_after : Duration
abandon_after = from_secs 1

abbrev pub connect_timeout : Duration
connect_timeout = from_secs 5

-- What the agent is configured with.
pub record Agent : Type 0 where
  pub http_status_as_error : Bool
  pub timeout_global : Option Duration
  pub timeout_resolve : Option Duration
  pub timeout_connect : Option Duration

pub record Http : Type 0 where
  pub agent : Agent
  pub timeout : Duration

-- `Http::new`
abbrev pub new : Duration → Http
new timeout = record {
  agent = record {
    http_status_as_error = false;
    timeout_global = some timeout;
    timeout_resolve = some connect_timeout;
    timeout_connect = some connect_timeout;
  };
  timeout = timeout;
}

-- The helper thread does not start, or it replies or dies after some time, or it never ends.
pub data Helper : Type 0 where
  unstarted : String → Helper
  replies : (after : Duration) → Result Reply String → Helper
  dies : (after : Duration) → Helper
  hangs : Helper

-- What a call gives, and how long it waited.
abbrev pub Waited : Type 0
Waited = Result Reply LatteError × Duration

module _ (show_duration : Duration → String) (timeout : Duration) where
  abbrev pub limit : Duration
  limit = timeout + abandon_after

  abbrev pub timed_out : Waited
  timed_out = (err (network ("no response within " <> show_duration timeout)), limit)

  -- `rx.recv_timeout`, with something to receive or a closed channel after some time. What comes
  -- exactly at the limit counts as received.
  abbrev pub recv_timeout : Duration → Result Reply LatteError → Waited
  recv_timeout after received = if leb after limit then (received, after) else timed_out

  unfoldable pub post : Helper → Waited
  post (unstarted e) = (err (network e), 0)
  post (replies after reply) = recv_timeout after (map_err network reply)
  post (dies after) = recv_timeout after (err (network "request thread failed"))
  post hangs = timed_out

  -- The beginning of `Sdk::call`.
  abbrev pub send :
      (to_vec : Body → Result Bytes String)
      → (helper : String → Bytes → Helper) → String
      → Body
      → Result Reply LatteError
  send to_vec helper url body = do
    bytes ← map_err network (to_vec body)
    (post (helper url bytes)).0
