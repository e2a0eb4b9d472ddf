-- ===== src/Threads.antt =====
-- src/http.rs: the clones of one `Sdk` on any number of threads. A step is what one thread does
-- while it holds the lock, or the start or end of a renewal thread; steps of different threads come
-- in any order, and each thread reads its own times, in no order but one: `renew` does not begin
-- before the last attempt.
pub mod Owned
pub mod Sound
pub mod Spacing
pub mod Runs
pub mod Restarts
use mathlib.Core.List.{Memᴰ}
use latte_rs.Base.{ℕ, String, ◌≡◌, Bool, false, Option, none, some, List, [], ◌∷◌, ◌++◌, Result, ok}
use latte_rs.Base.Int.{◌≤ℤ◌}
use latte_rs.Time.{SystemTime}
use latte_rs.Crates.{Crates}
use latte_rs.Errors.{LatteError}
use latte_rs.Domain.{License, CertChain}
use latte_rs.Check.{PublicLicense}
use latte_rs.Config.{Sdk}
use latte_rs.Renewal.{
  Renewal, Shared, Job, renew_in_background, drop_in_flight, holds_activation, note_renewal,
  verify_and_validate, checked_answer, finish,
}
use latte_rs.Operations.{save_to_cache, clear_cache}

-- What the threads share, with the times at which background renewals started, the latest first,
-- and the numbers of those that have not ended.
pub record World : Type 0 where
  pub shared : Shared
  pub starts : List SystemTime
  pub live : List ℕ

-- A new process, over whatever the cache file holds.
abbrev pub start_of : Bool → Option (String × CertChain) → World
start_of has_path file = record {
  shared = record {
    has_path = has_path;
    file = file;
    renewal = record { attempt = 0; in_flight = none; last_attempt = none };
    renewal_failed = false;
  };
  starts = [];
  live = [];
}

abbrev pub with_shared : World → Shared → World
with_shared w shared = record w { shared = shared }

-- After a call of `renew_in_background`.
abbrev pub with_job : World → SystemTime → Renewal × Option Job → World
with_job w now (renewal, none) = with_shared w (record w.shared { renewal = renewal })
with_job w now (renewal, some job) = record {
  shared = record w.shared { renewal = renewal };
  starts = now ∷ w.starts;
  live = job.number ∷ w.live;
}

-- The last attempt, if there was one, began no later.
abbrev pub NotBefore : SystemTime → Option SystemTime → Type 0
NotBefore now none = Unit
NotBefore now (some last) = last ≤ℤ now

module _ (C : Crates) (sdk : Sdk C) where
  abbrev pub note : SystemTime → String → Result (String × CertChain) LatteError → Shared → Shared
  note now activation_id outcome s =
      note_renewal C sdk.master_pubs (holds_activation C sdk.master_pubs activation_id now s)
        outcome s

  abbrev pub finish_checked :
      Bool
      → (now checked : SystemTime) → Job
      → Result (String × CertChain) LatteError
      → Shared
      → Shared
  finish_checked writes now checked job answer s =
      finish C sdk.master_pubs writes job now
        (checked_answer C sdk.master_pubs sdk.machine_id checked answer) s

  pub data Step (w : World) : World → Type 0 where
    -- `check` on an old token.
    background :
        (contended spawns : Bool) (now : SystemTime) (license : License)
        → Step w
            (with_job w now (renew_in_background contended spawns now license w.shared.renewal))
    -- The locked steps of the operations: `renew` begins and notes how it ended, and it and the
    -- others save an activation that was checked at some time, or clear the cache.
    manual :
        (now : SystemTime)
        → NotBefore now w.shared.renewal.last_attempt
        → Step w (
            with_shared w
              (record w.shared { renewal = record w.shared.renewal { last_attempt = some now } }))
    noted :
        (now : SystemTime) (activation_id : String)
        (outcome : Result (String × CertChain) LatteError)
        → Step w (with_shared w (note now activation_id outcome w.shared))
    saved :
        (writes : Bool) (checked : SystemTime) (activation : String × CertChain)
        (lic : PublicLicense)
        → verify_and_validate C sdk.master_pubs sdk.machine_id checked activation ≡ ok lic
        → Step w (with_shared w (save_to_cache writes activation w.shared))
    cleared : (clears : Bool) → Step w (with_shared w (clear_cache clears w.shared))
    -- The end of the thread of a renewal, which has checked the answer at some time before.
    finished :
        (writes : Bool) (now checked : SystemTime) (job : Job)
        (answer : Result (String × CertChain) LatteError)
        → Memᴰ job.number w.live
        → Step w (with_shared w (finish_checked writes now checked job answer w.shared))
    -- The drop of its mark, after which the thread is gone.
    dropped :
        (before after : List ℕ) (number : ℕ)
        → w.live ≡ before ++ (number ∷ after)
        → Step w (record w {
          shared = record w.shared { renewal = drop_in_flight number w.shared.renewal };
          live = before ++ after;
        })

  pub data Reach (w : World) : World → Type 0 where
    here : Reach w w
    next : {u v : World} → Reach w u → Step u v → Reach w v
