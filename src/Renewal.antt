-- ===== src/Renewal.antt =====
-- src/http.rs: the background renewal of `Sdk`, as the steps that it takes under the lock of its
-- bookkeeping. The thread of a renewal posts without the lock, so other steps may come between its
-- start and its end; what the server answers, whether a thread can be spawned, whether the lock is
-- held by another thread and whether a file can be written or removed are arguments of a step.
pub mod Steps
pub mod Thread
use mathlib.Core.Option
use latte_rs.Base.{
  ℕ, ◌+◌, ◌*◌, ◌%◌, ◌^◌, String, ◌<>◌, Bool, true, false, not, ◌&&◌, ◌||◌, Option, none, some, List,
  str_eq, ◌==◌, ltb, leb, get_or, if◌then◌else◌, Result, ok, err, map_err, ◌>>=◌, ◌>>◌,
}
use latte_rs.Time.{SystemTime, Duration, from_secs, duration_since}
use latte_rs.Crates.{Crates}
use latte_rs.Errors.{
  LatteError, license_not_found, license_expired, invalid_project_key, network, server,
}
use latte_rs.Domain.{License, CertChain}
use latte_rs.Verify.{verify_activation_any_at}
use latte_rs.Check.{PublicLicense, display_check, check_license_any_at_with_renewal_failed}

pub record Renewal : Type 0 where
  pub attempt : ℕ
  pub in_flight : Option SystemTime
  pub last_attempt : Option SystemTime

-- What the clones of an `Sdk` share: whether there is a cache path, the activation in the file
-- there, if it can be loaded, the bookkeeping, and the flag.
pub record Shared : Type 0 where
  pub has_path : Bool
  pub file : Option (String × CertChain)
  pub renewal : Renewal
  pub renewal_failed : Bool

abbrev pub renew_after : Duration
renew_after = from_secs (60 * 60)

abbrev pub renew_retry : Duration
renew_retry = from_secs (5 * 60)

-- How long ago a time was, zero if it is yet to come.
abbrev pub since : SystemTime → SystemTime → Duration
since now t = get_or 0 (duration_since now t)

abbrev pub running : SystemTime → Option SystemTime → Bool
running now none = false
running now (some t) = leb (since now t) (2 * renew_retry)

abbrev pub retried_recently : SystemTime → Option SystemTime → Bool
retried_recently now none = false
retried_recently now (some t) = ltb (since now t) renew_retry

-- What the thread of a renewal is given.
pub record Job : Type 0 where
  pub number : ℕ
  pub activation_id : String
  pub license_key : String

-- The numbers are u64 and wrap around.
abbrev pub next_attempt : ℕ → ℕ
next_attempt n = (n + 1) % 2 ^ 64

abbrev pub spawn : Bool → SystemTime → License → ℕ → Renewal × Option Job
spawn false now lic number =
    (record { attempt = number; in_flight = none; last_attempt = some now }, none)
spawn true now lic number = (
  record { attempt = number; in_flight = some now; last_attempt = some now },
  some (record { number = number; activation_id = lic.activation_id; license_key = lic.key }),
)

-- `contended` is `WouldBlock`, `spawns` whether the thread starts.
unfoldable pub renew_in_background :
    (contended spawns : Bool) → SystemTime → License → Renewal → Renewal × Option Job
renew_in_background contended spawns now lic state =
    if ltb (since now lic.issued_at) renew_after
    then (state, none)
    else if contended
    then (state, none)
    else if running now state.in_flight || retried_recently now state.last_attempt
    then (state, none)
    else spawn spawns now lic (next_attempt state.attempt)

-- `InFlight::drop`
unfoldable pub drop_in_flight : ℕ → Renewal → Renewal
drop_in_flight number state =
    if state.attempt == number then record state { in_flight = none } else state

abbrev pub is_network : {A : Type 0} → Result A LatteError → Bool
is_network (err (network e)) = true
is_network _ = false

abbrev pub has_activation : {E : Type 0} → String → Result License E → Bool
has_activation activation_id (ok l) = str_eq l.activation_id activation_id
has_activation activation_id (err e) = false

-- `storage::save` and `storage::clear` on the shared file, which keep it when they fail.
abbrev pub save : Bool → String × CertChain → Shared → Shared
save false activation s = s
save true activation s = record s { file = some activation }

abbrev pub clear : Bool → Shared → Shared
clear false s = s
clear true s = record s { file = none }

-- The end of a renewal once it is known that the cache holds its activation.
unfoldable pub store : Bool → Result (String × CertChain) LatteError → Shared → Shared
store writes (ok activation) s = save writes activation s
store writes (err license_not_found) s = clear writes s
store writes (err license_expired) s = clear writes s
store writes (err invalid_project_key) s = clear writes s
store writes (err e) s = s

module _ (C : Crates) (master_pubs : List C.VerifyingKey) where
  abbrev pub holds_file : String → SystemTime → Option (String × CertChain) → Bool
  holds_file activation_id now none = false
  holds_file activation_id now (some (token, chain)) =
      has_activation activation_id (verify_activation_any_at C master_pubs token chain now)

  unfoldable pub holds_activation : String → SystemTime → Shared → Bool
  holds_activation activation_id now s = s.has_path && holds_file activation_id now s.file

  -- `note_renewal` on the flag.
  abbrev pub note_renewal : {A : Type 0} → Bool → Result A LatteError → Shared → Shared
  note_renewal holds outcome s = record s { renewal_failed = is_network outcome && holds }

  unfoldable pub verify_and_validate :
      String → SystemTime → String × CertChain → Result PublicLicense LatteError
  verify_and_validate machine_id now (token, chain) =
      map_err (λ e. server ("server returned invalid token: " <> display_check e))
        (check_license_any_at_with_renewal_failed C master_pubs token chain machine_id now false)

  -- What the thread makes of the server's answer before it takes the lock.
  unfoldable pub checked_answer :
      String
      → SystemTime
      → Result (String × CertChain) LatteError
      → Result (String × CertChain) LatteError
  checked_answer machine_id now answer = do
    activation ← answer
    _ ← verify_and_validate machine_id now activation
    ok activation

  -- The rest of `renew_and_store`, under the lock.
  unfoldable pub finish :
      Bool → Job → SystemTime → Result (String × CertChain) LatteError → Shared → Shared
  finish writes job now renewed s =
      if not (s.renewal.attempt == job.number)
      then s
      else (let holds = holds_activation job.activation_id now s in
          let noted = note_renewal holds renewed s in
          if holds then store writes renewed noted else noted)
