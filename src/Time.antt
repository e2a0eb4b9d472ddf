-- ===== src/Time.antt =====
-- `SystemTime` and `Duration` of the standard library, in nanoseconds, and `unix_to_system_time`
-- of src/verify.rs. A time counts from the Unix epoch and may lie before it.
use latte_rs.Base.{ℕ, suc, ◌+◌, ◌*◌, ◌/◌, ◌≡◌, Option, none, some, arith, if◌then◌else◌}
use latte_rs.Base.Int.{ℤ, pos, negsuc, pos_part, neg_part, ◌+ℤ◌, ◌-ℤ◌, ltb_ℤ, int_laws}

abbrev pub SystemTime : Type 0
SystemTime = ℤ

abbrev pub Duration : Type 0
Duration = ℕ

abbrev pub unix_epoch : SystemTime
unix_epoch = pos 0

abbrev pub nanos_per_sec : ℕ
nanos_per_sec = 1_000_000_000

-- `Duration::from_secs`
abbrev pub from_secs : ℕ → Duration
from_secs s = nanos_per_sec * s

-- `Duration::as_secs`
abbrev pub as_secs : Duration → ℕ
as_secs d = d / nanos_per_sec

abbrev pub later_by : SystemTime → Duration → SystemTime
later_by t d = t +ℤ pos d

-- `now.duration_since(earlier)`, where `none` is the error for an `earlier` after `now`.
unfoldable pub duration_since : SystemTime → SystemTime → Option Duration
unfolding ◌-ℤ◌
duration_since now earlier = if ltb_ℤ now earlier then none else some (pos_part (now -ℤ earlier))

-- The epoch plus or minus whole seconds. For the least i64 the negation wraps around and the cast
-- to u64 gives its magnitude.
unfoldable pub unix_to_system_time : ℤ → SystemTime
unix_to_system_time (pos s) = pos (from_secs s)
unix_to_system_time (negsuc s) = unix_epoch -ℤ pos (from_secs (suc s))

pub unix_to_system_time_parts :
    (s : ℤ)
    → pos_part (unix_to_system_time s) + nanos_per_sec * neg_part s
      ≡ neg_part (unix_to_system_time s) + nanos_per_sec * pos_part s
unfolding unix_to_system_time
unix_to_system_time_parts (pos s) = omega arith
unix_to_system_time_parts (negsuc s) = omega int_laws
