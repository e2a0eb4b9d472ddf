-- ===== src/Tests/Timestamps.antt =====
-- The theorems on timestamps and day numbers at concrete dates.
use latte_rs.Base.{ℕ, List, ◌≡◌, some, arith, ◌<◌, ◌+◌, ◌-◌, ◌*◌, ◌^◌}
use latte_rs.Time.{SystemTime}
use latte_rs.Rfc3339.Fraction.{fraction_text}
use latte_rs.Base.Int.{pos, ◌+ℤ◌, ◌-ℤ◌}
use latte_rs.Rfc3339.{parse_bytes}
use latte_rs.Rfc3339.Calendar.{IsDate, day_number, tomorrow, day_number-tomorrow}
use latte_rs.Rfc3339.Read.{Read, parse_bytes-Read}
use latte_rs.Rfc3339.Printed.{IsTime, timestamp, zulu, zone, named, parse-timestamp}

leap_day : IsDate (2028, 2, 28)
leap_day = ground arith

day_number-tomorrow_example :
    (day_number (tomorrow (2028, 2, 28)) ≡ day_number (2028, 2, 28) +ℤ pos 1)
    × (day_number (1970, 1, 1) ≡ pos 0)
day_number-tomorrow_example = day_number-tomorrow (2028, 2, 28) leap_day

time : IsTime 2026 7 1 12 30 0
time = record {
  year = omega arith;
  month = omega arith;
  day = omega arith;
  hour = omega arith;
  minute = omega arith;
  second = omega arith;
}

-- A quarter of a second, in two digits.
quarter : 25 < 10 ^ 2
quarter = omega arith

parse-timestamp_example :
    (parse_bytes (timestamp 2026 7 1 12 30 0 (fraction_text 2 25 zulu))
      ≡ some (named 2026 7 1 12 30 0 time (pos 0) +ℤ pos (25 * 10 ^ (9 - 2))))
    × (parse_bytes (timestamp 2026 7 1 12 30 0 (fraction_text 2 25 (zone b'+' 2 0)))
        ≡ some (named 2026 7 1 12 30 0 time (pos (2 * 3600 + 0 * 60)) +ℤ pos (25 * 10 ^ (9 - 2))))
    × (parse_bytes (timestamp 2026 7 1 12 30 0 (fraction_text 2 25 (zone b'-' 2 0)))
        ≡ some (
            named 2026 7 1 12 30 0 time (pos 0 -ℤ pos (2 * 3600 + 0 * 60))
            +ℤ pos (25 * 10 ^ (9 - 2))))
parse-timestamp_example =
    parse-timestamp 2026 7 1 12 30 0 time 2 25 (omega arith) quarter 2 0 (omega arith) (omega arith)

abbrev printed_time : List ℕ
printed_time = timestamp 2026 7 1 12 30 0 (fraction_text 2 25 zulu)

abbrev parsed_time : SystemTime
parsed_time = named 2026 7 1 12 30 0 time (pos 0) +ℤ pos (25 * 10 ^ (9 - 2))

parsed : parse_bytes printed_time ≡ some parsed_time
parsed =
    (parse-timestamp 2026 7 1 12 30 0 time 2 25 (omega arith) quarter 2 0 (omega arith)
      (omega arith)).0

parse_bytes-Read_example : Read printed_time parsed_time
parse_bytes-Read_example = parse_bytes-Read printed_time parsed_time parsed
