-- ===== src/Rfc3339/Read.antt =====
-- What a text says that parses.
use mathlib.Core.Option.{some-injective}
use latte_rs.Base.{
  ℕ, ◌+◌, ◌*◌, ◌^◌, ◌<◌, ◌≡◌, sym, Bool, true, ◌&&◌, ◌||◌, not, some, List, arith, ltb, leb, length,
}
use latte_rs.Base.Int.{ℤ, pos, ◌+ℤ◌, ◌-ℤ◌, scale, InI64}
use latte_rs.Time.{SystemTime, unix_to_system_time}
use latte_rs.Rfc3339.{
  require, digits, get_elem?, has_byte, drop, fraction, offset_of, days_from_civil, seconds_of,
  parse_bytes, ◌>>=◌,
}
use latte_rs.Rfc3339.Printed.{IsTime}
use latte_rs.Rfc3339.Zones.{IsZone, offset_of-IsZone, IsZone-bound}
use latte_rs.Rfc3339.Bounds.{
  four_bound, >>=-eq-some, require-true, fraction_nanos, days_bound, date_bound, clock_bound,
  seconds_bound, IsDay, IsOffset,
}

-- The fields of a text, read as they are.
abbrev pub Printed : List ℕ → (y mo d h mi sec : ℕ) → Type 0
Printed b y mo d h mi sec =
    (digits b 0 4 ≡ some y)
    × (digits b 5 7 ≡ some mo)
    × (digits b 8 10 ≡ some d)
    × (digits b 11 13 ≡ some h)
    × (digits b 14 16 ≡ some mi)
    × (digits b 17 19 ≡ some sec)

-- What is read from a text, with the numbers on the way to its time.
pub record Read (b : List ℕ) (t : SystemTime) : Type 0 where
  pub year : ℕ
  pub month : ℕ
  pub day : ℕ
  pub hour : ℕ
  pub minute : ℕ
  pub second : ℕ
  pub offset : ℤ
  pub nanos : ℕ
  pub fields : IsTime year month day hour minute second
  pub fits_nanos : nanos < 10 ^ 9
  pub tail : List ℕ
  pub fraction_read : fraction (drop 19 b) ≡ some (nanos, tail)
  pub zone : IsZone tail offset
  pub named :
      t
      ≡ unix_to_system_time (
          scale 86_400 (days_from_civil year month day)
          +ℤ pos (hour * 3600 + minute * 60 + second)
          -ℤ offset)
        +ℤ pos nanos
  pub fits_date : InI64 (scale 86_400 (days_from_civil year month day))
  pub fits_clock :
      InI64
        (scale 86_400 (days_from_civil year month day) +ℤ pos (hour * 3600 + minute * 60 + second))
  pub fits : InI64 (
      scale 86_400 (days_from_civil year month day)
      +ℤ pos (hour * 3600 + minute * 60 + second)
      -ℤ offset)
  pub printed : Printed b year month day hour minute second

abbrev in_ranges : (mo d h mi sec : ℕ) → Bool
in_ranges mo d h mi sec =
    (leb 1 mo && leb mo 12) && (leb 1 d && leb d 31) && leb h 23 && leb mi 59 && leb sec 60

ranges-IsTime :
    (y mo d h mi sec : ℕ) → y < 10_000 → in_ranges mo d h mi sec ≡ true → IsTime y mo d h mi sec
ranges-IsTime y mo d h mi sec year ranges = record {
  year = year;
  month = ground (arith, ranges);
  day = ground (arith, ranges);
  hour = ground (arith, ranges);
  minute = ground (arith, ranges);
  second = ground (arith, ranges);
}

fields-Read :
    (b : List ℕ) (t : SystemTime) (y mo d h mi sec : ℕ)
    → Printed b y mo d h mi sec
    → IsTime y mo d h mi sec
    → (fraction (drop 19 b) >>= λ x. offset_of x.1 >>= λ offset.
        some (unix_to_system_time (seconds_of y mo d h mi sec offset) +ℤ pos x.0))
      ≡ some t
    → Read b t
unfolding seconds_of
fields-Read b t y mo d h mi sec printed time e =
    let (x, at_x, e₁) = >>=-eq-some (fraction (drop 19 b)) _ e in
    let (offset, at_offset, e₂) = >>=-eq-some (offset_of x.1) _ e₁ in
    let day : IsDay (days_from_civil y mo d) = days_bound y mo d time.year time.day.1 in
    let zoned : IsZone x.1 offset = offset_of-IsZone x.1 offset at_offset in
    let off : IsOffset offset = IsZone-bound x.1 offset zoned in
    record {
      year = y;
      month = mo;
      day = d;
      hour = h;
      minute = mi;
      second = sec;
      offset = offset;
      nanos = x.0;
      fields = time;
      fits_nanos = fraction_nanos (drop 19 b) x at_x;
      tail = x.1;
      fraction_read = at_x;
      zone = zoned;
      named = sym (some-injective _ _ e₂);
      fits_date =
          date_bound (days_from_civil y mo d) offset h mi sec day off
            (time.hour, time.minute, time.second);
      fits_clock =
          clock_bound (days_from_civil y mo d) offset h mi sec day off
            (time.hour, time.minute, time.second);
      fits =
          seconds_bound (days_from_civil y mo d) offset h mi sec day off
            (time.hour, time.minute, time.second);
      printed = printed;
    }

-- A text that parses has, at their places, the digits of a year below 10000, a month, a day up to 31,
-- an hour, a minute and a second up to 60. After the fraction of a second it ends in a zone: a Z, or a
-- sign with two digits of hours, a colon and two digits of minutes. Its time is the seconds of the
-- number of its day and of its time of day, less those of the zone, and the nanoseconds of the
-- fraction, which are less than a second. Every sum on the way to the seconds, of the days, of the
-- time of day and of the zone's offset, fits an i64, so that none of them wraps around.
pub parse_bytes-Read : (b : List ℕ) (t : SystemTime) → parse_bytes b ≡ some t → Read b t
unfolding parse_bytes
parse_bytes-Read b t e =
    let (_, _, e₁) = >>=-eq-some (require (not (ltb (length b) 20))) _ e in
    let (_, _, e₂) =
      >>=-eq-some
        (require (
          has_byte b'-' (get_elem? b 4)
          && has_byte b'-' (get_elem? b 7)
          && (has_byte b'T' (get_elem? b 10) || has_byte b't' (get_elem? b 10))
          && has_byte b':' (get_elem? b 13)
          && has_byte b':' (get_elem? b 16)))
        _ e₁ in
    let (y, at_y, e₃) = >>=-eq-some (digits b 0 4) _ e₂ in
    let (mo, at_mo, e₄) = >>=-eq-some (digits b 5 7) _ e₃ in
    let (d, at_d, e₅) = >>=-eq-some (digits b 8 10) _ e₄ in
    let (h, at_h, e₆) = >>=-eq-some (digits b 11 13) _ e₅ in
    let (mi, at_mi, e₇) = >>=-eq-some (digits b 14 16) _ e₆ in
    let (sec, at_sec, e₈) = >>=-eq-some (digits b 17 19) _ e₇ in
    let (_, ranges, e₉) = >>=-eq-some (require (in_ranges mo d h mi sec)) _ e₈ in
    fields-Read b t y mo d h mi sec (at_y, at_mo, at_d, at_h, at_mi, at_sec)
      (ranges-IsTime y mo d h mi sec (four_bound b y at_y)
        (require-true (in_ranges mo d h mi sec) ranges))
      e₉
