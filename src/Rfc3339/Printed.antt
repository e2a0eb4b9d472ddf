-- ===== src/Rfc3339/Printed.antt =====
-- Printed timestamps parse to the time that they name.
use latte_rs.Base.{
  ℕ, ◌+◌, ◌*◌, ◌/◌, ◌%◌, ◌^◌, ◌-◌, zero, suc, ◌==◌, ◌≤◌, ◌<◌, ◌≡◌, refl, ap, ◌∙◌, true, false, ◌&&◌,
  some, List, [], ◌∷◌, arith, leb, ltb, length,
}
use latte_rs.Base.Int.{ℤ, pos, ◌+ℤ◌, ◌-ℤ◌, scale}
use latte_rs.Rfc3339.Fraction.{digit, digit-is_digit, fraction_text, fraction-fraction_text}
use latte_rs.Rfc3339.Calendar.{day_number}
use latte_rs.Time.{SystemTime, unix_to_system_time}
use latte_rs.Rfc3339.{is_digit, number, parse_bytes, seconds_of, offset_of, fraction, ◌>>=◌}

abbrev pub two : ℕ → List ℕ → List ℕ
two n rest = digit (n / 10) ∷ digit n ∷ rest

abbrev pub four : ℕ → List ℕ → List ℕ
four n rest = two (n / 100) (two (n % 100) rest)

-- `YYYY-MM-DDThh:mm:ss` and a zone.
abbrev pub timestamp : (y mo d h mi sec : ℕ) → List ℕ → List ℕ
timestamp y mo d h mi sec zone =
    four y (b'-' ∷ two mo (b'-' ∷ two d (b'T' ∷ two h (b':' ∷ two mi (b':' ∷ two sec zone)))))

abbrev pub zulu : List ℕ
zulu = b'Z' ∷ []

abbrev pub zone : (sign hours minutes : ℕ) → List ℕ
zone sign hours minutes = sign ∷ two hours (b':' ∷ two minutes [])

two_lem : (n : ℕ) (rest : List ℕ) → n < 100 → number 2 0 (two n rest) ≡ some n
two_lem n rest h = rw (digit-is_digit (n / 10), digit-is_digit n) (ap some (omega arith))

four_lem : (n : ℕ) (rest : List ℕ) → n < 10_000 → number 4 0 (four n rest) ≡ some n
four_lem n rest h =
    rw
      (
        digit-is_digit (n / 100 / 10),
        digit-is_digit (n / 100),
        digit-is_digit (n % 100 / 10),
        digit-is_digit (n % 100),
      )
      (ap some (omega arith))

long :
    (y mo d h mi sec c : ℕ) (rest : List ℕ)
    → ltb (length (timestamp y mo d h mi sec (c ∷ rest))) 20 ≡ false
long y mo d h mi sec c rest = ground arith

pub record IsTime (y mo d h mi sec : ℕ) : Type 0 where
  pub year : y < 10_000
  pub month : (1 ≤ mo) × (mo ≤ 12)
  pub day : (1 ≤ d) × (d ≤ 31)
  pub hour : h ≤ 23
  pub minute : mi ≤ 59
  pub second : sec ≤ 60

module _ (y mo d h mi sec : ℕ) (t : IsTime y mo d h mi sec) where
  in_range :
      ((leb 1 mo && leb mo 12) && (leb 1 d && leb d 31) && leb h 23 && leb mi 59 && leb sec 60)
      ≡ true
  in_range = ground (arith, t)

  -- The fields are read as they were printed, whatever follows the seconds.
  fields :
      (c : ℕ) (rest : List ℕ)
      → parse_bytes (timestamp y mo d h mi sec (c ∷ rest)) ≡ (
          fraction (c ∷ rest) >>= λ x. offset_of x.1 >>= λ offset.
          some (unix_to_system_time (seconds_of y mo d h mi sec offset) +ℤ pos x.0))
  unfolding parse_bytes
  fields c rest =
      rw
        (
          long y mo d h mi sec c rest,
          four_lem y
              (b'-'
                ∷ two mo (b'-' ∷ two d (b'T' ∷ two h (b':' ∷ two mi (b':' ∷ two sec (c ∷ rest))))))
              t.year,
          two_lem mo (b'-' ∷ two d (b'T' ∷ two h (b':' ∷ two mi (b':' ∷ two sec (c ∷ rest)))))
              (omega (arith, t.month)),
          two_lem d (b'T' ∷ two h (b':' ∷ two mi (b':' ∷ two sec (c ∷ rest))))
              (omega (arith, t.day)),
          two_lem h (b':' ∷ two mi (b':' ∷ two sec (c ∷ rest))) (omega (arith, t.hour)),
          two_lem mi (b':' ∷ two sec (c ∷ rest)) (omega (arith, t.minute)),
          two_lem sec (c ∷ rest) (omega (arith, t.second)),
          in_range,
        )
        refl

  -- The time with this offset from UTC.
  abbrev pub named : ℤ → SystemTime
  named offset =
      unix_to_system_time
        (scale 86_400 (day_number (y, mo, d)) +ℤ pos (h * 3600 + mi * 60 + sec) -ℤ offset)

  at_offset :
      (offset : ℤ) (nanos : ℕ)
      → unix_to_system_time (seconds_of y mo d h mi sec offset) +ℤ pos nanos
        ≡ named offset +ℤ pos nanos
  unfolding seconds_of
  at_offset offset nanos = refl

  -- What stands for the fraction and the zone.
  module _ (k n : ℕ) (few : k ≤ 9) (small : n < 10 ^ k) where
    abbrev nanos : ℕ
    nanos = n * 10 ^ (9 - k)

    tail_fields :
        (c : ℕ) (rest : List ℕ) (k n : ℕ)
        → let tail = fraction_text k n (c ∷ rest) in
          parse_bytes (timestamp y mo d h mi sec tail) ≡ (
            fraction tail >>= λ x. offset_of x.1 >>= λ offset.
            some (unix_to_system_time (seconds_of y mo d h mi sec offset) +ℤ pos x.0))
    tail_fields c rest zero n = fields c rest
    tail_fields c rest (suc k) n = fields b'.' _

    zoned :
        (c : ℕ) (rest : List ℕ) (offset : ℤ)
        → is_digit c ≡ false
        → (c == b'.') ≡ false
        → offset_of (c ∷ rest) ≡ some offset
        → parse_bytes (timestamp y mo d h mi sec (fraction_text k n (c ∷ rest)))
          ≡ some (named offset +ℤ pos nanos)
    zoned c rest offset stops no_point at =
        tail_fields c rest k n
        ∙ rw (fraction-fraction_text c rest stops k n few small no_point, at)
            (ap some (at_offset offset nanos))

    -- A printed timestamp parses to the time that it names: the seconds of the number of its day and
    -- of its time of day, less the zone's offset, and the nanoseconds of a fraction of up to nine
    -- digits, for every year below 10000, day up to 31 and second up to 60. The hours and minutes of
    -- an offset may be any two digits.
    pub parse-timestamp :
        (oh om : ℕ)
        → oh < 100
        → om < 100
        → (parse_bytes (timestamp y mo d h mi sec (fraction_text k n zulu))
            ≡ some (named (pos 0) +ℤ pos nanos))
          × (parse_bytes (timestamp y mo d h mi sec (fraction_text k n (zone b'+' oh om)))
              ≡ some (named (pos (oh * 3600 + om * 60)) +ℤ pos nanos))
          × (parse_bytes (timestamp y mo d h mi sec (fraction_text k n (zone b'-' oh om)))
              ≡ some (named (pos 0 -ℤ pos (oh * 3600 + om * 60)) +ℤ pos nanos))
    parse-timestamp oh om p q = (
      zoned b'Z' [] (pos 0) refl refl refl,
      zoned b'+' (two oh (b':' ∷ two om [])) _ refl refl
          (rw (two_lem oh (b':' ∷ two om []) p, two_lem om [] q) refl),
      zoned b'-' (two oh (b':' ∷ two om [])) _ refl refl
          (rw (two_lem oh (b':' ∷ two om []) p, two_lem om [] q) refl),
    )
