-- ===== src/Rfc3339/Calendar.antt =====
-- Day numbers against the rules of the Gregorian calendar.
use latte_rs.Base.{
  ℕ, zero, Bool-cases, inl, inr, ◌+◌, ◌-◌, ◌*◌, ◌/◌, ◌%◌, ◌≤◌, ◌<◌, ◌≡◌, refl, ap, suc, Bool, true,
  false, ◌||◌, arith, ltb, leb, ◌==◌, if◌then◌else◌,
}
use latte_rs.Base.Int.{ℤ, pos, pos_part, ◌+ℤ◌, ◌-ℤ◌, scale, int_laws}
use latte_rs.Rfc3339.{days_from_civil}

-- The rule of leap years.
abbrev pub is_leap : ℕ → Bool
is_leap y = if y % 400 == 0 then true else if y % 100 == 0 then false else y % 4 == 0

abbrev pub days_in_month : ℕ → ℕ → ℕ
days_in_month y mo =
    if mo == 2
    then (if is_leap y then 29 else 28)
    else if (mo == 4) || (mo == 6) || (mo == 9) || (mo == 11)
    then 30
    else 31

abbrev pub Date : Type 0
Date = ℕ × ℕ × ℕ

-- The date after a date.
abbrev pub tomorrow : Date → Date
tomorrow (y, mo, d) =
    if ltb d (days_in_month y mo)
    then (y, mo, d + 1)
    else if ltb mo 12
    then (y, mo + 1, 1)
    else (y + 1, 1, 1)

abbrev pub day_number : Date → ℤ
day_number (y, mo, d) = days_from_civil y mo d

-- The days before the year from March that starts in year `k`, and those before a date in it.
abbrev pub years : ℕ → ℕ
years k = k * 365 + k / 4 - k / 100 + k / 400

abbrev pub day_of_year : ℕ → ℕ → ℕ
day_of_year mo d = (153 * ((mo + 9) % 12) + 2) / 5 + d - 1

cycles :
    (k doy : ℕ)
    → let yoe = pos_part (pos k -ℤ scale 400 (pos (k / 400))) in
      scale 146_097 (pos (k / 400)) +ℤ pos (yoe * 365 + yoe / 4 - yoe / 100 + doy)
      ≡ pos (years k + doy)
unfolding ◌+ℤ◌ ◌-ℤ◌ scale
cycles k doy = ground arith

pub from_march :
    (y mo d : ℕ) → 2 < mo → days_from_civil y mo d ≡ pos (years y + day_of_year mo d) -ℤ pos 719_468
unfolding days_from_civil
from_march y mo d h =
    let e : leb mo 2 ≡ false = ground arith in
    rw e (ap (λ z. z -ℤ pos 719_468) (cycles y (day_of_year mo d)))

pub before_march :
    (k mo d : ℕ)
    → mo ≤ 2
    → days_from_civil (suc k) mo d ≡ pos (years k + day_of_year mo d) -ℤ pos 719_468
unfolding days_from_civil
before_march k mo d h =
    let e : leb mo 2 ≡ true = ground arith in
    let k' : pos (suc k) -ℤ pos 1 ≡ pos k = omega int_laws in
    rw (e, k') (ap (λ z. z -ℤ pos 719_468) (cycles k (day_of_year mo d)))

pub year_zero :
    (mo d : ℕ) → mo ≤ 2 → days_from_civil 0 mo d ≡ pos (day_of_year mo d) -ℤ pos (719_468 + 366)
unfolding days_from_civil ◌+ℤ◌ ◌-ℤ◌ scale
year_zero mo d h = ground arith

leap_step : (k : ℕ) → years (suc k) ≡ years k + (if is_leap (suc k) then 366 else 365)
leap_step k = ground arith

-- The months from March, and those before it.
abbrev NextOf : ℤ → ℤ → Type 0
NextOf a b = b ≡ a +ℤ pos 1

pos_next : (a b c : ℕ) → b ≡ a + 1 → NextOf (pos a -ℤ pos c) (pos b -ℤ pos c)
pos_next a b c h = omega (int_laws, h)

day_step : (mo d : ℕ) → 1 ≤ d → day_of_year mo (d + 1) ≡ day_of_year mo d + 1
day_step mo d h = omega arith

within_month : (y mo d : ℕ) → 1 ≤ d → NextOf (days_from_civil y mo d) (days_from_civil y mo (d + 1))
within_month y mo d h = elim (Bool-cases (ltb 2 mo)) [
  | inl late ↦
      rw (from_march y mo d (ground (arith, late)), from_march y mo (d + 1) (ground (arith, late)))
        (pos_next _ _ _ (omega (arith, day_step mo d h)))
  | inr early ↦ early_month y mo d h (ground (arith, early))
]
  where
    early_month :
        (y mo d : ℕ)
        → 1 ≤ d
        → mo ≤ 2
        → NextOf (days_from_civil y mo d) (days_from_civil y mo (d + 1))
    early_month zero mo d h le =
        rw (year_zero mo d le, year_zero mo (d + 1) le) (pos_next _ _ _ (day_step mo d h))
    early_month (suc k) mo d h le =
        rw (before_march k mo d le, before_march k mo (d + 1) le)
          (pos_next _ _ _ (omega (arith, day_step mo d h)))

month_step :
    (y mo : ℕ) → 2 < mo → mo < 12 → day_of_year (mo + 1) 1 ≡ day_of_year mo (days_in_month y mo) + 1
month_step y mo h k = ground arith

late_month :
    (y mo : ℕ)
    → 2 < mo
    → mo < 12
    → NextOf (days_from_civil y mo (days_in_month y mo)) (days_from_civil y (mo + 1) 1)
late_month y mo h k =
    rw (from_march y mo (days_in_month y mo) h, from_march y (mo + 1) 1 (omega arith))
      (pos_next _ _ _ (omega (arith, month_step y mo h k)))

after_january : (y : ℕ) → NextOf (days_from_civil y 1 31) (days_from_civil y 2 1)
after_january zero =
    rw (year_zero 1 31 (omega arith), year_zero 2 1 (omega arith)) (pos_next _ _ _ (omega arith))
after_january (suc k) =
    rw (before_march k 1 31 (omega arith), before_march k 2 1 (omega arith))
      (pos_next _ _ _ (omega arith))

after_february : (y : ℕ) → NextOf (days_from_civil y 2 (days_in_month y 2)) (days_from_civil y 3 1)
after_february zero =
    rw (year_zero 2 29 (omega arith), from_march 0 3 1 (omega arith)) (omega int_laws)
after_february (suc k) =
    rw
      (
        before_march k 2 (days_in_month (suc k) 2) (omega arith),
        from_march (suc k) 3 1 (omega arith),
      )
      (pos_next _ _ _ (ground (arith, leap_step k)))

after_december : (y : ℕ) → NextOf (days_from_civil y 12 31) (days_from_civil (y + 1) 1 1)
after_december y =
    let e : y + 1 ≡ suc y = omega arith in
    rw (e, from_march y 12 31 (omega arith), before_march y 1 1 (omega arith))
      (pos_next _ _ _ (omega arith))

epoch : day_number (1970, 1, 1) ≡ pos 0
unfolding days_from_civil ◌+ℤ◌ ◌-ℤ◌ scale
epoch = refl

abbrev pub IsDate : Date → Type 0
IsDate (y, mo, d) = (1 ≤ mo) × (mo ≤ 12) × (1 ≤ d) × (d ≤ days_in_month y mo)

last_of_month :
    (y mo : ℕ)
    → 1 ≤ mo
    → mo < 12
    → NextOf (days_from_civil y mo (days_in_month y mo)) (days_from_civil y (mo + 1) 1)
last_of_month y zero h k = absurd (omega arith)
last_of_month y (suc zero) h k = after_january y
last_of_month y (suc (suc zero)) h k = after_february y
last_of_month y (suc (suc (suc m))) h k = late_month y (suc (suc (suc m))) (omega arith) k

-- The day number of the date after a date is one more, by the months and leap years of the
-- Gregorian calendar from the year 0, and 1970-01-01 is day 0.
pub day_number-tomorrow :
    (t : Date)
    → IsDate t
    → (day_number (tomorrow t) ≡ day_number t +ℤ pos 1) × (day_number (1970, 1, 1) ≡ pos 0)
day_number-tomorrow (y, mo, d) (lo, hi, first, last) = (
  elim (Bool-cases (ltb d (days_in_month y mo))) [
    | inl more ↦ rw more (within_month y mo d first)
    | inr end ↦
        let at_end : d ≡ days_in_month y mo = ground (arith, end) in
        rw end (elim (Bool-cases (ltb mo 12)) [
          | inl month ↦ rw (month, at_end) (last_of_month y mo lo (ground (arith, month)))
          | inr year ↦
              let december : mo ≡ 12 = ground (arith, year) in
              rw (year, at_end, december) (after_december y)
        ])
  ],
  epoch,
)
