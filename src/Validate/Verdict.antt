-- ===== src/Validate/Verdict.antt =====
-- `validate_at` against the rules that it stands for: when it accepts, and which error it gives.
use latte_rs.Base.{◌<◌, String, ◌≡◌, ◌≢◌, ◌↔◌, true, arith, eq_iff, ltb, ok, err}
use latte_rs.Base.Int.{pos, ◌≤ℤ◌, ◌<ℤ◌, ◌+ℤ◌}
use latte_rs.Time.{SystemTime, unix_epoch, duration_since}
use latte_rs.Domain.{License}
use latte_rs.Errors.{grace_expired, hard_expired, license_too_old, machine_id_mismatch}
use latte_rs.Validate.{validate_at, max_age, age}

-- The fields of a licence that can be judged at all.
pub record IsWellFormed (l : License) : Type 0 where
  pub issued : l.issued_at ≢ unix_epoch
  pub ends : l.expires_at ≢ unix_epoch
  pub grace : 0 < l.grace_period
  pub ordered : l.issued_at ≤ℤ l.expires_at

pub record IsUsable (l : License) (machine_id : String) (now : SystemTime) : Type 0 where
  pub well_formed : IsWellFormed l
  pub machine : l.machine_id ≡ machine_id
  pub before_end : now ≤ℤ l.expires_at
  pub before_deadline : now ≤ℤ l.issued_at +ℤ pos l.grace_period
  pub young : now ≤ℤ l.issued_at +ℤ pos max_age

age_iff :
    (l : License) (now : SystemTime)
    → (ltb max_age (age l now) ≡ true) ↔ (l.issued_at +ℤ pos max_age <ℤ now)
unfolding duration_since ◌+ℤ◌
age_iff l now = ground arith

-- `validate_at` accepts a licence exactly when it is well formed, names this machine, and the time
-- is past neither its end, nor its offline deadline, nor 365 days after it was issued. All four
-- limits are inclusive.
pub validate_at_iff :
    (l : License) (machine_id : String) (now : SystemTime)
    → (validate_at l machine_id now ≡ ok tt) ↔ IsUsable l machine_id now
unfolding validate_at
validate_at_iff l machine_id now = ground (arith, eq_iff l.machine_id machine_id, age_iff l now)

-- The facts that each error of the time checks stands for.
abbrev pub IsHardExpired : License → String → SystemTime → Type 0
IsHardExpired l machine_id now =
    IsWellFormed l × (l.machine_id ≡ machine_id) × (l.expires_at <ℤ now)

abbrev pub IsGraceExpired : License → String → SystemTime → Type 0
IsGraceExpired l machine_id now =
    IsWellFormed l
    × (l.machine_id ≡ machine_id)
    × (now ≤ℤ l.expires_at)
    × (l.issued_at +ℤ pos l.grace_period <ℤ now)

abbrev pub IsTooOld : License → String → SystemTime → Type 0
IsTooOld l machine_id now =
    IsWellFormed l
    × (l.machine_id ≡ machine_id)
    × (now ≤ℤ l.expires_at)
    × (now ≤ℤ l.issued_at +ℤ pos l.grace_period)
    × (l.issued_at +ℤ pos max_age <ℤ now)

-- A licence for another machine is told so before any check of the time, and before the order of
-- its own dates is looked at.
abbrev pub IsForeign : License → String → Type 0
IsForeign l machine_id =
    (l.issued_at ≢ unix_epoch)
    × (l.expires_at ≢ unix_epoch)
    × (0 < l.grace_period)
    × (l.machine_id ≢ machine_id)

module _ (l : License) (machine_id : String) (now : SystemTime) where
  IsHardExpired-iff :
      (validate_at l machine_id now ≡ err hard_expired) ↔ IsHardExpired l machine_id now
  unfolding validate_at
  IsHardExpired-iff = ground (arith, eq_iff l.machine_id machine_id, age_iff l now)

  IsGraceExpired-iff :
      (validate_at l machine_id now ≡ err grace_expired) ↔ IsGraceExpired l machine_id now
  unfolding validate_at
  IsGraceExpired-iff = ground (arith, eq_iff l.machine_id machine_id, age_iff l now)

  IsTooOld-iff : (validate_at l machine_id now ≡ err license_too_old) ↔ IsTooOld l machine_id now
  unfolding validate_at
  IsTooOld-iff = ground (arith, eq_iff l.machine_id machine_id, age_iff l now)

  IsForeign-iff : (validate_at l machine_id now ≡ err machine_id_mismatch) ↔ IsForeign l machine_id
  unfolding validate_at
  IsForeign-iff = ground (arith, eq_iff l.machine_id machine_id, age_iff l now)

-- Each of the four named errors is given in exactly one situation: for a well-formed licence of
-- this machine `HardExpired` past its end, `GraceExpired` past the offline deadline but not past
-- its end, `LicenseTooOld` past 365 days but neither of these, and `MachineIdMismatch` for a
-- licence of another machine with nonzero fields.
pub validate_at_errors :
    (l : License) (machine_id : String) (now : SystemTime)
    → ((validate_at l machine_id now ≡ err hard_expired) ↔ IsHardExpired l machine_id now)
      × ((validate_at l machine_id now ≡ err grace_expired) ↔ IsGraceExpired l machine_id now)
      × ((validate_at l machine_id now ≡ err license_too_old) ↔ IsTooOld l machine_id now)
      × ((validate_at l machine_id now ≡ err machine_id_mismatch) ↔ IsForeign l machine_id)
validate_at_errors l machine_id now = (
  IsHardExpired-iff l machine_id now,
  IsGraceExpired-iff l machine_id now,
  IsTooOld-iff l machine_id now,
  IsForeign-iff l machine_id now,
)

-- A licence that is usable at some time is usable at every earlier time.
pub IsUsable-earlier :
    (l : License) (machine_id : String) (now later : SystemTime)
    → now ≤ℤ later
    → IsUsable l machine_id later
    → IsUsable l machine_id now
IsUsable-earlier l machine_id now later h u = record {
  well_formed = u.well_formed;
  machine = u.machine;
  before_end = omega (arith, u.before_end);
  before_deadline = omega (arith, u.before_deadline);
  young = omega (arith, u.young);
}
