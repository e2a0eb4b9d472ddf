-- ===== src/Validate.antt =====
-- src/validate.rs: whether a verified licence may be used on this machine now.
pub mod Verdict
pub mod Windows
use latte_rs.Base.{
  ◌*◌, String, ◌≡◌, Bool, true, false, not, ◌&&◌, Option, none, some, str_eq, ltb, leb, ◌==◌,
  get_or, if◌then◌else◌, Result, ok, err, ensure, ◌>>◌, ◌>>=◌,
}
use latte_rs.Base.Int.{ltb_ℤ, eqb_ℤ}
use latte_rs.Time.{SystemTime, Duration, unix_epoch, from_secs, later_by, duration_since}
use latte_rs.Errors.{
  ValidateError, hard_expired, grace_expired, license_too_old, machine_id_mismatch, invalid_fields,
}
use latte_rs.Domain.{License}

abbrev pub max_age : Duration
max_age = from_secs (365 * 24 * 60 * 60)

-- `now - issued_at`, zero if `now` is earlier.
abbrev pub age : License → SystemTime → Duration
age l now = get_or 0 (duration_since now l.issued_at)

abbrev pub offline_deadline : License → SystemTime
offline_deadline l = later_by l.issued_at l.grace_period

unfoldable pub validate_at : License → String → SystemTime → Result (Unit {0}) ValidateError
validate_at l machine_id now = do
  ensure (not (eqb_ℤ l.issued_at unix_epoch)) (invalid_fields "issued_at is zero")
  ensure (not (eqb_ℤ l.expires_at unix_epoch)) (invalid_fields "expires_at is zero")
  ensure (not (l.grace_period == 0)) (invalid_fields "grace_period is zero or negative")
  ensure (str_eq l.machine_id machine_id) machine_id_mismatch
  ensure (not (ltb_ℤ l.expires_at l.issued_at)) (invalid_fields "expires_at is before issued_at")
  ensure (not (ltb_ℤ l.expires_at now)) hard_expired
  ensure (not (ltb_ℤ (offline_deadline l) now)) grace_expired
  ensure (not (ltb max_age (age l now))) license_too_old

abbrev pub max_renewal_time : Duration
max_renewal_time = from_secs (60 * 60)

-- The branches of `in_grace_period` once a renewal has failed.
abbrev within_grace : License → Option Duration → Bool
within_grace l none = false
within_grace l (some d) = ltb max_renewal_time d && ltb d l.grace_period

unfoldable pub in_grace_period : License → SystemTime → Bool → Bool
in_grace_period l now false = false
in_grace_period l now true = within_grace l (duration_since now l.issued_at)

abbrev not_past : License → Option Duration → Bool
not_past l none = true
not_past l (some d) = leb d l.grace_period

unfoldable pub is_valid : License → SystemTime → Bool
is_valid l now = not_past l (duration_since now l.issued_at)
