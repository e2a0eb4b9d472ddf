-- ===== src/Validate/Windows.antt =====
-- The two advisory tests beside `validate_at`: `is_valid` and `in_grace_period`.
use latte_rs.Base.{◌≡◌, ◌↔◌, Bool, true, String, arith, ok}
use latte_rs.Base.Int.{pos, ◌≤ℤ◌, ◌<ℤ◌, ◌+ℤ◌}
use latte_rs.Time.{SystemTime, duration_since}
use latte_rs.Domain.{License}
use latte_rs.Validate.{validate_at, in_grace_period, is_valid, max_renewal_time}
use latte_rs.Validate.Verdict.{validate_at_iff}

-- `is_valid` is the offline deadline of `validate_at` by itself, inclusive.
is_valid_iff :
    (l : License) (now : SystemTime)
    → (is_valid l now ≡ true) ↔ (now ≤ℤ l.issued_at +ℤ pos l.grace_period)
unfolding is_valid duration_since ◌+ℤ◌
is_valid_iff l now = ground arith

-- `in_grace_period` holds exactly when a renewal failed and the time lies strictly between one
-- hour after the issue and the offline deadline.
pub in_grace_period_iff :
    (l : License) (now : SystemTime) (failed : Bool)
    → (in_grace_period l now failed ≡ true) ↔ (
        (failed ≡ true)
        × (l.issued_at +ℤ pos max_renewal_time <ℤ now)
        × (now <ℤ l.issued_at +ℤ pos l.grace_period))
unfolding in_grace_period duration_since ◌+ℤ◌
in_grace_period_iff l now failed = ground arith

-- What `validate_at` accepts, `is_valid` accepts too; and so does it every licence that is in its
-- grace period.
is_valid_weakest :
    (l : License) (machine_id : String) (now : SystemTime) (failed : Bool)
    → (validate_at l machine_id now ≡ ok tt → is_valid l now ≡ true)
      × (in_grace_period l now failed ≡ true → is_valid l now ≡ true)
is_valid_weakest l machine_id now failed = (
  λ v. (is_valid_iff l now).1 ((validate_at_iff l machine_id now).0 v).before_deadline,
  λ g.
      let (_, _, h) = (in_grace_period_iff l now failed).0 g in
      (is_valid_iff l now).1 (omega arith),
)
