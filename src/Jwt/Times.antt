-- ===== src/Jwt/Times.antt =====
-- The time claims of a certificate, checked with zero leeway.
use latte_rs.Base.{ℕ, suc, ◌^◌, ◌≤◌, ◌<◌, ◌≡◌, ◌↔◌, Bool, false, Option, none, some, arith, ok}
use latte_rs.Base.Int.{ℤ, pos, negsuc, pos_part, ◌+ℤ◌, ◌-ℤ◌, ◌≤ℤ◌, ◌<ℤ◌, wrap_i64, +ℤ_parts}
use latte_rs.Time.{
  SystemTime, unix_epoch, unix_to_system_time, duration_since, as_secs, from_secs,
  unix_to_system_time_parts,
}
use latte_rs.Json.{Map}
use latte_rs.Crates.{Crates}
use latte_rs.Jwt.{now_unix, check_time_claims, claim_i64, after, before, keep_if}

-- The times that SystemTime can hold and that are not before the epoch.
abbrev pub IsClock : SystemTime → Type 0
IsClock now = (unix_epoch ≤ℤ now) × (now <ℤ pos (from_secs (2 ^ 63)))

-- The clock's seconds do not wrap around, and are the clock cut off below a second.
now_unix_bounds :
    (now : SystemTime)
    → IsClock now
    → (s : ℕ) × (now_unix now ≡ pos s)
      × (s < 2 ^ 63)
      × (from_secs s ≤ pos_part now)
      × (pos_part now < from_secs (suc s))
unfolding now_unix duration_since wrap_i64 ◌+ℤ◌
now_unix_bounds (pos n) h = (as_secs n, ground arith, ground arith, ground arith, ground arith)
now_unix_bounds (negsuc n) h = absurd (omega arith)

-- Adding or taking away no leeway changes nothing.
no_leeway :
    (s : ℕ)
    → s < 2 ^ 63
    → (wrap_i64 (pos s +ℤ wrap_i64 (pos 0)) ≡ pos s)
      × (wrap_i64 (pos s -ℤ wrap_i64 (pos 0)) ≡ pos s)
unfolding wrap_i64 ◌+ℤ◌ ◌-ℤ◌
no_leeway s h = (ground arith, ground arith)

-- A fact about a claim that is present.
abbrev pub IfPresent : Option ℤ → (ℤ → Type 0) → Type 0
IfPresent none P = Unit
IfPresent (some t) P = P t

-- A claim names a second that has begun, or one that has not ended yet.
abbrev pub HasBegun : SystemTime → ℤ → Type 0
HasBegun now t = unix_to_system_time t ≤ℤ now

abbrev pub HasNotEnded : SystemTime → ℤ → Type 0
HasNotEnded now t = now <ℤ unix_to_system_time t +ℤ pos (from_secs 1)

after_iff :
    (now : SystemTime) (s : ℕ) (o : Option ℤ)
    → from_secs s ≤ pos_part now
    → pos_part now < from_secs (suc s)
    → unix_epoch ≤ℤ now
    → (after o (pos s) ≡ false) ↔ IfPresent o (HasBegun now)
after_iff now s none h k e = ground arith
after_iff now s (some t) h k e = ground (arith, unix_to_system_time_parts t)

before_iff :
    (now : SystemTime) (s : ℕ) (o : Option ℤ)
    → from_secs s ≤ pos_part now
    → pos_part now < from_secs (suc s)
    → unix_epoch ≤ℤ now
    → (before o (pos s) ≡ false) ↔ IfPresent o (HasNotEnded now)
before_iff now s none h k e = ground arith
before_iff now s (some t) h k e =
    ground
      (arith, unix_to_system_time_parts t, +ℤ_parts (unix_to_system_time t) (pos (from_secs 1)))

module _ (C : Crates) where
  pub record IsTimely (claims : Map C.Number) (now : SystemTime) (check_exp : Bool) : Type 0 where
    pub issued : IfPresent (claim_i64 C claims "iat") (HasBegun now)
    pub begun : IfPresent (claim_i64 C claims "nbf") (HasBegun now)
    pub unexpired : IfPresent (keep_if check_exp (claim_i64 C claims "exp")) (HasNotEnded now)

  -- With zero leeway the time claims pass exactly when `iat` and `nbf` have begun and, if it is
  -- checked, the second `exp` has not ended.
  pub check_time_claims_iff :
      (claims : Map C.Number) (now : SystemTime) (check_exp : Bool)
      → IsClock now
      → (check_time_claims C claims now 0 check_exp ≡ ok tt) ↔ IsTimely claims now check_exp
  unfolding check_time_claims
  check_time_claims_iff claims now check_exp h =
      let (s, e, small, low, high) = now_unix_bounds now h in
      let (plus, minus) = no_leeway s small in
      rw (e, plus, minus, check_time_claims)
        (ground (
          arith,
          after_iff now s (claim_i64 C claims "iat") low high h.0,
          after_iff now s (claim_i64 C claims "nbf") low high h.0,
          before_iff now s (keep_if check_exp (claim_i64 C claims "exp")) low high h.0,
        ))
