-- ===== src/Base/Float.antt =====
-- The f64 of Rust, as far as the code looks at one: casts to integers and the test for a whole
-- value.
use latte_rs.Base.Tests.{leb, ◌==◌, if◌then◌else◌}
use latte_rs.Base.Int.{ℤ, pos, negsuc}
use Prim.Native.Nat.{ℕ, suc, ◌-◌, ◌*◌, ◌/◌, ◌%◌, ◌^◌}
use mathlib.Core.Bool.{Bool, true, false}

-- A finite value is ± mant * 2 ^ exp.
pub data F64 : Type 0 where
  finite : (neg : Bool) (mant : ℕ) (exp : ℤ) → F64
  infinite : (neg : Bool) → F64
  nan : F64

-- The magnitude with its fraction cut off.
unfoldable pub trunc : ℕ → ℤ → ℕ
trunc m (pos e) = m * 2 ^ e
trunc m (negsuc e) = m / 2 ^ suc e

abbrev no_fraction : ℕ → ℤ → Bool
no_fraction m (pos e) = true
no_fraction m (negsuc e) = m % 2 ^ suc e == 0

-- A signed magnitude cut off at the ends of an integer type with `top` as its largest value.
abbrev pub saturate : ℕ → Bool → ℕ → ℤ
saturate top false n = if leb n top then pos n else pos top
saturate top true n =
    if n == 0 then pos 0 else if leb n (suc top) then negsuc (n - 1) else negsuc top

-- `f as iN`: cuts the fraction off and saturates; NaN is 0.
unfoldable pub as_int : ℕ → F64 → ℤ
unfolding trunc
as_int top (finite neg m e) = saturate top neg (trunc m e)
as_int top (infinite false) = pos top
as_int top (infinite true) = negsuc top
as_int top nan = pos 0

-- `f.is_finite() && f.fract() == 0.0`
unfoldable pub is_whole : F64 → Bool
is_whole (finite neg m e) = no_fraction m e
is_whole (infinite neg) = false
is_whole nan = false
