-- ===== src/Entitlements.antt =====
-- src/entitlements.rs: the typed feature map that a token carries in its `ent` claim.
pub mod Decode
use mathlib.Core.Option
use latte_rs.Base.{
  ◌-◌, ◌^◌, ℕ, Bool, true, false, ◌&&◌, Option, none, some, [], and_then, leb, if◌then◌else◌,
}
use latte_rs.Base.Int.{ℤ, pos, negsuc, ltb_ℤ, i64_max}
use latte_rs.Base.Float.{F64, as_int, is_whole}
use latte_rs.HashMap.{HashMap, insert_if}
use latte_rs.Json.{Value, number, Map, empty, entry, get, as_object}
use latte_rs.Crates.{Crates}

-- An integer fits an i64.
pub data EntitlementValue : Type 0 where
  bool : Bool → EntitlementValue
  int : ℤ → EntitlementValue

abbrev pub unlimited : ℤ
unlimited = negsuc 0

abbrev pub as_bool : EntitlementValue → Option Bool
as_bool (bool b) = some b
as_bool (int i) = none

abbrev pub as_integer : EntitlementValue → Option ℤ
as_integer (int i) = some i
as_integer (bool b) = none

abbrev is_minus_one : ℤ → Bool
is_minus_one (pos n) = false
is_minus_one (negsuc n) = leb n 0

unfoldable pub is_unlimited : EntitlementValue → Bool
is_unlimited (int i) = is_minus_one i
is_unlimited (bool b) = false

abbrev pub i128_max : ℕ
i128_max = 2 ^ 127 - 1

-- `i64::try_from`
abbrev pub try_i64 : ℤ → Option ℤ
try_i64 (pos n) = if leb n i64_max then some (pos n) else none
try_i64 (negsuc n) = if leb n i64_max then some (negsuc n) else none

-- A whole-valued float as an integer, if it fits.
unfoldable pub whole : F64 → Option EntitlementValue
whole f = if is_whole f then Option.map int (try_i64 (as_int i128_max f)) else none

abbrev pub integer_or : Option ℤ → Option F64 → Option EntitlementValue
integer_or (some i) f = some (int i)
integer_or none f = and_then f whole

module _ (C : Crates) where
  open C use {Number, as_i64, as_f64}

  -- What an entry becomes; `none` is `continue`.
  unfoldable pub decode_value : Value Number → Option EntitlementValue
  decode_value (Value.bool b) = some (bool b)
  decode_value (number n) = integer_or (as_i64 n) (as_f64 n)
  decode_value _ = none

  -- The loop over the entries of the claim.
  unfoldable pub decode_from : HashMap EntitlementValue → Map Number → HashMap EntitlementValue
  decode_from out empty = out
  decode_from out (entry key value raw) = decode_from (insert_if key (decode_value value) out) raw

  unfoldable pub decode_entitlements : Map Number → Option (HashMap EntitlementValue)
  decode_entitlements claims = Option.map (decode_from []) (and_then (get "ent" claims) as_object)
