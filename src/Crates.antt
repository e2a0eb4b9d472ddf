-- ===== src/Crates.antt =====
-- The crates that the program calls and that are not part of it, as parameters: `serde_json`,
-- `base64`, `hex` and `ed25519_dalek`. An error is the text that its `Display` gives. Bytes are
-- numbers.
use latte_rs.Base.{ℕ, String, Bool, Option, List, Result}
use latte_rs.Base.Int.{ℤ}
use latte_rs.Base.Float.{F64}
use latte_rs.Json.{Value}

abbrev pub Bytes : Type 0
Bytes = List ℕ

pub record Crates : Type 1 where
  -- `serde_json::Number` with `as_i64` and `as_f64`, and `serde_json::from_slice`.
  pub Number : Type 0
  pub as_i64 : Number → Option ℤ
  pub as_f64 : Number → Option F64
  pub from_slice : Bytes → Result (Value Number) String
  -- URL-safe base64 without padding, and hex.
  pub base64_decode : String → Result Bytes String
  pub hex_decode : String → Result Bytes String
  -- `VerifyingKey` with `from_bytes` and `verify_strict`.
  pub VerifyingKey : Type 0
  pub key_from_bytes : Bytes → Result VerifyingKey String
  pub verify_strict : VerifyingKey → String → Bytes → Bool
