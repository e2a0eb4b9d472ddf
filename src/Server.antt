-- ===== src/Server.antt =====
-- src/http.rs: the requests of `Sdk` and the answers that it decodes. The server with the client in
-- front of it is a parameter: what a posted request gives, with the decoding of bodies by
-- `serde_json`.
use latte_rs.Base.{ℕ, String, Bool, Option, List, Result}
use latte_rs.Time.{SystemTime}
use latte_rs.Crates.{Bytes}
use latte_rs.Errors.{LatteError}
use latte_rs.Wire.{TokenResponse, ErrorResponse, Reply}

pub record SdkInfo : Type 0 where
  pub language : String
  pub version : String

-- The version is that of Cargo.toml.
abbrev pub sdk_info : SdkInfo
sdk_info = record { language = "rust"; version = "0.6.0" }

pub record ActivateRequest : Type 0 where
  pub project_key : String
  pub license_key : String
  pub machine_id : String
  pub machine_name : Option String
  pub sdk : SdkInfo

pub record CredentialsRequest : Type 0 where
  pub activation_id : String
  pub license_key : String
  pub machine_id : String
  pub machine_name : Option String
  pub sdk : SdkInfo

-- What a body is made of.
pub data Body : Type 0 where
  activate_request : ActivateRequest → Body
  credentials_request : CredentialsRequest → Body

pub record DeactivateResult : Type 0 where
  pub released : Bool
  pub seat_free_at : Option SystemTime

pub record Machine : Type 0 where
  pub name : Option String
  pub fingerprint : String
  pub activated_at : SystemTime
  pub last_seen_at : SystemTime
  pub seat_free_at : Option SystemTime
  pub current : Bool

pub record MachinesResponse : Type 0 where
  pub machines : List Machine

pub record RenameResponse : Type 0 where
  pub machine_name : String

pub record Server : Type 0 where
  pub send : (url : String) → Body → Result Reply LatteError
  pub show_status : ℕ → String
  pub decode_error : Bytes → Result ErrorResponse String
  pub decode_token : Bytes → Result TokenResponse String
  pub decode_deactivation : Bytes → Result DeactivateResult String
  pub decode_machines : Bytes → Result MachinesResponse String
  pub decode_rename : Bytes → Result RenameResponse String
