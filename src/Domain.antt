-- ===== src/Domain.antt =====
-- src/domain.rs: licences and certificate chains.
use latte_rs.Base.{String, Option, str_eq, if◌then◌else◌}
use latte_rs.HashMap.{HashMap}
use latte_rs.Entitlements.{EntitlementValue}
use latte_rs.Time.{SystemTime, Duration}

pub data LicenseType : Type 0 where
  perpetual : LicenseType
  expiring : LicenseType
  other : String → LicenseType

-- `LicenseType::from_claim`
unfoldable pub from_claim : String → LicenseType
from_claim s =
    if str_eq s "perpetual" then perpetual else if str_eq s "expiring" then expiring else other s

pub record License : Type 0 where
  pub key : String
  pub alias : String
  pub activation_id : String
  pub project_id : String
  pub machine_id : String
  pub issued_at : SystemTime
  pub expires_at : SystemTime
  pub grace_period : Duration
  pub license_type : LicenseType
  pub metadata : HashMap String
  pub entitlements : Option (HashMap EntitlementValue)

pub record CertChain : Type 0 where
  pub submaster : String
  pub project : String
  pub daily : String
