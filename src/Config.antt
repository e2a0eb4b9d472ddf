-- ===== src/Config.antt =====
-- src/http.rs: the configuration of an `Sdk` and its construction. The cache path is taken as a
-- text; the proxy variables are not modelled.
pub mod Made
pub mod Settings
use mathlib.Core.Option
use latte_rs.Base.{
  ℕ, ◌*◌, String, ◌<>◌, Bool, not, Option, none, some, List, is_empty, get_or, is_some, and_then,
  if◌then◌else◌, Result, ok, err, ok_or, map_err, ◌>>=◌, ◌>>◌,
}
use latte_rs.Time.{Duration, from_secs}
use latte_rs.Crates.{Crates}
use latte_rs.MachineId.{Platform, Digest, Target, derive}
use latte_rs.Storage.{text_of, default_path}
use latte_rs.Errors.{LatteError, AppIdError, invalid_app_id, machine_id_unavailable}
use latte_rs.AppId
use latte_rs.AppId.{AppId, parse_app_id}
use latte_rs.Client
use latte_rs.Client.{Http}
use latte_rs.MasterKeys.{master_public_keys}

abbrev pub default_timeout : Duration
default_timeout = from_secs 10

abbrev pub background_timeout : Duration
background_timeout = from_secs 10

pub record Config : Type 0 where
  pub app_id : String
  pub timeout : Option Duration
  pub base_url : Option String
  pub cache_path : Option String
  pub machine_id : Option String
  pub machine_name : Option String

abbrev pub with_app_id : String → Config
with_app_id app_id = record {
  app_id = app_id;
  timeout = none;
  base_url = none;
  cache_path = none;
  machine_id = none;
  machine_name = none;
}

abbrev pub with_timeout : Config → Duration → Config
with_timeout config timeout = record config { timeout = some timeout }

abbrev pub with_base_url : Config → String → Config
with_base_url config base_url = record config { base_url = some base_url }

abbrev pub with_cache_path : Config → String → Config
with_cache_path config cache_path = record config { cache_path = some cache_path }

abbrev pub with_machine_id : Config → String → Config
with_machine_id config machine_id = record config { machine_id = some machine_id }

abbrev pub with_machine_name : Config → String → Config
with_machine_name config machine_name = record config { machine_name = some machine_name }

-- The part of an `Sdk` that never changes.
pub record Sdk (C : Crates) : Type 0 where
  pub base_url : String
  pub app_id : String
  pub machine_id : String
  pub machine_name : Option String
  pub http : Http
  pub background_http : Http
  pub master_pubs : List C.VerifyingKey
  pub cache_path : Option String

-- `filter(|n| !n.is_empty())`
abbrev pub non_empty_name : Option String → Option String
non_empty_name none = none
non_empty_name (some n) = if is_empty n then none else some n

abbrev pub or_default : Option String → Option String → Option String
or_default none default_path = default_path
or_default (some path) default_path = some path

-- What the platform gives, and what the crate is built for.
module _ (C : Crates) (platform : Platform) (sha : Digest) (target : Target)
    (config_dir : Option String) where
  abbrev pub sdk_of : Config → AppId → String → List C.VerifyingKey → Sdk C
  sdk_of config parsed machine_id master_pubs = record {
    base_url = get_or (AppId.base_url parsed.env) config.base_url;
    app_id = config.app_id;
    machine_id = machine_id;
    machine_name = non_empty_name config.machine_name;
    http = Client.new (get_or default_timeout config.timeout);
    background_http = Client.new background_timeout;
    master_pubs = master_pubs;
    cache_path =
        or_default config.cache_path (Option.map text_of (default_path config_dir parsed.key));
  }

  -- The master keys are parsed last, where `none` is a panic.
  abbrev pub with_keys : (List C.VerifyingKey → Sdk C) → Option (Result (Sdk C) LatteError)
  with_keys make = Option.map (λ keys. ok (make keys)) (master_public_keys C)

  abbrev pub with_machine : Config → AppId → Option String → Option (Result (Sdk C) LatteError)
  with_machine config parsed none = some (err machine_id_unavailable)
  with_machine config parsed (some machine_id) = with_keys (sdk_of config parsed machine_id)

  abbrev pub with_parsed : Config → Result AppId AppIdError → Option (Result (Sdk C) LatteError)
  with_parsed config (err e) = some (err (invalid_app_id e))
  with_parsed config (ok parsed) =
      with_machine config parsed (derive platform sha target config.app_id config.machine_id)

  -- `none` is a panic.
  unfoldable pub new : Config → Option (Result (Sdk C) LatteError)
  new config = and_then (parse_app_id config.app_id) (with_parsed config)
