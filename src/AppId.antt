-- ===== src/AppId.antt =====
-- src/appid.rs: project keys of the form `pk_{env}_{32-char key}`.
pub mod Shape
use mathlib.Core.Option
use latte_rs.Base.{
  ℕ, String, Bool, true, false, not, Option, none, some, List, [], ◌∷◌, str_eq, ◌==◌, len, split,
  if◌then◌else◌, Result, ok, err, ◌>>=◌, ◌>>◌, ensure,
}
use latte_rs.Errors.{
  AppIdError, invalid_format, unknown_environment, invalid_key_segment, invalid_checksum,
}
use latte_rs.Key.{validate_key}

pub data Environment : Type 0 where
  live test local : Environment

unfoldable pub base_url : Environment → String
base_url live = "https://api.licenselatte.com"
base_url test = "https://api.licenselatte.com"
base_url local = "http://localhost:8080"

pub record AppId : Type 0 where
  pub env : Environment
  pub key : String

unfoldable pub parse_environment : String → Result Environment AppIdError
parse_environment name =
    if str_eq name "live"
    then ok live
    else if str_eq name "test"
    then ok test
    else if str_eq name "local"
    then ok local
    else err (unknown_environment name)

-- The checksum's verdict, or its panic, carried over.
abbrev pub by_checksum : Environment → String → Option Bool → Option (Result AppId AppIdError)
by_checksum env key none = none
by_checksum env key (some false) = some (err invalid_checksum)
by_checksum env key (some true) = some (ok (record { env = env; key = key }))

abbrev pub check_key : String → Result Environment AppIdError → Option (Result AppId AppIdError)
check_key key (err e) = some (err e)
check_key key (ok env) =
    if not (len key == 32)
    then some (err invalid_key_segment)
    else by_checksum env key (validate_key key 4)

unfoldable pub check_parts : List String → Option (Result AppId AppIdError)
check_parts (pk ∷ env ∷ key ∷ []) =
    if str_eq pk "pk" then check_key key (parse_environment env) else some (err invalid_format)
check_parts _ = some (err invalid_format)

-- `none` is a panic, which only `validate_key` can raise.
unfoldable pub parse_app_id : String → Option (Result AppId AppIdError)
parse_app_id app_id = check_parts (split "_" app_id)
