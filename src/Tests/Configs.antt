-- ===== src/Tests/Configs.antt =====
-- The theorem on `Sdk::new` at a concrete configuration.
use latte_rs.Base.{◌≡◌, ◌↔◌, refl, String, some, none, ok, List, ℕ, ◌∷◌, []}
use latte_rs.AppId.{AppId}
use latte_rs.MachineId.{linux}
use latte_rs.MasterKeys.{master_public_key, parse_all, master_public_keys}
use latte_rs.Config.{Config, with_app_id, new}
use latte_rs.Config.Made.{IsReady, IsMade, new_iff}
use latte_rs.Tests.Toy.{toy, evaluation}
use latte_rs.Tests.MachineIds.{machine, sums}
use latte_rs.Tests.Operations.{sdk}

abbrev config : Config
config = with_app_id "pk_live_ABCDEFGH12345678ABCDEFGH12340ZYX"

abbrev keys : List ℕ
keys = b'6' ∷ b'7' ∷ b'4' ∷ b'4' ∷ []

loaded : master_public_keys toy ≡ some keys
unfolding evaluation master_public_key parse_all master_public_keys
loaded = refl

new_iff_example : (new toy machine sums linux none config ≡ some (ok sdk)) ↔ (
    (project : AppId) × (source : String) × IsReady toy machine sums linux none keys loaded config
      project source
    × IsMade toy machine sums linux none keys loaded config project source sdk)
new_iff_example = new_iff toy machine sums linux none keys loaded config sdk
