-- ===== src/Tests/Projects.antt =====
-- The theorem on the files of different projects at two keys.
use latte_rs.Base.{◌≡◌, ◌≢◌, ◌↔◌, refl, ◌<>◌, some, ok, ℕ, len, len_utf8, split, true}
use latte_rs.AppId.{AppId, live, test, parse_app_id, parse_environment, check_parts}
use latte_rs.Base.Int.{scale}
use latte_rs.Key.{
  validate_key, calculate_checksum, split_at, sum_from, push_from, bytes, utf8, position,
  alphabet_index, rem_euclid, char_of,
}
use latte_rs.Storage.{FilePath, text_of, tmp_path, default_path, file_path, ends_bare, is_absolute}
use latte_rs.Storage.Projects.{in_alphabet, is_letter, default_path-apart}
use latte_rs.Tests.Toy.{evaluation}

abbrev production : AppId
production = record { env = live; key = "00000000000000000000000000000ZYX" }

abbrev trial : AppId
trial = record { env = test; key = "010000000000000000000000000010ZY" }

trial_parses : parse_app_id "pk_test_010000000000000000000000000010ZY" ≡ some (ok trial)
unfolding parse_app_id parse_environment check_parts split len len_utf8 validate_key
    calculate_checksum split_at sum_from push_from bytes utf8 position alphabet_index rem_euclid
    char_of evaluation scale
trial_parses = refl

production_parses : parse_app_id "pk_live_00000000000000000000000000000ZYX" ≡ some (ok production)
unfolding parse_app_id parse_environment check_parts split len len_utf8 validate_key
    calculate_checksum split_at sum_from push_from bytes utf8 position alphabet_index rem_euclid
    char_of evaluation scale
production_parses = refl

abbrev path : AppId → FilePath
path a = record { dir = "/home/.config/LicenseLatte"; name = a.key <> ".json" }

production_written : in_alphabet production.key ≡ true
unfolding in_alphabet is_letter position evaluation
production_written = refl

trial_written : in_alphabet trial.key ≡ true
unfolding in_alphabet is_letter position evaluation
trial_written = refl

production_path : default_path (some "/home/.config") production.key ≡ some (path production)
unfolding default_path file_path ends_bare is_absolute
production_path = refl

trial_path : default_path (some "/home/.config") trial.key ≡ some (path trial)
unfolding default_path file_path ends_bare is_absolute
trial_path = refl

default_path-apart_example :
    ((text_of (path production) ≡ text_of (path trial)) ↔ (production.key ≡ trial.key))
    × ((text_of (tmp_path (path production) 42 0) ≡ text_of (tmp_path (path trial) 43 1))
        ↔ ((production.key ≡ trial.key) × (◌≡◌ {A = ℕ} 42 43) × (◌≡◌ {A = ℕ} 0 1)))
    × (text_of (tmp_path (path production) 42 0) ≢ text_of (path trial))
    × (text_of (tmp_path (path production) 42 0) ≢ text_of (path production))
default_path-apart_example =
    default_path-apart (some "/home/.config") "pk_live_00000000000000000000000000000ZYX"
      "pk_test_010000000000000000000000000010ZY" production trial (path production) (path trial) 42
      0 43 1 production_parses trial_parses (production_written) trial_written production_path
      trial_path
