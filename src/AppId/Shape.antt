-- ===== src/AppId/Shape.antt =====
-- Which texts parse as project keys.
use Prim.Native.Char.{Char}
use latte_rs.Base.{
  ◌+◌, ◌<◌, String, ◌<>◌, ◌≡◌, refl, sym, ap, ◌∙◌, ◌↔◌, some, none, true, List, [], ◌∷◌, All, arith,
  eq_iff, str_eq, len, len_utf8, split, ok, err, Result, Bool-cases, inl, inr,
}
use latte_rs.Base.Text.Split.{join, split-join, Lacks, join-split, split-Lacks}
use latte_rs.Errors.{AppIdError}
use latte_rs.Key.{validate_key}
use latte_rs.Key.RoundTrip.{validate_key_panics}
use latte_rs.AppId.{
  check_key, Environment, live, test, local, AppId, parse_environment, check_parts, parse_app_id,
}

abbrev pub name : Environment → String
name live = "live"
name test = "test"
name local = "local"

abbrev underscore : Char
underscore = "_"

parse_environment_iff :
    (s : String) (env : Environment) → (parse_environment s ≡ ok env) ↔ (s ≡ name env)
unfolding parse_environment
parse_environment_iff s live = ground (arith, eq_iff s "live", eq_iff s "test", eq_iff s "local")
parse_environment_iff s test =
    ground (arith, eq_iff s "live", eq_iff s "test", eq_iff s "local", eq_iff "test" "live")
parse_environment_iff s local = ground (
  arith,
  eq_iff s "live",
  eq_iff s "test",
  eq_iff s "local",
  eq_iff "local" "live",
  eq_iff "local" "test",
)

name-Lacks : (env : Environment) → Lacks underscore (name env)
name-Lacks live = omega arith
name-Lacks test = omega arith
name-Lacks local = omega arith

-- What a parsed key fulfils.
pub record IsKeySegment (key : String) : Type 0 where
  pub no_underscore : Lacks underscore key
  pub size : len key ≡ 32
  pub checksum : validate_key key 4 ≡ some true

abbrev pub print : AppId → String
print a = join underscore ("pk" ∷ name a.env ∷ a.key ∷ [])

check_key-eq-ok :
    (key : String) (r : Result Environment AppIdError) (a : AppId)
    → check_key key r ≡ some (ok a)
    → (r ≡ ok a.env) × (key ≡ a.key) × (len key ≡ 32) × (validate_key key 4 ≡ some true)
check_key-eq-ok key (err e) a h = cc
check_key-eq-ok key (ok env) a h = (ground arith, ground arith, ground arith, ground arith)

parts-eq-ok :
    (parts : List String) (a : AppId)
    → check_parts parts ≡ some (ok a)
    → (parts ≡ "pk" ∷ name a.env ∷ a.key ∷ [])
      × (len a.key ≡ 32)
      × (validate_key a.key 4 ≡ some true)
unfolding check_parts
parts-eq-ok (pk ∷ env ∷ key ∷ []) a h = elim (Bool-cases (str_eq pk "pk")) [
  | inl is_pk ↦
      let (e, k, size, valid) =
        check_key-eq-ok key (parse_environment env) a (rw (is_pk, check_parts) at h) in
      let named = (parse_environment_iff env a.env).0 e in
      (rw ((eq_iff pk "pk").0 is_pk, named, k), rw (← k) size, rw (← k) valid)
  | inr other ↦ cc (rw (other, check_parts) at h)
]
parts-eq-ok parts a h = cc

-- An app id parses to an environment and a key exactly when it is `pk`, the environment's name and
-- the key, joined by underscores, and the key has 32 bytes, no underscore and a right checksum.
pub parse_app_id_iff :
    (app_id : String) (a : AppId)
    → (parse_app_id app_id ≡ some (ok a)) ↔ ((app_id ≡ print a) × IsKeySegment a.key)
unfolding parse_app_id check_parts
parse_app_id_iff app_id a = (
  (λ h.
      let (parts, size, checksum) = parts-eq-ok (split underscore app_id) a h in
      let lacks : All (Lacks underscore) ("pk" ∷ name a.env ∷ a.key ∷ []) =
        rw parts at (split-Lacks underscore app_id) in
      (
        sym (join-split underscore app_id) ∙ ap (join underscore) parts,
        record { no_underscore = lacks.1.1.0; size = size; checksum = checksum },
      )),
  (λ p.
      let (shape, k) = p in
      rw (
        shape,
        split-join underscore "pk" (name a.env ∷ a.key ∷ [])
            (omega arith, (name-Lacks a.env, (k.no_underscore, tt))),
        (parse_environment_iff (name a.env) a.env).1 refl,
        k.size,
        k.checksum,
      )),
)

-- An app id whose key segment of 32 bytes has a character of several bytes across the last four
-- bytes' beginning is not refused: parsing it panics.
pub parse_app_id_panics :
    (env : Environment) (d e : String) (c : Char)
    → Lacks underscore (d <> (String.◌∷◌ c e))
    → len (d <> (String.◌∷◌ c e)) ≡ 32
    → len e < 4
    → 4 < len_utf8 c + len e
    → parse_app_id (print (record { env = env; key = d <> (String.◌∷◌ c e) })) ≡ none
unfolding parse_app_id check_parts
parse_app_id_panics env d e c lacks size low high = rw (
  split-join underscore "pk" (name env ∷ (d <> (String.◌∷◌ c e)) ∷ [])
      (omega arith, (name-Lacks env, (lacks, tt))),
  (parse_environment_iff (name env) env).1 refl,
  size,
  validate_key_panics d e c 4 low high,
)
