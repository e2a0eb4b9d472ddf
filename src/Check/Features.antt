-- ===== src/Check/Features.antt =====
-- What `can`, `limit` and `has_entitlements` answer, from the signed claim to the public licence.
use latte_rs.Base.{String, ◌≡◌, refl, ◌↔◌, Bool, false, true, none, some, and_then, arith}
use latte_rs.Base.Int.{ℤ}
use latte_rs.Json.{Map, get, object, as_object}
use latte_rs.Crates.{Crates}
use latte_rs.Entitlements.{bool, int, decode_value, decode_entitlements}
use latte_rs.Entitlements.Decode.{UniqueKeys, lookup-decode_entitlements}
use latte_rs.Verify.{license_of}
use latte_rs.Check.{can, limit, has_entitlements, to_public_license}

module _ (C : Crates) where
  -- The public view of a token's licence answers from the token's `ent` claim: `can` holds exactly
  -- for the keys that the claim sets to true, and `limit` gives exactly the integers that the
  -- claim sets, so that no key answers both.
  pub features_of_claim :
      (claims raw : Map C.Number) (in_grace : Bool) (key : String) (i : ℤ)
      → get "ent" claims ≡ some (object raw)
      → UniqueKeys raw
      → let public = to_public_license (license_of C claims) in_grace in
        ((can public key ≡ true) ↔ (and_then (get key raw) (decode_value C) ≡ some (bool true)))
        × ((limit public key ≡ some i) ↔ (and_then (get key raw) (decode_value C) ≡ some (int i)))
        × (has_entitlements public ≡ true)
  unfolding to_public_license license_of can limit has_entitlements
  features_of_claim claims raw in_grace key i e u =
      let (m, decoded, found) = lookup-decode_entitlements C claims raw key e u in
      (rw (decoded, ← found) (ground arith), rw (decoded, ← found) (ground arith), rw decoded refl)

  -- A token with no `ent` claim, or with one that is no object, denies everything and says so.
  pub features_without_claim :
      (claims : Map C.Number) (in_grace : Bool) (key : String)
      → and_then (get "ent" claims) as_object ≡ none
      → let public = to_public_license (license_of C claims) in_grace in
        (can public key ≡ false) × (limit public key ≡ none) × (has_entitlements public ≡ false)
  unfolding to_public_license license_of decode_entitlements can limit has_entitlements
  features_without_claim claims in_grace key e = rw e (refl, refl, refl)
