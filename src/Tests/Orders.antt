-- ===== src/Tests/Orders.antt =====
-- The theorem on the order of fields at two payloads.
use latte_rs.Base.{◌≡◌, refl, sym, String, str_eq, eq_iff, Bool-cases, inl, inr, true, false, arith}
use latte_rs.Base.Int.{ℤ, pos}
use latte_rs.Json
use latte_rs.Json.{Value, Map, empty, entry, get, object, string, number}
use latte_rs.Verify.{license_of}
use latte_rs.Check.{can, limit, to_public_license}
use latte_rs.Check.Order.{Reordered, same, objects, view, license_of-Reordered}
use latte_rs.Tests.Toy.{toy}

abbrev features : Map ℤ
features = entry "export" (Json.bool true) (entry "seats" (number (pos 25)) empty)

abbrev features_back : Map ℤ
features_back = entry "seats" (number (pos 25)) (entry "export" (Json.bool true) empty)

abbrev payload : Map ℤ
payload = entry "sub" (string "KEY") (entry "ent" (object features) empty)

abbrev payload_back : Map ℤ
payload_back = entry "ent" (object features_back) (entry "sub" (string "KEY") empty)

same_features : (key : String) → get key features ≡ get key features_back
unfolding get
same_features key = ground (arith, eq_iff "export" key, eq_iff "seats" key, eq_iff "export" "seats")

reordered : (key : String) → Reordered (get key payload) (get key payload_back)
unfolding get
reordered key = elim (Bool-cases (str_eq "ent" key)) [
  | inl e ↦
      rw (sym ((eq_iff "ent" key).0 e)) (
        objects features features_back refl refl (refl, (refl, tt)) (refl, (refl, tt))
          same_features)
  | inr ne ↦ same (rw ne (ground arith))
]

license_of-Reordered_example :
    let l = to_public_license (license_of toy payload) false in
    let l' = to_public_license (license_of toy payload_back) false in
    (view l ≡ view l') × ((key : String) → (can l key ≡ can l' key) × (limit l key ≡ limit l' key))
license_of-Reordered_example = license_of-Reordered toy payload payload_back false reordered
