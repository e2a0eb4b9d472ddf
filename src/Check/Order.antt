-- ===== src/Check/Order.antt =====
-- The public licence does not depend on the order of the fields in the token.
use mathlib.Core.Option
use latte_rs.Base.{
  ◌≡◌, String, refl, ap, sym, ◌∙◌, Option, none, some, and_then, Bool, arith, eq_iff, [],
}
use latte_rs.Time.{SystemTime, Duration}
use latte_rs.HashMap.{HashMap, lookup, lookup-insert_if, insert_if, or_else}
use latte_rs.HashMap.Contents.{Contents, contents, SameAnswers, contents_of_SameAnswers}
use latte_rs.Json.{Value, Map, empty, entry, get, object, as_str}
use latte_rs.Crates.{Crates}
use latte_rs.Domain.{LicenseType}
use latte_rs.Jwt.{claim_i64, claim_str}
use latte_rs.Entitlements.{EntitlementValue, decode_from, decode_entitlements}
use latte_rs.Entitlements.Decode.{UniqueKeys, decoded_or, lookup-decode_from}
use latte_rs.Verify.{license_of, decode_metadata}
use latte_rs.Check.{PublicLicense, can, limit, to_public_license}

-- Two fields are the same, or objects that hold the same fields in any order.
pub data Reordered {N : Type 0} (o o' : Option (Value N)) : Type 0 where
  same : o ≡ o' → Reordered o o'
  objects :
      (m m' : Map N)
      → o ≡ some (object m)
      → o' ≡ some (object m')
      → UniqueKeys m
      → UniqueKeys m'
      → ((key : String) → get key m ≡ get key m')
      → Reordered o o'

-- A public licence whose maps have no order.
pub record View : Type 0 where
  pub ids : String × String × String
  pub times : SystemTime × SystemTime × Duration × Bool
  pub license_type : LicenseType
  pub metadata : Contents String
  pub entitlements : Option (Contents EntitlementValue)

abbrev pub view : PublicLicense → View
view l = record {
  ids = (l.key, l.activation_id, l.project_id);
  times = (l.issued_at, l.expires_at, l.grace_period, l.in_grace_period);
  license_type = l.license_type;
  metadata = contents l.metadata;
  entitlements = Option.map contents l.entitlements;
}

module _ (C : Crates) where
  Reordered-claim_str :
      (key : String) (c c' : Map C.Number)
      → Reordered (get key c) (get key c')
      → claim_str C c key ≡ claim_str C c' key
  unfolding claim_str
  Reordered-claim_str key c c' (same e) = rw e refl
  Reordered-claim_str key c c' (objects m m' e e' u u' h) = rw (e, e') refl

  Reordered-claim_i64 :
      (key : String) (c c' : Map C.Number)
      → Reordered (get key c) (get key c')
      → claim_i64 C c key ≡ claim_i64 C c' key
  unfolding claim_i64
  Reordered-claim_i64 key c c' (same e) = rw e refl
  Reordered-claim_i64 key c c' (objects m m' e e' u u' h) = rw (e, e') refl

  abbrev kept : Option (Value C.Number) → Option String → Option String
  kept none old = old
  kept (some v) old = or_else (as_str v) old

  lookup-decode_metadata :
      (k : String) (out : HashMap String) (pmd : Map C.Number)
      → UniqueKeys pmd
      → lookup k (decode_metadata C out pmd) ≡ kept (get k pmd) (lookup k out)
  unfolding decode_metadata get
  lookup-decode_metadata k out empty u = refl
  lookup-decode_metadata k out (entry key value pmd) (fresh, u) = ground (
    arith,
    eq_iff key k,
    lookup-decode_metadata k (insert_if key (as_str value) out) pmd u,
    lookup-insert_if key k (as_str value) out,
  )

  metadata-contents :
      (c c' : Map C.Number)
      → Reordered (get "pmd" c) (get "pmd" c')
      → contents (license_of C c).metadata ≡ contents (license_of C c').metadata
  unfolding license_of lookup
  metadata-contents c c' (same e) = rw e refl
  metadata-contents c c' (objects m m' e e' u u' h) =
      rw (e, e')
        (contents_of_SameAnswers _ _ (λ k.
          lookup-decode_metadata k [] m u
          ∙ ap (λ o. kept o none) (h k)
          ∙ sym (lookup-decode_metadata k [] m' u')))

  decode_from-SameAnswers :
      (m m' : Map C.Number)
      → UniqueKeys m
      → UniqueKeys m'
      → ((key : String) → get key m ≡ get key m')
      → SameAnswers (decode_from C [] m) (decode_from C [] m')
  unfolding lookup
  decode_from-SameAnswers m m' u u' h k =
      lookup-decode_from C k [] m u
      ∙ ap (λ o. decoded_or C o none) (h k)
      ∙ sym (lookup-decode_from C k [] m' u')

  entitlements-contents :
      (c c' : Map C.Number)
      → Reordered (get "ent" c) (get "ent" c')
      → (Option.map contents (decode_entitlements C c)
          ≡ Option.map contents (decode_entitlements C c'))
        × ((key : String)
            → and_then (decode_entitlements C c) (lookup key)
              ≡ and_then (decode_entitlements C c') (lookup key))
  unfolding decode_entitlements
  entitlements-contents c c' (same e) = rw e (refl, λ key. refl)
  entitlements-contents c c' (objects m m' e e' u u' h) =
      let alike = decode_from-SameAnswers m m' u u' h in
      rw (e, e') (ap some (contents_of_SameAnswers _ _ alike), alike)

  -- If the fields of two payloads are the same, in any order and with their inner objects in any
  -- order, then the licences that they state have the same public view, up to the order in its maps,
  -- and answer every `can` and every `limit` alike.
  pub license_of-Reordered :
      (c c' : Map C.Number) (in_grace : Bool)
      → ((key : String) → Reordered (get key c) (get key c'))
      → let l = to_public_license (license_of C c) in_grace in
        let l' = to_public_license (license_of C c') in_grace in
        (view l ≡ view l')
        × ((key : String) → (can l key ≡ can l' key) × (limit l key ≡ limit l' key))
  unfolding to_public_license license_of can limit
  license_of-Reordered c c' in_grace h =
      let text_at : (k : String) → claim_str C c k ≡ claim_str C c' k =
        λ k. Reordered-claim_str k c c' (h k) in
      let number_at : (k : String) → claim_i64 C c k ≡ claim_i64 C c' k =
        λ k. Reordered-claim_i64 k c c' (h k) in
      let (ents, found) = entitlements-contents c c' (h "ent") in
      (
        rw
            (
              text_at "sub",
              text_at "aid",
              text_at "pid",
              text_at "ltype",
              number_at "iat",
              number_at "exp",
              number_at "grc",
              number_at "lex",
              metadata-contents c c' (h "pmd"),
              ents,
            )
            refl,
        λ key. rw (found key) (refl, refl),
      )
