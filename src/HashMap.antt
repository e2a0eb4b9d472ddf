-- ===== src/HashMap.antt =====
-- `HashMap<String, V>` as an association list: the program inserts and looks up, and nothing that
-- it does depends on the order of entries.
pub mod Contents
use latte_rs.Base.{
  String, ◌≡◌, ◌≢◌, ◌∙◌, refl, Option, none, some, List, [], ◌∷◌, arith, str_eq, eq_iff,
  if◌then◌else◌,
}

abbrev pub HashMap {ℓ} : Type ℓ → Type ℓ
HashMap V = List (String × V)

module _ {ℓ} {V : Type ℓ} where
  unfoldable pub lookup : String → HashMap V → Option V
  lookup key [] = none
  lookup key ((name, value) ∷ rest) = if str_eq name key then some value else lookup key rest

  -- A key that is there keeps its place and takes the new value.
  unfoldable pub insert : String → V → HashMap V → HashMap V
  insert key value [] = (key, value) ∷ []
  insert key value ((name, old) ∷ rest) =
      if str_eq name key then (key, value) ∷ rest else (name, old) ∷ insert key value rest

  -- An insertion answers its own key, and changes no other answer.
  pub lookup-insert :
      (key asked : String) (value : V) (entries : HashMap V)
      → lookup asked (insert key value entries)
        ≡ (if str_eq key asked then some value else lookup asked entries)
  unfolding lookup insert
  lookup-insert key asked value [] = refl
  lookup-insert key asked value ((name, old) ∷ rest) = ground (
    arith,
    lookup-insert key asked value rest,
    eq_iff name asked,
    eq_iff key asked,
    eq_iff name key,
  )

  abbrev pub or_else : Option V → Option V → Option V
  or_else none o = o
  or_else (some v) o = some v

  -- Inserts what there is to insert.
  abbrev pub insert_if : String → Option V → HashMap V → HashMap V
  insert_if key none m = m
  insert_if key (some v) m = insert key v m

  pub lookup-insert_if :
      (k j : String) (o : Option V) (m : HashMap V)
      → lookup j (insert_if k o m) ≡ (if str_eq k j then or_else o (lookup j m) else lookup j m)
  lookup-insert_if k j none m = ground arith
  lookup-insert_if k j (some v) m = lookup-insert k j v m

  unfoldable pub remove : String → HashMap V → HashMap V
  remove key [] = []
  remove key ((name, value) ∷ rest) =
      let others = remove key rest in if str_eq name key then others else (name, value) ∷ others

  pub lookup-remove :
      (key asked : String) (entries : HashMap V)
      → lookup asked (remove key entries)
        ≡ (if str_eq key asked then none else lookup asked entries)
  unfolding lookup remove
  lookup-remove key asked [] = ground arith
  lookup-remove key asked ((name, value) ∷ rest) =
      ground
        (arith, lookup-remove key asked rest, eq_iff name asked, eq_iff key asked, eq_iff name key)

  pub lookup-insert_self :
      (key : String) (value : V) (entries : HashMap V)
      → lookup key (insert key value entries) ≡ some value
  lookup-insert_self key value entries =
      lookup-insert key key value entries ∙ ground (arith, eq_iff key key)

  pub lookup-insert_ne :
      (key asked : String) (value : V) (entries : HashMap V)
      → asked ≢ key
      → lookup asked (insert key value entries) ≡ lookup asked entries
  lookup-insert_ne key asked value entries ne =
      lookup-insert key asked value entries ∙ ground (arith, eq_iff key asked)

  pub lookup-remove_self :
      (key : String) (entries : HashMap V) → lookup key (remove key entries) ≡ none
  lookup-remove_self key entries = lookup-remove key key entries ∙ ground (arith, eq_iff key key)

  pub lookup-remove_ne :
      (key asked : String) (entries : HashMap V)
      → asked ≢ key
      → lookup asked (remove key entries) ≡ lookup asked entries
  lookup-remove_ne key asked entries ne =
      lookup-remove key asked entries ∙ ground (arith, eq_iff key asked)
