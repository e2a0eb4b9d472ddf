-- ===== src/Json.antt =====
-- `serde_json::Value` and `Map`, over a type of numbers that the model does not look into. A map
-- keeps its entries in a list; `get` is the lookup.
use latte_rs.Base.{String, Bool, Option, none, some, str_eq, and_then, if◌then◌else◌}

mutual
  pub data Value (N : Type 0) : Type 0 where
    null : Value N
    bool : Bool → Value N
    number : N → Value N
    string : String → Value N
    array : Items N → Value N
    object : Map N → Value N

  pub data Items (N : Type 0) : Type 0 where
    nil : Items N
    item : Value N → Items N → Items N

  pub data Map (N : Type 0) : Type 0 where
    empty : Map N
    entry : String → Value N → Map N → Map N

module _ {N : Type 0} where
  -- `map.get(key)`
  unfoldable pub get : String → Map N → Option (Value N)
  get key empty = none
  get key (entry k v m) = if str_eq k key then some v else get key m

  abbrev pub as_str : Value N → Option String
  as_str (string s) = some s
  as_str _ = none

  abbrev pub as_object : Value N → Option (Map N)
  as_object (object m) = some m
  as_object _ = none

  -- `value.get(key)`, which is `None` on anything but an object.
  abbrev pub field : String → Value N → Option (Value N)
  field key v = and_then (as_object v) (get key)
