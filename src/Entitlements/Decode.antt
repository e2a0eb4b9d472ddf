-- ===== src/Entitlements/Decode.antt =====
-- What decoding the `ent` claim keeps and what it drops.
use mathlib.Core.Option
use mathlib.Core.Option.{some-injective}
use latte_rs.Base.{
  ◌≡◌, String, refl, ◌↔◌, ℕ, zero, suc, Bool-cases, inl, inr, Option, none, some, [], arith, eq_iff,
  and_then, Bool, false, true, ◌⊎◌, Option-cases, ap, ◌∙◌,
}
use latte_rs.Base.Int.{ℤ, pos, negsuc, InI64}
use latte_rs.Base.Float.{F64, finite, infinite, nan, trunc, as_int, is_whole, saturate}
use latte_rs.HashMap.{HashMap, lookup, lookup-insert_if, insert_if, or_else}
use latte_rs.Json.{Value, Map, empty, entry, get, null, string, array, object, number}
use latte_rs.Crates.{Crates}
use latte_rs.Entitlements.{
  try_i64, i128_max, EntitlementValue, int, bool, integer_or, whole, decode_value, decode_from,
  decode_entitlements,
}

module _ {N : Type 0} where
  -- A `serde_json::Map` holds each key once.
  abbrev pub UniqueKeys : Map N → Type 0
  UniqueKeys empty = Unit
  UniqueKeys (entry k v m) = (get k m ≡ none) × UniqueKeys m

module _ (C : Crates) where
  abbrev pub decoded_or :
      Option (Value C.Number) → Option EntitlementValue → Option EntitlementValue
  decoded_or none old = old
  decoded_or (some v) old = or_else (decode_value C v) old

  pub lookup-decode_from :
      (k : String) (out : HashMap EntitlementValue) (raw : Map C.Number)
      → UniqueKeys raw
      → lookup k (decode_from C out raw) ≡ decoded_or (get k raw) (lookup k out)
  unfolding decode_from get
  lookup-decode_from k out empty u = refl
  lookup-decode_from k out (entry key value raw) (fresh, u) = ground (
    arith,
    eq_iff key k,
    lookup-decode_from k (insert_if key (decode_value C value) out) raw u,
    lookup-insert_if key k (decode_value C value) out,
  )

  -- The decoded map answers each key with the decoded value of the claim's entry, and with nothing
  -- where the claim has no such key or its value is neither a boolean nor a whole number that
  -- fits an i64. An `ent` claim that is an object always decodes.
  pub lookup-decode_entitlements :
      (claims raw : Map C.Number) (k : String)
      → get "ent" claims ≡ some (object raw)
      → UniqueKeys raw
      → (m : HashMap EntitlementValue) × (decode_entitlements C claims ≡ some m)
        × (lookup k m ≡ and_then (get k raw) (decode_value C))
  unfolding decode_entitlements lookup
  lookup-decode_entitlements claims raw k e u =
      (decode_from C [] raw, rw e, ground (arith, lookup-decode_from k [] raw u))

-- The integer with a sign and a magnitude.
abbrev pub signed : Bool → ℕ → ℤ
signed false n = pos n
signed true zero = pos 0
signed true (suc n) = negsuc n

whole_finite :
    (neg : Bool) (n : ℕ) (i : ℤ)
    → (Option.map int (try_i64 (saturate i128_max neg n)) ≡ some (int i))
      ↔ ((signed neg n ≡ i) × InI64 i)
whole_finite false n i = ground arith
whole_finite true zero i = ground arith
whole_finite true (suc n) i = ground arith

whole_iff :
    (neg : Bool) (mant : ℕ) (exp i : ℤ)
    → (whole (finite neg mant exp) ≡ some (int i))
      ↔ ((is_whole (finite neg mant exp) ≡ true) × (signed neg (trunc mant exp) ≡ i) × InI64 i)
unfolding whole as_int
whole_iff neg mant exp i = elim (Bool-cases (is_whole (finite neg mant exp))) [
  | inl w ↦ rw w (
    (λ e. let (a, b) = (whole_finite neg (trunc mant exp) i).0 e in (refl, a, b)),
    (λ p. (whole_finite neg (trunc mant exp) i).1 (p.1, p.2)),
  )
  | inr w ↦ rw w ((λ e. cc), (λ p. cc))
]

-- A number that is no i64 becomes an integer exactly when it is a whole-valued float whose value
-- fits an i64, and then it becomes that value; everything else is dropped.
decode_value_of_float :
    (C : Crates) (n : C.Number) (neg : Bool) (mant : ℕ) (exp i : ℤ)
    → C.as_i64 n ≡ none
    → C.as_f64 n ≡ some (finite neg mant exp)
    → (decode_value C (number n) ≡ some (int i))
      ↔ ((is_whole (finite neg mant exp) ≡ true) × (signed neg (trunc mant exp) ≡ i) × InI64 i)
unfolding decode_value
decode_value_of_float C n neg mant exp i a b = rw (a, b) (whole_iff neg mant exp i)

-- The integer that a number of a claim stands for, by what it is as an i64 and as a float.
abbrev IsInteger : Option ℤ → Option F64 → ℤ → Type 0
IsInteger o f i =
    (o ≡ some i)
    ⊎ ((o ≡ none)
        × (neg : Bool) × (mant : ℕ) × (exp : ℤ) × (f ≡ some (finite neg mant exp))
        × (is_whole (finite neg mant exp) ≡ true)
        × (signed neg (trunc mant exp) ≡ i)
        × InI64 i)

abbrev pub Stands : (C : Crates) → C.Number → ℤ → Type 0
Stands C n i = IsInteger (C.as_i64 n) (C.as_f64 n) i

float_iff :
    (f : F64) (i : ℤ) → (integer_or none (some f) ≡ some (int i)) ↔ IsInteger none (some f) i
unfolding whole is_whole trunc
float_iff (finite neg mant exp) i = (
  (λ h.
      let (a, b, c) = (whole_iff neg mant exp i).0 h in inr (refl, neg, mant, exp, refl, a, b, c)),
  (λ s. elim s [
    | inl e ↦ absurd (cc e)
    | inr (_, neg', mant', exp', same, a, b, c) ↦
        let e : finite neg mant exp ≡ finite neg' mant' exp' = some-injective _ _ same in
        ap whole e ∙ (whole_iff neg' mant' exp' i).1 (a, b, c)
  ]),
)
float_iff (infinite neg) i =
    ((λ h. cc), (λ s. elim s [ inl e ↦ cc | inr (_, neg', mant', exp', same, a, b, c) ↦ cc ]))
float_iff nan i =
    ((λ h. cc), (λ s. elim s [ inl e ↦ cc | inr (_, neg', mant', exp', same, a, b, c) ↦ cc ]))

integer_or_iff :
    (o : Option ℤ) (f : Option F64) (i : ℤ) → (integer_or o f ≡ some (int i)) ↔ IsInteger o f i
integer_or_iff (some j) f i =
    ((λ h. inl cc), (λ s. elim s [ inl e ↦ cc | inr (e, neg, mant, exp, same, a, b, c) ↦ cc ]))
integer_or_iff none none i =
    ((λ h. cc), (λ s. elim s [ inl e ↦ cc | inr (_, neg, mant, exp, same, a, b, c) ↦ cc ]))
integer_or_iff none (some f) i = float_iff f i

never_bool : (o : Option ℤ) (f : Option F64) (b : Bool) → integer_or o f ≡ some (bool b) → ⊥
unfolding whole
never_bool (some j) f b h = cc
never_bool none none b h = cc
never_bool none (some f) b h = elim (Bool-cases (is_whole f)) [
  | inr no_whole ↦ cc (rw no_whole at h)
  | inl w ↦ elim (Option-cases (try_i64 (as_int i128_max f))) [
    | inl none_fits ↦ cc (rw (w, none_fits) at h)
    | inr (i, fits) ↦ cc (rw (w, fits) at h)
  ]
]

-- A value of the claim becomes a Boolean exactly when it is that Boolean, and an integer exactly when
-- it is a number that is that i64, or that is no i64 but a float without a fraction whose value is
-- that integer and fits an i64.
pub decode_value_iff :
    (C : Crates) (v : Value C.Number)
    → ((b : Bool) → (decode_value C v ≡ some (bool b)) ↔ (v ≡ Value.bool b))
      × ((i : ℤ)
          → (decode_value C v ≡ some (int i)) ↔ ((n : C.Number) × (v ≡ number n) × Stands C n i))
unfolding decode_value
decode_value_iff C null = ((λ b. ((λ h. cc), (λ e. cc))), (λ i. ((λ h. cc), (λ (n, e, s). cc))))
decode_value_iff C (string t) =
    ((λ b. ((λ h. cc), (λ e. cc))), (λ i. ((λ h. cc), (λ (n, e, s). cc))))
decode_value_iff C (array t) =
    ((λ b. ((λ h. cc), (λ e. cc))), (λ i. ((λ h. cc), (λ (n, e, s). cc))))
decode_value_iff C (object t) =
    ((λ b. ((λ h. cc), (λ e. cc))), (λ i. ((λ h. cc), (λ (n, e, s). cc))))
decode_value_iff C (Value.bool a) =
    ((λ b. ((λ h. cc), (λ e. cc))), (λ i. ((λ h. cc), (λ (n, e, s). cc))))
decode_value_iff C (number n) = (
  (λ b. ((λ h. absurd (never_bool _ _ b h)), (λ e. cc))),
  (λ i. (
    (λ h. (n, refl, (integer_or_iff (C.as_i64 n) (C.as_f64 n) i).0 h)),
    (λ (m, e, s).
        let same : m ≡ n = cc in (integer_or_iff (C.as_i64 n) (C.as_f64 n) i).1 (rw same at s)),
  )),
)
