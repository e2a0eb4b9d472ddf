-- ===== src/MachineId/Derived.antt =====
-- Which machine ID is derived.
use Prim.Native.Nat.{bit_xor}
use latte_rs.Base.{
  ℕ, zero, suc, ◌-◌, String, ◌<>◌, ◌≡◌, ◌≢◌, refl, ap, ◌∙◌, ◌↔◌, ◌⊎◌, inl, inr, is_empty,
  is_empty_iff, false, Option, none, some, List, [], ◌∷◌, ◌++◌, ltb, length, arith, Bool-cases,
  Option-cases, and_then, if◌then◌else◌,
}
use latte_rs.Crates.{Bytes}
use latte_rs.Key.{bytes}
use latte_rs.Rfc3339.{drop}
use latte_rs.MachineId.Texts.{find_map, trim, trim_start, strip_prefix, split_once}
use latte_rs.MachineId.{
  Platform, Target, linux, macos, windows, bsd, elsewhere, Digest, non_empty, ioreg_line, reg_line,
  parse_ioreg, parse_reg_query, or_else, run, ioreg, reg_query, kenv, platform_id, replicate,
  map_bytes, hmac_sha256, protect, raw_or_platform, derive,
}

-- Holds of no text and of every text but the empty one.
IsFilled : Option String → Type 0
IsFilled o = (s : String) → o ≡ some s → s ≢ ""

is_filled : (s : String) → is_empty s ≡ false → s ≢ ""
is_filled s h e = absurd (cc (rw e at h))

non_empty-IsFilled : (s : String) → IsFilled (non_empty s)
unfolding IsFilled
non_empty-IsFilled s t h e = elim (Bool-cases (is_empty (trim s))) [
  | inl blank ↦ absurd (cc (rw blank at h))
  | inr no_blank ↦ is_filled (trim s) no_blank (cc (rw no_blank at h, e))
]

and_then-IsFilled :
    {A : Type 0} (o : Option A) (f : A → Option String)
    → ((a : A) → IsFilled (f a))
    → IsFilled (and_then o f)
unfolding IsFilled
and_then-IsFilled none f h = λ s e. cc
and_then-IsFilled (some a) f h = h a

or_else-IsFilled :
    (o later : Option String) → IsFilled o → IsFilled later → IsFilled (or_else o later)
or_else-IsFilled none later h k = k
or_else-IsFilled (some s) later h k = h

find_map-IsFilled :
    (f : String → Option String) (xs : List String)
    → ((x : String) → IsFilled (f x))
    → IsFilled (find_map f xs)
unfolding IsFilled
find_map-IsFilled f [] h s e = cc
find_map-IsFilled f (x ∷ xs) h s e = elim (Option-cases (f x)) [
  | inl skip ↦ find_map-IsFilled f xs h s (rw (skip, find_map) at e)
  | inr (t, found) ↦ h x s (found ∙ (rw (found, find_map) at e))
]

platform_id-IsFilled :
    (platform : Platform) (target : Target) → IsFilled (platform_id platform target)
unfolding IsFilled platform_id parse_ioreg parse_reg_query
platform_id-IsFilled platform linux =
    or_else-IsFilled _ _
      (and_then-IsFilled (platform.read_to_string "/var/lib/dbus/machine-id") non_empty
        non_empty-IsFilled)
      (and_then-IsFilled (platform.read_to_string "/etc/machine-id") non_empty non_empty-IsFilled)
platform_id-IsFilled platform macos = and_then-IsFilled (run platform ioreg) parse_ioreg (λ out.
    find_map-IsFilled ioreg_line _
      (λ line. and_then-IsFilled (split_once "\" = \"" line) _ (λ parts. non_empty-IsFilled _)))
platform_id-IsFilled platform windows =
    and_then-IsFilled (run platform (reg_query platform)) parse_reg_query (λ out.
      find_map-IsFilled reg_line _ (λ line.
        and_then-IsFilled (strip_prefix "MachineGuid" (trim_start line)) _ (λ rest.
          and_then-IsFilled (strip_prefix "REG_SZ" (trim_start rest)) non_empty
            non_empty-IsFilled)))
platform_id-IsFilled platform bsd =
    or_else-IsFilled _ _
      (and_then-IsFilled (platform.read_to_string "/etc/hostid") non_empty non_empty-IsFilled)
      (and_then-IsFilled (run platform kenv) non_empty non_empty-IsFilled)
platform_id-IsFilled platform elsewhere = λ s e. cc

drop-replicate : (n m x : ℕ) → drop n (replicate m x) ≡ replicate (m - n) x
drop-replicate zero m x = let e : m - 0 ≡ m = omega arith in rw e refl
drop-replicate (suc n) zero x = let e : 0 - suc n ≡ 0 = omega arith in rw e refl
drop-replicate (suc n) (suc m) x =
    let e : suc m - suc n ≡ m - n = omega arith in rw e (drop-replicate n m x)

-- A key as long as a block: hashed if it is longer, and filled up with zeros.
abbrev pub padded : (Bytes → Bytes) → Bytes → Bytes
padded digest key =
    let short = if ltb 64 (length key) then digest key else key in
    short ++ replicate (64 - length short) 0

-- RFC 2104, with a hash of 64-byte blocks.
abbrev pub hmac : (Bytes → Bytes) → (key msg : Bytes) → Bytes
hmac digest key msg = digest (
    map_bytes (λ b. bit_xor b 0x5c) (padded digest key)
    ++ digest (map_bytes (λ b. bit_xor b 0x36) (padded digest key) ++ msg))

hmac_lem : (sha : Digest) (key msg : Bytes) → hmac_sha256 sha key msg ≡ hmac sha.digest key msg
unfolding hmac_sha256
hmac_lem sha key msg =
    let short = if ltb 64 (length key) then sha.digest key else key in
    ap
      (λ k. sha.digest (
        map_bytes (λ b. bit_xor b 0x5c) k ++ sha.digest (map_bytes (λ b. bit_xor b 0x36) k ++ msg)))
      (ap (λ zeros. short ++ zeros) (drop-replicate (length short) 64 0))

protect_lem :
    (sha : Digest) (source app_id : String)
    → protect sha source app_id
      ≡ sha.hex_encode (hmac sha.digest (bytes source) (bytes ("licenselatte_" <> app_id)))
protect_lem sha source app_id = ap sha.hex_encode (hmac_lem sha _ _)

module _ (platform : Platform) (target : Target) where
  -- The text that identifies the machine: the caller's, unless it is missing or empty, or else the
  -- platform's.
  abbrev pub IsSource : Option String → String → Type 0
  IsSource raw source =
      (source ≢ "")
      × ((raw ≡ some source)
          ⊎ (((raw ≡ none) ⊎ (raw ≡ some "")) × (platform_id platform target ≡ some source)))

  IsSource-iff :
      (raw : Option String) (source : String)
      → (raw_or_platform platform target raw ≡ some source) ↔ IsSource raw source
  unfolding IsFilled
  IsSource-iff none source = (
    λ h. (platform_id-IsFilled platform target source h, inr (inl refl, h)),
    λ (ne, from). elim from [ inl e ↦ absurd (cc e) | inr (_, e) ↦ e ],
  )
  IsSource-iff (some r) source = elim (Bool-cases (is_empty r)) [
    | inl blank ↦
        let empty : r ≡ "" = (is_empty_iff r).0 blank in
        (
          λ h.
              let id : platform_id platform target ≡ some source = rw blank at h in
              (platform_id-IsFilled platform target source id, inr (inr (ap some empty), id)),
          λ (ne, from). elim from [ inl e ↦ absurd (ne (cc (e, empty))) | inr (_, e) ↦ rw blank e ],
        )
    | inr given ↦ (
      λ h.
          let same : Option.some r ≡ some source = rw given at h in
          ((λ e. is_filled r given (cc (same, e))), inl same),
      λ (ne, from). elim from [
        | inl e ↦ rw given e
        | inr (inl e, _) ↦ absurd (cc e)
        | inr (inr e, _) ↦ absurd (is_filled r given (cc e))
      ],
    )
  ]

  -- A machine ID is derived exactly when there is a text that identifies the machine, the caller's
  -- or else the platform's, and it is then the hex of the HMAC, as RFC 2104 defines it, of the app
  -- id with that text as its key; and a text that identifies a machine is never empty.
  pub derive_iff :
      (sha : Digest) (app_id : String) (raw : Option String) (id : String)
      → (derive platform sha target app_id raw ≡ some id) ↔ (
          (source : String) × IsSource raw source
          × (id
              ≡ sha.hex_encode
                  (hmac sha.digest (bytes source) (bytes ("licenselatte_" <> app_id)))))
  unfolding derive
  derive_iff sha app_id raw id = (
    λ h. elim (Option-cases (raw_or_platform platform target raw)) [
      | inl missing ↦ absurd (cc (rw missing at h))
      | inr (source, e) ↦
          (source, (IsSource-iff raw source).0 e, cc (rw e at h, protect_lem sha source app_id))
    ],
    λ (source, identified, e).
        rw ((IsSource-iff raw source).1 identified) (cc (protect_lem sha source app_id, e)),
  )
