-- ===== src/MasterKeys.antt =====
-- src/verify.rs: the master public keys that the crate embeds.
use latte_rs.Base.{String, Option, some, List, [], ◌∷◌, to_option, and_then}
use latte_rs.Crates.{Crates}
use latte_rs.Verify.{pub_key_from_bytes}

abbrev pub master_public_keys_hex : List String
master_public_keys_hex =
    "6773cdfdfb7fc44f13f097449b715e7147a2d73f525d9f09a8d25229e458a2fb"
    ∷ "73358e45a5c77b7f7236d26f5a1756011b522d277bb19ac4869d2e88952705cd"
    ∷ "4f9369b8a4a0fd9be67cd403e4ed92e0d45609772659be4a066c1a9c4eff43fe"
    ∷ "46d45bbc3280df763fcaf7a37055888eeefbb5781784c1f471f4f413d72b123f" ∷ []

module _ (C : Crates) where
  open C use {hex_decode, VerifyingKey}

  -- One key, or the panic of an `expect`.
  unfoldable pub master_public_key : String → Option VerifyingKey
  master_public_key h =
      and_then (to_option (hex_decode h)) (λ bytes. to_option (pub_key_from_bytes C bytes))

  unfoldable pub parse_all : List String → Option (List VerifyingKey)
  parse_all [] = some []
  parse_all (h ∷ hs) =
      let rest = parse_all hs in
      and_then (master_public_key h) (λ key. and_then rest (λ keys. some (key ∷ keys)))

  unfoldable pub master_public_keys : Option (List VerifyingKey)
  master_public_keys = parse_all master_public_keys_hex
