-- ===== src/Tests/MachineIds.antt =====
-- The theorem on machine IDs at a concrete platform, and the parsing of what commands print.
use latte_rs.Base.{
  ◌≡◌, ◌↔◌, refl, String, ◌<>◌, some, none, [], ◌∷◌, List, ℕ, ◌+◌, Option, split, str_eq,
  if◌then◌else◌,
}
use latte_rs.Key.{bytes}
use latte_rs.MachineId.{Platform, Digest, linux, parse_ioreg, parse_reg_query, derive}
use latte_rs.MachineId.Texts.{
  trim_start, trim_end_matches, strip_prefix, contains, split_once, strip_return, lines,
}
use latte_rs.MachineId.Derived.{IsSource, hmac, derive_iff}

abbrev etc_only : String → Option String
etc_only path = if str_eq path "/etc/machine-id" then some "0123456789abcdef\n" else none

abbrev pub machine : Platform
machine = record {
  read_to_string = etc_only;
  output = λ cmd. none;
  system_root = none;
  join = λ a b. a <> b;
}

abbrev sum : List ℕ → ℕ
sum [] = 0
sum (b ∷ bs) = b + sum bs

-- The digest of a text here is its bytes' sum.
abbrev pub sums : Digest
sums = record { digest = λ bs. sum bs ∷ []; hex_encode = λ bs. "hex" }

derive_iff_example : (derive machine sums linux "pk_live" none ≡ some "hex") ↔ (
    (source : String) × IsSource machine linux none source
    × ("hex"
        ≡ sums.hex_encode (hmac sums.digest (bytes source) (bytes ("licenselatte_" <> "pk_live")))))
derive_iff_example = derive_iff machine linux sums "pk_live" none "hex"

ioreg_found : parse_ioreg "{\n  \"IOPlatformUUID\" = \"ABC-1\"\n}\n" ≡ some "ABC-1"
unfolding parse_ioreg lines split strip_return contains strip_prefix split_once trim_start
    trim_end_matches
ioreg_found = refl

reg_found : parse_reg_query "\r\n    MachineGuid    REG_SZ    abc-1\r\n" ≡ some "abc-1"
unfolding parse_reg_query lines split strip_return strip_prefix trim_start trim_end_matches
reg_found = refl
