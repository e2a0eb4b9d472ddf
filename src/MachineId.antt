-- ===== src/MachineId.antt =====
-- src/machine_id.rs: the machine ID. What the platform gives (files, commands, the environment and
-- the joining of paths) is a record of operations, and so are SHA-256 and the hex of bytes.
pub mod Texts
pub mod Derived
use Prim.Native.Nat.{bit_xor}
use Prim.Native.String
use mathlib.Core.Option
use latte_rs.Base.{
  ℕ, zero, suc, ◌-◌, Char, code, String, ◌<>◌, is_empty, Bool, true, false, not, Option, none, some,
  List, [], ◌∷◌, ◌++◌, ◌==◌, ltb, length, and_then, get_or, if◌then◌else◌,
}
use latte_rs.Crates.{Bytes}
use latte_rs.Key.{bytes}
use latte_rs.Rfc3339.{drop}
use latte_rs.MachineId.Texts.{
  trim, trim_start, trim_end_matches, strip_prefix, contains, split_once, lines, find_map, filter,
}

pub record Command : Type 0 where
  pub program : String
  pub args : List String

-- A command that ran: its standard output, where `none` is not UTF-8.
pub record Output : Type 0 where
  pub success : Bool
  pub stdout : Option String

pub record Platform : Type 0 where
  pub read_to_string : String → Option String
  pub output : Command → Option Output
  pub system_root : Option String
  pub join : String → String → String

-- What the crate is built for; the BSDs, Solaris and illumos have the same code.
pub data Target : Type 0 where
  linux macos windows bsd elsewhere : Target

pub record Digest : Type 0 where
  pub digest : Bytes → Bytes
  pub hex_encode : Bytes → String

abbrev pub non_empty : String → Option String
non_empty s = let t = trim s in if is_empty t then none else some t

abbrev is_quote : Char → Bool
is_quote c = code c == b'"'

abbrev pub ioreg_line : String → Option String
ioreg_line line =
    and_then (split_once "\" = \"" line) (λ parts. non_empty (trim_end_matches is_quote parts.1))

unfoldable pub parse_ioreg : String → Option String
parse_ioreg out = find_map ioreg_line (filter (contains "IOPlatformUUID") (lines out))

abbrev pub reg_line : String → Option String
reg_line line =
    and_then (strip_prefix "MachineGuid" (trim_start line))
      (λ rest. and_then (strip_prefix "REG_SZ" (trim_start rest)) (λ value. non_empty value))

unfoldable pub parse_reg_query : String → Option String
parse_reg_query out = find_map reg_line (lines out)

abbrev pub or_else : Option String → Option String → Option String
or_else none later = later
or_else (some s) later = some s

abbrev pub replicate : ℕ → ℕ → Bytes
replicate zero b = []
replicate (suc n) b = b ∷ replicate n b

abbrev pub map_bytes : (ℕ → ℕ) → Bytes → Bytes
map_bytes f [] = []
map_bytes f (b ∷ bs) = f b ∷ map_bytes f bs

-- `copy_from_slice` to the front.
abbrev pub copy_to_front : (src dst : Bytes) → Bytes
copy_to_front src dst = src ++ drop (length src) dst

abbrev pub ioreg : Command
ioreg = record { program = "/usr/sbin/ioreg"; args = "-rd1" ∷ "-c" ∷ "IOPlatformExpertDevice" ∷ [] }

abbrev pub kenv : Command
kenv = record { program = "/bin/kenv"; args = "-q" ∷ "smbios.system.uuid" ∷ [] }

module _ (sha : Digest) where
  unfoldable pub hmac_sha256 : (key msg : Bytes) → Bytes
  hmac_sha256 key msg =
      let k =
        copy_to_front (if ltb 64 (length key) then sha.digest key else key) (replicate 64 0) in
      let ipad = map_bytes (λ b. bit_xor b 0x36) k in
      let opad = map_bytes (λ b. bit_xor b 0x5c) k in sha.digest (opad ++ sha.digest (ipad ++ msg))

  abbrev pub protect : (raw app_id : String) → String
  protect raw app_id = sha.hex_encode (hmac_sha256 (bytes raw) (bytes ("licenselatte_" <> app_id)))

module _ (platform : Platform) where
  abbrev pub read_file : String → Option String
  read_file path = and_then (platform.read_to_string path) non_empty

  abbrev pub run : Command → Option String
  run cmd = and_then (platform.output cmd) (λ out. if out.success then out.stdout else none)

  abbrev pub reg_exe : Option String → String
  reg_exe none = "C:\\Windows\\System32\\reg.exe"
  reg_exe (some root) = platform.join (platform.join root "System32") "reg.exe"

  abbrev pub reg_query : Command
  reg_query = record {
    program = reg_exe platform.system_root;
    args =
        "query" ∷ "HKLM\\SOFTWARE\\Microsoft\\Cryptography" ∷ "/v" ∷ "MachineGuid" ∷ "/reg:64" ∷ [];
  }

  unfoldable pub platform_id : Target → Option String
  platform_id linux = or_else (read_file "/var/lib/dbus/machine-id") (read_file "/etc/machine-id")
  platform_id macos = and_then (run ioreg) parse_ioreg
  platform_id windows = and_then (run reg_query) parse_reg_query
  platform_id bsd = or_else (read_file "/etc/hostid") (and_then (run kenv) non_empty)
  platform_id elsewhere = none

  abbrev pub raw_or_platform : Target → Option String → Option String
  raw_or_platform target none = platform_id target
  raw_or_platform target (some r) = if is_empty r then platform_id target else some r

  unfoldable pub derive : Digest → Target → (app_id : String) → Option String → Option String
  derive sha target app_id raw =
      and_then (raw_or_platform target raw) (λ source. some (protect sha source app_id))
