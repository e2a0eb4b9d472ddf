-- ===== src/Storage.antt =====
-- src/storage.rs: the cache file. The file system is a map from the text of a path to the bytes of
-- the file, as every process sees it. An operation also gives the states that it passes through, the
-- latest first, since a process can stop, or another one look, at any of them. What the system
-- allows is an argument.
pub mod Names
pub mod Paths
pub mod Projects
pub mod Temporary
pub mod Atomic
pub mod Cached
pub mod Savers
use Prim.Native.String
use latte_rs.Base.{
  ℕ, zero, suc, Char, code, String, ◌<>◌, is_empty, show_ℕ, Bool, true, false, Option, none, some,
  List, [], ◌∷◌, ◌++◌, ◌==◌, and_then, to_option, is_some, not, if◌then◌else◌, Result, ok, err,
}
use latte_rs.Base.Int.{ℤ, pos, wrap_i64}
use latte_rs.Time.{SystemTime, unix_epoch, Duration, as_secs, duration_since}
use latte_rs.Crates.{Bytes}
use latte_rs.Domain.{CertChain}
use latte_rs.HashMap.{HashMap, lookup, insert, remove}

pub record CachedActivation : Type 0 where
  pub timestamp : ℤ
  pub token : String
  pub submaster : String
  pub project : String
  pub daily : String

-- The path of a file: its directory and its name, which is neither empty nor `..`.
pub record FilePath : Type 0 where
  pub dir : String
  pub name : String

abbrev pub text_of : FilePath → String
text_of path = path.dir <> (String.◌∷◌ "/" path.name)

abbrev pub is_slash : Char → Bool
is_slash c = code c == b'/'

-- Whether a text ends in another character than a slash, or what is said of the empty text.
unfoldable pub ends_bare : Bool → String → Bool
ends_bare bare String.[] = bare
ends_bare bare (String.◌∷◌ c s) = ends_bare (not (is_slash c)) s

unfoldable pub is_absolute : String → Bool
is_absolute String.[] = false
is_absolute (String.◌∷◌ c s) = is_slash c

-- `PathBuf::push` on Unix.
abbrev pub push : String → String → String
push path component =
    if is_absolute component
    then component
    else if ends_bare false path
    then path <> (String.◌∷◌ "/" component)
    else path <> component

-- A text cut at its last slash.
abbrev with_char : Char → String → Option FilePath → Option FilePath
with_char c s (some path) = some (record path { dir = String.◌∷◌ c path.dir })
with_char c s none = if is_slash c then some (record { dir = ""; name = s }) else none

unfoldable pub file_path : String → Option FilePath
file_path String.[] = none
file_path (String.◌∷◌ c s) = with_char c s (file_path s)

-- `config_dir` is what `dirs::config_dir` gives. The path always has a slash to cut it at.
unfoldable pub default_path : Option String → String → Option FilePath
default_path config_dir project_key =
    and_then config_dir (λ dir. file_path (push (push dir "LicenseLatte") (project_key <> ".json")))

abbrev is_dot : Char → Bool
is_dot c = code c == b'.'

-- The text before the last dot.
abbrev push_char : Char → Option String → Option String
push_char c (some before) = some (String.◌∷◌ c before)
push_char c none = if is_dot c then some "" else none

unfoldable pub before_dot : String → Option String
before_dot String.[] = none
before_dot (String.◌∷◌ c s) = push_char c (before_dot s)

-- `Path::file_stem`: a dot at the beginning starts no extension.
abbrev pub stem_of : String → Option String → String
stem_of name none = name
stem_of name (some before) = if is_empty before then name else before

unfoldable pub file_stem : String → String
file_stem name = stem_of name (before_dot name)

abbrev pub with_extension : FilePath → String → FilePath
with_extension path extension = record path {
  name = file_stem path.name <> (String.◌∷◌ "." extension);
}

abbrev pub tmp_path : FilePath → (process counter : ℕ) → FilePath
tmp_path path process counter =
    with_extension path ("json." <> (show_ℕ process <> ("." <> (show_ℕ counter <> ".tmp"))))

pub data IoError : Type 0 where
  not_found already_exists other : IoError
  invalid_data : String → IoError

abbrev pub Disk : Type 0
Disk = HashMap Bytes

-- The file system now, and the states it has passed through.
pub record Log : Type 0 where
  pub disk : Disk
  pub seen : List Disk

abbrev pub pass : Disk → Log → Log
pass disk log = record { disk = disk; seen = disk ∷ log.seen }

abbrev pub Io : Type 0
Io = Result (Unit {0}) IoError × Log

abbrev pub and_then_io : Io → (Log → Io) → Io
and_then_io (ok _, log) next = next log
and_then_io (err e, log) next = (err e, log)

-- `create_new` opens only a file that is not there.
unfoldable pub create_new : Bool → String → Log → Io
create_new allowed path log =
    if is_some (lookup path log.disk)
    then (err already_exists, log)
    else if allowed
    then (ok tt, pass (insert path [] log.disk) log)
    else (err other, log)

-- `write_all` with room for some bytes, one after the other.
unfoldable pub write_all : ℕ → String → (written bytes : Bytes) → Log → Io
write_all room path written [] log = (ok tt, log)
write_all zero path written (b ∷ bytes) log = (err other, log)
write_all (suc room) path written (b ∷ bytes) log =
    write_all room path (written ++ (b ∷ [])) bytes
      (pass (insert path (written ++ (b ∷ [])) log.disk) log)

abbrev pub rename_found : Bool → (from to : String) → Option Bytes → Log → Io
rename_found allowed from to none log = (err not_found, log)
rename_found allowed from to (some bytes) log =
    if allowed then (ok tt, pass (insert to bytes (remove from log.disk)) log) else (err other, log)

unfoldable pub rename : Bool → (from to : String) → Log → Io
rename allowed from to log = rename_found allowed from to (lookup from log.disk) log

unfoldable pub remove_file : Bool → String → Log → Io
remove_file allowed path log =
    if is_some (lookup path log.disk)
    then (if allowed then (ok tt, pass (remove path log.disk) log) else (err other, log))
    else (err not_found, log)

-- What the system allows a call of `save`, the room for its file, the clock, and the numbers in the
-- name of its temporary file.
pub record Calls : Type 0 where
  pub makes_dir : Bool
  pub creates : Bool
  pub room : ℕ
  pub renames : Bool
  pub removes : Bool
  pub now : SystemTime
  pub process : ℕ
  pub counter : ℕ

abbrev pub timestamp_of : Option Duration → ℤ
timestamp_of none = pos 0
timestamp_of (some since) = wrap_i64 (pos (as_secs since))

abbrev pub record_of : SystemTime → String → CertChain → CachedActivation
record_of now token chain = record {
  timestamp = timestamp_of (duration_since now unix_epoch);
  token = token;
  submaster = chain.submaster;
  project = chain.project;
  daily = chain.daily;
}

unfoldable pub written : Calls → (tmp path : String) → Bytes → Log → Io
written calls tmp path bytes log = and_then_io (create_new calls.creates tmp log) (λ created.
    and_then_io (write_all calls.room tmp [] bytes created)
      (λ full. rename calls.renames tmp path full))

-- A failure removes the temporary file, if that can be.
abbrev pub clean_up : Bool → String → Io → Io
clean_up removes tmp (ok _, log) = (ok tt, log)
clean_up removes tmp (err e, log) = (err e, (remove_file removes tmp log).1)

-- `serde_json`, which writes a record and reads it.
module _ (to_vec : CachedActivation → Result Bytes String)
    (from_slice : Bytes → Result CachedActivation String) where
  abbrev pub activation_of : CachedActivation → String × CertChain
  activation_of r =
      (r.token, record { submaster = r.submaster; project = r.project; daily = r.daily })

  unfoldable pub load : Bool → FilePath → Disk → Option (String × CertChain)
  load reads path disk =
      and_then (if reads then lookup (text_of path) disk else none)
        (λ bytes. and_then (to_option (from_slice bytes)) (λ r. some (activation_of r)))

  abbrev pub save_bytes : Calls → FilePath → Result Bytes String → Log → Io
  save_bytes calls path (err e) log = (err (invalid_data e), log)
  save_bytes calls path (ok bytes) log =
      let tmp = text_of (tmp_path path calls.process calls.counter) in
      clean_up calls.removes tmp (written calls tmp (text_of path) bytes log)

  unfoldable pub save : Calls → FilePath → String → CertChain → Log → Io
  save calls path token chain log =
      if calls.makes_dir
      then save_bytes calls path (to_vec (record_of calls.now token chain)) log
      else (err other, log)

abbrev pub missing_is_fine : Io → Io
missing_is_fine (err not_found, log) = (ok tt, log)
missing_is_fine (r, log) = (r, log)

unfoldable pub clear : Bool → FilePath → Log → Io
clear allowed path log = missing_is_fine (remove_file allowed (text_of path) log)
