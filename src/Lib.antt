-- ===== src/Lib.antt =====
-- latte-rs: activation and offline verification of licences.
--
-- The program. A seller's application embeds the crate. The server signs an activation token for a
-- licence and a machine, with a chain of certificates: a master key signs the submaster
-- certificate, the submaster key the project certificate, the project key the daily certificate,
-- and the daily key the token. The crate verifies the chain and the token (`src/verify.rs` over
-- `src/jwt.rs`), reads the licence that the token states (`src/domain.rs`,
-- `src/entitlements.rs`), decides whether this machine may use it now (`src/validate.rs`), and
-- hands the application its public view (`src/lib.rs`). `src/key.rs` has the checksum and the
-- normal forms of licence keys, and `src/appid.rs` parses project keys with that checksum.
-- `src/http.rs`, `src/storage.rs` and `src/machine_id.rs` fetch tokens over the network, cache
-- them in a file and name the machine; `check` of `src/http.rs` runs the pipeline on the cached
-- token and may start a renewal of it on a thread in the background, and `activate`, `renew` and
-- `deactivate` post from the caller's thread and then change the cache.
--
-- The files. A module has the definitions of a part, its child modules the theorems.
--   Base            shared names and helpers: tests, options, results, texts, integers, floats
--   Time            `SystemTime` and `Duration`, and `unix_to_system_time` of `src/verify.rs`
--   Json            `serde_json::Value` and `Map`
--   Crates          the crates that the program calls, as one record of operations
--   Errors          `src/error.rs`
--   HashMap         maps keyed by texts; HashMap/Contents (without their order)
--   Key             `src/key.rs`; Key/Checksum, Key/RoundTrip, Key/Normal, Key/Typos
--   AppId           `src/appid.rs`; AppId/Shape
--   Entitlements    `src/entitlements.rs`; Entitlements/Decode
--   Domain          `src/domain.rs`
--   Jwt             `src/jwt.rs`; Jwt/Times, Jwt/Authentic
--   Verify          `src/verify.rs`; Verify/Trust, Verify/Formats
--   Validate        `src/validate.rs`; Validate/Verdict, Validate/Windows
--   Check           `src/lib.rs`; Check/Pipeline, Check/Features, Check/Between,
--                   Check/Order
--   MasterKeys      `src/verify.rs`, the embedded master keys
--   MachineId       `src/machine_id.rs`; MachineId/Texts (the methods of `str`), MachineId/Derived
--   Storage         `src/storage.rs`; Storage/Names, Storage/Temporary, Storage/Paths,
--                   Storage/Atomic, Storage/Cached, Storage/Projects; Storage/Savers (overlapping
--                   saves, as a step relation) with Savers/Kept, Savers/Whole, Savers/Runs,
--                   Savers/Leftovers
--   Config          `src/http.rs`, `Config` and `Sdk::new`; Config/Settings, Config/Made
--   Renewal         `src/http.rs`, the background renewal; Renewal/Steps,
--                   Renewal/Thread (the whole thread, from its post on) with Thread/Ends
--   Sdk             `src/http.rs`, `Sdk::check`; Sdk/Cached, Sdk/Renewed
--   Server          `src/http.rs`, requests and answers
--   Operations      `src/http.rs`, the operations that post from the caller's thread, and
--                   `post_and_handle_invalidation`, `cached_license`, `save_to_cache`,
--                   `clear_cache`; Operations/Effects, Operations/Replayed, Operations/Requests,
--                   Operations/Unreachable; Operations/Uncached (`activate`, `renew` and
--                   `deactivate` of the crate without the feature `cache`) with Uncached/Same
--   Threads         `src/http.rs`, the clones of an `Sdk` on several threads, as a step relation;
--                   Threads/Owned, Threads/Sound, Threads/Spacing, Threads/Runs,
--                   Threads/Restarts
--   Client          `src/http.rs`, `Http` and the helper thread of `Http::post`; Client/Waiting,
--                   Client/Refusals
--   Wire            `src/http.rs`, what a reply becomes; Wire/Replies
--   Rfc3339         `src/http.rs`, `parse_rfc3339`; Rfc3339/Calendar, Rfc3339/Fraction,
--                   Rfc3339/Printed, Rfc3339/Bounds, Rfc3339/Zones, Rfc3339/Read
--   Tests           runs of the model at concrete inputs
-- A function keeps its name and the order of its arguments. A `Result` is a `Result`, `?` is the
-- bind of a do block, and a guard `if !test { return Err(e) }` is `ensure test e`, in the source's
-- order.
--
-- The choices of the model.
--   Crates. `serde_json`, `base64`, `hex` and `ed25519_dalek` are the fields of the record
--     `Crates`, which is an argument of all that uses them, and so is the Unicode table of
--     `char::to_uppercase`. No theorem assumes that a signature is hard to forge: a theorem says
--     which signatures were checked with which keys.
--   Times. A `SystemTime` is an integer of nanoseconds since the Unix epoch and a `Duration` a
--     natural number of them. That adding them overflows the platform's range, which panics, is
--     not modelled.
--   Integers. An i64 is an integer with its wrap-around written out, as in a release build; a
--     cast `as i64` of a float cuts the fraction off and saturates. The theorems on time claims
--     take a clock before 2 ^ 63 seconds. `parse_rfc3339` is computed in integers that do not wrap.
--   Panics. `str::split_at` panics inside a character; `none` stands for it in `validate_key`,
--     `parse_app_id` and `Sdk::new`, which nothing catches, and for the panic of an `expect` in
--     `master_public_keys`.
--   Maps. A `HashMap` is an association list, and a `serde_json::Map` a list of entries. The
--     theorems on decoding take the keys of a claim to be different, which such a map ensures.
--   Threads. What the clones of an `Sdk` share is one record, `Shared`, and what a thread does
--     under the lock is one step on it. The server's answer, the clock, whether the lock is taken,
--     a thread starts or a file is written are arguments of a step. `Threads` lets the steps of any
--     number of threads come in any order; `Operations` runs one operation with no other thread
--     between its steps. In both the file is what `storage::load` makes of it, and
--     `Storage/Cached` joins that to the file system.
--   The file system is a map from the text of a path to the bytes of a file, and a save passes
--     through one state for each byte that it writes. `Storage` runs a call with no other call
--     between its steps; `Storage/Savers` lets the system calls of any number of saves and clears,
--     in any threads and processes, come in any order, each save with its own temporary file. That
--     a process gets the number of a dead one that left its file behind is not modelled. What
--     survives a loss of power is not modelled either: the states are those that processes see.
--   Paths are texts, joined as `PathBuf::push` joins them on Unix and cut at their last slash. That
--     two texts can name one file, as with dots or repeated slashes or where case does not count, is
--     not modelled.
--   The server with the client in front of it is what a posted request gives; `Client` has the
--     wait for the thread that posts, by what becomes of that thread and when. The platform's
--     files, commands and environment, SHA-256 and the hex of bytes are records of operations, and
--     so is the decoding of bodies.
--   Loops are recursion on the list they run over, so nothing runs on fuel but decimal printing,
--     where a number has no more digits than its value plus one.
--
-- Not modelled: of `src/http.rs` what the `ureq` agent does with a request, its settings apart, and its
-- proxies, and the JSON of bodies, which derived code reads and writes; the accessor
-- `Sdk::machine_id`; in `Threads`, other processes that change
-- the cache file; the tests.
pub mod Base
pub mod Time
pub mod Json
pub mod Crates
pub mod Errors
pub mod HashMap
pub mod Key
pub mod AppId
pub mod Entitlements
pub mod Domain
pub mod Jwt
pub mod Verify
pub mod Validate
pub mod Check
pub mod Renewal
pub mod Sdk
pub mod Rfc3339
pub mod Wire
pub mod MasterKeys
pub mod Server
pub mod Config
pub mod Operations
pub mod Threads
pub mod Storage
pub mod MachineId
pub mod Client
mod Tests
