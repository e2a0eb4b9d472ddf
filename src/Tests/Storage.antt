-- ===== src/Tests/Storage.antt =====
-- The theorems on the cache file at a concrete disk.
use latte_rs.Base.{
  ◌≡◌, ◌⊎◌, refl, All, String, true, false, [], ◌∷◌, ok, err, Result, ok-injective, length, ◌==◌,
  if◌then◌else◌,
}
use latte_rs.Crates.{Bytes}
use latte_rs.Renewal.{verify_and_validate}
use latte_rs.Storage.{IoError, CachedActivation, FilePath, text_of, Disk, Calls, record_of}
use latte_rs.Storage.Atomic.{IsSeen, IsEnded, saved, save-atomic}
use latte_rs.Errors.{LatteError, not_activated}
use latte_rs.Check.{PublicLicense, to_public_license}
use latte_rs.Threads.Restarts.{saving, clearing, restarted, save-restarted}
use latte_rs.Tests.Operations.{sdk}
use latte_rs.Tests.Renewals.{licence, masters, evening}
use latte_rs.Tests.Toy.{toy, evaluation, chain, token, now}

abbrev path : FilePath
path = record { dir = "/home/LicenseLatte"; name = "key.json" }

-- The record is written as three bytes, and they are read as it.
abbrev to_vec : CachedActivation → Result Bytes String
to_vec r = ok (1 ∷ 2 ∷ 3 ∷ [])

abbrev from_slice : Bytes → Result CachedActivation String
from_slice bytes = if length bytes == 3 then ok (record_of now token chain) else err "unreadable"

abbrev calls : Calls
calls = record {
  makes_dir = true;
  creates = true;
  room = 10;
  renames = true;
  removes = true;
  now = now;
  process = 42;
  counter = 0;
}

reads_back :
    (bytes : Bytes)
    → to_vec (record_of now token chain) ≡ ok bytes
    → from_slice bytes ≡ ok (record_of now token chain)
reads_back bytes e = rw⁻¹ (ok-injective e) refl

abbrev disk : Disk
disk = (text_of path, 9 ∷ []) ∷ []

save-atomic_example :
    All
      (IsSeen to_vec from_slice calls path token chain disk)
      (saved to_vec from_slice calls path token chain disk).1.seen
    × IsEnded to_vec from_slice calls path token chain disk
        (saved to_vec from_slice calls path token chain disk)
save-atomic_example = save-atomic to_vec from_slice calls path token chain disk reads_back

abbrev public : PublicLicense
public = to_public_license licence false

accepted : verify_and_validate toy masters "machine" now (token, chain) ≡ ok public
unfolding evaluation verify_and_validate
accepted = refl

-- The first check of a process over a disk.
abbrev restart : Disk → Result PublicLicense LatteError
restart = restarted toy sdk to_vec from_slice path false true now evening

save-restarted_example :
    let io = saving toy sdk to_vec from_slice path false true now evening calls token chain disk in
    let gone =
      clearing toy sdk to_vec from_slice path false true now evening calls token chain disk true in
    All (λ d. (restart d ≡ restart disk) ⊎ (restart d ≡ ok public)) io.1.seen
    × (((io.0 ≡ ok tt) × (restart io.1.disk ≡ ok public))
        ⊎ ((e : IoError) × (io.0 ≡ err e) × (restart io.1.disk ≡ restart disk)))
    × (((gone.0 ≡ ok tt) × (restart gone.1.disk ≡ err not_activated))
        ⊎ ((e : IoError) × (gone.0 ≡ err e) × (restart gone.1.disk ≡ restart disk)))
save-restarted_example =
    save-restarted toy sdk to_vec from_slice path false true now evening calls token chain disk
      public true reads_back accepted
