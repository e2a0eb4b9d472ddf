-- ===== src/Tests/Savers.antt =====
-- The theorems on overlapping calls of `save` at two processes, one of which dies in its call.
use latte_rs.Base.{
  ℕ, zero, suc, ◌≡◌, ◌⊎◌, refl, String, true, some, none, Option, [], ◌∷◌, ok, err, Result,
  ok-injective,
}
use latte_rs.Base.Int.{ℤ, pos, negsuc}
use latte_rs.Crates.{Bytes}
use latte_rs.Domain.{CertChain}
use latte_rs.HashMap.{lookup, insert, remove}
use latte_rs.Time.{SystemTime}
use latte_rs.Storage.{
  CachedActivation, FilePath, text_of, Disk, record_of, load, create_new, rename, file_stem,
  before_dot, Calls, save, clear,
}
use latte_rs.Storage.Savers.{
  Scene, writing, ended, act, log_of, tmp, opening, renaming, Step, opens, writes, renames, dies,
  Reach, here, next, scene_of,
}
use latte_rs.Storage.Savers.Kept.{IsKept}
use latte_rs.Storage.Savers.Leftovers.{IsUnderWay, IsStranded, leftover-Reach}
use latte_rs.Storage.Savers.Whole.{load-Reach}
use latte_rs.Storage.Savers.Runs.{save-Reach}
use latte_rs.Tests.Toy.{chain, token, now, evaluation}

abbrev path : FilePath
path = record { dir = "/home/LicenseLatte"; name = "key.json" }

-- Two bytes stand for a time and the activation.
abbrev encoded : ℤ → Bytes
encoded (pos n) = n ∷ 0 ∷ []
encoded (negsuc n) = n ∷ 1 ∷ []

abbrev to_vec : CachedActivation → Result Bytes String
to_vec r = ok (encoded r.timestamp)

abbrev at : ℤ → CachedActivation
at timestamp = record {
  timestamp = timestamp;
  token = token;
  submaster = chain.submaster;
  project = chain.project;
  daily = chain.daily;
}

abbrev from_slice : Bytes → Result CachedActivation String
from_slice [] = err "empty"
from_slice (n ∷ []) = err "short"
from_slice (n ∷ zero ∷ rest) = ok (at (pos n))
from_slice (n ∷ suc k ∷ rest) = ok (at (negsuc n))

abbrev Given : String × CertChain → Type 0
Given activation = activation ≡ (token, chain)

read_encoded : (t : ℤ) → from_slice (encoded t) ≡ ok (at t)
read_encoded (pos n) = refl
read_encoded (negsuc n) = refl

reads_back :
    (time : SystemTime) (activation : String × CertChain) (bytes : Bytes)
    → Given activation
    → to_vec (record_of time activation.0 activation.1) ≡ ok bytes
    → from_slice bytes ≡ ok (record_of time activation.0 activation.1)
reads_back time activation bytes given e =
    rw (given, ← ok-injective e) (read_encoded (record_of time token chain).timestamp)

abbrev disk : Disk
disk = (text_of path, 9 ∷ []) ∷ []

abbrev name : ℕ → String
name process = tmp to_vec path Given process 0

abbrev bytes : Bytes
bytes = encoded (record_of now token chain).timestamp

-- Process 1 opens its file, then process 2, which dies.
abbrev opened : Scene
opened =
    opening to_vec path Given (scene_of disk) 1 0 (token, chain) bytes
      (create_new true (name 1) (log_of disk))

abbrev both : Scene
both =
    opening to_vec path Given opened 2 0 (token, chain) bytes
      (create_new true (name 2) (log_of opened.disk))

abbrev dead : Scene
dead = act both 2 0 ended both.disk

abbrev first : ℕ
first = 6000

abbrev half : Scene
half =
    act dead 1 0 (writing (token, chain) (first ∷ []) (0 ∷ []))
      (insert (name 1) (first ∷ []) dead.disk)

abbrev full : Scene
full = act half 1 0 (writing (token, chain) bytes []) (insert (name 1) bytes half.disk)

abbrev renamed : Scene
renamed =
    renaming to_vec path Given full 1 0 (rename true (name 1) (text_of path) (log_of full.disk))

overlap : Reach to_vec path Given (scene_of disk) dead
unfolding evaluation create_new lookup insert
overlap =
    next
      (next (next here (opens 1 0 true now (token, chain) bytes refl refl refl))
        (opens 2 0 true now (token, chain) bytes refl refl refl))
      (dies 2 0)

run : Reach to_vec path Given (scene_of disk) renamed
unfolding evaluation create_new lookup insert rename remove file_stem before_dot
run =
    next
      (next (next overlap (writes 1 0 (token, chain) [] first (0 ∷ []) refl))
        (writes 1 0 (token, chain) (first ∷ []) 0 [] refl))
      (renames 1 0 true (token, chain) bytes refl)

abbrev read : Disk → Option (String × CertChain)
read d = load to_vec from_slice true path d

load-Reach_example :
    (((read renamed.disk ≡ read disk) ⊎ (read renamed.disk ≡ none))
      ⊎ ((activation : String × CertChain) × Given activation
          × (read renamed.disk ≡ some activation)))
    × IsKept to_vec path Given disk renamed.disk
load-Reach_example = load-Reach to_vec path Given from_slice reads_back disk renamed run

abbrev calls : Calls
calls = record {
  makes_dir = true;
  creates = true;
  room = 10;
  renames = true;
  removes = true;
  now = now;
  process = 1;
  counter = 0;
}

save-Reach_example :
    ((v : Scene) × Reach to_vec path Given (scene_of disk) v
      × (v.disk ≡ (save to_vec from_slice calls path token chain (log_of disk)).1.disk)
      × (v.saver 1 0 ≡ ended))
    × ((v : Scene) × Step to_vec path Given (scene_of disk) v
        × (v.disk ≡ (clear true path (log_of disk)).1.disk))
save-Reach_example =
    save-Reach to_vec path Given from_slice calls (scene_of disk) token chain true refl refl

leftover-Reach_example : IsUnderWay (dead.saver 2 0) ⊎ IsStranded to_vec path Given overlap 2 0
unfolding evaluation create_new lookup insert file_stem before_dot
leftover-Reach_example = leftover-Reach to_vec path Given disk dead overlap 2 0 [] refl refl
