-- ===== src/Storage/Savers.antt =====
-- src/storage.rs: any number of calls of `save` and `clear` on one cache file, in any number of
-- threads and processes, with their system calls in any order. A call of `save` is named by the two
-- numbers in the name of its temporary file, the process and its counter, which no other call has.
-- A process may die between any two system calls, and a call may end before it opens its file.
pub mod Kept
pub mod Leftovers
pub mod Runs
pub mod Whole
use latte_rs.Base.{
  ℕ, String, ◌≡◌, ◌&&◌, ◌==◌, List, [], ◌∷◌, ◌++◌, if◌then◌else◌, Result, ok, err, Bool,
}
use latte_rs.Time.{SystemTime}
use latte_rs.Crates.{Bytes}
use latte_rs.Domain.{CertChain}
use latte_rs.HashMap.{insert}
use latte_rs.Storage.{
  CachedActivation, FilePath, text_of, tmp_path, Disk, Log, Io, create_new, rename, remove_file,
  clear, record_of,
}

-- How far a call has come: not begun, with some bytes written and some left to write, to remove its
-- file, or done.
pub data Saver : Type 0 where
  waiting : Saver
  writing : (activation : String × CertChain) (done left : Bytes) → Saver
  failing : Saver
  ended : Saver

pub record Scene : Type 0 where
  pub disk : Disk
  pub saver : (process counter : ℕ) → Saver

abbrev pub update : (ℕ → ℕ → Saver) → (process counter : ℕ) → Saver → ℕ → ℕ → Saver
update saver p c x q d = if (q == p) && (d == c) then x else saver q d

abbrev pub log_of : Disk → Log
log_of disk = record { disk = disk; seen = [] }

-- After `open`, and after `rename`.
abbrev pub opened_as : String × CertChain → Bytes → Io → Saver
opened_as activation bytes (ok _, log) = writing activation [] bytes
opened_as activation bytes (err e, log) = failing

abbrev pub renamed_as : Io → Saver
renamed_as (ok _, log) = ended
renamed_as (err e, log) = failing

abbrev pub act : Scene → (process counter : ℕ) → Saver → Disk → Scene
act w p c x disk = record { disk = disk; saver = update w.saver p c x }

-- `Given` holds of the activations that the calls are given to save.
module _ (to_vec : CachedActivation → Result Bytes String) (path : FilePath)
    (Given : String × CertChain → Type 0) where
  abbrev pub tmp : (process counter : ℕ) → String
  tmp p c = text_of (tmp_path path p c)

  abbrev pub opening : Scene → (process counter : ℕ) → String × CertChain → Bytes → Io → Scene
  opening w p c activation bytes io = act w p c (opened_as activation bytes io) io.1.disk

  abbrev pub renaming : Scene → (process counter : ℕ) → Io → Scene
  renaming w p c io = act w p c (renamed_as io) io.1.disk

  pub data Step (w : Scene) : Scene → Type 0 where
    opens :
        (p c : ℕ) (allowed : Bool) (now : SystemTime) (activation : String × CertChain)
        (bytes : Bytes)
        → w.saver p c ≡ waiting
        → Given activation
        → to_vec (record_of now activation.0 activation.1) ≡ ok bytes
        → Step w (opening w p c activation bytes (create_new allowed (tmp p c) (log_of w.disk)))
    writes :
        (p c : ℕ) (activation : String × CertChain) (done : Bytes) (b : ℕ) (left : Bytes)
        → w.saver p c ≡ writing activation done (b ∷ left)
        → Step w (
            act w p c
              (writing activation (done ++ (b ∷ [])) left)
              (insert (tmp p c) (done ++ (b ∷ [])) w.disk))
    stops :
        (p c : ℕ) (activation : String × CertChain) (done : Bytes) (b : ℕ) (left : Bytes)
        → w.saver p c ≡ writing activation done (b ∷ left)
        → Step w (act w p c failing w.disk)
    renames :
        (p c : ℕ) (allowed : Bool) (activation : String × CertChain) (done : Bytes)
        → w.saver p c ≡ writing activation done []
        → Step w (renaming w p c (rename allowed (tmp p c) (text_of path) (log_of w.disk)))
    removes :
        (p c : ℕ) (allowed : Bool)
        → w.saver p c ≡ failing
        → Step w (act w p c ended (remove_file allowed (tmp p c) (log_of w.disk)).1.disk)
    dies : (p c : ℕ) → Step w (act w p c ended w.disk)
    clears :
        (allowed : Bool) → Step w (record w { disk = (clear allowed path (log_of w.disk)).1.disk })

  pub data Reach (w : Scene) : Scene → Type 0 where
    here : Reach w w
    next : {u v : Scene} → Reach w u → Step u v → Reach w v

-- A disk on which no call has begun.
abbrev pub scene_of : Disk → Scene
scene_of disk = record { disk = disk; saver = λ p c. waiting }
