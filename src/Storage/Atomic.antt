-- ===== src/Storage/Atomic.antt =====
-- A save replaces the cache file in one step, or leaves it alone.
use latte_rs.Base.{
  String, ◌≡◌, ◌≢◌, refl, sym, ◌⊎◌, inl, inr, Bool, true, false, Option, none, some, List, [], ◌∷◌,
  All, Result, ok, err, if◌then◌else◌,
}
use latte_rs.Crates.{Bytes}
use latte_rs.Domain.{CertChain}
use latte_rs.HashMap.{lookup}
use latte_rs.Storage.Temporary.{Old, New, Step, Finished, written-Finished, clean_up-Finished}
use latte_rs.Storage.Names.{tmp_path_ne}
use latte_rs.Storage.{
  other, CachedActivation, FilePath, text_of, tmp_path, IoError, Disk, Log, Io, Calls, record_of,
  load, save_bytes, save,
}

module _ (to_vec : CachedActivation → Result Bytes String)
    (from_slice : Bytes → Result CachedActivation String) where
  -- What a reader of the cache can get at a state, and what becomes of all other files.
  abbrev Reads : FilePath → Disk → Option (String × CertChain) → Type 0
  Reads path d answer = load to_vec from_slice true path d ≡ answer

  module _ (calls : Calls) (path : FilePath) (token : String) (chain : CertChain)
      (base : Disk) where
    abbrev tmp : String
    tmp = text_of (tmp_path path calls.process calls.counter)

    abbrev start : Log
    start = record { disk = base; seen = base ∷ [] }

    abbrev pub saved : Io
    saved = save to_vec from_slice calls path token chain start

    -- What a reader of the cache can get, and what is in the other files.
    pub record IsSeen (d : Disk) : Type 0 where
      pub answers :
          (Reads path d (load to_vec from_slice true path base))
          ⊎ Reads path d (some (token, chain))
      pub others :
          (asked : String) → asked ≢ tmp → asked ≢ text_of path → lookup asked d ≡ lookup asked base

    pub record IsEnded (io : Io) : Type 0 where
      pub succeeded :
          io.0 ≡ ok tt → Reads path io.1.disk (some (token, chain)) × (lookup tmp io.1.disk ≡ none)
      pub failed :
          (e : IoError)
          → io.0 ≡ err e
          → Reads path io.1.disk (load to_vec from_slice true path base)

    distinct : tmp ≢ text_of path
    distinct = tmp_path_ne path calls.process calls.counter

    Old-Reads :
        (d : Disk)
        → Old tmp (text_of path) distinct base d
        → Reads path d (load to_vec from_slice true path base)
    unfolding load
    Old-Reads d old = rw (old (text_of path) (λ e. distinct (sym e))) refl

    Old-IsSeen : (d : Disk) → Old tmp (text_of path) distinct base d → IsSeen d
    Old-IsSeen d old = record {
      answers = inl (Old-Reads d old);
      others = λ asked ne elsewhere. old asked ne;
    }

    failed-IsEnded :
        (e : IoError) (log : Log)
        → Old tmp (text_of path) distinct base log.disk
        → IsEnded (err e, log)
    failed-IsEnded e log old = record {
      succeeded = λ h. cc;
      failed = λ e' h. Old-Reads log.disk old;
    }

    All-Old-IsSeen :
        (ds : List Disk) → All (Old tmp (text_of path) distinct base) ds → All IsSeen ds
    All-Old-IsSeen [] h = tt
    All-Old-IsSeen (d ∷ ds) (h, hs) = (Old-IsSeen d h, All-Old-IsSeen ds hs)

    module _ (bytes : Bytes)
        (reads_back : from_slice bytes ≡ ok (record_of calls.now token chain)) where
      New-Reads :
          (d : Disk)
          → New tmp (text_of path) distinct base bytes d
          → Reads path d (some (token, chain))
      unfolding load
      New-Reads d new = rw (new.0, reads_back) refl

      All-IsSeen :
          (ds : List Disk) → All (Step tmp (text_of path) distinct base bytes) ds → All IsSeen ds
      All-IsSeen [] h = tt
      All-IsSeen (d ∷ ds) (inl old, hs) = (Old-IsSeen d old, All-IsSeen ds hs)
      All-IsSeen (d ∷ ds) (inr new, hs) =
          (record { answers = inr (New-Reads d new); others = new.1 }, All-IsSeen ds hs)

      Finished-lem :
          (io : Io)
          → Finished tmp (text_of path) distinct base bytes io
          → All IsSeen io.1.seen × IsEnded io
      unfolding Finished
      Finished-lem (ok _, log) (new, gone, steps) = (
        All-IsSeen log.seen steps,
        record { succeeded = λ h. (New-Reads log.disk new, gone); failed = λ e h. cc },
      )
      Finished-lem (err e, log) kept = (All-Old-IsSeen log.seen kept.1, failed-IsEnded e log kept.0)

    abbrev Safe : Io → Type 0
    Safe io = All IsSeen io.1.seen × IsEnded io

    refused : (e : IoError) → Safe (err e, start)
    refused e = ((Old-IsSeen base (λ asked ne. refl), tt), failed-IsEnded e _ (λ asked ne. refl))

    bytes-Safe :
        (encoded : Result Bytes String)
        → ((bytes : Bytes)
            → encoded ≡ ok bytes
            → from_slice bytes ≡ ok (record_of calls.now token chain))
        → Safe (save_bytes to_vec from_slice calls path encoded start)
    bytes-Safe (err e) reads_back = refused _
    bytes-Safe (ok bytes) reads_back = Finished-lem bytes (reads_back bytes refl) _ (
        clean_up-Finished tmp (text_of path) distinct base bytes calls.removes _ (
          written-Finished tmp (text_of path) distinct base bytes calls start
            ((λ asked ne. refl), ((λ asked ne. refl), tt))))

    dir-Safe :
        (makes_dir : Bool) (io : Io) → Safe io → Safe (if makes_dir then io else (err other, start))
    dir-Safe true io safe = safe
    dir-Safe false io safe = refused other

    -- A reader that looks at the disk at any moment of a save, or after the process stopped in it,
    -- gets what was cached before or the whole new activation, and every file but the cache and the
    -- temporary one is as it was. A save that succeeds leaves the new activation and no temporary
    -- file; one that fails, for whatever reason, leaves what was cached. This takes that
    -- `serde_json` reads back the record that it wrote.
    pub save-atomic :
        ((bytes : Bytes)
          → to_vec (record_of calls.now token chain) ≡ ok bytes
          → from_slice bytes ≡ ok (record_of calls.now token chain))
        → All IsSeen saved.1.seen × IsEnded saved
    unfolding save load
    save-atomic reads_back = dir-Safe calls.makes_dir _ (bytes-Safe _ reads_back)
