-- ===== src/Storage/Savers/Whole.antt =====
-- What overlapping calls of `save` and `clear` can leave in the cache file.
use latte_rs.Base.{String, ◌≡◌, refl, ◌⊎◌, inl, inr, true, Option, none, some, Result, ok}
use latte_rs.Time.{SystemTime}
use latte_rs.Crates.{Bytes}
use latte_rs.Domain.{CertChain}
use latte_rs.HashMap.{lookup}
use latte_rs.Storage.{CachedActivation, FilePath, text_of, Disk, record_of, load}
use latte_rs.Storage.Savers.{Scene, Reach, here, next, scene_of}
use latte_rs.Storage.Savers.Kept.{Cached, old, gone, new, IsKept, Held, Step-Held}

module _ (to_vec : CachedActivation → Result Bytes String) (path : FilePath)
    (Given : String × CertChain → Type 0) where
  module _ (base : Disk) where
    Reach-Held :
        (v : Scene) → Reach to_vec path Given (scene_of base) v → Held to_vec path Given base v
    Reach-Held v here = record { temps = λ p c. tt; cached = old refl; others = λ asked e f. refl }
    Reach-Held v (next {u = u} before step) =
        Step-Held to_vec path Given base u v (Reach-Held u before) step

  module _ (from_slice : Bytes → Result CachedActivation String) where
    abbrev read : Disk → Option (String × CertChain)
    read d = load to_vec from_slice true path d

    -- While any number of calls of `save` and `clear` are under way on one path, in any threads and
    -- processes with different numbers for their temporary files, with their system calls in any order,
    -- refused or not, and with processes that die at any point, a reader of the cache gets what was
    -- cached before the first of them, or nothing, or a whole activation that one of the calls was
    -- given to save. Every file but the cache file and the temporary ones is as it was. This takes
    -- that `serde_json` reads back the records that it wrote for these activations.
    pub load-Reach :
        ((now : SystemTime) (activation : String × CertChain) (bytes : Bytes)
          → Given activation
          → to_vec (record_of now activation.0 activation.1) ≡ ok bytes
          → from_slice bytes ≡ ok (record_of now activation.0 activation.1))
        → (base : Disk) (w : Scene) → Reach to_vec path Given (scene_of base) w
        → (((read w.disk ≡ read base) ⊎ (read w.disk ≡ none))
            ⊎ ((activation : String × CertChain) × Given activation
                × (read w.disk ≡ some activation)))
          × IsKept to_vec path Given base w.disk
    unfolding load
    load-Reach reads_back base w reach =
        let held = Reach-Held base w reach in (go held.cached, held.others)
      where
        go :
            Cached to_vec path Given base (lookup (text_of path) w.disk)
            → ((read w.disk ≡ read base) ⊎ (read w.disk ≡ none))
              ⊎ ((activation : String × CertChain) × Given activation
                  × (read w.disk ≡ some activation))
        go (old e) = inl (inl (rw e refl))
        go (gone e) = inl (inr (rw e refl))
        go (new a bytes e (given, (now, written))) =
            inr (a, given, rw (e, reads_back now a bytes given written) refl)
