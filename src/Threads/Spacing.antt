-- ===== src/Threads/Spacing.antt =====
-- How far apart background renewals start.
use latte_rs.Base.{
  ℕ, ◌≡◌, refl, ◌⊎◌, inl, inr, Bool, true, false, Option, none, some, List, [], ◌∷◌, arith, String,
}
use latte_rs.Base.Int.{pos, ◌≤ℤ◌, ◌+ℤ◌, int_laws}
use latte_rs.Time.{SystemTime}
use latte_rs.Crates.{Crates}
use latte_rs.Domain.{License, CertChain}
use latte_rs.Config.{Sdk}
use latte_rs.Operations.{save_to_cache, clear_cache}
use latte_rs.Renewal.{
  Renewal, Shared, renew_retry, renew_in_background, next_attempt, spawn, drop_in_flight,
}
use latte_rs.Renewal.Steps.{AtLeast, retried_iff, finish_effect}
use latte_rs.Threads.{
  NotBefore, World, start_of, with_job, with_shared, note, finish_checked, Step, background, manual,
  noted, saved, cleared, finished, dropped, Reach, here, next,
}

-- The times, the latest first, are at least five minutes apart.
abbrev pub Spaced : List SystemTime → Type 0
Spaced [] = Unit
Spaced (t ∷ []) = Unit
Spaced (t ∷ u ∷ ts) = (u +ℤ pos renew_retry ≤ℤ t) × Spaced (u ∷ ts)

-- The latest start is not after the last attempt.
abbrev pub Follows : List SystemTime → Option SystemTime → Type 0
Follows [] last = Unit
Follows (t ∷ ts) none = ⊥
Follows (t ∷ ts) (some last) = t ≤ℤ last

abbrev pub IsSpaced : List SystemTime → Option SystemTime → Type 0
IsSpaced starts last = Spaced starts × Follows starts last

-- An attempt that is no start of a background renewal.
IsSpaced-attempt :
    (starts : List SystemTime) (last : Option SystemTime) (now : SystemTime)
    → NotBefore now last
    → IsSpaced starts last
    → IsSpaced starts (some now)
IsSpaced-attempt [] last now h s = s
IsSpaced-attempt (t ∷ ts) none now h s = absurd s.1
IsSpaced-attempt (t ∷ ts) (some last) now h s = (s.0, omega (arith, s.1))

IsSpaced-start :
    (starts : List SystemTime) (last : Option SystemTime) (now : SystemTime)
    → AtLeast renew_retry now last
    → IsSpaced starts last
    → IsSpaced (now ∷ starts) (some now)
IsSpaced-start [] last now h s = (tt, omega arith)
IsSpaced-start (t ∷ ts) none now h s = absurd s.1
IsSpaced-start (t ∷ ts) (some last) now h s = ((omega (int_laws, s.1), s.0), omega arith)

AtLeast-NotBefore :
    (d : ℕ) (now : SystemTime) (last : Option SystemTime) → AtLeast d now last → NotBefore now last
AtLeast-NotBefore d now none h = tt
AtLeast-NotBefore d now (some last) h = omega int_laws

abbrev Held : World → Type 0
Held w = IsSpaced w.starts w.shared.renewal.last_attempt

-- What a call of `renew_in_background` comes to.
pub background_cases :
    (contended spawns : Bool) (now : SystemTime) (lic : License) (state : Renewal)
    → (renew_in_background contended spawns now lic state ≡ (state, none))
      ⊎ (AtLeast renew_retry now state.last_attempt
          × (renew_in_background contended spawns now lic state
              ≡ spawn spawns now lic (next_attempt state.attempt)))
unfolding renew_in_background
background_cases contended spawns now lic state = ground (arith, retried_iff now state.last_attempt)

spawned-Held :
    (spawns : Bool) (now : SystemTime) (lic : License) (number : ℕ) (w : World)
    → AtLeast renew_retry now w.shared.renewal.last_attempt
    → Held w
    → Held (with_job w now (spawn spawns now lic number))
spawned-Held true now lic number w far s = IsSpaced-start _ _ now far s
spawned-Held false now lic number w far s =
    IsSpaced-attempt _ _ now (AtLeast-NotBefore renew_retry now _ far) s

pub saved_renewal :
    (writes : Bool) (a : String × CertChain) (s : Shared)
    → (save_to_cache writes a s).renewal ≡ s.renewal
unfolding save_to_cache
saved_renewal true a s = ground arith
saved_renewal false a s = ground arith

pub cleared_renewal : (clears : Bool) (s : Shared) → (clear_cache clears s).renewal ≡ s.renewal
unfolding clear_cache
cleared_renewal true s = ground arith
cleared_renewal false s = ground arith

dropped_attempt :
    (number : ℕ) (r : Renewal) → (drop_in_flight number r).last_attempt ≡ r.last_attempt
unfolding drop_in_flight
dropped_attempt number r = ground arith

-- A step that leaves the bookkeeping alone.
same-Held :
    (w : World) (s : Shared) → s.renewal ≡ w.shared.renewal → Held w → Held (with_shared w s)
same-Held w s e held = rw e held

module _ (C : Crates) (sdk : Sdk C) where
  Step-Held : {w v : World} → Step C sdk w v → Held w → Held v
  Step-Held {w} (background contended spawns now license) held =
      elim (background_cases contended spawns now license w.shared.renewal) [
        | inl none_started ↦ rw none_started held
        | inr (far, made) ↦ rw made (spawned-Held spawns now license _ w far held)
      ]
  Step-Held {w} (manual now h) held = IsSpaced-attempt _ _ now h held
  Step-Held {w} (noted now activation_id outcome) held =
      same-Held w (note C sdk now activation_id outcome w.shared) refl held
  Step-Held {w} (saved writes checked activation lic good) held =
      same-Held w (save_to_cache writes activation w.shared)
        (saved_renewal writes activation w.shared) held
  Step-Held {w} (cleared clears) held =
      same-Held w (clear_cache clears w.shared) (cleared_renewal clears w.shared) held
  Step-Held {w} (finished writes now checked job answer live) held =
      same-Held w (finish_checked C sdk writes now checked job answer w.shared)
        (finish_effect C sdk.master_pubs writes job now _ w.shared).0 held
  Step-Held {w} (dropped before after number e) held =
      rw (dropped_attempt number w.shared.renewal) held

  Reach-Held : {w v : World} → Held w → Reach C sdk w v → Held v
  Reach-Held h here = h
  Reach-Held h (next r st) = Step-Held st (Reach-Held h r)

  -- Whatever the threads do, in whatever order and with whatever clocks, as long as no call of
  -- `renew` begins at an earlier time than the last attempt, the background renewals of a process
  -- start at least five minutes apart.
  pub starts-Spaced :
      (has_path : Bool) (file : Option (String × CertChain)) (w : World)
      → Reach C sdk (start_of has_path file) w
      → Spaced w.starts
  starts-Spaced has_path file w r = (Reach-Held (tt, tt) r).0
