-- ===== src/Threads/Owned.antt =====
-- The thread of a renewal that is marked as running.
use mathlib.Core.List.{Memᴰ}
use mathlib.Core.List.Memᴰ
use latte_rs.Base.{
  ℕ, ◌≢◌, refl, inl, inr, Bool, true, false, Option, none, some, List, [], ◌∷◌, ◌++◌, arith,
  Bool-cases, ◌==◌,
}
use latte_rs.Time.{SystemTime}
use latte_rs.Domain.{License}
use latte_rs.Renewal.{Renewal, spawn, drop_in_flight}
use latte_rs.Threads.{World, with_job}

-- A renewal that is marked as running has a thread that will take the mark away.
abbrev pub IsOwned : Option SystemTime → ℕ → List ℕ → Type 0
IsOwned none attempt live = Unit
IsOwned (some t) attempt live = Memᴰ attempt live

mem_without :
    (a n : ℕ) (before after : List ℕ)
    → a ≢ n
    → Memᴰ a (before ++ (n ∷ after))
    → Memᴰ a (before ++ after)
mem_without a n [] after ne m = elim (Memᴰ.cases_cons m) [
  | inl e ↦ absurd (ne e)
  | inr later ↦ later
]
mem_without a n (b ∷ before) after ne m = elim (Memᴰ.cases_cons m) [
  | inl e ↦ Memᴰ.head e
  | inr later ↦ Memᴰ.tail (mem_without a n before after ne later)
]

pub dropped-IsOwned :
    (before after : List ℕ) (number : ℕ) (r : Renewal)
    → IsOwned r.in_flight r.attempt (before ++ (number ∷ after))
    → let d = drop_in_flight number r in IsOwned d.in_flight d.attempt (before ++ after)
unfolding drop_in_flight
dropped-IsOwned before after number r h = elim (Bool-cases (r.attempt == number)) [
  | inl mine ↦ rw mine tt
  | inr other ↦ rw other (stays r.in_flight h (λ e. absurd (ground (arith, e))))
]
  where
    stays :
        (o : Option SystemTime)
        → IsOwned o r.attempt (before ++ (number ∷ after))
        → r.attempt ≢ number
        → IsOwned o r.attempt (before ++ after)
    stays none h ne = tt
    stays (some t) m ne = mem_without r.attempt number before after ne m

pub spawned-IsOwned :
    (spawns : Bool) (now : SystemTime) (lic : License) (number : ℕ) (w : World)
    → let v = with_job w now (spawn spawns now lic number) in
      IsOwned v.shared.renewal.in_flight v.shared.renewal.attempt v.live
spawned-IsOwned true now lic number w = Memᴰ.head refl
spawned-IsOwned false now lic number w = tt
