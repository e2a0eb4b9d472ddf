-- ===== src/Threads/Sound.antt =====
-- What holds of the shared state in every order of steps.
use latte_rs.Base.{
  ◌≡◌, refl, sym, ◌∙◌, ◌⊎◌, inl, inr, Bool, true, false, ◌&&◌, Option, none, some, String, Result,
  ok, err, Bool-cases, ◌==◌, >>=-eq-ok, ap, ok-injective,
}
use latte_rs.Time.{SystemTime}
use latte_rs.Crates.{Crates}
use latte_rs.Errors.{LatteError, license_not_found, license_expired, invalid_project_key}
use latte_rs.Domain.{CertChain}
use latte_rs.Check.{PublicLicense}
use latte_rs.Config.{Sdk}
use latte_rs.Operations.{save_to_cache, clear_cache}
use latte_rs.Operations.Effects.{saved_file, cleared_file, saved_flag, cleared_flag}
use latte_rs.Renewal.{
  Renewal, Job, Shared, next_attempt, spawn, store, holds_activation, holds_file, is_network,
  verify_and_validate, checked_answer,
}
use latte_rs.Renewal.Steps.{overtaken, lost, held, finish_effect}
use latte_rs.Threads.{
  World, start_of, with_job, with_shared, note, finish_checked, Step, background, manual, noted,
  saved, cleared, finished, dropped, Reach, here, next,
}
use latte_rs.Threads.Owned.{IsOwned, dropped-IsOwned, spawned-IsOwned}
use latte_rs.Threads.Spacing.{background_cases, saved_renewal, cleared_renewal}

abbrev Activation : Type 0
Activation = String × CertChain

-- The flag is set only while something is cached.
abbrev pub IsFlagged : Bool → Option Activation → Type 0
IsFlagged false file = Unit
IsFlagged true none = ⊥
IsFlagged true (some a) = Unit

IsFlagged-some : (flag : Bool) (a : Activation) → IsFlagged flag (some a)
IsFlagged-some true a = tt
IsFlagged-some false a = tt

unflagged_and : (flag : Bool) (file : Option Activation) → IsFlagged (flag && false) file
unflagged_and true file = tt
unflagged_and false file = tt

true_and : (flag : Bool) → (flag && true) ≡ flag
true_and true = refl
true_and false = refl

module _ (C : Crates) (sdk : Sdk C) (first : Option Activation) where
  -- Where the cached activation comes from: it was there at the start of the process, or the
  -- pipeline accepted it for this machine; or nothing is cached.
  abbrev pub IsSourced : Option Activation → Type 0
  IsSourced file =
      (file ≡ first)
      ⊎ (file ≡ none)
      ⊎ ((a : Activation) × (now : SystemTime) × (lic : PublicLicense) × (file ≡ some a)
          × (verify_and_validate C sdk.master_pubs sdk.machine_id now a ≡ ok lic))

  abbrev pub IsCached : Shared → Type 0
  IsCached s = IsSourced s.file × IsFlagged s.renewal_failed s.file

  unflagged : (s : Shared) → s.renewal_failed ≡ false → IsFlagged s.renewal_failed s.file
  unflagged s e = rw e tt

  saved-IsCached :
      (writes : Bool) (now : SystemTime) (a : Activation) (lic : PublicLicense) (s : Shared)
      → verify_and_validate C sdk.master_pubs sdk.machine_id now a ≡ ok lic
      → IsCached s
      → IsCached (save_to_cache writes a s)
  saved-IsCached writes now a lic s good h = (
    elim (saved_file writes a s) [
      | inl same ↦ rw same h.0
      | inr new ↦ inr (inr (a, now, lic, new, good))
    ],
    unflagged (save_to_cache writes a s) (saved_flag writes a s),
  )

  cleared-IsCached : (clears : Bool) (s : Shared) → IsCached s → IsCached (clear_cache clears s)
  cleared-IsCached clears s h = (
    elim (cleared_file clears s) [ inl same ↦ rw same h.0 | inr gone ↦ inr (inl gone) ],
    unflagged (clear_cache clears s) (cleared_flag clears s),
  )

  IsFlagged-by_file :
      (network path : Bool) (activation_id : String) (now : SystemTime) (file : Option Activation)
      → IsFlagged (network && (path && holds_file C sdk.master_pubs activation_id now file)) file
  IsFlagged-by_file false path activation_id now file = tt
  IsFlagged-by_file true false activation_id now file = tt
  IsFlagged-by_file true true activation_id now none = tt
  IsFlagged-by_file true true activation_id now (some a) =
      IsFlagged-some (holds_file C sdk.master_pubs activation_id now (some a)) a

  noted-IsCached :
      (now : SystemTime) (activation_id : String) (outcome : Result Activation LatteError)
      (s : Shared)
      → IsCached s
      → IsCached (note C sdk now activation_id outcome s)
  unfolding holds_activation
  noted-IsCached now activation_id outcome s h =
      (h.0, IsFlagged-by_file (is_network outcome) s.has_path activation_id now s.file)

  stored-IsCached :
      (writes : Bool) (renewed : Result Activation LatteError) (s : Shared)
      → ((a : Activation)
          → renewed ≡ ok a
          → (now : SystemTime) × (lic : PublicLicense) × (verify_and_validate C sdk.master_pubs
                sdk.machine_id now a
              ≡ ok lic))
      → IsCached s
      → IsFlagged (is_network renewed) s.file
      → IsCached (store writes renewed (record s { renewal_failed = is_network renewed }))
  unfolding store
  stored-IsCached false (ok a) s good h f = (h.0, tt)
  stored-IsCached true (ok a) s good h f =
      let (now, lic, accepted) = good a refl in (inr (inr (a, now, lic, refl, accepted)), tt)
  stored-IsCached false (err license_not_found) s good h f = (h.0, tt)
  stored-IsCached true (err license_not_found) s good h f = (inr (inl refl), tt)
  stored-IsCached false (err license_expired) s good h f = (h.0, tt)
  stored-IsCached true (err license_expired) s good h f = (inr (inl refl), tt)
  stored-IsCached false (err invalid_project_key) s good h f = (h.0, tt)
  stored-IsCached true (err invalid_project_key) s good h f = (inr (inl refl), tt)
  stored-IsCached writes (err _) s good h f = (h.0, f)

  checked_good :
      (checked : SystemTime) (answer : Result Activation LatteError) (a : Activation)
      → checked_answer C sdk.master_pubs sdk.machine_id checked answer ≡ ok a
      → (now : SystemTime) × (lic : PublicLicense) × (verify_and_validate C sdk.master_pubs
            sdk.machine_id now a
          ≡ ok lic)
  unfolding checked_answer
  checked_good checked answer a h =
      let (b, e₀, h₁) = >>=-eq-ok answer _ h in
      let (lic, good, h₂) =
        >>=-eq-ok (verify_and_validate C sdk.master_pubs sdk.machine_id checked b) _ h₁ in
      (
        checked,
        lic,
        ap (verify_and_validate C sdk.master_pubs sdk.machine_id checked) (sym (ok-injective h₂))
            ∙ good,
      )

  finished-IsCached :
      (writes : Bool) (now checked : SystemTime) (job : Job) (answer : Result Activation LatteError)
      (s : Shared)
      → IsCached s
      → IsCached (finish_checked C sdk writes now checked job answer s)
  unfolding holds_activation
  finished-IsCached writes now checked job answer s h =
      let renewed = checked_answer C sdk.master_pubs sdk.machine_id checked answer in
      let flagged : IsFlagged
          (is_network renewed && holds_activation C sdk.master_pubs job.activation_id now s)
          s.file =
        IsFlagged-by_file (is_network renewed) s.has_path job.activation_id now s.file in
      elim (Bool-cases (s.renewal.attempt == job.number)) [
        | inr other ↦ rw (overtaken C sdk.master_pubs writes job now renewed s other) h
        | inl mine ↦
            elim (Bool-cases (holds_activation C sdk.master_pubs job.activation_id now s)) [
              | inr gone ↦
                  rw (lost C sdk.master_pubs writes job now renewed s mine gone)
                    (h.0, unflagged_and (is_network renewed) s.file)
              | inl holds ↦
                  rw
                    (
                      held C sdk.master_pubs writes job now renewed s mine holds,
                      true_and (is_network renewed),
                    )
                    (stored-IsCached writes renewed s (checked_good checked answer) h
                      (rw (holds, true_and (is_network renewed)) at flagged))
            ]
      ]

  -- The invariant of the shared state.
  pub record IsSound (w : World) : Type 0 where
    pub sourced : IsSourced w.shared.file
    pub flagged : IsFlagged w.shared.renewal_failed w.shared.file
    pub owned : IsOwned w.shared.renewal.in_flight w.shared.renewal.attempt w.live

  -- A step that leaves the bookkeeping alone.
  same-IsSound :
      (w : World) (s : Shared)
      → s.renewal ≡ w.shared.renewal
      → IsCached s
      → IsSound w
      → IsSound (with_shared w s)
  same-IsSound w s e cached h = record {
    sourced = cached.0;
    flagged = cached.1;
    owned = rw e h.owned;
  }

  background-IsSound :
      (w : World) (now : SystemTime) (r : Renewal × Option Job)
      → let v = with_job w now r in
        IsOwned v.shared.renewal.in_flight v.shared.renewal.attempt v.live → IsSound w → IsSound v
  background-IsSound w now (renewal, none) o h = record {
    sourced = h.sourced;
    flagged = h.flagged;
    owned = o;
  }
  background-IsSound w now (renewal, some job) o h = record {
    sourced = h.sourced;
    flagged = h.flagged;
    owned = o;
  }

  Step-IsSound : {w v : World} → Step C sdk w v → IsSound w → IsSound v
  Step-IsSound {w} (background contended spawns now license) h =
      elim (background_cases contended spawns now license w.shared.renewal) [
        | inl none_started ↦
            rw none_started (background-IsSound w now (w.shared.renewal, none) h.owned h)
        | inr (_, made) ↦
            let number = next_attempt w.shared.renewal.attempt in
            rw made (
              background-IsSound w now (spawn spawns now license number)
                (spawned-IsOwned spawns now license number w) h)
      ]
  Step-IsSound (manual now _) h = record {
    sourced = h.sourced;
    flagged = h.flagged;
    owned = h.owned;
  }
  Step-IsSound {w} (noted now activation_id outcome) h =
      same-IsSound w (note C sdk now activation_id outcome w.shared) refl
        (noted-IsCached now activation_id outcome w.shared (h.sourced, h.flagged)) h
  Step-IsSound {w} (saved writes now activation lic good) h =
      same-IsSound w (save_to_cache writes activation w.shared)
        (saved_renewal writes activation w.shared)
        (saved-IsCached writes now activation lic w.shared good (h.sourced, h.flagged)) h
  Step-IsSound {w} (cleared clears) h =
      same-IsSound w (clear_cache clears w.shared) (cleared_renewal clears w.shared)
        (cleared-IsCached clears w.shared (h.sourced, h.flagged)) h
  Step-IsSound {w} (finished writes now checked job answer _) h =
      same-IsSound w (finish_checked C sdk writes now checked job answer w.shared)
        (finish_effect C sdk.master_pubs writes job now _ w.shared).0
        (finished-IsCached writes now checked job answer w.shared (h.sourced, h.flagged)) h
  Step-IsSound {w} (dropped before after number e) h = record {
    sourced = h.sourced;
    flagged = h.flagged;
    owned = dropped-IsOwned before after number w.shared.renewal (rw e at h.owned);
  }

  -- Whatever the threads do and in whatever order: what is cached was there at the start of the
  -- process or was accepted by the pipeline for this machine, the failure flag is set only while
  -- something is cached, and a renewal that is marked as running has a thread that has not ended.
  pub Reach-IsSound :
      (has_path : Bool) (w : World) → Reach C sdk (start_of has_path first) w → IsSound w
  Reach-IsSound has_path w here = record { sourced = inl refl; flagged = tt; owned = tt }
  Reach-IsSound has_path w (next r st) = Step-IsSound st (Reach-IsSound has_path _ r)
