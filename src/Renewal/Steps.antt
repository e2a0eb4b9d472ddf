-- ===== src/Renewal/Steps.antt =====
-- When a background renewal starts, and what its end does to the shared state.
use latte_rs.Base.{
  ℕ, ◌*◌, ◌≤◌, ◌<◌, ◌≡◌, ◌≢◌, refl, ◌↔◌, ◌⊎◌, inl, inr, Bool, true, false, Option, none, some,
  String, List, arith, Result, ok, err, ◌==◌, Bool-cases, ==→eq,
}
use latte_rs.Base.Int.{pos, ◌≤ℤ◌, ◌<ℤ◌, ◌+ℤ◌}
use latte_rs.Time.{SystemTime, duration_since}
use latte_rs.Crates.{Crates}
use latte_rs.Errors.{LatteError, license_not_found, license_expired, invalid_project_key}
use latte_rs.Domain.{License, CertChain}
use latte_rs.Renewal.{
  Renewal, Shared, Job, renew_after, renew_retry, since, running, retried_recently,
  renew_in_background, next_attempt, store, holds_activation, finish, is_network, note_renewal,
}

-- At least this long has passed since a time, if there is one.
abbrev pub AtLeast : ℕ → SystemTime → Option SystemTime → Type 0
AtLeast d now none = Unit
AtLeast d now (some t) = t +ℤ pos d ≤ℤ now

abbrev pub MoreThan : ℕ → SystemTime → Option SystemTime → Type 0
MoreThan d now none = Unit
MoreThan d now (some t) = t +ℤ pos d <ℤ now

since_iff : (now t : SystemTime) (d : ℕ) → 0 < d → (d ≤ since now t) ↔ (t +ℤ pos d ≤ℤ now)
unfolding duration_since ◌+ℤ◌
since_iff now t d h = ground arith

since_more : (now t : SystemTime) (d : ℕ) → (d < since now t) ↔ (t +ℤ pos d <ℤ now)
unfolding duration_since ◌+ℤ◌
since_more now t d = ground arith

running_iff :
    (now : SystemTime) (o : Option SystemTime)
    → (running now o ≡ false) ↔ MoreThan (2 * renew_retry) now o
running_iff now none = ground arith
running_iff now (some t) = ground (arith, since_more now t (2 * renew_retry))

pub retried_iff :
    (now : SystemTime) (o : Option SystemTime)
    → (retried_recently now o ≡ false) ↔ AtLeast renew_retry now o
retried_iff now none = ground arith
retried_iff now (some t) = ground (arith, since_iff now t renew_retry)

-- The state and the job of a renewal that starts now.
abbrev pub started : SystemTime → License → Renewal → Renewal × Option Job
started now lic state = (
  record { attempt = next_attempt state.attempt; in_flight = some now; last_attempt = some now },
  some (record {
    number = next_attempt state.attempt;
    activation_id = lic.activation_id;
    license_key = lic.key;
  }),
)

-- A background renewal starts exactly when the lock is free and a thread can be spawned, the token
-- is at least an hour old, the last attempt began at least five minutes ago, and one still in
-- flight began more than ten minutes ago; it then takes the next number and notes the time.
pub renew_in_background_iff :
    (contended spawns : Bool) (now : SystemTime) (lic : License) (state : Renewal)
    → (renew_in_background contended spawns now lic state ≡ started now lic state) ↔ (
        (contended ≡ false)
        × (spawns ≡ true)
        × AtLeast renew_after now (some lic.issued_at)
        × AtLeast renew_retry now state.last_attempt
        × MoreThan (2 * renew_retry) now state.in_flight)
unfolding renew_in_background
renew_in_background_iff contended spawns now lic state = ground (
  arith,
  since_iff now lic.issued_at renew_after,
  running_iff now state.in_flight,
  retried_iff now state.last_attempt,
)

-- What `store` can make of the cached activation.
abbrev pub IsReplaced :
    Result (String × CertChain) LatteError → Option (String × CertChain) → Type 0
IsReplaced renewed file =
    (activation : String × CertChain) × (renewed ≡ ok activation) × (file ≡ some activation)

abbrev pub IsCleared : Result (String × CertChain) LatteError → Option (String × CertChain) → Type 0
IsCleared renewed file =
    (file ≡ none)
    × ((renewed ≡ err license_not_found)
        ⊎ (renewed ≡ err license_expired)
        ⊎ (renewed ≡ err invalid_project_key))

store_effect :
    (writes : Bool) (renewed : Result (String × CertChain) LatteError) (s : Shared)
    → let after = store writes renewed s in
      (after.renewal ≡ s.renewal)
      × (after.renewal_failed ≡ s.renewal_failed)
      × (after.file ≢ s.file → IsReplaced renewed after.file ⊎ IsCleared renewed after.file)
unfolding store
store_effect false (ok a) s = (refl, refl, λ ne. absurd (ne refl))
store_effect true (ok a) s = (refl, refl, λ ne. inl (a, refl, refl))
store_effect false (err license_not_found) s = (refl, refl, λ ne. absurd (ne refl))
store_effect true (err license_not_found) s = (refl, refl, λ ne. inr (refl, inl refl))
store_effect false (err license_expired) s = (refl, refl, λ ne. absurd (ne refl))
store_effect true (err license_expired) s = (refl, refl, λ ne. inr (refl, inr (inl refl)))
store_effect false (err invalid_project_key) s = (refl, refl, λ ne. absurd (ne refl))
store_effect true (err invalid_project_key) s = (refl, refl, λ ne. inr (refl, inr (inr refl)))
store_effect writes (err _) s = (refl, refl, λ ne. absurd (ne refl))

module _ (C : Crates) (master_pubs : List C.VerifyingKey) where
  pub overtaken :
      (writes : Bool) (job : Job) (now : SystemTime)
      (renewed : Result (String × CertChain) LatteError) (s : Shared)
      → (s.renewal.attempt == job.number) ≡ false
      → finish C master_pubs writes job now renewed s ≡ s
  unfolding finish
  overtaken writes job now renewed s e = rw e refl

  pub lost :
      (writes : Bool) (job : Job) (now : SystemTime)
      (renewed : Result (String × CertChain) LatteError) (s : Shared)
      → (s.renewal.attempt == job.number) ≡ true
      → holds_activation C master_pubs job.activation_id now s ≡ false
      → finish C master_pubs writes job now renewed s ≡ note_renewal C master_pubs false renewed s
  unfolding finish
  lost writes job now renewed s e h = rw (e, h) refl

  pub held :
      (writes : Bool) (job : Job) (now : SystemTime)
      (renewed : Result (String × CertChain) LatteError) (s : Shared)
      → (s.renewal.attempt == job.number) ≡ true
      → holds_activation C master_pubs job.activation_id now s ≡ true
      → finish C master_pubs writes job now renewed s
        ≡ store writes renewed (note_renewal C master_pubs true renewed s)
  unfolding finish
  held writes job now renewed s e h = rw (e, h) refl

  -- The end of a renewal that a newer one has overtaken changes nothing. Any other end changes the
  -- cached activation only if the cache held the activation that was renewed, and then only to the
  -- renewed token, or to nothing after one of the three refusals; and it leaves the flag set
  -- exactly when the cache held the activation and the server could not be reached.
  pub finish_effect :
      (writes : Bool) (job : Job) (now : SystemTime)
      (renewed : Result (String × CertChain) LatteError) (s : Shared)
      → let after = finish C master_pubs writes job now renewed s in
        (after.renewal ≡ s.renewal)
        × (s.renewal.attempt ≢ job.number → after ≡ s)
        × (s.renewal.attempt ≡ job.number
            → (after.renewal_failed ≡ true) ↔ (
                (holds_activation C master_pubs job.activation_id now s ≡ true)
                × (is_network renewed ≡ true)))
        × (after.file ≢ s.file
            → (s.renewal.attempt ≡ job.number)
              × (holds_activation C master_pubs job.activation_id now s ≡ true)
              × (IsReplaced renewed after.file ⊎ IsCleared renewed after.file))
  finish_effect writes job now renewed s = elim (Bool-cases (s.renewal.attempt == job.number)) [
    | inr other ↦
        rw (overtaken writes job now renewed s other)
          (refl, (λ _. refl), (λ e. absurd (ground arith)), (λ ne. absurd (ne refl)))
    | inl mine ↦ elim (Bool-cases (holds_activation C master_pubs job.activation_id now s)) [
      | inr gone ↦ rw (lost writes job now renewed s mine gone) (
        refl,
        (λ ne. absurd (ground arith)),
        (λ _. ground (arith, gone)),
        (λ ne. absurd (ne refl)),
      )
      | inl holds ↦
          let (same, flag, file) =
            store_effect writes renewed (note_renewal C master_pubs true renewed s) in
          rw (held writes job now renewed s mine holds) (
            same,
            (λ ne. absurd (ground arith)),
            (λ _. rw (flag, holds) (ground arith)),
            (λ ne. (==→eq _ _ mine, holds, file ne)),
          )
    ]
  ]
