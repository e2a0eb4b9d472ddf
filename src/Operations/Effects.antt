-- ===== src/Operations/Effects.antt =====
-- What the operations do to the cached activation and to the flag.
use latte_rs.Base.{
  Char, String, ◌≡◌, refl, ◌⊎◌, inl, inr, Bool, true, false, Option, none, some, List, arith,
  Result, ok, err, Bool-cases, Result-cases, ◌∙◌,
}
use latte_rs.Time.{SystemTime}
use latte_rs.Crates.{Crates}
use latte_rs.Errors.{LatteError, license_not_found, license_expired, invalid_project_key}
use latte_rs.Domain.{CertChain}
use latte_rs.Check.{PublicLicense}
use latte_rs.Key.{sanitize_key, normalize_key}
use latte_rs.Server.{Server, Body, DeactivateResult}
use latte_rs.Config.{Sdk}
use latte_rs.Renewal.{Shared, verify_and_validate}
use latte_rs.Operations.{
  save_to_cache, clear_cache, is_refusal, handle_invalidation, complete, activate_unless,
  validate_license_key, cached_license, answers_for, activate, renew, deactivate, after_release,
}

abbrev pub Activation : Type 0
Activation = String × CertChain

-- The cached activation after a step: as it was, replaced by one that was accepted, or gone.
abbrev pub Changed : (Activation → Type 0) → Type 0 → Shared → Shared → Type 0
Changed Accepted Refused s after =
    (after.file ≡ s.file)
    ⊎ ((a : Activation) × (after.file ≡ some a) × Accepted a)
    ⊎ ((after.file ≡ none) × Refused)

pub saved_file :
    (writes : Bool) (a : Activation) (s : Shared)
    → ((save_to_cache writes a s).file ≡ s.file) ⊎ ((save_to_cache writes a s).file ≡ some a)
unfolding save_to_cache
saved_file true a s = ground arith
saved_file false a s = ground arith

pub cleared_file :
    (clears : Bool) (s : Shared)
    → ((clear_cache clears s).file ≡ s.file) ⊎ ((clear_cache clears s).file ≡ none)
unfolding clear_cache
cleared_file true s = ground arith
cleared_file false s = ground arith

pub saved_flag :
    (writes : Bool) (a : Activation) (s : Shared)
    → (save_to_cache writes a s).renewal_failed ≡ false
unfolding save_to_cache
saved_flag true a s = ground arith
saved_flag false a s = ground arith

pub cleared_flag : (clears : Bool) (s : Shared) → (clear_cache clears s).renewal_failed ≡ false
unfolding clear_cache
cleared_flag true s = ground arith
cleared_flag false s = ground arith

abbrev pub IsRefused : {A : Type 0} → Result A LatteError → Type 0
IsRefused result =
    (result ≡ err license_not_found)
    ⊎ (result ≡ err license_expired)
    ⊎ (result ≡ err invalid_project_key)

is_refusal-IsRefused : {A : Type 0} (r : Result A LatteError) → is_refusal r ≡ true → IsRefused r
is_refusal-IsRefused r h = ground arith

module _ (C : Crates) (sdk : Sdk C) (server : Server) (writes clears : Bool) where
  -- An activation of the licence that the operation gives.
  abbrev pub Accepted : SystemTime → Result PublicLicense LatteError → Activation → Type 0
  Accepted now result a =
      (lic : PublicLicense) × (verify_and_validate C sdk.master_pubs sdk.machine_id now a ≡ ok lic)
      × (result ≡ ok lic)

  handled_file :
      (answer : Result Activation LatteError) (s : Shared)
      → let after = handle_invalidation C sdk server writes clears answer s in
        (after.file ≡ s.file) ⊎ ((after.file ≡ none) × (is_refusal answer ≡ true))
  handled_file answer s = elim (Bool-cases (is_refusal answer)) [
    | inr no_refusal ↦ rw no_refusal (inl refl)
    | inl refusal ↦
        rw refusal
          (elim (cleared_file clears s) [ inl same ↦ inl same | inr gone ↦ inr (gone, refl) ])
  ]

  complete-Changed :
      (now : SystemTime) (answer : Result Activation LatteError) (sent : List (String × Body))
      (s t : Shared)
      → t.file ≡ (handle_invalidation C sdk server writes clears answer s).file
      → let d = complete C sdk server writes clears now answer sent t in
        Changed (Accepted now d.result) (IsRefused d.result) s d.after
  complete-Changed now (err e) sent s t h = elim (handled_file (err e) s) [
    | inl same ↦ inl (h ∙ same)
    | inr (gone, refusal) ↦ inr (inr (h ∙ gone, is_refusal-IsRefused (err e) refusal))
  ]
  complete-Changed now (ok a) sent s t h =
      elim (Result-cases (verify_and_validate C sdk.master_pubs sdk.machine_id now a)) [
        | inr (e, bad) ↦ rw bad (inl h)
        | inl (lic, good) ↦ rw good (elim (saved_file writes a t) [
          | inl same ↦ inl (same ∙ h)
          | inr new ↦ inr (inl (a, new, (lic, good, refl)))
        ])
      ]

  released_Changed :
      (result : Result DeactivateResult LatteError) (s : Shared)
      → Changed
          (λ _. ⊥)
          ((released : DeactivateResult) × (result ≡ ok released))
          s
          (after_release C sdk server writes clears result s)
  released_Changed (err e) s = inl refl
  released_Changed (ok released) s = elim (cleared_file clears s) [
    | inl same ↦ inl same
    | inr gone ↦ inr (inr (gone, (released, refl)))
  ]

  activate_unless-Changed :
      (now : SystemTime) (sanitized normalized : String) (o : Option (PublicLicense × String))
      (s : Shared)
      → let d = activate_unless C sdk server writes clears now sanitized normalized o s in
        Changed (Accepted now d.result) (IsRefused d.result) s d.after
  activate_unless-Changed now sanitized normalized none s = complete-Changed now _ _ s _ refl
  activate_unless-Changed now sanitized normalized (some (lic, alias)) s =
      elim (Bool-cases (answers_for sanitized normalized (lic, alias))) [
        | inl hit ↦ rw hit (inl refl)
        | inr miss ↦ rw miss (complete-Changed now _ _ s _ refl)
      ]

  activate-Changed :
      (upper : Char → String) (cached verified : SystemTime) (license_key : String) (s : Shared)
      → let d = activate C sdk server writes clears upper cached verified license_key s in
        Changed (Accepted verified d.result) (IsRefused d.result) s d.after
  unfolding activate
  activate-Changed upper cached verified license_key s =
      elim (Result-cases (validate_license_key (normalize_key upper license_key))) [
        | inl (_, valid) ↦
            rw (valid, activate)
              (activate_unless-Changed verified (sanitize_key upper license_key)
                (normalize_key upper license_key) (cached_license C sdk cached s) s)
        | inr (e, invalid) ↦ rw (invalid, activate) (inl refl)
      ]

  renew-Changed :
      (started noted verified : SystemTime) (activation_id license_key : String) (s : Shared)
      → let d =
          renew C sdk server writes clears started noted verified activation_id license_key s in
        Changed (Accepted verified d.result) (IsRefused d.result) s d.after
  unfolding renew
  renew-Changed started noted verified activation_id license_key s =
      let begun = record s { renewal = record s.renewal { last_attempt = some started } } in
      complete-Changed verified _ _ begun _ refl

  deactivate-Changed :
      (activation_id license_key : String) (s : Shared)
      → let d = deactivate C sdk server writes clears activation_id license_key s in
        Changed (λ _. ⊥) ((released : DeactivateResult) × (d.result ≡ ok released)) s d.after
  unfolding deactivate
  deactivate-Changed activation_id license_key s =
      released_Changed (deactivate C sdk server writes clears activation_id license_key s).result s

  -- Whatever happens, an operation leaves the cached activation as it was, or replaces it by one
  -- that the pipeline accepted for this machine, as the licence that it gives, or removes it:
  -- `activate` and `renew` only after one of the three refusals, which is then their result, and
  -- `deactivate` only after the server released the machine, and it never replaces it.
  pub operations_effect :
      (upper : Char → String) (cached started noted verified : SystemTime)
      (license_key activation_id : String) (s : Shared)
      → let a = activate C sdk server writes clears upper cached verified license_key s in
        let r =
          renew C sdk server writes clears started noted verified activation_id license_key s in
        let d = deactivate C sdk server writes clears activation_id license_key s in
        Changed (Accepted verified a.result) (IsRefused a.result) s a.after
        × Changed (Accepted verified r.result) (IsRefused r.result) s r.after
        × Changed (λ _. ⊥) ((released : DeactivateResult) × (d.result ≡ ok released)) s d.after
  operations_effect upper cached started noted verified license_key activation_id s = (
    activate-Changed upper cached verified license_key s,
    renew-Changed started noted verified activation_id license_key s,
    deactivate-Changed activation_id license_key s,
  )
