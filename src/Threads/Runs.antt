-- ===== src/Threads/Runs.antt =====
-- An operation with no other thread between its steps is a run of the threads.
use latte_rs.Base.{
  Char, String, ◌≡◌, refl, inl, inr, Bool, true, false, Option, none, some, List, Result, ok, err,
  Bool-cases, Result-cases, sym, ◌∙◌, if◌then◌else◌,
}
use latte_rs.Time.{SystemTime}
use latte_rs.Crates.{Crates}
use latte_rs.Errors.{LatteError, VerifyError}
use latte_rs.Domain.{License, CertChain}
use latte_rs.Key.{sanitize_key, normalize_key}
use latte_rs.Check.{PublicLicense}
use latte_rs.Server.{Server, Body, DeactivateResult}
use latte_rs.Config.{Sdk}
use latte_rs.Renewal.{Renewal, Shared, Job, renew_in_background, verify_and_validate}
use latte_rs.Sdk.{check, check_loaded, check_verified, refused, verdict, with_renewal, is_renewable}
use latte_rs.Validate.{validate_at}
use latte_rs.Operations.{
  is_refusal, handle_invalidation, complete, activate_unless, validate_license_key, cached_license,
  answers_for, activate, renew, deactivate, after_release,
}
use latte_rs.Threads.{
  World, with_shared, with_job, NotBefore, background, manual, noted, saved, cleared, Reach, here,
  next,
}

job-shared :
    (w : World) (now : SystemTime) (p : Renewal × Option Job)
    → (with_job w now p).shared ≡ record w.shared { renewal = p.0 }
job-shared w now (renewal, none) = refl
job-shared w now (renewal, some job) = refl

after-with_renewal :
    (s : Shared) (result : Result PublicLicense LatteError) (p : Renewal × Option Job)
    → (with_renewal s result p).after ≡ record s { renewal = p.0 }
after-with_renewal s result (renewal, job) = refl

module _ (C : Crates) (sdk : Sdk C) where
  -- The threads can bring the world to one with this shared state.
  abbrev pub CanReach : World → Shared → Type 0
  CanReach w s = (v : World) × Reach C sdk w v × (v.shared ≡ s)

  module _ (server : Server) (writes clears : Bool) (w : World) where
    handled-Reach :
        (answer : Result (String × CertChain) LatteError) (s : Shared)
        → Reach C sdk w (with_shared w s)
        → Reach C sdk w (with_shared w (handle_invalidation C sdk server writes clears answer s))
    handled-Reach answer s r = elim (Bool-cases (is_refusal answer)) [
      | inl refusal ↦ rw refusal (next r (cleared clears))
      | inr no_refusal ↦ rw no_refusal r
    ]

    complete-Reach :
        (now : SystemTime) (answer : Result (String × CertChain) LatteError)
        (sent : List (String × Body)) (s : Shared)
        → Reach C sdk w (with_shared w s)
        → Reach C sdk w
            (with_shared w (complete C sdk server writes clears now answer sent s).after)
    complete-Reach now (err e) sent s r = r
    complete-Reach now (ok a) sent s r =
        elim (Result-cases (verify_and_validate C sdk.master_pubs sdk.machine_id now a)) [
          | inr (e, bad) ↦ rw bad r
          | inl (lic, good) ↦ rw good (next r (saved writes now a lic good))
        ]

    unless-Reach :
        (now : SystemTime) (sanitized normalized : String) (o : Option (PublicLicense × String))
        → Reach C sdk w (
            with_shared w
              (activate_unless C sdk server writes clears now sanitized normalized o
                w.shared).after)
    unless-Reach now sanitized normalized none =
        complete-Reach now _ _ _ (handled-Reach _ w.shared here)
    unless-Reach now sanitized normalized (some (lic, alias)) =
        elim (Bool-cases (answers_for sanitized normalized (lic, alias))) [
          | inl hit ↦ rw hit here
          | inr miss ↦ rw miss (complete-Reach now _ _ _ (handled-Reach _ w.shared here))
        ]

    activate-Reach :
        (upper : Char → String) (cached verified : SystemTime) (license_key : String)
        → Reach C sdk w (
            with_shared w
              (activate C sdk server writes clears upper cached verified license_key
                w.shared).after)
    unfolding activate
    activate-Reach upper cached verified license_key =
        elim (Result-cases (validate_license_key (normalize_key upper license_key))) [
          | inl (_, valid) ↦
              rw (valid, activate)
                (unless-Reach verified (sanitize_key upper license_key)
                  (normalize_key upper license_key) (cached_license C sdk cached w.shared))
          | inr (e, invalid) ↦ rw (invalid, activate) here
        ]

    renew-Reach :
        (started noted verified : SystemTime) (activation_id license_key : String)
        → NotBefore started w.shared.renewal.last_attempt
        → Reach C sdk w (
            with_shared w
              (renew C sdk server writes clears started noted verified activation_id license_key
                w.shared).after)
    unfolding renew
    renew-Reach started ended verified activation_id license_key ordered =
        complete-Reach verified _ _ _ (
          next (handled-Reach _ _ (next here (manual started ordered)))
            (noted ended activation_id _))

    released-Reach :
        (result : Result DeactivateResult LatteError)
        → Reach C sdk w (with_shared w (after_release C sdk server writes clears result w.shared))
    released-Reach (ok released) = next here (cleared clears)
    released-Reach (err e) = here

    deactivate-Reach :
        (activation_id license_key : String)
        → Reach C sdk w (
            with_shared w
              (deactivate C sdk server writes clears activation_id license_key w.shared).after)
    unfolding deactivate
    deactivate-Reach activation_id license_key = released-Reach _

  module _ (contended spawns : Bool) (now later : SystemTime) (w : World) where
    renewed-CanReach :
        (result : Result PublicLicense LatteError) (license : License) (renewable : Bool)
        → CanReach w
            (with_renewal w.shared result (
              if renewable
              then renew_in_background contended spawns later license w.shared.renewal
              else (w.shared.renewal, none))).after
    renewed-CanReach result license false = (w, here, refl)
    renewed-CanReach result license true =
        let p = renew_in_background contended spawns later license w.shared.renewal in
        (
          with_job w later p,
          next here (background contended spawns later license),
          job-shared w later p ∙ sym (after-with_renewal w.shared result p),
        )

    verified-CanReach :
        (r : Result License VerifyError)
        → CanReach w
            (check_verified C sdk.master_pubs sdk.machine_id contended spawns now later w.shared
              r).after
    unfolding check_verified
    verified-CanReach (err e) = (w, here, refl)
    verified-CanReach (ok license) =
        renewed-CanReach
          (verdict license now w.shared.renewal_failed (validate_at license sdk.machine_id now))
          license (is_renewable sdk.machine_id license)

    loaded-CanReach :
        (file : Option (String × CertChain))
        → CanReach w
            (check_loaded C sdk.master_pubs sdk.machine_id contended spawns now later w.shared
              file).after
    loaded-CanReach none = (w, here, refl)
    loaded-CanReach (some (token, chain)) = verified-CanReach _

    path-CanReach :
        (has_path : Bool)
        → CanReach w
            (if has_path
              then check_loaded C sdk.master_pubs sdk.machine_id contended spawns now later w.shared
                  w.shared.file
              else refused w.shared).after
    path-CanReach true = loaded-CanReach w.shared.file
    path-CanReach false = (w, here, refl)

    check-CanReach :
        CanReach w
          (check C sdk.master_pubs sdk.machine_id contended spawns now later w.shared).after
    unfolding check
    check-CanReach = path-CanReach w.shared.has_path

  -- Each operation with no other thread between its steps is a run of the threads: from any state,
  -- the threads can do what `check`, `activate`, `renew` and `deactivate` do to the shared state, if
  -- `renew` does not begin before the last attempt.
  pub operations-CanReach :
      (server : Server) (writes clears contended spawns : Bool) (upper : Char → String)
      (started ended verified : SystemTime) (activation_id license_key : String) (w : World)
      → NotBefore started w.shared.renewal.last_attempt
      → CanReach w
          (check C sdk.master_pubs sdk.machine_id contended spawns started ended w.shared).after
        × CanReach w
            (activate C sdk server writes clears upper started verified license_key w.shared).after
        × CanReach w
            (renew C sdk server writes clears started ended verified activation_id license_key
              w.shared).after
        × CanReach w
            (deactivate C sdk server writes clears activation_id license_key w.shared).after
  operations-CanReach server writes clears contended spawns upper started ended verified
        activation_id license_key w ordered =
      (
        check-CanReach contended spawns started ended w,
        (_, activate-Reach server writes clears w upper started verified license_key, refl),
        (
          _,
          renew-Reach server writes clears w started ended verified activation_id license_key
              ordered,
          refl,
        ),
        (_, deactivate-Reach server writes clears w activation_id license_key, refl),
      )
