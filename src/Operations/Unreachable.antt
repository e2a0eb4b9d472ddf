-- ===== src/Operations/Unreachable.antt =====
-- The operations of an `Sdk` whose server cannot be reached.
use latte_rs.Base.{
  Char, String, ◌<>◌, ◌≡◌, refl, ap, ◌∙◌, ◌⊎◌, inl, inr, Bool, Option, none, some, [], Result, err,
  Bool-cases, Result-cases,
}
use latte_rs.Time.{SystemTime, Duration}
use latte_rs.Crates.{Crates, Bytes}
use latte_rs.Errors.{LatteError, network}
use latte_rs.Check.{PublicLicense}
use latte_rs.Key.{normalize_key}
use latte_rs.Server.{Server, Body, credentials_request}
use latte_rs.Config.{Sdk}
use latte_rs.Renewal.{Shared, holds_activation}
use latte_rs.Wire.{Reply, call, post}
use latte_rs.Client
use latte_rs.Client.{Helper, send}
use latte_rs.Client.Waiting.{IsTimely, post-bounded}
use latte_rs.Operations.{
  Done, validate_license_key, cached_license, answers_for, post_token, activate_unless,
  activate_online, activate, renew, deactivate, activate_body, credentials_of, machines,
  rename_machine,
}

abbrev pub IsNetwork : {A : Type 0} → Result A LatteError → Type 0
IsNetwork result = (text : String) × (result ≡ err (network text))

-- A renewal that has begun.
abbrev pub begun : SystemTime → Shared → Shared
begun started s = record s { renewal = record s.renewal { last_attempt = some started } }

module _ (C : Crates) (sdk : Sdk C) (server : Server) (show_duration : Duration → String)
    (to_vec : Body → Result Bytes String) (helper : String → Bytes → Helper) where
  -- The server behind the client of this `Sdk`.
  abbrev pub reached : Server
  reached = record server { send = send show_duration sdk.http.timeout to_vec helper }

  module _
      (silent : (url : String) (bytes : Bytes) (reply : Reply)
        → IsTimely show_duration sdk.http.timeout (helper url bytes) reply
        → ⊥) where
    sent-IsNetwork : (url : String) (body : Body) → IsNetwork (reached.send url body)
    sent-IsNetwork url body = elim (Result-cases (to_vec body)) [
      | inr (e, bad) ↦ rw bad (e, refl)
      | inl (bytes, good) ↦ rw good (lost bytes)
    ]
      where
        lost :
            (bytes : Bytes)
            → IsNetwork (Client.post show_duration sdk.http.timeout (helper url bytes)).0
        lost bytes =
            let (bound, answered, failed) =
              post-bounded show_duration sdk.http.timeout (helper url bytes) in
            elim (Result-cases (Client.post show_duration sdk.http.timeout (helper url bytes)).0) [
              | inl (reply, got) ↦ absurd (silent url bytes reply ((answered reply).0 got))
              | inr (e, h) ↦ let (text, same) = failed e h in (text, h ∙ ap err same)
            ]

    called-IsNetwork :
        {A : Type 0} (decode : Bytes → Result A String) (path url : String) (body : Body)
        → IsNetwork
            (call server.show_status server.decode_error decode path (reached.send url body))
    unfolding call
    called-IsNetwork decode path url body =
        let (text, h) = sent-IsNetwork url body in rw h (text, refl)

    posted-IsNetwork :
        (path : String) (body : Body) → IsNetwork (post_token C sdk reached path body)
    unfolding post_token post call
    posted-IsNetwork path body =
        let (text, h) = sent-IsNetwork (sdk.base_url <> path) body in rw h (text, refl)

    module _ (writes clears : Bool) (s : Shared) where
      deactivate-kept :
          (activation_id license_key : String)
          → let d = deactivate C sdk reached writes clears activation_id license_key s in
            IsNetwork d.result × (d.after ≡ s)
      unfolding deactivate
      deactivate-kept activation_id license_key =
          let (text, h) =
            called-IsNetwork server.decode_deactivation "/v1/deactivate"
              (sdk.base_url <> "/v1/deactivate")
              (credentials_request (credentials_of C sdk activation_id license_key none)) in
          rw h ((text, refl), refl)

      abbrev IsKept : Done PublicLicense → Type 0
      IsKept done = (done.after ≡ s) × ((done.sent ≡ []) ⊎ IsNetwork done.result)

      online-IsKept :
          (verified : SystemTime) (normalized : String)
          → IsKept (activate_online C sdk reached writes clears verified normalized s)
      online-IsKept verified normalized =
          let (text, h) = posted-IsNetwork "/v1/activate" (activate_body C sdk normalized) in
          rw h (refl, inr (text, refl))

      unless-IsKept :
          (verified : SystemTime) (sanitized normalized : String)
          (o : Option (PublicLicense × String))
          → IsKept (activate_unless C sdk reached writes clears verified sanitized normalized o s)
      unless-IsKept verified sanitized normalized none = online-IsKept verified normalized
      unless-IsKept verified sanitized normalized (some (lic, alias)) =
          elim (Bool-cases (answers_for sanitized normalized (lic, alias))) [
            | inl hit ↦ rw hit (refl, inl refl)
            | inr miss ↦ rw miss (online-IsKept verified normalized)
          ]

      activate-IsKept :
          (upper : Char → String) (cached verified : SystemTime) (license_key : String)
          → IsKept (activate C sdk reached writes clears upper cached verified license_key s)
      unfolding activate
      activate-IsKept upper cached verified license_key =
          elim (Result-cases (validate_license_key (normalize_key upper license_key))) [
            | inl (_, valid) ↦
                rw (valid, activate) (unless-IsKept verified _ _ (cached_license C sdk cached s))
            | inr (e, invalid) ↦ rw (invalid, activate) (refl, inl refl)
          ]

      renew-flagged :
          (started noted verified : SystemTime) (activation_id license_key : String)
          → let r =
              renew C sdk reached writes clears started noted verified activation_id license_key
                s in
            IsNetwork r.result
            × (r.after ≡ record (begun started s) {
              renewal_failed =
                  holds_activation C sdk.master_pubs activation_id noted (begun started s);
            })
      unfolding renew
      renew-flagged started noted verified activation_id license_key =
          let (text, h) =
            posted-IsNetwork "/v1/renew"
              (credentials_request (credentials_of C sdk activation_id license_key none)) in
          rw h ((text, refl), refl)

    -- When no request is answered within a second of its limit, `activate` changes nothing and answers
    -- from the cache or without a request, or gives a network error; `deactivate` changes nothing and
    -- gives a network error, and so do `machines` and `rename_machine`. `renew` gives one too and keeps
    -- the cached activation; it notes when it began, and sets the flag of a failed renewal exactly when
    -- the cache holds the activation that it renews.
    pub operations-unreachable :
        (writes clears : Bool) (upper : Char → String) (cached verified started noted : SystemTime)
        (activation_id license_key name : String) (s : Shared)
        → let a = activate C sdk reached writes clears upper cached verified license_key s in
          let r =
            renew C sdk reached writes clears started noted verified activation_id license_key s in
          let d = deactivate C sdk reached writes clears activation_id license_key s in
          ((a.after ≡ s) × ((a.sent ≡ []) ⊎ IsNetwork a.result))
          × (IsNetwork r.result
              × (r.after ≡ record (begun started s) {
                renewal_failed =
                    holds_activation C sdk.master_pubs activation_id noted (begun started s);
              }))
          × (IsNetwork d.result × (d.after ≡ s))
          × IsNetwork (machines C sdk reached activation_id license_key)
          × IsNetwork (rename_machine C sdk reached activation_id license_key name)
    unfolding machines rename_machine
    operations-unreachable writes clears upper cached verified started noted activation_id
          license_key name s =
        (
          activate-IsKept writes clears s upper cached verified license_key,
          renew-flagged writes clears s started noted verified activation_id license_key,
          deactivate-kept writes clears s activation_id license_key,
          (let (text, h) =
                called-IsNetwork server.decode_machines "/v1/machines"
                  (sdk.base_url <> "/v1/machines")
                  (credentials_request (credentials_of C sdk activation_id license_key none)) in
              rw h (text, refl)),
          (let (text, h) =
                called-IsNetwork server.decode_rename "/v1/machines/rename"
                  (sdk.base_url <> "/v1/machines/rename")
                  (credentials_request
                    (credentials_of C sdk activation_id license_key (some name))) in
              rw h (text, refl)),
        )
