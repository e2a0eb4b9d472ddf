-- ===== src/Config/Made.antt =====
-- When an `Sdk` is made, and which.
use latte_rs.Base.{
  String, ◌≡◌, refl, sym, ap, ◌∙◌, ◌↔◌, inl, inr, Option, none, some, List, ok, err, Option-cases,
  ◌<>◌, ◌≢◌, ◌⊎◌,
}
use latte_rs.Time.{from_secs}
use latte_rs.Storage.{FilePath, text_of, default_path}
use latte_rs.AppId
use latte_rs.Crates.{Crates}
use latte_rs.Key.{bytes}
use latte_rs.AppId.{AppId, Environment, live, test, local, parse_app_id}
use latte_rs.AppId.Shape.{print, IsKeySegment, parse_app_id_iff}
use latte_rs.MachineId.{Platform, Digest, Target}
use latte_rs.MachineId.Derived.{IsSource, hmac, derive_iff}
use latte_rs.MasterKeys.{master_public_keys}
use latte_rs.Config.Settings.{
  Waits, IsGiven, get_or-IsGiven, name_iff, cache_iff, IsGiven-unique, Waits-unique, some_unique,
}
use latte_rs.Config.{Config, Sdk, sdk_of, with_machine, new}

module _ (C : Crates) (platform : Platform) (sha : Digest) (target : Target)
    (config_dir : Option String) (keys : List C.VerifyingKey)
    (loaded : master_public_keys C ≡ some keys) (config : Config) where
  -- The parts of an app id, and the text that identifies the machine.
  pub record IsReady (project : AppId) (source : String) : Type 0 where
    pub printed : config.app_id ≡ print project
    pub segment : IsKeySegment project.key
    pub identified : IsSource platform target config.machine_id source

  abbrev pub id_of : String → String
  id_of source =
      sha.hex_encode (hmac sha.digest (bytes source) (bytes ("licenselatte_" <> config.app_id)))

  abbrev IsCacheIn : AppId → String → Type 0
  IsCacheIn project path =
      (config.cache_path ≡ some path)
      ⊎ ((config.cache_path ≡ none)
          × (file : FilePath) × (default_path config_dir project.key ≡ some file)
          × (path ≡ text_of file))

  abbrev host_of : Environment → String
  host_of live = "https://api.licenselatte.com"
  host_of test = "https://api.licenselatte.com"
  host_of local = "http://localhost:8080"

  -- What the `Sdk` of these settings holds.
  pub record IsMade (project : AppId) (source : String) (sdk : Sdk C) : Type 0 where
    pub url : IsGiven config.base_url sdk.base_url (host_of project.env)
    pub app : sdk.app_id ≡ config.app_id
    pub machine : sdk.machine_id ≡ id_of source
    pub named :
        (name : String)
        → (sdk.machine_name ≡ some name) ↔ ((config.machine_name ≡ some name) × (name ≢ ""))
    pub limit : IsGiven config.timeout sdk.http.timeout (from_secs 10)
    pub waits : Waits sdk.http.timeout sdk.http
    pub waits_behind : Waits (from_secs 10) sdk.background_http
    pub master_keys : sdk.master_pubs ≡ keys
    pub cached : (path : String) → (sdk.cache_path ≡ some path) ↔ IsCacheIn project path

  base_url-host_of : (env : Environment) → AppId.base_url env ≡ host_of env
  unfolding AppId.base_url
  base_url-host_of live = refl
  base_url-host_of test = refl
  base_url-host_of local = refl

  abbrev built : AppId → String → Sdk C
  built project machine_id = sdk_of C platform sha target config_dir config project machine_id keys

  built-IsMade :
      (project : AppId) (source : String) → IsMade project source (built project (id_of source))
  built-IsMade project source = record {
    url = rw⁻¹ (base_url-host_of project.env) (get_or-IsGiven _ config.base_url);
    app = refl;
    machine = refl;
    named = name_iff config.machine_name;
    limit = get_or-IsGiven _ config.timeout;
    waits = (refl, refl, refl, refl, refl);
    waits_behind = (refl, refl, refl, refl, refl);
    master_keys = refl;
    cached = cache_iff config.cache_path (default_path config_dir project.key);
  }

  IsMade-unique :
      (project : AppId) (source : String) (a b : Sdk C)
      → IsMade project source a
      → IsMade project source b
      → a ≡ b
  IsMade-unique project source a b h k =
      let limits = IsGiven-unique _ _ _ _ h.limit k.limit in
      let url = IsGiven-unique _ _ _ _ h.url k.url in
      let http = Waits-unique a.http.timeout b.http.timeout a.http b.http limits h.waits k.waits in
      let behind = Waits-unique _ _ _ _ refl h.waits_behind k.waits_behind in
      let name =
        some_unique _ _ (λ n e. (k.named n).1 ((h.named n).0 e))
          (λ n e. (h.named n).1 ((k.named n).0 e)) in
      let path =
        some_unique _ _ (λ n e. (k.cached n).1 ((h.cached n).0 e))
          (λ n e. (h.cached n).1 ((k.cached n).0 e)) in
      λ i. record {
        base_url = url i;
        app_id = (h.app ∙ sym k.app) i;
        machine_id = (h.machine ∙ sym k.machine) i;
        machine_name = name i;
        http = http i;
        background_http = behind i;
        master_pubs = (h.master_keys ∙ sym k.master_keys) i;
        cache_path = path i;
      }

  with_machine_lem :
      (o : Option String) (project : AppId) (sdk : Sdk C)
      → with_machine C platform sha target config_dir config project o ≡ some (ok sdk)
      → (machine_id : String) × (o ≡ some machine_id) × (sdk ≡ built project machine_id)
  with_machine_lem none project sdk h = cc
  with_machine_lem (some machine_id) project sdk h = (machine_id, refl, cc (rw loaded at h))

  -- An `Sdk` is made exactly when the app id is well formed and there is a text that identifies the
  -- machine. It has the app id, as its machine id the hex of the HMAC of that text under "licenselatte_"
  -- with the app id, the base URL of the settings or that of the environment, their machine name if it
  -- is not empty, an agent with their limit or one of 10 s and another with one of 10 s, which both
  -- resolve and connect in 5 s and take no status for a failure, the embedded master keys, and the cache
  -- path of the settings or the default one of the project, if there is one. This takes that the
  -- embedded master keys can be parsed.
  pub new_iff :
      (sdk : Sdk C)
      → (new C platform sha target config_dir config ≡ some (ok sdk)) ↔ (
          (project : AppId) × (source : String) × IsReady project source
          × IsMade project source sdk)
  unfolding new
  new_iff sdk = (
    λ h. elim (Option-cases (parse_app_id config.app_id)) [
      | inl panics ↦ absurd (cc (rw panics at h))
      | inr (err e, bad) ↦ absurd (cc (rw bad at h))
      | inr (ok project, parsed) ↦
          let (machine_id, e, same) = with_machine_lem _ project sdk (rw parsed at h) in
          let (source, identified, id) =
            (derive_iff platform target sha config.app_id config.machine_id machine_id).0 e in
          let (printed, segment) = (parse_app_id_iff config.app_id project).0 parsed in
          (
            project,
            source,
            record { printed = printed; segment = segment; identified = identified },
            rw (same ∙ ap (built project) id) (built-IsMade project source),
          )
    ],
    λ (project, source, ready, is_made).
        let parsed = (parse_app_id_iff config.app_id project).1 (ready.printed, ready.segment) in
        let e =
          (derive_iff platform target sha config.app_id config.machine_id (id_of source)).1
            (source, ready.identified, refl) in
        let same =
          IsMade-unique project source sdk (built project (id_of source)) is_made
            (built-IsMade project source) in
        rw (parsed, e, loaded) (ap (λ s. some (ok s)) (sym same)),
  )
