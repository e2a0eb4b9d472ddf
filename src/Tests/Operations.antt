-- ===== src/Tests/Operations.antt =====
-- The theorems on the operations of `Sdk` at a concrete server.
use latte_rs.Base.{len, Result, ◌≡◌, ◌⊎◌, refl, true, false, some, none, [], ok, err, String, Char}
use latte_rs.Check.{PublicLicense, to_public_license}
use latte_rs.Key.{sanitize_key, normalize_key, to_uppercase, retain, fold_ambiguous}
use latte_rs.Server.{Server, Body, DeactivateResult}
use latte_rs.Config.{Sdk, default_timeout, background_timeout}
use latte_rs.Sdk.{check}
use latte_rs.Operations.{activate, renew, deactivate, machines, rename_machine, cached_license}
use latte_rs.Operations.Effects.{Changed, Accepted, IsRefused, operations_effect}
use latte_rs.Operations.Requests.{IsActivation, activate-IsActivation}
use latte_rs.Operations.Uncached.{renew_uncached, deactivate_uncached}
use latte_rs.Operations.Uncached.Same.{answer_of, IsSame, operations-uncached}
use latte_rs.Operations.Unreachable.{IsNetwork, begun, reached, operations-unreachable}
use latte_rs.Time.{Duration}
use latte_rs.Crates.{Bytes}
use latte_rs.Client
use latte_rs.Client.{Helper, hangs}
use latte_rs.Client.Waiting.{IsTimely}
use latte_rs.Wire.{Reply}
use latte_rs.Renewal.{holds_activation}
use latte_rs.Operations.Replayed.{check-activate}
use latte_rs.Tests.Toy.{toy, now, evaluation}
use latte_rs.Tests.Renewals.{masters, licence, shared, evening}

abbrev pub sdk : Sdk toy
sdk = record {
  base_url = "https://";
  app_id = "pk_live_";
  machine_id = "machine";
  machine_name = none;
  http = Client.new default_timeout;
  background_http = Client.new background_timeout;
  master_pubs = masters;
  cache_path = some "cache.json";
}

abbrev released : DeactivateResult
released = record { released = true; seat_free_at = none }

-- A server that releases a machine, and refuses everything else as not found.
abbrev pub server : Server
server = record {
  send = λ url body. ok (record { status = 200; body = ok [] });
  show_status = λ n. "status";
  decode_error = λ bytes. err "no error";
  decode_token = λ bytes. err "no token";
  decode_deactivation = λ bytes. ok released;
  decode_machines = λ bytes. ok (record { machines = [] });
  decode_rename = λ bytes. ok (record { machine_name = "name" });
}

abbrev pub upper : Char → String
upper c = String.◌∷◌ c ""

abbrev public : PublicLicense
public = to_public_license licence false

-- The cached licence answers without a request.
activated : (activate toy sdk server true true upper now now "KEY" shared).result ≡ ok public
unfolding evaluation activate cached_license sanitize_key normalize_key retain to_uppercase
    fold_ambiguous len
activated = refl

operations_effect_example :
    let a = activate toy sdk server true true upper now now "KEY" shared in
    let r = renew toy sdk server true true now now now "ACT" "KEY" shared in
    let d = deactivate toy sdk server true true "ACT" "KEY" shared in
    Changed (Accepted toy sdk server true true now a.result) (IsRefused a.result) shared a.after
    × Changed (Accepted toy sdk server true true now r.result) (IsRefused r.result) shared r.after
    × Changed (λ _. ⊥) ((gone : DeactivateResult) × (d.result ≡ ok gone)) shared d.after
operations_effect_example =
    operations_effect toy sdk server true true upper now now now now "KEY" "ACT" shared

check-activate_example :
    (check toy masters "machine" false true now evening
      (activate toy sdk server true true upper now now "KEY" shared).after).result
    ≡ ok public
check-activate_example =
    check-activate toy sdk server true false true now evening upper "KEY" shared public refl
      activated

activate-IsActivation_example :
    IsActivation toy sdk server true true upper now now "OTHER" shared
      (activate toy sdk server true true upper now now "OTHER" shared)
activate-IsActivation_example =
    activate-IsActivation toy sdk server true true upper now now "OTHER" shared

abbrev show_duration : Duration → String
show_duration d = "10s"

abbrev to_vec : Body → Result Bytes String
to_vec body = ok []

-- No answer ever comes.
abbrev helper : String → Bytes → Helper
helper url bytes = hangs

silent :
    (url : String) (bytes : Bytes) (reply : Reply)
    → IsTimely show_duration sdk.http.timeout (helper url bytes) reply
    → ⊥
silent url bytes reply (after, e, early) = cc

abbrev cut_off : Server
cut_off = reached toy sdk server show_duration to_vec helper

operations-unreachable_example :
    let a = activate toy sdk cut_off true true upper now now "OTHER" shared in
    let r = renew toy sdk cut_off true true now now now "ACT" "OTHER" shared in
    let d = deactivate toy sdk cut_off true true "ACT" "OTHER" shared in
    ((a.after ≡ shared) × ((a.sent ≡ []) ⊎ IsNetwork a.result))
    × (IsNetwork r.result
        × (r.after ≡ record (begun now shared) {
          renewal_failed = holds_activation toy sdk.master_pubs "ACT" now (begun now shared);
        }))
    × (IsNetwork d.result × (d.after ≡ shared))
    × IsNetwork (machines toy sdk cut_off "ACT" "OTHER")
    × IsNetwork (rename_machine toy sdk cut_off "ACT" "OTHER" "name")
operations-unreachable_example =
    operations-unreachable toy sdk server show_duration to_vec helper silent true true upper now now
      now now "ACT" "OTHER" "name" shared

operations-uncached_example :
    IsSame toy sdk server true true upper now now "OTHER" shared
      (answer_of (activate toy sdk server true true upper now now "OTHER" shared))
    × (answer_of (renew toy sdk server true true now now now "ACT" "OTHER" shared)
        ≡ renew_uncached toy sdk server now "ACT" "OTHER")
    × (answer_of (deactivate toy sdk server true true "ACT" "OTHER" shared)
        ≡ deactivate_uncached toy sdk server "ACT" "OTHER")
operations-uncached_example =
    operations-uncached toy sdk server true true upper now now now now "OTHER" "ACT" shared
