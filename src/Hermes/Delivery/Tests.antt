-- ===== src/Hermes/Delivery/Tests.antt =====
-- Two events and a file that is none, while Hermes takes all, refuses one, or is away.
use mathlib.Core.List.{Perm}
use scraplify.Hermes.Delivery.Ordering.{IsOrdered, events_in}
use scraplify.Base.{
  ℕ, ◌≡◌, refl, true, false, Option, none, some, List, [], ◌∷◌, ◌++◌, ◌==◌, nat_eq, list_eq, Text,
  map, if◌then◌else◌, All,
}
use scraplify.Net.IpPolicy.Text.{codes}
use scraplify.Hermes.Hook.{
  HookConfig, Env, ParsedUrl, refused, not_https, configured, hook_config_from_env,
}
use scraplify.Hermes.Delivery.{
  File, PendingEvent, HermesEvent, World, DeliveryRun, bury, read_pending, read_files, send_event,
  send_pending, delivery_pass, names, begin_run, deliver_batches, deliver_outbox,
}
use scraplify.Hermes.Delivery.Keeping.{is_kept, deliver_batches-kept}
use scraplify.Hermes.Delivery.Emptying.{IsSendable, deliver_outbox-empties}

abbrev first : File
first = record { name = codes "b"; content = codes "1" }

abbrev second : File
second = record { name = codes "a"; content = codes "2" }

abbrev stray : File
stray = record { name = codes "c"; content = codes "?" }

abbrev event_in : Text → Option HermesEvent
event_in s =
    if s == codes "1"
    then some (record { event_id = codes "e1"; emitted_at_ms = 1 })
    else if s == codes "2"
    then some (record { event_id = codes "e2"; emitted_at_ms = 2 })
    else none

abbrev hermes : (Text → Option ℕ) → World
hermes answer = record {
  read_event = event_in;
  now = λ name. 3;
  answer = answer;
  can_move = λ name. true;
  locale_before = λ s t. true;
}

abbrev config : HookConfig
config = record { url = codes "u"; secret = codes "s"; access = none }

abbrev run : (Text → Option ℕ) → DeliveryRun
run answer = deliver_outbox (hermes answer) (some config) [] ((second ∷ first ∷ stray ∷ []) ∷ [])

abbrev refusing : Text → Option ℕ
refusing name = if name == codes "b" then some 302 else some 204

runs :
    ((run (λ name. some 200)).delivered_ids ≡ codes "e1" ∷ codes "e2" ∷ [])
    × (names (run (λ name. some 200)).dead_dir ≡ codes "c" ∷ [])
    × ((run refusing).dead_ids ≡ codes "c" ∷ codes "e1" ∷ [])
    × ((run refusing).delivered_ids ≡ codes "e2" ∷ [])
    × ((run (λ name. none)).kept_ids ≡ codes "e1" ∷ codes "e2" ∷ [])
    × ((run (λ name. none)).sent ≡ codes "b" ∷ [])
unfolding deliver_outbox deliver_batches delivery_pass read_files read_pending send_pending
    send_event bury
runs = (refl, refl, refl, refl, refl, refl)

abbrev plain_http : Text → Option ParsedUrl
plain_http url = some (record { is_https = false; is_http = true; hostname = url; href = url })

abbrev env_with : Text → Env
env_with url = record {
  hermes_hook_url = url;
  hermes_hook_secret = codes "s";
  cf_access_client_id = [];
  cf_access_client_secret = [];
}

configurations :
    (hook_config_from_env plain_http (env_with (codes " localhost "))
      ≡ configured (record { url = codes "localhost"; secret = codes "s"; access = none }))
    × (hook_config_from_env plain_http (env_with (codes "hermes")) ≡ refused not_https)
unfolding hook_config_from_env
configurations = (refl, refl)

deliver_batches-kept_example :
    is_kept (hermes refusing) (codes "b") (
      deliver_batches
        (hermes refusing)
        (some config)
        ((first ∷ []) ∷ (second ∷ []) ∷ [])
        (begin_run (first ∷ [])))
    ≡ true
deliver_batches-kept_example =
    deliver_batches-kept (hermes refusing) (codes "b") (some config)
      ((first ∷ []) ∷ (second ∷ []) ∷ []) (begin_run (first ∷ [])) refl

abbrev taking : World
taking = hermes (λ name. some 200)

sendable : All (IsSendable taking) (second ∷ first ∷ [])
unfolding read_pending
sendable = (
  (record { name = codes "a"; event_id = codes "e2"; emitted_at_ms = 2 }, refl, refl, (refl, refl)),
  (
    (
      record { name = codes "b"; event_id = codes "e1"; emitted_at_ms = 1 },
      refl,
      refl,
      (refl, refl),
    ),
    tt,
  ),
)

deliver_outbox-empties_example :
    let r : DeliveryRun = deliver_outbox taking (some config) [] ((second ∷ first ∷ []) ∷ []) in
    (r.outbox ≡ [])
    × (r.kept_ids ++ r.dead_ids ++ r.stuck_ids ≡ [])
    × (es : List PendingEvent) × Perm es (events_in taking (second ∷ first ∷ []))
    × IsOrdered taking es
    × (r.delivered_ids ≡ map (λ (e : PendingEvent). e.event_id) es)
deliver_outbox-empties_example =
    deliver_outbox-empties taking config [] (second ∷ first ∷ []) sendable
