-- ===== src/Broker/Tests.antt =====
-- The theorems on the broker at concrete topics, messages and states, and runs of its methods.
use marsrelay.Common.{
  All, ℕ, ◌<◌, ◌≤◌, ◌+◌, ◌≡◌, refl, true, false, List, [], ◌∷◌, codes, split, bytes_eq, contains,
  find, find_from, add32, sub32, inl, inr, if◌then◌else◌, arith,
}
use marsrelay.Broker.Topics.{
  IdMapping, translate_device_to_external, to_external, external_of, topic_uses_encrypted_external,
  is_b2500_type_segment, to_upper, translate_segments,
}
use marsrelay.Broker.Topics.RoundTrip.{IsUnambiguous, IsDeviceSide, Names}
use marsrelay.Broker.Publish.{Outcome, publish_message-Outcome}
use marsrelay.Broker.Polling.{poll_resent_once}
use marsrelay.Broker.Loop.{Surroundings, init, setup, run_broker}
use mathlib.Core.List.{Sublist}
use marsrelay.Broker.Relay.{relayed_back}
use marsrelay.Broker.SelfPolls.{polls, resent, resent-Sublist_polls}
use marsrelay.Broker.Lifecycle.{
  Event, received, published, IsValid, run, step, task_exited, looped, always_restartable,
}
use marsrelay.Broker.Restart.{exited_broker_restarts, no_client_after_wrap}
use marsrelay.Broker.{
  Broker, Message, ClientLibrary, connected, publish_message, handle_message, resend_self_poll,
  is_self_poll, is_broker_running, is_publish_client_connected,
}

abbrev mappings : List IdMapping
mappings =
    record { device = codes "dev1"; external = codes "aabb"; external_encrypted = codes "ff00" }
    ∷ record { device = codes "dev2"; external = codes "ccdd"; external_encrypted = [] }
    ∷ []

abbrev battery_topic : List ℕ
battery_topic = codes "marstek_energy/HMA-1/device/dev1/ctrl"

encrypted_used :
    translate_device_to_external mappings battery_topic
    ≡ codes "marstek_energy/HMA-1/device/ff00/ctrl"
unfolding translate_device_to_external translate_segments topic_uses_encrypted_external
    is_b2500_type_segment to_upper to_external external_of find find_from bytes_eq
encrypted_used = refl

-- A battery's topic, whose segments are the device id of the second mapping or no external id.
abbrev second_mappings : List IdMapping
second_mappings =
    record { device = codes "d"; external = codes "x"; external_encrypted = codes "y" } ∷ []

abbrev second_topic : List ℕ
second_topic = codes "a/d"

second_mappings-IsUnambiguous : IsUnambiguous second_mappings
unfolding find
second_mappings-IsUnambiguous = record {
  agree = (((λ s h k. refl), tt), tt);
  plain_segments = (((λ e. omega (arith, e)), tt), tt);
  encrypted_segments = (((λ e. omega (arith, e)), tt), tt);
}

unnamed_head :
    ¬ Names
      (record { device = codes "d"; external = codes "x"; external_encrypted = codes "y" })
      (codes "a")
unnamed_head (inl e) = ground (arith, e)
unnamed_head (inr (h, e)) = ground (arith, e)

-- A broker that runs, with its publish client connected.
abbrev running : Broker
running = record (init mappings 1) {
  has_task = true;
  broker_started = true;
  has_client = true;
  publish_state = connected;
}

abbrev poll : Message
poll = record { topic = codes "hame_energy/HMA-1/App/dev1/ctrl"; payload = codes "cd=01" }

abbrev library : ClientLibrary
library = record { made = true; started = true; now = 5000 }

publish_message-Outcome_example :
    Outcome running poll true (publish_message running poll library true)
publish_message-Outcome_example = publish_message-Outcome running poll library true

poll-is_self_poll : is_self_poll (codes "hame") poll ≡ true
unfolding is_self_poll bytes_eq contains find
poll-is_self_poll = refl

poll_resent_once_example :
    let queued = (handle_message running (codes "hame") poll 7 4294967000).0 in
    (300 < 1000 → resend_self_poll queued (add32 4294967000 300) true ≡ (queued, []))
    × (1000 ≤ 300
        → 300 < 1000 + 2147483648
        → let r = resend_self_poll queued (add32 4294967000 300) true in
          (r.1 ≡ (if is_publish_client_connected queued then poll ∷ [] else []))
          × (resend_self_poll r.0 (add32 4294967000 5000) true ≡ (r.0, [])))
poll_resent_once_example =
    poll_resent_once running (codes "hame") poll 7 4294967000 poll-is_self_poll 300 5000 true true

abbrev around : Surroundings
around = record {
  now = 70000;
  trigger_now = 70000;
  report_now = 70000;
  resend_now = 70000;
  resend_accepted = true;
  restart_now = 70000;
  start_now = 70000;
  task_created = true;
  start_failed_now = 70000;
  begin_now = 70000;
  connect_now = 70000;
  client_library = library;
  retry_now = 70000;
  reset_now = 70000;
}

always_restartable_example :
    IsValid (run (setup (init mappings 1) 0) (looped around ∷ task_exited ∷ looped around ∷ []))
always_restartable_example =
    always_restartable mappings 1 0 (looped around ∷ task_exited ∷ looped around ∷ [])

abbrev exited : Broker
exited = record running { has_task = false; broker_exited = true }

abbrev minute_later : Surroundings
minute_later = record around { start_now = 140000 }

exited-IsValid : IsValid exited
unfolding init
exited-IsValid = record {
  alive = λ h. inr refl;
  exited = λ h. refl;
  least_delay = omega arith;
  most_delay = omega arith;
}

exited_late : 60000 < sub32 140000 70000
unfolding sub32
exited_late = omega arith

-- A loop that is too early, a message of the battery and a command that is refused come in between.
abbrev in_between : List Event
in_between = looped around ∷ received (codes "hame") poll 7 8 ∷ published poll library true ∷ []

exited_broker_restarts_example :
    let c = step exited (looped around) in
    let d = step (run c in_between) (looped minute_later) in
    (c.has_client ≡ false)
    × (is_broker_running d ≡ true)
    × (d.has_task ≡ true)
    × (d.broker_restarts ≡ add32 0 1)
unfolding init
exited_broker_restarts_example =
    exited_broker_restarts exited around in_between minute_later exited-IsValid refl
      (refl, (tt, (tt, tt))) exited_late refl

-- Its client is to be made 2296 milliseconds before the clock wraps, and it is 10 minutes later.
abbrev waiting : Broker
waiting = record running { has_client = false; connect_begin = 4294965000 }

no_client_after_wrap_example :
    (run_broker waiting (record around { connect_now = 597704 })).0.has_client ≡ false
unfolding init
no_client_after_wrap_example =
    no_client_after_wrap waiting (record around { connect_now = 597704 }) 600000 refl refl refl
      (omega arith) (omega arith) (omega arith) (unfold add32 in refl)

-- A broker with the second mappings, and a message of the battery under its own topic.
abbrev mapped : Broker
mapped = record running { id_mappings = second_mappings }

abbrev from_battery : Message
from_battery = record { topic = second_topic; payload = codes "on" }

mapped_connected : is_publish_client_connected mapped ≡ true
unfolding is_publish_client_connected
mapped_connected = refl

own_segments : All (IsDeviceSide second_mappings) (split b'/' second_topic)
unfolding split
own_segments = (inr (unnamed_head, tt), (inl (inl refl), tt))

relayed_back_example :
    let x = handle_message mapped (codes "hame") from_battery 7 8 in
    All (λ told. (publish_message x.0 told library true).1 ≡ from_battery ∷ []) x.1
relayed_back_example =
    relayed_back mapped (codes "hame") from_battery 7 8 library true refl mapped_connected
      second_mappings-IsUnambiguous own_segments

resent-Sublist_polls_example :
    let es = received (codes "hame") poll 7 8 ∷ looped around ∷ looped around ∷ [] in
    Sublist (resent (setup (init mappings 1) 0) es) (polls es)
resent-Sublist_polls_example =
    resent-Sublist_polls mappings 1 0
      (received (codes "hame") poll 7 8 ∷ looped around ∷ looped around ∷ [])
