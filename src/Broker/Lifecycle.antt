-- ===== src/Broker/Lifecycle.antt =====
-- The life of the broker task and of the publish client, over any sequence of events.
use marsrelay.Common.{
  ℕ, ◌≤◌, ◌≡◌, ◌⊎◌, Bool, true, false, if◌then◌else◌, List, [], ◌∷◌, arith, inl, inr, Bool-cases,
}
use marsrelay.Broker.Topics.{IdMapping}
use marsrelay.Broker.{
  Broker, Message, ClientLibrary, ClientEvent, teardown_publish_client, ensure_publish_client,
  publish_message, resend_self_poll, handle_message, mqtt_event_handler, event_connected,
}
use marsrelay.Broker.Loop.{
  Surroundings, init, setup, task_exits, restart_broker, start_broker, tend_client, run_broker,
}

-- A started broker has its task, or its exit is flagged and the next loop restarts it; the delay
-- before a restart is within its bounds.
pub record IsValid (b : Broker) : Type 0 where
  pub alive : b.broker_started ≡ true → (b.has_task ≡ true) ⊎ (b.broker_exited ≡ true)
  pub exited : b.broker_exited ≡ true → b.has_task ≡ false
  pub least_delay : 1000 ≤ b.broker_start_delay
  pub most_delay : b.broker_start_delay ≤ 60000

-- What the invariant speaks of is the same in both states.
pub record SameTask (b c : Broker) : Type 0 where
  pub started : c.broker_started ≡ b.broker_started
  pub task : c.has_task ≡ b.has_task
  pub exited : c.broker_exited ≡ b.broker_exited
  pub delay : c.broker_start_delay ≡ b.broker_start_delay
  pub restarts : c.broker_restarts ≡ b.broker_restarts
  pub start_at : c.broker_start_at ≡ b.broker_start_at

SameTask-IsValid : {b c : Broker} → SameTask b c → IsValid b → IsValid c
SameTask-IsValid s v = ground arith

pub ensure-SameTask : (b : Broker) (lib : ClientLibrary) → SameTask b (ensure_publish_client b lib)
unfolding ensure_publish_client
ensure-SameTask b lib = ground arith

pub publish_message-SameTask :
    (b : Broker) (m : Message) (lib : ClientLibrary) (accepted : Bool)
    → SameTask b (publish_message b m lib accepted).0
unfolding publish_message
publish_message-SameTask b m lib accepted = ground (arith, ensure-SameTask b lib)

pub resend-SameTask :
    (b : Broker) (now : ℕ) (accepted : Bool) → SameTask b (resend_self_poll b now accepted).0
unfolding resend_self_poll
resend-SameTask b now accepted = ground arith

pub handle_message-SameTask :
    (b : Broker) (client : List ℕ) (m : Message) (now later : ℕ)
    → SameTask b (handle_message b client m now later).0
unfolding handle_message
handle_message-SameTask b client m now later = ground arith

tend_client-IsValid : (b : Broker) (e : Surroundings) → IsValid b → IsValid (tend_client b e)
unfolding tend_client teardown_publish_client
tend_client-IsValid b e v = ground (
  arith,
  ensure-SameTask b e.client_library,
  ensure-SameTask (record b { broker_start_delay = 1000 }) e.client_library,
)

start_broker-IsValid :
    (b : Broker) (e : Surroundings)
    → b.broker_exited ≡ false
    → IsValid b
    → IsValid (start_broker b e).0
unfolding start_broker
start_broker-IsValid b e h v = ground arith

restart_broker-IsValid :
    (b : Broker) (now : ℕ) → b.broker_exited ≡ true → IsValid b → IsValid (restart_broker b now)
unfolding restart_broker teardown_publish_client
restart_broker-IsValid b now h v = ground arith

run_broker-IsValid : (b : Broker) (e : Surroundings) → IsValid b → IsValid (run_broker b e).0
unfolding run_broker
run_broker-IsValid b e v =
    let c = (resend_self_poll b e.resend_now e.resend_accepted).0 in
    let w = SameTask-IsValid (resend-SameTask b e.resend_now e.resend_accepted) v in
    elim (Bool-cases c.broker_exited) [
      | inl gone ↦ rw (gone, run_broker) (restart_broker-IsValid c e.restart_now gone w)
      | inr there ↦
          let x = start_broker-IsValid c e there w in
          rw (there, run_broker) (ground (arith, x, tend_client-IsValid (start_broker c e).0 e x))
    ]

-- Everything that changes the state of the broker: a loop, the end of its task, a command to
-- publish, a message of a client, an event of the publish client.
pub data Event : Type 0 where
  looped : Surroundings → Event
  task_exited : Event
  published : Message → ClientLibrary → Bool → Event
  received : List ℕ → Message → ℕ → ℕ → Event
  client_event : ClientEvent → Event

-- The task can only end while there is one.
unfoldable pub step : Broker → Event → Broker
step b (looped e) = (run_broker b e).0
step b task_exited = if b.has_task then task_exits b else b
step b (published m lib accepted) = (publish_message b m lib accepted).0
step b (received client m now later) = (handle_message b client m now later).0
step b (client_event e) = mqtt_event_handler b e

unfoldable pub run : Broker → List Event → Broker
run b [] = b
run b (e ∷ es) = run (step b e) es

pub mqtt_event_handler-SameTask :
    (b : Broker) (e : ClientEvent) → SameTask b (mqtt_event_handler b e)
unfolding mqtt_event_handler
mqtt_event_handler-SameTask b event_connected = ground arith
mqtt_event_handler-SameTask b _ = ground arith

step-IsValid : (b : Broker) (e : Event) → IsValid b → IsValid (step b e)
unfolding step
step-IsValid b (looped e) v = run_broker-IsValid b e v
step-IsValid b task_exited v = unfold task_exits in ground arith
step-IsValid b (published m lib accepted) v =
    SameTask-IsValid (publish_message-SameTask b m lib accepted) v
step-IsValid b (received client m now later) v =
    SameTask-IsValid (handle_message-SameTask b client m now later) v
step-IsValid b (client_event e) v = SameTask-IsValid (mqtt_event_handler-SameTask b e) v

run-IsValid_from : (b : Broker) (es : List Event) → IsValid b → IsValid (run b es)
unfolding run
run-IsValid_from b [] v = v
run-IsValid_from b (e ∷ es) v = run-IsValid_from (step b e) es (step-IsValid b e v)

setup-IsValid :
    (mappings : List IdMapping) (triggers now : ℕ) → IsValid (setup (init mappings triggers) now)
unfolding setup init
setup-IsValid mappings triggers now = ground arith

-- Whatever happens from `setup` on, a broker that is taken for started has its task or has flagged
-- its exit for the next loop, a broker with a flagged exit has no task, and the delay before the
-- next start stays between one second and a minute.
pub always_restartable :
    (mappings : List IdMapping) (triggers now : ℕ) (es : List Event)
    → IsValid (run (setup (init mappings triggers) now) es)
always_restartable mappings triggers now es =
    run-IsValid_from _ es (setup-IsValid mappings triggers now)
