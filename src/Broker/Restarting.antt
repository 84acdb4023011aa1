-- ===== src/Broker/Restarting.antt =====
-- The states behind a restart of the broker, up to its next start and beyond.
use marsrelay.Common.{
  ℕ, ◌≤◌, ◌<◌, ◌≡◌, ◌∙◌, true, false, List, [], ◌∷◌, All, inl, inr, Bool-cases, add32, sub32, arith,
}
use marsrelay.Broker.{Broker, is_broker_running, teardown_publish_client, resend_self_poll}
use marsrelay.Broker.Loop.{Surroundings, restart_broker, start_broker, tend_client, run_broker}
use marsrelay.Broker.Lifecycle.{
  IsValid, SameTask, ensure-SameTask, resend-SameTask, publish_message-SameTask,
  handle_message-SameTask, mqtt_event_handler-SameTask, Event, looped, task_exited, published,
  received, client_event, step, run,
}

pub restart-state :
    (b : Broker) (e : Surroundings)
    → b.broker_exited ≡ true
    → IsValid b
    → let c = (run_broker b e).0 in
      (c.broker_started ≡ false)
      × (c.broker_exited ≡ false)
      × (c.has_task ≡ false)
      × (c.has_client ≡ false)
      × (c.broker_start_at ≡ e.restart_now)
      × (c.broker_start_delay ≤ 60000)
      × (c.broker_restarts ≡ add32 b.broker_restarts 1)
unfolding run_broker restart_broker teardown_publish_client
restart-state b e h v = ground (arith, resend-SameTask b e.resend_now e.resend_accepted)

record SameStart (b c : Broker) : Type 0 where
  started : c.broker_started ≡ b.broker_started
  task : c.has_task ≡ b.has_task
  exited : c.broker_exited ≡ b.broker_exited
  restarts : c.broker_restarts ≡ b.broker_restarts

tend_client-SameStart : (b : Broker) (e : Surroundings) → SameStart b (tend_client b e)
unfolding tend_client teardown_publish_client
tend_client-SameStart b e = ground (
  arith,
  ensure-SameTask b e.client_library,
  ensure-SameTask (record b { broker_start_delay = 1000 }) e.client_library,
)

start_broker-state :
    (b : Broker) (e : Surroundings)
    → b.broker_started ≡ false
    → b.broker_start_delay < sub32 e.start_now b.broker_start_at
    → e.task_created ≡ true
    → let r = start_broker b e in
      (r.1 ≡ true)
      × (r.0.broker_started ≡ true)
      × (r.0.has_task ≡ true)
      × (r.0.broker_exited ≡ b.broker_exited)
      × (r.0.broker_restarts ≡ b.broker_restarts)
unfolding start_broker
start_broker-state b e n late made = ground arith

start-state :
    (b : Broker) (e : Surroundings)
    → b.broker_exited ≡ false
    → b.broker_started ≡ false
    → b.broker_start_delay < sub32 e.start_now b.broker_start_at
    → e.task_created ≡ true
    → let c = (run_broker b e).0 in
      (is_broker_running c ≡ true) × (c.has_task ≡ true) × (c.broker_restarts ≡ b.broker_restarts)
unfolding run_broker is_broker_running
start-state b e x n late made =
    let c = (resend_self_poll b e.resend_now e.resend_accepted).0 in
    let k = resend-SameTask b e.resend_now e.resend_accepted in
    let r = start_broker-state c e (ground (arith, k)) (ground (arith, k)) made in
    let t = tend_client-SameStart (start_broker c e).0 e in
    let there : c.broker_exited ≡ false = ground (arith, k) in
    rw (there, run_broker) (ground (arith, r, t, k))

pub start_broker-client :
    (b : Broker) (e : Surroundings) → b.broker_started ≡ true → start_broker b e ≡ (b, true)
unfolding start_broker
start_broker-client b e h = ground arith

started-state :
    (b : Broker) (e : Surroundings)
    → b.broker_exited ≡ false
    → b.broker_started ≡ true
    → let c = (run_broker b e).0 in
      (is_broker_running c ≡ true)
      × (c.has_task ≡ b.has_task)
      × (c.broker_restarts ≡ b.broker_restarts)
unfolding run_broker is_broker_running
started-state b e x up =
    let c = (resend_self_poll b e.resend_now e.resend_accepted).0 in
    let k = resend-SameTask b e.resend_now e.resend_accepted in
    let t = tend_client-SameStart c e in
    let there : c.broker_exited ≡ false = ground (arith, k) in
    rw (there, run_broker) (rw (start_broker-client c e (ground (arith, k))) (ground (arith, t, k)))

-- Behind a restart at `since`: the broker waits for its next start, or has been started again.
pub record IsRestarting (since restarts : ℕ) (b : Broker) : Type 0 where
  pub there : b.broker_exited ≡ false
  pub task : b.has_task ≡ b.broker_started
  pub delay : b.broker_start_delay ≤ 60000
  pub start_at : b.broker_started ≡ false → b.broker_start_at ≡ since
  pub counted : b.broker_restarts ≡ restarts

SameTask-IsRestarting :
    {b c : Broker} (since restarts : ℕ)
    → SameTask b c
    → IsRestarting since restarts b
    → IsRestarting since restarts c
SameTask-IsRestarting since restarts s r = ground arith

start_broker-IsRestarting :
    (b : Broker) (e : Surroundings) (since restarts : ℕ)
    → e.task_created ≡ true
    → IsRestarting since restarts b
    → let r = start_broker b e in (r.1 ≡ true) × IsRestarting since restarts r.0
unfolding start_broker
start_broker-IsRestarting b e since restarts made r = ground arith

tend_client-IsRestarting :
    (b : Broker) (e : Surroundings) (since restarts : ℕ)
    → IsRestarting since restarts b
    → IsRestarting since restarts (tend_client b e)
unfolding tend_client teardown_publish_client
tend_client-IsRestarting b e since restarts r = ground (
  arith,
  ensure-SameTask b e.client_library,
  ensure-SameTask (record b { broker_start_delay = 1000 }) e.client_library,
)

run_broker-IsRestarting :
    (b : Broker) (e : Surroundings) (since restarts : ℕ)
    → e.task_created ≡ true
    → IsRestarting since restarts b
    → IsRestarting since restarts (run_broker b e).0
unfolding run_broker
run_broker-IsRestarting b e since restarts made r =
    let c = (resend_self_poll b e.resend_now e.resend_accepted).0 in
    let k =
      SameTask-IsRestarting since restarts (resend-SameTask b e.resend_now e.resend_accepted) r in
    let s = start_broker-IsRestarting c e since restarts made k in
    let t = tend_client-IsRestarting (start_broker c e).0 e since restarts s.1 in
    rw (k.there, run_broker) (rw (s.0, run_broker) t)

-- The task does not end again, and one can be created whenever `loop` asks for it.
abbrev pub IsUndisturbed : Event → Type 0
IsUndisturbed (looped e) = e.task_created ≡ true
IsUndisturbed task_exited = ⊥
IsUndisturbed _ = Unit {0}

step-IsRestarting :
    (b : Broker) (e : Event) (since restarts : ℕ)
    → IsUndisturbed e
    → IsRestarting since restarts b
    → IsRestarting since restarts (step b e)
unfolding step
step-IsRestarting b (looped e) since restarts u r = run_broker-IsRestarting b e since restarts u r
step-IsRestarting b task_exited since restarts u r = absurd u
step-IsRestarting b (published m lib accepted) since restarts u r =
    SameTask-IsRestarting since restarts (publish_message-SameTask b m lib accepted) r
step-IsRestarting b (received client m now later) since restarts u r =
    SameTask-IsRestarting since restarts (handle_message-SameTask b client m now later) r
step-IsRestarting b (client_event e) since restarts u r =
    SameTask-IsRestarting since restarts (mqtt_event_handler-SameTask b e) r

pub run-IsRestarting :
    (b : Broker) (es : List Event) (since restarts : ℕ)
    → All IsUndisturbed es
    → IsRestarting since restarts b
    → IsRestarting since restarts (run b es)
unfolding run
run-IsRestarting b [] since restarts u r = r
run-IsRestarting b (e ∷ es) since restarts (u, us) r =
    run-IsRestarting (step b e) es since restarts us (step-IsRestarting b e since restarts u r)

pub IsRestarting-started :
    (b : Broker) (e : Surroundings) (since restarts : ℕ)
    → IsRestarting since restarts b
    → 60000 < sub32 e.start_now since
    → e.task_created ≡ true
    → let c = (run_broker b e).0 in
      (is_broker_running c ≡ true) × (c.has_task ≡ true) × (c.broker_restarts ≡ restarts)
IsRestarting-started b e since restarts r late made = elim (Bool-cases b.broker_started) [
  | inr down ↦
      let since_then = r.start_at down in
      let s = start-state b e r.there down (rw since_then (omega (arith, r.delay, late))) made in
      (s.0, s.1, s.2 ∙ r.counted)
  | inl up ↦ let s = started-state b e r.there up in (s.0, s.1 ∙ r.task ∙ up, s.2 ∙ r.counted)
]
