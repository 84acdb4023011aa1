-- ===== src/Broker/Restart.antt =====
-- How a broker whose task has ended comes back, and when the publish client is not made.
use marsrelay.Common.{ℕ, ◌+◌, ◌≤◌, ◌<◌, ◌≡◌, Bool, true, false, List, All, add32, sub32, arith}
use marsrelay.Broker.{Broker, is_broker_running, resend_self_poll}
use marsrelay.Broker.Restarting.{
  restart-state, start_broker-client, IsRestarting, IsUndisturbed, run-IsRestarting,
  IsRestarting-started,
}
use marsrelay.Broker.Loop.{Surroundings, tend_client, run_broker}
use marsrelay.Broker.Lifecycle.{IsValid, resend-SameTask, Event, looped, step, run}

-- When the task of a broker in a valid state ends on its own, the next loop drops the publish
-- client and counts a restart; and behind any later loop whose clock is more than a minute past
-- that, the broker runs with a task and with that one restart counted, whatever commands,
-- messages, client events and loops come in between, as long as the task does not end again and
-- one can be created whenever a loop asks for it.
pub exited_broker_restarts :
    (b : Broker) (e : Surroundings) (es : List Event) (e' : Surroundings)
    → IsValid b
    → b.broker_exited ≡ true
    → All IsUndisturbed es
    → 60000 < sub32 e'.start_now e.restart_now
    → e'.task_created ≡ true
    → let c = step b (looped e) in
      let d = step (run c es) (looped e') in
      (c.has_client ≡ false)
      × (is_broker_running d ≡ true)
      × (d.has_task ≡ true)
      × (d.broker_restarts ≡ add32 b.broker_restarts 1)
unfolding step
exited_broker_restarts b e es e' v h u late made =
    let c = (run_broker b e).0 in
    let r = restart-state b e h v in
    let q : IsRestarting e.restart_now (add32 b.broker_restarts 1) c = ground (arith, r) in
    let k = run-IsRestarting c es e.restart_now (add32 b.broker_restarts 1) u q in
    let s =
      IsRestarting-started (run c es) e' e.restart_now (add32 b.broker_restarts 1) k late made in
    (ground (arith, r), s.0, s.1, s.2)

tend_client-before :
    (b : Broker) (e : Surroundings)
    → b.has_client ≡ false
    → e.connect_now < b.connect_begin
    → (tend_client b e).has_client ≡ false
unfolding tend_client
tend_client-before b e n early = ground arith

resend-client :
    (b : Broker) (now : ℕ) (accepted : Bool)
    → let c = (resend_self_poll b now accepted).0 in
      (c.has_client ≡ b.has_client) × (c.connect_begin ≡ b.connect_begin)
unfolding resend_self_poll
resend-client b now accepted = ground arith

clock_behind :
    (begin passed now : ℕ)
    → begin < 4294967296
    → 4294967296 ≤ begin + passed
    → passed < 4294967296
    → now ≡ add32 begin passed
    → now < begin
unfolding add32
clock_behind begin passed now small wrapped short clock = omega arith

-- `millis() >= connect_begin_` compares two readings as plain numbers: once the clock has wrapped
-- past a `connect_begin_` that lies before the wrap, no loop makes a publish client, however much
-- time has passed since, until the clock has come round to that number again.
pub no_client_after_wrap :
    (b : Broker) (e : Surroundings) (passed : ℕ)
    → b.broker_started ≡ true
    → b.broker_exited ≡ false
    → b.has_client ≡ false
    → b.connect_begin < 4294967296
    → 4294967296 ≤ b.connect_begin + passed
    → passed < 4294967296
    → e.connect_now ≡ add32 b.connect_begin passed
    → (run_broker b e).0.has_client ≡ false
no_client_after_wrap b e passed up there n small wrapped short clock =
    let c = (resend_self_poll b e.resend_now e.resend_accepted).0 in
    let k = resend-SameTask b e.resend_now e.resend_accepted in
    let l = resend-client b e.resend_now e.resend_accepted in
    let w : e.connect_now < b.connect_begin =
      clock_behind b.connect_begin passed e.connect_now small wrapped short clock in
    let x : c.broker_exited ≡ false = ground (arith, k) in
    let y = start_broker-client c e (ground (arith, k)) in
    let z = tend_client-before c e (ground (arith, l)) (ground (arith, l)) in
    unfold run_broker in rw (x, run_broker) (rw (y, run_broker) z)
