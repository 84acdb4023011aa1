-- ===== src/Liveness.antt =====
-- The liveness triggers: `MeterLivenessTrigger` of components/udp_proxy/udp_proxy.h, and the
-- `DeviceLivenessTrigger` of components/mosquitto_broker/mosquitto_broker.h and of
-- components/marstack/marstack.h, which have the same body.
pub mod Trace
pub mod Tests
use marsrelay.Common.{ℕ, Bool, true, false, ◌&&◌, not, ltb, if◌then◌else◌, sub32, List, [], ◌∷◌}

pub data State : Type 0 where
  waiting active timed_out : State

-- `timeout_ms_`, `fire_on_timeout_` and `state_`.
pub record Trigger : Type 0 where
  pub timeout_ms : ℕ
  pub fire_on_timeout : Bool
  pub state : State

-- `seen && millis() - last_ms < this->timeout_ms_`, for a reading `now` of `millis()`.
unfoldable pub is_active : ℕ → Bool → ℕ → ℕ → Bool
is_active timeout_ms seen last_ms now = seen && ltb (sub32 now last_ms) timeout_ms

-- The switch of `update`: the next state, and whether `trigger()` is called.
unfoldable pub step : Bool → State → Bool → State × Bool
step fire_on_timeout waiting now_active = if now_active then (active, false) else (waiting, false)
step fire_on_timeout active now_active =
    if now_active then (active, false) else (timed_out, fire_on_timeout)
step fire_on_timeout timed_out now_active =
    if now_active then (active, not fire_on_timeout) else (timed_out, false)

unfoldable pub update : Trigger → Bool → ℕ → ℕ → Trigger × Bool
unfolding is_active step
update t seen last_ms now =
    let (state, fired) = step t.fire_on_timeout t.state (is_active t.timeout_ms seen last_ms now) in
    (record t { state = state }, fired)

-- `for (auto *trigger : this->liveness_triggers_) trigger->update(seen, last_ms)`: the triggers
-- after the round, and for each whether it fired.
unfoldable pub update_all : List Trigger → Bool → ℕ → ℕ → List Trigger × List Bool
update_all [] seen last_ms now = ([], [])
update_all (t ∷ ts) seen last_ms now =
    let (t', fired) = update t seen last_ms now in
    let (rest, fires) = update_all ts seen last_ms now in (t' ∷ rest, fired ∷ fires)
