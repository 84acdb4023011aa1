-- ===== src/Diagnostics.antt =====
-- The tick that refreshes the diagnostic entities, the same in the `loop` of
-- components/udp_proxy/udp_proxy.cpp, components/mosquitto_broker/mosquitto_broker.cpp and
-- components/marstack/marstack.cpp.
use marsrelay.Common.{
  ℕ, ◌≡◌, Bool, true, false, not, ◌&&◌, ◌==◌, leb, if◌then◌else◌, sub32, Option, none, some, arith,
}

-- SCHEDULER_DONT_RUN, the interval `never`.
abbrev pub dont_run : ℕ
dont_run = 4294967295

pub record Ticker : Type 0 where
  pub interval_ms : ℕ
  pub last_diagnostics : ℕ
  pub started : Bool

-- The ticker after a loop, and whether `publish_diagnostics` is called in it.
unfoldable pub tick : Ticker → ℕ → Ticker × Bool
tick t now =
    if not (t.interval_ms == dont_run)
      && leb (if t.started then t.interval_ms else 5000) (sub32 now t.last_diagnostics)
    then (record t { last_diagnostics = now; started = true }, true)
    else (t, false)

-- The age of an event at `now` in milliseconds; `none` stands for the NAN before the first event.
abbrev pub age : Bool → ℕ → ℕ → Option ℕ
age seen last now = if seen then some (sub32 now last) else none

-- After a loop that published, a later loop publishes exactly if the interval has passed since,
-- across a wrap of the clock as well.
pub tick_again :
    (t : Ticker) (now later : ℕ)
    → (tick t now).1 ≡ true
    → (tick (tick t now).0 later).1 ≡ leb t.interval_ms (sub32 later now)
unfolding tick
tick_again t now later h = ground arith
