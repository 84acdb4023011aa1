-- ===== src/Udp/Loop.antt =====
-- `UdpProxy::loop` and `publish_diagnostics`, and the invariant over any sequence of events.
use marsrelay.Common.{
  ℕ, Bool, false, not, ltb, if◌then◌else◌, List, [], ◌∷◌, ◌++◌, Option, none, some, sub32, length,
  arith,
}
use marsrelay.Liveness.{Trigger, update_all, is_active}
use marsrelay.Diagnostics.{Ticker, tick, age}
use marsrelay.Udp.{
  UdpProxy, Config, Receive, Send, Delivery, process_requests, process_responses,
  cleanup_expired_sessions, start_retry_min_ms,
}
use marsrelay.Udp.Lifecycle.{
  SocketLayer, IsValid, retry_start, retry_start-IsValid, start, stop, setup, start-IsValid,
  stop-IsValid,
}
use marsrelay.Udp.Forward.{
  process_requests-IsValid, process_responses-IsValid, cleanup_expired_sessions-IsValid,
}

-- What `publish_diagnostics` hands to the entities; ages in milliseconds.
pub record Report : Type 0 where
  pub active : Bool
  pub meter_responding : Bool
  pub packets_to_sta : ℕ
  pub packets_to_ap : ℕ
  pub packets_dropped : ℕ
  pub sessions : ℕ
  pub request_age : Option ℕ
  pub response_age : Option ℕ

unfoldable pub publish_diagnostics : UdpProxy → ℕ → ℕ → Report
publish_diagnostics p meter_timeout_ms now = record {
  active = p.is_active;
  meter_responding = is_active meter_timeout_ms p.has_response p.last_response now;
  packets_to_sta = p.packets_to_sta;
  packets_to_ap = p.packets_to_ap;
  packets_dropped = p.packets_dropped;
  sessions = length p.sessions;
  request_age = age p.has_request p.last_request now;
  response_age = age p.has_response p.last_response now;
}

pub record Component : Type 0 where
  pub proxy : UdpProxy
  pub liveness_triggers : List Trigger
  pub ticker : Ticker
  pub meter_timeout_ms : ℕ

-- What one call of `loop` meets: the readings of `millis()` in the order of the code, the socket
-- layer, and what the two sockets give and accept.
pub record Surroundings : Type 0 where
  pub now : ℕ
  pub trigger_now : ℕ
  pub retry_now : ℕ
  pub report_now : ℕ
  pub net : SocketLayer
  pub request : Receive
  pub request_now : ℕ
  pub session_now : ℕ
  pub request_sent : Bool
  pub response : Receive
  pub response_now : ℕ
  pub delivery : Delivery
  pub cleanup_now : ℕ

-- What a loop does besides changing the component: the fires of the triggers, the report if one is
-- due, and the packets sent.
pub record Effects : Type 0 where
  pub fires : List Bool
  pub report : Option Report
  pub sends : List Send

-- The part of `loop` behind the check that the proxy is active.
unfoldable pub serve : UdpProxy → Surroundings → UdpProxy × List Send
serve p e =
    let (p1, forwarded) = process_requests p e.request e.request_now e.session_now e.request_sent in
    let (p2, answers) = process_responses p1 e.response e.response_now e.delivery in
    if ltb 5000 (sub32 e.now p2.last_cleanup)
    then (
      record (cleanup_expired_sessions p2 e.cleanup_now) { last_cleanup = e.now },
      forwarded ++ answers,
    )
    else (p2, forwarded ++ answers)

unfoldable pub loop : Component → Surroundings → Component × Effects
loop c e =
    let (triggers, fires) =
      update_all c.liveness_triggers c.proxy.has_response c.proxy.last_response e.trigger_now in
    let p = if not c.proxy.is_active then retry_start c.proxy e.net e.retry_now else c.proxy in
    let (ticker, publishes) = tick c.ticker e.now in
    let report =
      if publishes then some (publish_diagnostics p c.meter_timeout_ms e.report_now) else none in
    let c' = record c { proxy = p; liveness_triggers = triggers; ticker = ticker } in
    if not p.is_active
    then (c', record { fires = fires; report = report; sends = [] })
    else let (q, sends) = serve p e in
      (record c' { proxy = q }, record { fires = fires; report = report; sends = sends })

pub serve-IsValid : (p : UdpProxy) (e : Surroundings) → IsValid p → IsValid (serve p e).0
unfolding serve
serve-IsValid p e v =
    let p1 = (process_requests p e.request e.request_now e.session_now e.request_sent).0 in
    let v1 = process_requests-IsValid p e.request e.request_now e.session_now e.request_sent v in
    let p2 = (process_responses p1 e.response e.response_now e.delivery).0 in
    let v2 = process_responses-IsValid p1 e.response e.response_now e.delivery v1 in
    let v3 = cleanup_expired_sessions-IsValid p2 e.cleanup_now v2 in ground (arith, v2, v3)

-- What can happen to the proxy: a loop, or a call of its public operations.
pub data Event : Type 0 where
  looped : Surroundings → Event
  started : SocketLayer → Event
  stopped : Event

unfoldable pub step : Component → Event → Component
unfolding loop
step c (looped e) = (loop c e).0
step c (started net) = record c { proxy = start c.proxy net }
step c stopped = record c { proxy = stop c.proxy }

pub run : Component → List Event → Component
run c [] = c
run c (e ∷ rest) = run (step c e) rest

loop-IsValid : (c : Component) (e : Surroundings) → IsValid c.proxy → IsValid (loop c e).0.proxy
unfolding loop
loop-IsValid c e v =
    let w = retry_start-IsValid c.proxy e.net e.retry_now v in
    ground (
      arith,
      w,
      serve-IsValid c.proxy e v,
      serve-IsValid (retry_start c.proxy e.net e.retry_now) e w,
    )

step-IsValid : (c : Component) (e : Event) → IsValid c.proxy → IsValid (step c e).proxy
unfolding step
step-IsValid c (looped e) v = loop-IsValid c e v
step-IsValid c (started net) v = start-IsValid c.proxy net v
step-IsValid c stopped v = stop-IsValid c.proxy v

run-IsValid_from : (c : Component) (es : List Event) → IsValid c.proxy → IsValid (run c es).proxy
unfolding run
run-IsValid_from c [] v = v
run-IsValid_from c (e ∷ rest) v = run-IsValid_from (step c e) rest (step-IsValid c e v)

-- The proxy as it is constructed.
unfoldable pub init : Config → UdpProxy
init config = record {
  config = config;
  is_active = false;
  has_listen_socket = false;
  has_forward_socket = false;
  sessions = [];
  last_cleanup = 0;
  last_start_attempt = 0;
  start_retry_delay_ms = start_retry_min_ms;
  packets_to_sta = 0;
  packets_to_ap = 0;
  packets_dropped = 0;
  last_request = 0;
  last_response = 0;
  has_request = false;
  has_response = false;
}

setup-IsValid :
    (config : Config) (net : SocketLayer) (now : ℕ) → IsValid (setup (init config) net now)
unfolding setup init
setup-IsValid config net now = ground arith

-- From `setup` on, whatever the network does and in whatever order loops, starts and stops come:
-- the two sockets exist exactly while the proxy is active, the session map is sorted by the keys of
-- its own clients, and the retry delay stays between 5 and 60 seconds.
pub run-IsValid :
    (config : Config) (net : SocketLayer) (now : ℕ) (triggers : List Trigger) (ticker : Ticker)
    (timeout_ms : ℕ) (es : List Event)
    → IsValid
        (run
          (record {
            proxy = setup (init config) net now;
            liveness_triggers = triggers;
            ticker = ticker;
            meter_timeout_ms = timeout_ms;
          })
          es).proxy
run-IsValid config net now triggers ticker timeout_ms es =
    run-IsValid_from _ es (setup-IsValid config net now)
