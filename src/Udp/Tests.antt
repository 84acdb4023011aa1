-- ===== src/Udp/Tests.antt =====
-- The theorems on the UDP proxy at a concrete proxy with one session, and runs of its handlers.
use marsrelay.Common.{
  add32, ℕ, ◌<◌, ◌≡◌, refl, true, false, List, [], ◌∷◌, map, none, some, sub32, arith,
}
use marsrelay.Diagnostics.{Ticker}
use marsrelay.Udp.Sessions.{find, send_to, touch}
use marsrelay.Udp.Lifecycle.{
  SocketLayer, IsValid, start, setup, retry_start, retry_start_recovers, retries, Attempt,
  retries_back_off,
}
use marsrelay.Udp.Forward.{request_routed, answer_fans_out, RequestSentOn}
use marsrelay.Udp.Addresses.{on_access_point}
use marsrelay.Udp.Expiry.{Cleaned, cleanup_exact}
use mathlib.Core.List.{Memᴰ}
use marsrelay.Udp.Freshness.{to, Timely}
use marsrelay.Udp.Rounds.{rounds, Round}
use marsrelay.Udp.Exchange.{request_answered}
use marsrelay.Udp.Loop.{Component, Surroundings, loop, stopped, started, run, init, run-IsValid}
use marsrelay.Udp.{
  UdpProxy, UdpSession, Config, Delivery, nothing, packet, session_key, process_requests,
  process_responses, cleanup, cleanup_expired_sessions, start_retry_min_ms,
}

-- 192.168.4.1 as it lies in memory, and the battery 192.168.4.2 beside it.
abbrev home_config : Config
home_config = record {
  port = 1010;
  session_timeout_ms = 30000;
  meter_on_ap = false;
  ap_ip = 17082560;
}

abbrev battery_ip : ℕ
battery_ip = 33859776

abbrev proxy : UdpProxy
proxy = record {
  config = home_config;
  is_active = true;
  has_listen_socket = true;
  has_forward_socket = true;
  sessions =
      (2219034283936, record { client_ip = 33859776; client_port = 4000; last_activity = 100 })
      ∷ [];
  last_cleanup = 0;
  last_start_attempt = 0;
  start_retry_delay_ms = 5000;
  packets_to_sta = 0;
  packets_to_ap = 4294967295;
  packets_dropped = 0;
  last_request = 100;
  last_response = 0;
  has_request = true;
  has_response = false;
}

proxy-IsValid : IsValid proxy
unfolding session_key
proxy-IsValid = ground arith

battery_side : on_access_point home_config battery_ip ≡ true
unfolding on_access_point
battery_side = refl

request_routed_example :
    RequestSentOn proxy battery_ip 4001
      (1 ∷ [])
      200
      201
      (process_requests proxy (packet battery_ip 4001 (1 ∷ [])) 200 201 true)
request_routed_example =
    (request_routed proxy proxy-IsValid refl battery_ip 4001 1 [] 200 201 true (omega arith)).0
      battery_side

abbrev all_sent : Delivery
all_sent k = some 300

answer_fans_out_example :
    let after = process_responses proxy (packet 5 1010 (7 ∷ [])) 300 all_sent in
    (after.1 ≡ map (send_to (7 ∷ [])) proxy.sessions)
    × (after.0.sessions ≡ map (touch all_sent) proxy.sessions)
    × (after.0.has_response ≡ true)
    × (after.0.last_response ≡ 300)
answer_fans_out_example = answer_fans_out proxy proxy-IsValid refl 5 1010 7 [] 300 all_sent refl

proxy-stamped :
    (x : UdpSession)
    → find proxy.sessions (session_key battery_ip 4000) ≡ some x
    → x.last_activity < 4294967296
unfolding find session_key
proxy-stamped x e = ground arith

cleanup_exact_example :
    Cleaned 30000 40000
      (find proxy.sessions (session_key battery_ip 4000))
      (find (cleanup_expired_sessions proxy 40000).sessions (session_key battery_ip 4000))
cleanup_exact_example =
    cleanup_exact proxy 40000 battery_ip 4000 proxy-IsValid (omega arith) proxy-stamped

-- The session above has been idle for 39900 ms, so it is gone.
expired_gone : find (cleanup_expired_sessions proxy 40000).sessions 2219034283936 ≡ none
unfolding cleanup_expired_sessions cleanup find sub32
expired_gone = refl

abbrev ready : SocketLayer
ready = record {
  listen_made = true;
  listen_bound = true;
  forward_made = true;
  forward_bound = true;
}

abbrev unbound : SocketLayer
unbound = record {
  listen_made = true;
  listen_bound = false;
  forward_made = true;
  forward_bound = true;
}

abbrev down : UdpProxy
down = record proxy { is_active = false; has_listen_socket = false; has_forward_socket = false }

down-IsValid : IsValid down
unfolding session_key
down-IsValid = ground arith

retry_start_recovers_example :
    let q = retry_start down ready 60000 in
    (q.is_active ≡ true)
    × (q.has_listen_socket ≡ true)
    × (q.has_forward_socket ≡ true)
    × (q.start_retry_delay_ms ≡ start_retry_min_ms)
unfolding sub32
retry_start_recovers_example =
    retry_start_recovers down ready 60000 down-IsValid refl (omega arith, refl, refl, refl, refl)
      (omega arith)

abbrev two_failures : List Attempt
two_failures = record { net = unbound; now = 5000 } ∷ record { net = unbound; now = 15000 } ∷ []

retries_back_off_example : (retries down two_failures).start_retry_delay_ms ≡ 20000
unfolding sub32 retry_start start
retries_back_off_example =
    retries_back_off down two_failures (omega arith) (omega arith, refl, (omega arith, refl, tt))

abbrev ticker : Ticker
ticker = record { interval_ms = 60000; last_diagnostics = 0; started = false }

run-IsValid_example :
    IsValid
      (run
        (record {
          proxy = setup (init home_config) unbound 0;
          liveness_triggers = [];
          ticker = ticker;
          meter_timeout_ms = 300000;
        })
        (started ready ∷ stopped ∷ [])).proxy
run-IsValid_example =
    run-IsValid home_config unbound 0 [] ticker 300000 (started ready ∷ stopped ∷ [])

abbrev component : Component
component = record {
  proxy = proxy;
  liveness_triggers = [];
  ticker = ticker;
  meter_timeout_ms = 300000;
}

-- A round that brings a request of the battery's port 4001, and one that brings an answer.
abbrev asking : Surroundings
asking = record {
  now = 200;
  trigger_now = 200;
  retry_now = 200;
  report_now = 200;
  net = ready;
  request = packet battery_ip 4001 (1 ∷ []);
  request_now = 200;
  session_now = 201;
  request_sent = true;
  response = nothing;
  response_now = 201;
  delivery = λ k. none;
  cleanup_now = 203;
}

abbrev answering : Surroundings
answering = record asking {
  now = 20200;
  request = nothing;
  session_now = 20200;
  response = packet 5 1010 (7 ∷ []);
  response_now = 20200;
  delivery = λ k. some 20300;
  cleanup_now = 20400;
}

asking-Round : Round 200 0 3 asking
unfolding add32
asking-Round = record {
  later = omega arith;
  port_number = omega arith;
  asked = 1;
  session = refl;
  before = omega arith;
  answered = λ j t h. absurd cc;
  cleaned = refl;
}

delivered : Timely 200 answering.delivery 20200
unfolding add32
delivered j t h = (20100, cc, omega arith)

answering-Round : Round 200 3 20200 answering
unfolding add32
answering-Round = record {
  later = omega arith;
  port_number = tt;
  asked = 20000;
  session = refl;
  before = omega arith;
  answered = delivered;
  cleaned = refl;
}

request_answered_example :
    Memᴰ (to battery_ip 4001 (7 ∷ [])) (loop (rounds component (asking ∷ [])) answering).1.sends
request_answered_example =
    request_answered battery_ip 4001 200 home_config (omega arith) (omega arith) component asking []
      answering 0 1 [] 5 1010 7 [] proxy-IsValid refl refl refl battery_side
      (3, asking-Round, omega arith, (20200, answering-Round, omega arith, tt)) refl refl
