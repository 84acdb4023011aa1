-- ===== src/Udp/Forward.antt =====
-- What the two packet handlers do with a packet: where it goes, what is counted, and what the
-- session map says afterwards.
use marsrelay.Common.{
  ℕ, ◌<◌, ◌≡◌, refl, Bool, true, false, not, ◌&&◌, ◌==◌, if◌then◌else◌, List, [], ◌∷◌, map, some,
  add32, arith,
}
use marsrelay.Udp.{
  UdpProxy, SessionMap, Receive, nothing, packet, Send, Delivery, session_key, process_requests,
  process_responses, forward_each, cleanup_expired_sessions, drop_packet, count_to_battery,
  received, new_session,
}
use marsrelay.Udp.Addresses.{
  on_access_point, meter_network, is_ap_network-on_access_point, request_destination-meter_network,
  session_key-client,
}
use marsrelay.Udp.Sessions.{
  find, find-assign, assign-IsSortedFrom, assign-IsKeyed, cleanup-IsSortedFrom, cleanup-IsKeyed,
  touch, send_to, forward_each-map, touch-IsSortedFrom, touch-IsKeyed,
}
use marsrelay.Udp.Lifecycle.{IsValid}

-- All packets counted, whatever became of them; the counters wrap as uint32_t do.
abbrev pub total : UdpProxy → ℕ
total p = add32 (add32 p.packets_to_sta p.packets_to_ap) p.packets_dropped

-- Requests come from the side that the meter is not on.
abbrev pub from_batteries : UdpProxy → ℕ → Bool
from_batteries p ip =
    if p.meter_on_ap then not (on_access_point p.config ip) else on_access_point p.config ip

-- A meter on the access point answers from there; one at home may answer from anywhere.
abbrev pub from_meter : UdpProxy → ℕ → Bool
from_meter p ip = if p.meter_on_ap then on_access_point p.config ip else true

-- What follows a request at `now`: one packet to the meter's network, and the session of its sender
-- renewed; no other client's changes.
pub record RequestSentOn (p : UdpProxy) (ip port : ℕ) (bytes : List ℕ) (now later : ℕ)
    (after : UdpProxy × List Send) : Type 0 where
  pub once :
      after.1 ≡ record { ip = meter_network p.config; port = p.port; bytes = received bytes } ∷ []
  pub seen : after.0.has_request ≡ true
  pub stamped : after.0.last_request ≡ now
  pub session :
      (ip' port' : ℕ)
      → port' < 65536
      → find after.0.sessions (session_key ip' port') ≡ (
          if ip' == ip && port' == port
          then some (new_session ip port later)
          else find p.sessions (session_key ip' port'))

pub record RequestIgnored (p : UdpProxy) (after : UdpProxy × List Send) : Type 0 where
  pub unsent : after.1 ≡ []
  pub same_sessions : after.0.sessions ≡ p.sessions
  pub same_stamp : after.0.last_request ≡ p.last_request
  pub same_flag : after.0.has_request ≡ p.has_request

module _ (p : UdpProxy) (v : IsValid p) (up : p.is_active ≡ true) (ip port byte : ℕ)
    (bytes : List ℕ) (now later : ℕ) (sent : Bool) (word : port < 65536) where
  abbrev request : Receive
  request = packet ip port (byte ∷ bytes)

  abbrev after_request : UdpProxy × List Send
  after_request = process_requests p request now later sent

  keyed_session :
      from_batteries p ip ≡ true
      → (j : ℕ)
      → find after_request.0.sessions j
        ≡ (if session_key ip port == j then some (new_session ip port later) else find p.sessions j)
  unfolding process_requests
  keyed_session battery j = ground (
    arith,
    is_ap_network-on_access_point p.config ip,
    find-assign p.sessions (session_key ip port) j (new_session ip port later),
  )

  request_forwarded :
      from_batteries p ip ≡ true → RequestSentOn p ip port (byte ∷ bytes) now later after_request
  unfolding process_requests
  request_forwarded battery =
      let n = is_ap_network-on_access_point p.config ip in
      record {
        once = ground (arith, n, request_destination-meter_network p.config);
        seen = ground (arith, n);
        stamped = ground (arith, n);
        session = λ ip' port' small.
            rw
              (
                keyed_session battery (session_key ip' port'),
                session_key-client ip ip' port port' word small,
              )
              refl;
      }

  request_refused : from_batteries p ip ≡ false → RequestIgnored p after_request
  unfolding process_requests
  request_refused meter = ground (arith, is_ap_network-on_access_point p.config ip)

  -- At a proxy that is up, a packet from the batteries' side, that is from an address that
  -- shares its first three octets with the access point exactly if the meter is not there, is
  -- sent on once, its first 1500 bytes unchanged, at the proxy's own port: to the access
  -- point's address with 255 for its last octet if the meter is there, else to 255.255.255.255.
  -- Its sender gets a session with fresh activity, and the session of every other address and
  -- port stays as it is. A packet from the meter's side is neither sent on nor taken for a
  -- request, and changes no session.
  pub request_routed :
      (from_batteries p ip ≡ true → RequestSentOn p ip port (byte ∷ bytes) now later after_request)
      × (from_batteries p ip ≡ false → RequestIgnored p after_request)
  request_routed = (request_forwarded, request_refused)

  -- Whatever becomes of it, a packet is counted once, in one of the three counters.
  pub request_counted : total after_request.0 ≡ add32 (total p) 1
  unfolding process_requests add32
  request_counted = ground arith

-- Forwarding changes the counters and nothing else of the proxy.
pub forward_each-counters :
    (p : UdpProxy) (d : Delivery) (bytes : List ℕ) (m : SessionMap)
    → let q = (forward_each p d bytes m).0 in
      q ≡ record p {
        packets_to_sta = q.packets_to_sta;
        packets_to_ap = q.packets_to_ap;
        packets_dropped = q.packets_dropped;
      }
unfolding forward_each
forward_each-counters p d bytes [] = refl
forward_each-counters p d bytes ((k, x) ∷ rest) = ground (
  arith,
  forward_each-counters (drop_packet p) d bytes rest,
  forward_each-counters (count_to_battery p) d bytes rest,
)

module _ (p : UdpProxy) (v : IsValid p) (up : p.is_active ≡ true) (ip port byte : ℕ)
    (bytes : List ℕ) (now : ℕ) (d : Delivery) where
  abbrev answer : Receive
  answer = packet ip port (byte ∷ bytes)

  abbrev after_answer : UdpProxy × List Send
  after_answer = process_responses p answer now d

  -- An answer of the meter goes to every client with a session, in the order of the map,
  -- its first 1500 bytes unchanged, and keeps alive exactly the sessions whose client it reached.
  pub answer_fans_out :
      from_meter p ip ≡ true
      → (after_answer.1 ≡ map (send_to (received (byte ∷ bytes))) p.sessions)
        × (after_answer.0.sessions ≡ map (touch d) p.sessions)
        × (after_answer.0.has_response ≡ true)
        × (after_answer.0.last_response ≡ now)
  unfolding process_responses
  answer_fans_out meter =
      let q = record p { last_response = now; has_response = true } in
      let h = forward_each-map q d (received (byte ∷ bytes)) p.sessions in
      let k = forward_each-counters q d (received (byte ∷ bytes)) p.sessions in
      ground (arith, h, k, is_ap_network-on_access_point p.config ip)

pub process_requests-IsValid :
    (p : UdpProxy) (input : Receive) (now later : ℕ) (sent : Bool)
    → IsValid p
    → IsValid (process_requests p input now later sent).0
unfolding process_requests
process_requests-IsValid p nothing now later sent v = v
process_requests-IsValid p (packet ip port bytes) now later sent v = ground (
  arith,
  assign-IsSortedFrom p.sessions 0 (session_key ip port) (new_session ip port later),
  assign-IsKeyed p.sessions (new_session ip port later),
)

pub process_responses-IsValid :
    (p : UdpProxy) (input : Receive) (now : ℕ) (d : Delivery)
    → IsValid p
    → IsValid (process_responses p input now d).0
unfolding process_responses
process_responses-IsValid p nothing now d v = v
process_responses-IsValid p (packet ip port bytes) now d v =
    let q = record p { last_response = now; has_response = true } in
    ground (
      arith,
      forward_each-map q d (received bytes) p.sessions,
      forward_each-counters q d (received bytes) p.sessions,
      touch-IsSortedFrom d p.sessions 0,
      touch-IsKeyed d p.sessions,
    )

pub cleanup_expired_sessions-IsValid :
    (p : UdpProxy) (now : ℕ) → IsValid p → IsValid (cleanup_expired_sessions p now)
unfolding cleanup_expired_sessions
cleanup_expired_sessions-IsValid p now v = ground (
  arith,
  cleanup-IsSortedFrom p.session_timeout_ms now p.sessions 0 v.sorted,
  cleanup-IsKeyed p.session_timeout_ms now p.sessions v.keyed,
)
