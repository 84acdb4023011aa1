-- ===== src/Udp.antt =====
-- components/udp_proxy/udp_proxy.h and udp_proxy.cpp: the proxy between the batteries' and the
-- meter's networks. An address is the 32-bit number of `s_addr` in the byte order of the
-- ESP32, so its lowest byte is the first octet. Times are readings of the 32-bit `millis()`.
pub mod Sessions
pub mod Addresses
pub mod Expiry
pub mod Forward
pub mod Lifecycle
pub mod Loop
pub mod Freshness
pub mod Rounds
pub mod Exchange
pub mod Tests
use marsrelay.Common.{
  ℕ, ◌+◌, ◌*◌, ◌%◌, Bool, true, false, not, ◌&&◌, ◌||◌, ltb, ◌==◌, if◌then◌else◌, List, [], ◌∷◌,
  take, add32, sub32, Option, none, some,
}

-- START_RETRY_MIN_MS, START_RETRY_MAX_MS.
abbrev pub start_retry_min_ms : ℕ
start_retry_min_ms = 5000

abbrev pub start_retry_max_ms : ℕ
start_retry_max_ms = 60000

pub record UdpSession : Type 0 where
  pub client_ip : ℕ
  pub client_port : ℕ
  pub last_activity : ℕ

-- `std::map<uint64_t, UdpSession>`: the entries in the order of their keys.
abbrev pub SessionMap : Type 0
SessionMap = List (ℕ × UdpSession)

pub record Config : Type 0 where
  pub port : ℕ
  pub session_timeout_ms : ℕ
  pub meter_on_ap : Bool
  -- what `wifi_soft_ap_ip()` answers
  pub ap_ip : ℕ

pub record UdpProxy : Type 0 where
  pub config : Config
  pub open config use *
  pub is_active : Bool
  pub has_listen_socket : Bool
  pub has_forward_socket : Bool
  pub sessions : SessionMap
  pub last_cleanup : ℕ
  pub last_start_attempt : ℕ
  pub start_retry_delay_ms : ℕ
  pub packets_to_sta : ℕ
  pub packets_to_ap : ℕ
  pub packets_dropped : ℕ
  pub last_request : ℕ
  pub last_response : ℕ
  pub has_request : Bool
  pub has_response : Bool

-- `this->counter_++` on a uint32_t.
abbrev pub increment : ℕ → ℕ
increment n = add32 n 1

-- `(uint64_t(s_addr) << 16) | src_port`: the ports take 16 bits, so the parts do not overlap.
unfoldable pub session_key : ℕ → ℕ → ℕ
session_key ip port = ip * 65536 + port

-- `sessions_[key] = session` on the sorted entries.
unfoldable pub assign : SessionMap → ℕ → UdpSession → SessionMap
assign [] key session = (key, session) ∷ []
assign ((k, s) ∷ rest) key session =
    if ltb key k
    then (key, session) ∷ (k, s) ∷ rest
    else if key == k
    then (key, session) ∷ rest
    else (k, s) ∷ assign rest key session

-- The same /24 network: the mask keeps the first three octets, the low 24 bits.
unfoldable pub is_ap_network : Config → ℕ → Bool
is_ap_network c ip = c.ap_ip % 16777216 == ip % 16777216

-- INADDR_BROADCAST, or the access point's address with its last octet set to 255.
unfoldable pub request_destination : Config → ℕ
request_destination c =
    if not c.meter_on_ap then 4294967295 else c.ap_ip % 16777216 + 255 * 16777216

-- The size of `buffer_`, to which `recvfrom` cuts a packet.
abbrev pub buffer_size : ℕ
buffer_size = 1500

abbrev pub received : List ℕ → List ℕ
received bytes = take buffer_size bytes

-- What one poll of a socket gives: nothing (not ready, no descriptor, an error), or a packet with
-- its sender's address, port and bytes.
pub data Receive : Type 0 where
  nothing : Receive
  packet : ℕ → ℕ → List ℕ → Receive

-- A call of `sendto`.
pub record Send : Type 0 where
  pub ip : ℕ
  pub port : ℕ
  pub bytes : List ℕ

abbrev pub count_to_meter : UdpProxy → UdpProxy
count_to_meter p =
    if p.meter_on_ap
    then record p { packets_to_ap = increment p.packets_to_ap }
    else record p { packets_to_sta = increment p.packets_to_sta }

abbrev pub count_to_battery : UdpProxy → UdpProxy
count_to_battery p =
    if p.meter_on_ap
    then record p { packets_to_sta = increment p.packets_to_sta }
    else record p { packets_to_ap = increment p.packets_to_ap }

abbrev pub drop_packet : UdpProxy → UdpProxy
drop_packet p = record p { packets_dropped = increment p.packets_dropped }

abbrev pub bool_eq : Bool → Bool → Bool
bool_eq true b = b
bool_eq false b = not b

abbrev pub is_empty {ℓ} : {A : Type ℓ} → List A → Bool
is_empty [] = true
is_empty (x ∷ xs) = false

abbrev pub new_session : ℕ → ℕ → ℕ → UdpSession
new_session ip port now = record { client_ip = ip; client_port = port; last_activity = now }

-- `process_requests`: `now` and `later` are its two readings of `millis()`, `sent` says whether
-- the `sendto` to the meter's network succeeds.
unfoldable pub process_requests : UdpProxy → Receive → ℕ → ℕ → Bool → UdpProxy × List Send
process_requests p nothing now later sent = (p, [])
process_requests p (packet src_ip src_port bytes) now later sent =
    if not p.has_listen_socket || is_empty (received bytes)
    then (p, [])
    else if bool_eq (is_ap_network p.config src_ip) p.meter_on_ap
    then (drop_packet p, [])
    else let q = record p {
      last_request = now;
      has_request = true;
      sessions =
          assign p.sessions (session_key src_ip src_port) (new_session src_ip src_port later);
    } in
      if not p.has_forward_socket
      then (drop_packet q, [])
      else let send : Send = record {
        ip = request_destination p.config;
        port = p.port;
        bytes = received bytes;
      } in
        if sent then (count_to_meter q, send ∷ []) else (drop_packet q, send ∷ [])

-- What `sendto` to the client under a key does: `none` is a failure, `some t` a success with the
-- reading `t` of `millis()` that follows.
abbrev pub Delivery : Type 0
Delivery = ℕ → Option ℕ

-- The loop over the sessions: the counters, the sessions with their activity, and the sends.
unfoldable pub forward_each :
    UdpProxy → Delivery → List ℕ → SessionMap → UdpProxy × SessionMap × List Send
forward_each p delivery bytes [] = (p, [], [])
forward_each p delivery bytes ((k, s) ∷ rest) =
    let send : Send = record { ip = s.client_ip; port = s.client_port; bytes = bytes } in
    elim (delivery k) [
      | none ↦
          let (q, sessions, sends) = forward_each (drop_packet p) delivery bytes rest in
          (q, (k, s) ∷ sessions, send ∷ sends)
      | some t ↦
          let (q, sessions, sends) = forward_each (count_to_battery p) delivery bytes rest in
          (q, (k, record s { last_activity = t }) ∷ sessions, send ∷ sends)
    ]

unfoldable pub process_responses : UdpProxy → Receive → ℕ → Delivery → UdpProxy × List Send
process_responses p nothing now delivery = (p, [])
process_responses p (packet src_ip src_port bytes) now delivery =
    if not p.has_forward_socket || is_empty (received bytes)
    then (p, [])
    else if p.meter_on_ap && not (is_ap_network p.config src_ip)
    then (drop_packet p, [])
    else let q = record p { last_response = now; has_response = true } in
      if is_empty p.sessions
      then (drop_packet q, [])
      else if not p.has_listen_socket
      then (drop_packet q, [])
      else let (r, sessions, sends) = forward_each q delivery (received bytes) p.sessions in
        (record r { sessions = sessions }, sends)

-- `now - last_activity > session_timeout_ms_`.
abbrev pub is_expired : ℕ → ℕ → UdpSession → Bool
is_expired timeout_ms now s = ltb timeout_ms (sub32 now s.last_activity)

unfoldable pub cleanup : ℕ → ℕ → SessionMap → SessionMap
cleanup timeout_ms now [] = []
cleanup timeout_ms now ((k, s) ∷ rest) =
    let kept = cleanup timeout_ms now rest in
    if is_expired timeout_ms now s then kept else (k, s) ∷ kept

unfoldable pub cleanup_expired_sessions : UdpProxy → ℕ → UdpProxy
cleanup_expired_sessions p now = record p { sessions = cleanup p.session_timeout_ms now p.sessions }
