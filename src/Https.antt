-- ===== src/Https.antt =====
-- `MarstackHttps` of components/marstack/marstack_https.h and marstack_https.cpp: the TLS listener,
-- which reads a request off a connection, answers it and holds the connection before it closes it.
-- TLS and the sockets are libraries; what they return is an argument.
pub mod Requests
pub mod Connections
pub mod Bodies
pub mod Writing
pub mod Holding
pub mod HeldOpen
pub mod Ends
pub mod Head
pub mod Fields
pub mod Lookup
pub mod Printing
pub mod Whole
pub mod Uploads
pub mod Handoff
pub mod Tests
use marsrelay.Common.{
  ℕ, zero, suc, ◌+◌, Bool, true, false, not, ◌&&◌, ◌||◌, ltb, leb, ◌==◌, if◌then◌else◌, Option,
  none, some, List, [], ◌∷◌, ◌++◌, length, take, drop, codes, add32, sub32, before32,
}
use marsrelay.Marstack.Telemetry.{Json}
use marsrelay.Marstack.Framing.{Origin, build_raw_response}
use marsrelay.Marstack.{Marstack, Request, Response, Clock, dispatch, upload_answer}
use Requests.{Round, Reading, waiting, failed, done, expired, request_timeout_ms, read_request}

pub record HeldConnection : Type 0 where
  pub fd : ℕ
  pub close_at : ℕ

pub record Https : Type 0 where
  pub accept_all : Bool
  pub hold_time_ms : ℕ
  pub max_body : ℕ
  pub max_connections : ℕ
  pub held : List HeldConnection

-- What `esp_tls_conn_write` returns: WANT_READ or WANT_WRITE with the reading of `millis()` that
-- follows, an error, or how much it took.
pub data Written : Type 0 where
  want_io : ℕ → Written
  broken : Written
  took : ℕ → Written

pub data Sending : Type 0 where
  sending sent broken_off : Sending

-- `write_all_`: the bytes that went out, and how it ended; `sending` if more is to come.
unfoldable pub write_all : ℕ → List ℕ → ℕ → List Written → List ℕ × Sending
write_all deadline data_bytes at [] = ([], if ltb at (length data_bytes) then sending else sent)
write_all deadline data_bytes at (want_io now ∷ results) =
    let more = write_all deadline data_bytes at results in
    if ltb at (length data_bytes)
    then (if expired deadline now then ([], broken_off) else more)
    else ([], sent)
write_all deadline data_bytes at (broken ∷ results) =
    ([], if ltb at (length data_bytes) then broken_off else sent)
write_all deadline data_bytes at (took n ∷ results) =
    let (more, ending) = write_all deadline data_bytes (at + n) results in
    if ltb at (length data_bytes) then (take n (drop at data_bytes) ++ more, ending) else ([], sent)

-- What one connection meets: whether the session is made and the handshake succeeds, the readings of
-- `millis()`, the rounds of the two loops, and what `dispatch` and `build_raw_response` take.
pub record Session : Type 0 where
  pub fd : ℕ
  pub peer : List ℕ
  pub tls_made : Bool
  pub handshake : Bool
  pub read_start : ℕ
  pub reads : List Round
  pub dispatch_now : ℕ
  pub clock : Clock
  pub origin : Origin
  pub write_start : ℕ
  pub writes : List Written
  pub hold_now : ℕ
  pub reap_now : ℕ

-- What becomes of the connection; `busy` while one of the loops waits on.
pub data Fate : Type 0 where
  busy closed answered : Fate

abbrev pub fate_of : Sending → Fate
fate_of sending = busy
fate_of sent = answered
fate_of broken_off = closed

-- The answer that `accept_all` puts in the place of a 404.
abbrev pub final_response : Https → Response → Response
final_response h res = if (res.code == 404) && h.accept_all then upload_answer else res

unfoldable pub serve_connection : Json → Https → Marstack → Session → Marstack × List ℕ × Fate
serve_connection json h m s =
    if not s.tls_made || not s.handshake
    then (m, [], closed)
    else elim (read_request h.max_body (add32 s.read_start request_timeout_ms) s.peer s.reads) [
      | waiting ↦ (m, [], busy)
      | failed ↦ (m, [], closed)
      | done req rest ↦
          let (m', res, effects) = dispatch json m req s.dispatch_now s.clock in
          let raw = build_raw_response (final_response h res) s.origin in
          let (bytes, ending) = write_all (add32 s.write_start request_timeout_ms) raw 0 s.writes in
          (m', bytes, fate_of ending)
    ]

-- `hold_or_close_`: the held connections, and which are closed.
unfoldable pub hold_or_close : Https → ℕ → ℕ → Https × List ℕ
hold_or_close h fd now = if h.hold_time_ms == 0 then (h, fd ∷ []) else (
  record h { held = h.held ++ (record { fd = fd; close_at = add32 now h.hold_time_ms }) ∷ [] },
  [],
)

-- The loop of `reap_held_`.
unfoldable pub reap : ℕ → List HeldConnection → List HeldConnection × List ℕ
reap now [] = ([], [])
reap now (c ∷ rest) =
    let (kept, ended) = reap now rest in
    if before32 now c.close_at then (c ∷ kept, ended) else (kept, c.fd ∷ ended)

unfoldable pub reap_held : Https → ℕ → Https × List ℕ
reap_held h now = let (kept, ended) = reap now h.held in (record h { held = kept }, ended)

abbrev pub front_fds : List HeldConnection → List ℕ
front_fds [] = []
front_fds (c ∷ rest) = c.fd ∷ []

-- The budget of `accept_connection_`: the oldest held connection is ended early.
unfoldable pub make_room : Https → Https × List ℕ
make_room h =
    if leb h.max_connections (length h.held)
    then (record h { held = drop 1 h.held }, front_fds h.held)
    else (h, [])

-- What `accept_connection_` did: the new state, the bytes sent, the connections that were closed, in
-- their order, and the one whose loop waits on.
pub record Accepted : Type 0 where
  pub https : Https
  pub marstack : Marstack
  pub bytes : List ℕ
  pub ended : List ℕ
  pub in_progress : List ℕ

unfoldable pub accept_connection : Json → Https → Marstack → Session → Accepted
accept_connection json h m s =
    let (h1, early) = make_room h in
    let (m', bytes, fate) = serve_connection json h1 m s in
    elim fate [
      | busy ↦ record {
        https = h1;
        marstack = m';
        bytes = bytes;
        ended = early;
        in_progress = s.fd ∷ [];
      }
      | closed ↦
          let (h2, reaped) = reap_held h1 s.reap_now in
          record {
            https = h2;
            marstack = m';
            bytes = bytes;
            ended = early ++ (s.fd ∷ reaped);
            in_progress = [];
          }
      | answered ↦
          let (h2, now_closed) = hold_or_close h1 s.fd s.hold_now in
          let (h3, reaped) = reap_held h2 s.reap_now in
          record {
            https = h3;
            marstack = m';
            bytes = bytes;
            ended = early ++ (now_closed ++ reaped);
            in_progress = [];
          }
    ]
