-- ===== src/Https/Uploads.antt =====
-- An upload over TLS, from the bytes of its request to the answer that the battery reads.
use marsrelay.Common.{
  subst, sym, ◌≢◌, leb, before32, before32_ahead, Bool-cases, inl, inr, ℕ, ◌≤◌, ◌<◌, ◌≡◌, ◌∙◌, ap,
  refl, true, add32, some, List, [], length, All,
}
use marsrelay.Marstack.Paths.{http_post, method_name}
use marsrelay.Marstack.Paths.Upload.{IsUploadOf}
use marsrelay.Marstack.Telemetry.{Json}
use marsrelay.Marstack.Uploads.{upload_acknowledged}
use marsrelay.Marstack.Framing.{build_raw_response}
use marsrelay.Marstack.Framing.Reader.{read_response}
use marsrelay.Marstack.Framing.Lines.{head_lines}
use marsrelay.Marstack.Framing.Framed.{read_response-upload_answer}
use marsrelay.Marstack.{Marstack, Request, Response, dispatch, upload_answer}
use marsrelay.Https.Requests.{Round, done, read_request, request_timeout_ms}
use marsrelay.Https.Bodies.{arrived, IsGood}
use marsrelay.Https.Printing.{RequestText, IsRequest, print_request}
use marsrelay.Https.Whole.{as_read, read_request-print_request}
use marsrelay.Https.Writing.{IsGoodWrite, takes, write_all-whole}
use marsrelay.Https.Holding.{Holds, reap-Holds, new-Holds}
use marsrelay.Https.{
  HeldConnection, make_room, hold_or_close, reap_held, accept_connection, Https, Session, answered,
  sent, write_all, serve_connection, final_response,
}

abbrev pub read_deadline : Session → ℕ
read_deadline s = add32 s.read_start request_timeout_ms

abbrev pub write_deadline : Session → ℕ
write_deadline s = add32 s.write_start request_timeout_ms

module _ (json : Json) (h : Https) (m : Marstack) (s : Session) where
  serve-done :
      (req : Request) (rest : List Round) (res : Response)
      → s.tls_made ≡ true
      → s.handshake ≡ true
      → read_request h.max_body (read_deadline s) s.peer s.reads ≡ done req rest
      → final_response h (dispatch json m req s.dispatch_now s.clock).1 ≡ res
      → write_all (write_deadline s) (build_raw_response res s.origin) 0 s.writes
        ≡ (build_raw_response res s.origin, sent)
      → serve_connection json h m s ≡ (
        (dispatch json m req s.dispatch_now s.clock).0,
        build_raw_response res s.origin,
        answered,
      )
  unfolding serve_connection
  serve-done req rest res t k e f w = rw (serve_connection, t) (rw k (rw e (rw f (rw w refl))))

-- What the battery is to find when it has sent an upload: the connection is answered, the upload is
-- counted, and the bytes that came back are read as the acknowledgement, with nothing behind it.
pub record Acknowledged (json : Json) (h : Https) (m : Marstack) (s : Session) : Type 0 where
  pub fate : (serve_connection json h m s).2 ≡ answered
  pub counted : (serve_connection json h m s).0.venus_upload_count ≡ add32 m.venus_upload_count 1
  pub reply :
      read_response (serve_connection json h m s).1
      ≡ some (head_lines upload_answer s.origin, upload_answer.body, [])

-- The part of `serve_connection`.
pub upload-Acknowledged :
    (json : Json) (h : Https) (m : Marstack) (s : Session) (r : RequestText) (id : List ℕ)
    → s.tls_made ≡ true
    → s.handshake ≡ true
    → IsRequest r
    → r.method ≡ method_name http_post
    → IsUploadOf id r.path
    → All (IsGood (read_deadline s)) s.reads
    → arrived s.reads ≡ print_request r
    → All (IsGoodWrite (write_deadline s)) s.writes
    → length (build_raw_response upload_answer s.origin) ≤ takes s.writes
    → Acknowledged json h m s
upload-Acknowledged json h m s r id t k i p u a e w n =
    let (rest, d) =
      read_request-print_request h.max_body (read_deadline s) s.peer r s.reads i a e in
    let req = as_read h.max_body s.peer r in
    let (c, counted, told) = upload_acknowledged json m req s.dispatch_now s.clock id p u in
    let raw = build_raw_response upload_answer s.origin in
    let v =
      serve-done json h m s req rest upload_answer t k d (ap (final_response h) c)
        (write_all-whole (write_deadline s) raw s.writes w n) in
    record {
      fate = ap (λ x. x.2) v;
      counted = ap (λ x. x.0.venus_upload_count) v ∙ counted;
      reply = ap (λ x. read_response x.1) v ∙ read_response-upload_answer s.origin;
    }

-- What is left when the task has accepted a connection with an upload.
pub record Uploaded (json : Json) (h : Https) (m : Marstack) (s : Session) : Type 0 where
  pub reply :
      read_response (accept_connection json h m s).bytes
      ≡ some (head_lines upload_answer s.origin, upload_answer.body, [])
  pub counted :
      (accept_connection json h m s).marstack.venus_upload_count ≡ add32 m.venus_upload_count 1
  pub held :
      Holds
        (record { fd = s.fd; close_at = add32 s.hold_now h.hold_time_ms })
        0
        (accept_connection json h m s).https.held

settings-make_room :
    (h : Https)
    → ((make_room h).0.max_body ≡ h.max_body) × ((make_room h).0.hold_time_ms ≡ h.hold_time_ms)
unfolding make_room
settings-make_room h = elim (Bool-cases (leb h.max_connections (length h.held))) [
  | inl e ↦ rw e (refl, refl)
  | inr e ↦ rw e (refl, refl)
]

module _ (json : Json) (h : Https) (m : Marstack) (s : Session) where
  accept-Uploaded :
      Acknowledged json (make_room h).0 m s
      → h.hold_time_ms ≢ 0
      → before32 s.reap_now (add32 s.hold_now h.hold_time_ms) ≡ true
      → Uploaded json h m s
  unfolding accept_connection reap_held
  accept-Uploaded a z e =
      let h1 = (make_room h).0 in
      let h2 = (hold_or_close h1 s.fd s.hold_now).0 in
      let k = (settings-make_room h).1 in
      let f = a.fate in
      let c : HeldConnection = record { fd = s.fd; close_at = add32 s.hold_now h.hold_time_ms } in
      let v : Holds c 0 h2.held =
        subst (λ x. Holds (record { fd = s.fd; close_at = add32 s.hold_now x }) 0 h2.held) k
          (new-Holds h1 s.fd s.hold_now (λ q. z (sym k ∙ q))) in
      record {
        reply = rw (accept_connection, f) a.reply;
        counted = rw (accept_connection, f) a.counted;
        held = rw (accept_connection, f) (reap-Holds c 0 s.reap_now h2.held e v);
      }

-- An upload over a TLS session that stands is acknowledged: if the well-formed POST arrives in time,
-- in whatever portions, with nothing behind it, and the writes go through in time, in whatever
-- portions, then a client that reads the bytes that were sent finds the acknowledgement with the
-- gateway's headers and nothing behind it, whether the body was kept whole or cut at the limit; the
-- upload is counted; and the connection is still held afterwards, to be closed when its hold time is
-- over, if that is neither 0 nor 2^31 ms or more and the sweep on the way out comes before its end.
pub accept_connection-Uploaded :
    (json : Json) (h : Https) (m : Marstack) (s : Session) (r : RequestText) (id : List ℕ) (e : ℕ)
    → s.tls_made ≡ true
    → s.handshake ≡ true
    → IsRequest r
    → r.method ≡ method_name http_post
    → IsUploadOf id r.path
    → All (IsGood (read_deadline s)) s.reads
    → arrived s.reads ≡ print_request r
    → All (IsGoodWrite (write_deadline s)) s.writes
    → length (build_raw_response upload_answer s.origin) ≤ takes s.writes
    → h.hold_time_ms ≢ 0
    → h.hold_time_ms < 2147483648
    → s.reap_now ≡ add32 s.hold_now e
    → e < h.hold_time_ms
    → Uploaded json h m s
accept_connection-Uploaded json h m s r id e t k i p u a q w n z f c l =
    accept-Uploaded json h m s (upload-Acknowledged json (make_room h).0 m s r id t k i p u a q w n)
      z
      (ap (λ x. before32 x (add32 s.hold_now h.hold_time_ms)) c
        ∙ before32_ahead s.hold_now e h.hold_time_ms l f)
