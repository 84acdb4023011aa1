-- ===== src/Marstack/Web.antt =====
-- The methods of `Marstack` that the web server and the main loop call: `handleBody`,
-- `handleRequest`, `loop` and `publish_diagnostics_` of components/marstack/marstack.cpp.
pub mod Bodies
pub mod Replies
pub mod Uploads
use marsrelay.Common.{
  ℕ, zero, suc, ◌+◌, ◌-◌, Bool, true, false, not, ◌&&◌, ltb, leb, ◌==◌, if◌then◌else◌, Option, none,
  some, List, [], ◌∷◌, ◌++◌, length, take, drop, codes, sub32,
}
use marsrelay.Liveness.{Trigger, update_all, is_active}
use marsrelay.Diagnostics.{Ticker, tick, age}
use marsrelay.Marstack.Paths.{HttpMethod, http_post, method_name, is_empty}
use marsrelay.Marstack.Telemetry.{Json}
use marsrelay.Marstack.Framing.{Origin, build_raw_response}
use marsrelay.Marstack.{Marstack, Request, Response, Clock, Effects, dispatch}

-- The object with the members that these methods use; a request of the web server is known by its
-- address, a number.
pub record Web : Type 0 where
  pub marstack : Marstack
  pub post_body_buffer : List ℕ
  pub current_post_request : Option ℕ
  pub raw_responses : Bool

pub record WebRequest : Type 0 where
  pub address : ℕ
  pub method : HttpMethod
  pub url : List ℕ
  pub plain_argument : List ℕ
  pub plain_parameter : Option (List ℕ)
  pub peer : Option (List ℕ)
  pub has_socket : Bool

unfoldable pub handle_body : Web → ℕ → List ℕ → ℕ → Web
handle_body w address bytes index =
    let c =
      if index == 0
      then record w { post_body_buffer = []; current_post_request = some address }
      else w in
    record c { post_body_buffer = c.post_body_buffer ++ bytes }

abbrev pub is_current : Option ℕ → ℕ → Bool
is_current none address = false
is_current (some current) address = address == current

abbrev pub or_empty : Option (List ℕ) → List ℕ
or_empty none = []
or_empty (some s) = s

abbrev pub is_post : HttpMethod → Bool
is_post http_post = true
is_post _ = false

-- The body that `handleRequest` finds.
unfoldable pub request_body : Web → WebRequest → Web × List ℕ
request_body w r =
    if not (is_post r.method)
    then (w, [])
    else if is_current w.current_post_request r.address && not (is_empty w.post_body_buffer)
    then (record w { post_body_buffer = []; current_post_request = none }, w.post_body_buffer)
    else if not (is_empty r.plain_argument)
    then (w, r.plain_argument)
    else (w, or_empty r.plain_parameter)

pub data Sending : Type 0 where
  finished failed waiting : Sending

-- The sending loop: what `httpd_socket_send` returns in each round, `none` for an error; the bytes
-- that went out, and how the loop ends. It waits on as long as no more rounds are given.
unfoldable pub send_raw : List ℕ → ℕ → List (Option ℕ) → List ℕ × Sending
send_raw raw sent [] = ([], if ltb sent (length raw) then waiting else finished)
send_raw raw sent (none ∷ results) = ([], if ltb sent (length raw) then failed else finished)
send_raw raw sent (some written ∷ results) =
    let (more, ending) = send_raw raw (sent + written) results in
    if ltb sent (length raw) then (take written (drop sent raw) ++ more, ending) else ([], finished)

-- What goes to the client: bytes on its socket, then perhaps a response of the web server's own.
pub record Reply : Type 0 where
  pub bytes : List ℕ
  pub framework : Option (ℕ × List ℕ × List ℕ)

abbrev pub by_framework : Response → ℕ × List ℕ × List ℕ
by_framework res = (res.code, res.content_type, res.body)

-- The end of `handleRequest`; the web server's part is what comes behind a raw response that failed.
unfoldable pub reply : Web → WebRequest → Response → Origin → List (Option ℕ) → Reply
reply w r res origin results =
    if res.code == 404
    then record { bytes = []; framework = some (404, codes "text/plain", codes "Not found") }
    else if w.raw_responses && r.has_socket
    then (let (bytes, ending) = send_raw (build_raw_response res origin) 0 results in
        record {
          bytes = bytes;
          framework = elim ending [ failed ↦ some (by_framework res) | _ ↦ none ];
        })
    else record { bytes = []; framework = some (by_framework res) }

unfoldable pub handle_request :
    Json → Web → WebRequest → ℕ → Clock → Origin → List (Option ℕ) → Web × Reply × Effects
handle_request json w r now clock origin results =
    let (c, body) = request_body w r in
    let req : Request = record {
      method = method_name r.method;
      url = r.url;
      body = body;
      source_ip = or_empty r.peer;
      body_complete = true;
    } in
    let (m, res, effects) = dispatch json c.marstack req now clock in
    (record c { marstack = m }, reply c r res origin results, effects)

-- What `publish_diagnostics_` hands to the entities; the age in milliseconds.
pub record Report : Type 0 where
  pub device_active : Bool
  pub requests : ℕ
  pub venus_uploads : ℕ
  pub request_age : Option ℕ

unfoldable pub publish_diagnostics : Marstack → ℕ → ℕ → Report
publish_diagnostics m timeout_ms now = record {
  device_active = is_active timeout_ms m.has_request m.last_request now;
  requests = m.request_count;
  venus_uploads = m.venus_upload_count;
  request_age = age m.has_request m.last_request now;
}

pub record Component : Type 0 where
  pub marstack : Marstack
  pub liveness_triggers : List Trigger
  pub ticker : Ticker
  pub device_active_timeout_ms : ℕ

-- `loop`: the new object, which triggers fire, and what is published; `now`, `trigger_now` and
-- `report_now` are the readings of `millis()`.
unfoldable pub loop : Component → ℕ → ℕ → ℕ → Component × List Bool × Option Report
loop c now trigger_now report_now =
    let m = c.marstack in
    let (triggers, fires) =
      update_all c.liveness_triggers m.has_request m.last_request trigger_now in
    let (ticker, publishes) = tick c.ticker now in
    (
      record c { liveness_triggers = triggers; ticker = ticker },
      fires,
      if publishes
          then some (publish_diagnostics m c.device_active_timeout_ms report_now)
          else none,
    )
