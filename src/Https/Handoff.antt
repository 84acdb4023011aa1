-- ===== src/Https/Handoff.antt =====
-- The TLS task and the main loop of components/marstack/marstack_https.cpp: `setup`, `loop`,
-- `start_listener_`, `task_loop_`, and the two queues of `serve_connection_`. FreeRTOS schedules the
-- two in any order; its queues block as its documentation says.
pub mod Phases
pub mod Invariant
pub mod MainSteps
pub mod TaskSteps
pub mod Safety
pub mod Progress
pub mod Tests
use marsrelay.Common.{
  ℕ, suc, ◌≡◌, Bool, true, false, not, ◌&&◌, ◌||◌, ◌==◌, if◌then◌else◌, Option, none, some, List,
  [], ◌∷◌,
}
use marsrelay.Marstack.Telemetry.{Json}
use marsrelay.Marstack.{Marstack, Request, Response, Clock, dispatch}

-- What the TLS task is doing: it has not been created, has no listening socket yet, waits in `select`,
-- is about to hand a request over, or waits for the response. The last two have the `Handoff` of
-- `serve_connection_` on the stack; the number is its address.
pub data Task : Type 0 where
  absent opening selecting : Task
  posting : ℕ → Request → Task
  blocked : ℕ → Request → Response → Task

-- What the main loop is doing: before `setup`, outside `loop`, at the test of its `while`, with a
-- handoff that it received, with one whose response it is about to send back, or astray behind a
-- pointer to a `Handoff` that is no longer there.
pub data Main : Type 0 where
  unset outside polling : Main
  received : ℕ → Main
  answering : ℕ → Main
  stray : Main

pub record Exchange : Type 0 where
  pub request : Request
  pub response : Response

-- The state of both. The last three fields are a record of what happened: the requests that were
-- read, the dispatches of the main loop, and what the connections were given, the last one first.
pub record Shared : Type 0 where
  pub failed : Bool
  pub start_requested : Bool
  pub listen_fd : Option ℕ
  pub task : Task
  pub main : Main
  pub request_queue : Option ℕ
  pub response_queue : Option ℕ
  pub marstack : Marstack
  pub next_address : ℕ
  pub accepted : List Request
  pub dispatched : List Exchange
  pub answers : List Exchange

-- `setup`, with what the two `xQueueCreate` give.
unfoldable pub setup : Bool → Bool → Shared → Shared
setup requests responses s =
    if not requests || not responses
    then record s { failed = true; main = outside }
    else record s { start_requested = true; main = outside }

abbrev pub is_absent : Task → Bool
is_absent absent = true
is_absent _ = false

-- `loop` up to its `while`, with what `xTaskCreate` gives.
unfoldable pub enter_loop : Bool → Shared → Shared
enter_loop created s =
    if s.start_requested && is_absent s.task
    then (if created
        then record s { start_requested = false; task = opening; main = polling }
        else record s { start_requested = false; failed = true; main = outside })
    else record s { main = polling }

-- The test of the `while`: what `xQueueReceive` finds in the queue.
abbrev pub polled : Option ℕ → Shared → Shared
polled none s = record s { main = outside }
polled (some p) s = record s { request_queue = none; main = received p }

unfoldable pub poll : Shared → Shared
poll s = polled s.request_queue s

-- The request behind a pointer to a `Handoff`, if it is still there.
unfoldable pub request_at : ℕ → Task → Option Request
request_at p (posting n req) = if p == n then some req else none
request_at p (blocked n req res) = if p == n then some req else none
request_at p _ = none

-- A response is written through such a pointer.
unfoldable pub put_response : ℕ → Response → Task → Task
put_response p res (blocked n req old) = if p == n then blocked n req res else blocked n req old
put_response p res absent = absent
put_response p res opening = opening
put_response p res selecting = selecting
put_response p res (posting n req) = posting n req

-- The call of `dispatch` in `loop`, for the request that the pointer `p` leads to.
abbrev pub dispatch_at : Option Request → Json → ℕ → Clock → ℕ → Shared → Shared
dispatch_at none json now clock p s = record s { main = stray }
dispatch_at (some req) json now clock p s =
    let (m, res, effects) = dispatch json s.marstack req now clock in
    record s {
      marstack = m;
      task = put_response p res s.task;
      main = answering p;
      dispatched = (record { request = req; response = res }) ∷ s.dispatched;
    }

unfoldable pub dispatch_handoff : Json → ℕ → Clock → ℕ → Shared → Shared
dispatch_handoff json now clock p s = dispatch_at (request_at p s.task) json now clock p s

-- What `socket`, `bind` and `listen` give.
pub record Opened : Type 0 where
  pub socket : Option ℕ
  pub bound : Bool
  pub listens : Bool

-- `start_listener_`: the socket that listens, and the one that it closed again.
unfoldable pub start_listener : Opened → Option ℕ × List ℕ
start_listener r = elim r.socket [
  | none ↦ (none, [])
  | some fd ↦
      if not r.bound
      then (none, fd ∷ [])
      else if not r.listens
      then (none, fd ∷ [])
      else (some fd, [])
]

-- A round of the first loop of `task_loop_`.
abbrev pub opened : Option ℕ → Shared → Shared
opened none s = s
opened (some fd) s = record s { listen_fd = some fd; task = selecting }

unfoldable pub try_listener : Opened → Shared → Shared
try_listener r s = opened (start_listener r).0 s

-- A round of the second: no connection, or one of which no request could be read, or a request.
unfoldable pub accept : Option Request → Shared → Shared
accept none s = s
accept (some req) s = record s {
  task = posting s.next_address req;
  next_address = suc s.next_address;
  accepted = req ∷ s.accepted;
}

-- The `Response` that `serve_connection_` declares.
abbrev pub unfilled : Response
unfilled = record {
  code = 404;
  content_type = [];
  body = [];
  kong_headers = false;
  content_length = false;
}

-- `xQueueSend` of the request.
unfoldable pub post : ℕ → Request → Shared → Shared
post n req s = record s { request_queue = some n; task = blocked n req unfilled }

-- `xQueueReceive` of the response, which the task then reads off its own stack.
unfoldable pub take_response : Request → Response → Shared → Shared
take_response req res s = record s {
  response_queue = none;
  task = selecting;
  answers = (record { request = req; response = res }) ∷ s.answers;
}

-- A step of one of the two, or of the web server, which dispatches requests of its own.
pub data Step (json : Json) (s : Shared) : Shared → Type 0 where
  setting_up :
      (requests responses : Bool) → s.main ≡ unset → Step json s (setup requests responses s)
  entering :
      (created : Bool) → s.main ≡ outside → s.failed ≡ false → Step json s (enter_loop created s)
  polls : s.main ≡ polling → Step json s (poll s)
  dispatches :
      (p now : ℕ) (clock : Clock)
      → s.main ≡ received p
      → Step json s (dispatch_handoff json now clock p s)
  replies :
      (p : ℕ)
      → s.main ≡ answering p
      → s.response_queue ≡ none
      → Step json s (record s { response_queue = some p; main = polling })
  opens : (r : Opened) → s.task ≡ opening → Step json s (try_listener r s)
  accepts : (req : Option Request) → s.task ≡ selecting → Step json s (accept req s)
  posts :
      (n : ℕ) (req : Request)
      → s.task ≡ posting n req
      → s.request_queue ≡ none
      → Step json s (post n req s)
  takes :
      (n p : ℕ) (req : Request) (res : Response)
      → s.task ≡ blocked n req res
      → s.response_queue ≡ some p
      → Step json s (take_response req res s)
  web :
      (req : Request) (now : ℕ) (clock : Clock)
      → Step json s (record s { marstack = (dispatch json s.marstack req now clock).0 })

abbrev pub initial : Marstack → Shared
initial m = record {
  failed = false;
  start_requested = false;
  listen_fd = none;
  task = absent;
  main = unset;
  request_queue = none;
  response_queue = none;
  marstack = m;
  next_address = 0;
  accepted = [];
  dispatched = [];
  answers = [];
}

pub data Reach (json : Json) : Shared → Type 0 where
  first : (m : Marstack) → Reach json (initial m)
  later : {s t : Shared} → Reach json s → Step json s t → Reach json t
