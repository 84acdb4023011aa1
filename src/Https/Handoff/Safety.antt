-- ===== src/Https/Handoff/Safety.antt =====
-- What the TLS task and the main loop rely on.
use marsrelay.Common.{ℕ, ◌≡◌, ◌≢◌, ◌∙◌, ap, Option, none, some, List}
use marsrelay.Marstack.Telemetry.{Json}
use marsrelay.Marstack.{Request}
use marsrelay.Https.Handoff.{
  posting, Main, unset, outside, polling, received, answering, stray, Exchange, Shared, request_at,
  Reach,
}
use marsrelay.Https.Handoff.Phases.{Frame, frame, Filled, Phase, Taken-blocked}
use marsrelay.Https.Handoff.Invariant.{request_at-blocked, Phase-at, task-Phase}
use marsrelay.Https.Handoff.TaskSteps.{Reach-Inv}

-- What the two threads rely on: the main loop never follows a pointer to a `Handoff` that has gone, a
-- pointer that it has received leads to the request of the connection that waits, and neither
-- `xQueueSend` waits for room.
pub record Safe (s : Shared) : Type 0 where
  pub no_stray : s.main ≢ stray
  pub found : (p : ℕ) → s.main ≡ received p → (req : Request) × (request_at p s.task ≡ some req)
  pub room_for_response : (p : ℕ) → s.main ≡ answering p → s.response_queue ≡ none
  pub room_for_request : (n : ℕ) (req : Request) → s.task ≡ posting n req → s.request_queue ≡ none

posting_room :
    (rq sq : Option ℕ) (d a : List Exchange) (m : Main) → Phase rq sq d a m none → rq ≡ none
posting_room rq sq d a unset h = h.0
posting_room rq sq d a outside h = h.0
posting_room rq sq d a polling h = h.0
posting_room rq sq d a (received p) h = absurd h
posting_room rq sq d a (answering p) h = absurd h
posting_room rq sq d a stray h = absurd h

answering_room :
    (p : ℕ) (rq sq : Option ℕ) (d a : List Exchange) (f : Option Frame)
    → Filled rq sq d a p f
    → sq ≡ none
answering_room p rq sq d a none h = absurd h
answering_room p rq sq d a (some f) h = h.2

-- Whenever the TLS task, the main loop and the web server run, and in whatever order, the main loop
-- never follows a pointer to a handoff that has gone: one that it has received leads to the request
-- of the connection that waits; and neither of the two ever waits for room in a queue.
pub Reach-Safe : (json : Json) (s : Shared) → Reach json s → Safe s
Reach-Safe json s reached =
    let h = Reach-Inv json s reached in
    record {
      no_stray = λ e. Phase-at json s h stray e;
      found = λ p e.
          let (n, req, old, t, k, q, r, d) =
            Taken-blocked p s.request_queue s.response_queue s.dispatched s.answers s.task
              (Phase-at json s h (received p) e) in
          (
            req,
            ap (λ x. request_at x s.task) k ∙ ap (request_at n) t ∙ request_at-blocked n req old,
          );
      room_for_response = λ p e.
          answering_room p s.request_queue s.response_queue s.dispatched s.answers (frame s.task)
            (Phase-at json s h (answering p) e);
      room_for_request = λ n req e.
          posting_room s.request_queue s.response_queue s.dispatched s.answers s.main
            (task-Phase json s h (posting n req) e);
    }
