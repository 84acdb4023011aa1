-- ===== src/Https/Handoff/TaskSteps.antt =====
-- The steps of the TLS task keep what holds, and so do all steps.
use marsrelay.Common.{ℕ, ◌≡◌, ap, refl, Option, none, some, ◌∷◌}
use marsrelay.Marstack.Telemetry.{Json}
use marsrelay.Marstack.{Request, Response}
use marsrelay.Https.Handoff.{
  opening, selecting, posting, blocked, Shared, opened, try_listener, start_listener, Opened,
  accept, post, take_response, Step, setting_up, entering, polls, dispatches, replies, opens,
  accepts, posts, takes, web, Reach, first, later,
}
use marsrelay.Https.Handoff.Phases.{posted, taken_back}
use marsrelay.Https.Handoff.Invariant.{Inv, task-Phase, task-Alive, task_read}
use marsrelay.Https.Handoff.MainSteps.{
  poll-Inv, setup-Inv, enter_loop-Inv, dispatch_handoff-Inv, replies-Inv,
}

module _ (json : Json) (s : Shared) (h : Inv json s) where
  opened-Inv : (fd : Option ℕ) → s.task ≡ opening → Inv json (opened fd s)
  opened-Inv none e = h
  opened-Inv (some fd) e = record {
    phase = task-Phase json s h opening e;
    alive = task-Alive json s h opening e;
    read = task_read json s h opening e;
    results = h.results;
  }

  try_listener-Inv : (r : Opened) → s.task ≡ opening → Inv json (try_listener r s)
  unfolding try_listener
  try_listener-Inv r e = opened-Inv (start_listener r).0 e

  accept-Inv : (req : Option Request) → s.task ≡ selecting → Inv json (accept req s)
  unfolding accept
  accept-Inv none e = h
  accept-Inv (some req) e = record {
    phase = task-Phase json s h selecting e;
    alive = task-Alive json s h selecting e;
    read = ap (λ x. req ∷ x) (task_read json s h selecting e);
    results = h.results;
  }

  post-Inv : (n : ℕ) (req : Request) → s.task ≡ posting n req → Inv json (post n req s)
  unfolding post
  post-Inv n req e = record {
    phase =
        posted n req s.request_queue s.response_queue s.dispatched s.answers s.main
          (task-Phase json s h (posting n req) e);
    alive = task-Alive json s h (posting n req) e;
    read = task_read json s h (posting n req) e;
    results = h.results;
  }

  take_response-Inv :
      (n p : ℕ) (req : Request) (res : Response)
      → s.task ≡ blocked n req res
      → s.response_queue ≡ some p
      → Inv json (take_response req res s)
  unfolding take_response
  take_response-Inv n p req res e q = record {
    phase =
        taken_back n p req res s.request_queue s.response_queue s.dispatched s.answers s.main
          (task-Phase json s h (blocked n req res) e) q;
    alive = task-Alive json s h (blocked n req res) e;
    read = task_read json s h (blocked n req res) e;
    results = h.results;
  }

  step-Inv : (t : Shared) → Step json s t → Inv json t
  step-Inv t (setting_up a b e) = setup-Inv json s h a b e
  step-Inv t (entering created e f) = enter_loop-Inv json s h created e f
  step-Inv t (polls e) = poll-Inv json s h e
  step-Inv t (dispatches p now clock e) = dispatch_handoff-Inv json s h p now clock e
  step-Inv t (replies p e q) = replies-Inv json s h p e q
  step-Inv t (opens r e) = try_listener-Inv r e
  step-Inv t (accepts req e) = accept-Inv req e
  step-Inv t (posts n req e q) = post-Inv n req e
  step-Inv t (takes n p req res e q) = take_response-Inv n p req res e q
  step-Inv t (web req now clock) = record {
    phase = h.phase;
    alive = h.alive;
    read = h.read;
    results = h.results;
  }

pub Reach-Inv : (json : Json) (s : Shared) → Reach json s → Inv json s
Reach-Inv json s (first m) = record {
  phase = (refl, refl, refl);
  alive = tt;
  read = refl;
  results = tt;
}
Reach-Inv json t (later {s} r step) = step-Inv json s (Reach-Inv json s r) t step
