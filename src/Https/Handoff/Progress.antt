-- ===== src/Https/Handoff/Progress.antt =====
-- What each request is given, and that it is given it.
use marsrelay.Common.{
  ℕ, suc, ◌≤◌, ◌≡◌, ◌∙◌, ap, subst, refl, true, false, ◌&&◌, Option, none, some, List, ◌∷◌, ◌++◌,
  All, ◌⊎◌, inl, inr, arith,
}
use marsrelay.Marstack.Telemetry.{Json}
use marsrelay.Marstack.{Request, Response, Clock, dispatch}
use marsrelay.Https.Handoff.{
  is_absent, selecting, blocked, Main, unset, outside, polling, received, answering, stray,
  Exchange, Shared, enter_loop, poll, polled, dispatch_at, request_at, put_response,
  dispatch_handoff, take_response, Step, entering, polls, dispatches, replies, takes, Reach,
}
use marsrelay.Https.Handoff.Phases.{exchange, Frame, frame, OnItsWay, Calm, Taken, Filled, Phase}
use marsrelay.Https.Handoff.TaskSteps.{Reach-Inv}
use marsrelay.Https.Handoff.Invariant.{
  pending, requests, IsDispatch, Alive, request_at-blocked, put_response-blocked, task-Phase,
  task-Alive,
}

-- How the requests, the dispatches and the answers belong together.
pub record Exchanged (json : Json) (s : Shared) : Type 0 where
  pub read : s.accepted ≡ pending s.task ++ requests s.answers
  pub once :
      (s.dispatched ≡ s.answers)
      ⊎ ((f : Frame) × (frame s.task ≡ some f)
          × (s.dispatched ≡ exchange f.request f.response ∷ s.answers))
  pub results : All (IsDispatch json) s.dispatched

module _ (rq sq : Option ℕ) (d a : List Exchange) where
  abbrev Once : Option Frame → Type 0
  Once o = (d ≡ a) ⊎ ((f : Frame) × (o ≡ some f) × (d ≡ exchange f.request f.response ∷ a))

  Calm-Once : (o : Option Frame) → Calm rq sq d a o → Once o
  Calm-Once none h = inl h.2
  Calm-Once (some f) (inl h) = inl h.2
  Calm-Once (some f) (inr h) = inr (f, refl, h.2)

  Taken-Once : (p : ℕ) (o : Option Frame) → Taken rq sq d a p o → Once o
  Taken-Once p none h = absurd h
  Taken-Once p (some f) h = inl h.3

  Filled-Once : (p : ℕ) (o : Option Frame) → Filled rq sq d a p o → Once o
  Filled-Once p none h = absurd h
  Filled-Once p (some f) h = inr (f, refl, h.3)

  Phase-Once : (m : Main) (o : Option Frame) → Phase rq sq d a m o → Once o
  Phase-Once unset o h = Calm-Once o h
  Phase-Once outside o h = Calm-Once o h
  Phase-Once polling o h = Calm-Once o h
  Phase-Once (received p) o h = Taken-Once p o h
  Phase-Once (answering p) o h = Filled-Once p o h
  Phase-Once stray o h = absurd h

-- In whatever order the two threads and the web server run, each request that was read off a
-- connection is dispatched once and answered with the response of that dispatch: the requests that
-- were read are the answered ones, in their order, and the one whose connection still waits; and the
-- dispatches are the answers, and before them the one, if it has been made, for the connection that
-- waits, whose response it has by then.
pub Reach-Exchanged : (json : Json) (s : Shared) → Reach json s → Exchanged json s
Reach-Exchanged json s reached =
    let h = Reach-Inv json s reached in
    record {
      read = h.read;
      once =
          Phase-Once s.request_queue s.response_queue s.dispatched s.answers s.main (frame s.task)
            h.phase;
      results = h.results;
    }

-- Some steps of the two threads.
pub data Runs (json : Json) : ℕ → Shared → Shared → Type 0 where
  stop : {s : Shared} → Runs json 0 s s
  next : {k : ℕ} {s t u : Shared} → Step json s t → Runs json k t u → Runs json (suc k) s u

module _ (json : Json) (now : ℕ) (clock : Clock) (req : Request) (given : List Exchange) where
  -- The connection is answered within so many steps.
  abbrev pub AnsweredIn : ℕ → Shared → Type 0
  AnsweredIn bound s =
      (k : ℕ) × (t : Shared) × (res : Response) × (k ≤ bound)
      × Runs json k s t
      × (t.task ≡ selecting)
      × (t.answers ≡ exchange req res ∷ given)

  one_more :
      (bound : ℕ) (s t : Shared) → Step json s t → AnsweredIn bound t → AnsweredIn (suc bound) s
  one_more bound s t step (k, u, res, l, r, e, a) =
      (suc k, u, res, omega (arith, l), next step r, e, a)

  longer : (bound more : ℕ) (s : Shared) → bound ≤ more → AnsweredIn bound s → AnsweredIn more s
  longer bound more s b (k, u, res, l, r, e, a) = (k, u, res, omega (arith, l, b), r, e, a)

  module _ (n : ℕ) where
    from_response :
        (s : Shared) (p : ℕ) (res : Response)
        → s.task ≡ blocked n req res
        → s.answers ≡ given
        → s.response_queue ≡ some p
        → AnsweredIn 1 s
    unfolding take_response
    from_response s p res t a q = (
      1,
      take_response req res s,
      res,
      omega arith,
      next (takes n p req res t q) stop,
      refl,
      ap (λ x. exchange req res ∷ x) a,
    )

    from_answering :
        (s : Shared) (p : ℕ) (res : Response)
        → s.task ≡ blocked n req res
        → s.answers ≡ given
        → s.main ≡ answering p
        → s.response_queue ≡ none
        → AnsweredIn 2 s
    from_answering s p res t a m q =
        let u = record s { response_queue = some p; main = polling } in
        one_more 1 s u (replies p m q) (from_response u p res t a refl)

    from_received :
        (s : Shared) (old : Response)
        → s.task ≡ blocked n req old
        → s.answers ≡ given
        → s.main ≡ received n
        → s.response_queue ≡ none
        → AnsweredIn 3 s
    unfolding dispatch_handoff
    from_received s old t a m q =
        let u = dispatch_at (some req) json now clock n s in
        let at : request_at n s.task ≡ some req =
          ap (request_at n) t ∙ request_at-blocked n req old in
        let res = (dispatch json s.marstack req now clock).1 in
        let t' = ap (put_response n res) t ∙ put_response-blocked n req old res in
        let e : dispatch_handoff json now clock n s ≡ u =
          ap (λ x. dispatch_at x json now clock n s) at in
        one_more 2 s u (subst (Step json s) e (dispatches n now clock m))
          (from_answering u n res t' a refl q)

    from_polling :
        (s : Shared) (old : Response)
        → s.task ≡ blocked n req old
        → s.answers ≡ given
        → s.main ≡ polling
        → s.request_queue ≡ some n
        → s.response_queue ≡ none
        → AnsweredIn 4 s
    unfolding poll
    from_polling s old t a m r q =
        let u = polled (some n) s in
        let e : poll s ≡ u = ap (λ x. polled x s) r in
        one_more 3 s u (subst (Step json s) e (polls m)) (from_received u old t a refl q)

    enter_loop-blocked :
        (s : Shared) (old : Response)
        → s.task ≡ blocked n req old
        → enter_loop true s ≡ record s { main = polling }
    unfolding enter_loop
    enter_loop-blocked s old t =
        let e : (s.start_requested && is_absent s.task) ≡ false = ground (arith, ap is_absent t) in
        rw e refl

    from_outside :
        (s : Shared) (old : Response)
        → s.task ≡ blocked n req old
        → s.answers ≡ given
        → s.main ≡ outside
        → s.failed ≡ false
        → s.request_queue ≡ some n
        → s.response_queue ≡ none
        → AnsweredIn 5 s
    from_outside s old t a m f r q =
        let u = record s { main = polling } in
        one_more 4 s u (subst (Step json s) (enter_loop-blocked s old t) (entering true m f))
          (from_polling u old t a refl r q)

  module _ (n : ℕ) (old : Response) (s : Shared) (t : s.task ≡ blocked n req old)
      (a : s.answers ≡ given) where
    abbrev Way : Type 0
    Way = OnItsWay s.request_queue s.response_queue s.dispatched s.answers n req old

    calm_polling : s.main ≡ polling → Way → AnsweredIn 5 s
    calm_polling m (inl h) = longer 4 5 s (omega arith) (from_polling n s old t a m h.0 h.1)
    calm_polling m (inr h) = longer 1 5 s (omega arith) (from_response n s n old t a h.1)

    calm_outside : s.main ≡ outside → s.failed ≡ false → Way → AnsweredIn 5 s
    calm_outside m f (inl h) = from_outside n s old t a m f h.0 h.1
    calm_outside m f (inr h) = longer 1 5 s (omega arith) (from_response n s n old t a h.1)

    from_Phase :
        (m : Main)
        → s.main ≡ m
        → Phase s.request_queue s.response_queue s.dispatched s.answers m
            (frame (blocked n req old))
        → Alive s.failed m (blocked n req old)
        → AnsweredIn 5 s
    from_Phase unset m h l = absurd (l.1 refl)
    from_Phase outside m h l = calm_outside m l.0 h
    from_Phase polling m h l = calm_polling m h
    from_Phase (received p) m h l =
        longer 3 5 s (omega arith) (from_received n s old t a (m ∙ ap received h.0) h.2)
    from_Phase (answering p) m h l = longer 2 5 s (omega arith) (from_answering n s p old t a m h.2)
    from_Phase stray m h l = absurd h

-- A connection that waits for its response is never stuck: from whatever state has been reached, at
-- most five steps of the main loop and the TLS task answer it and bring the task back to `select`,
-- so waiting without a timeout is safe as long as both are scheduled.
pub blocked-AnsweredIn :
    (json : Json) (now : ℕ) (clock : Clock) (s : Shared) (n : ℕ) (req : Request) (old : Response)
    → Reach json s
    → s.task ≡ blocked n req old
    → AnsweredIn json now clock req s.answers 5 s
blocked-AnsweredIn json now clock s n req old reached t =
    let h = Reach-Inv json s reached in
    from_Phase json now clock req s.answers n old s t refl s.main refl
      (task-Phase json s h (blocked n req old) t) (task-Alive json s h (blocked n req old) t)
