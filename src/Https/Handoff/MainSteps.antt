-- ===== src/Https/Handoff/MainSteps.antt =====
-- The steps of the main loop keep what holds.
use marsrelay.Common.{
  ℕ, ◌≡◌, ◌∙◌, ap, sym, subst, refl, Bool, true, false, not, ◌&&◌, ◌||◌, if◌then◌else◌, Option,
  none, some, ◌∷◌, ◌++◌, inl, inr, Bool-cases,
}
use marsrelay.Marstack.Telemetry.{Json}
use marsrelay.Marstack.{Request, Response, Clock, dispatch}
use marsrelay.Https.Handoff.{
  is_absent, Task, absent, opening, blocked, unset, outside, polling, received, answering, Shared,
  setup, enter_loop, poll, polled, dispatch_at, request_at, put_response, dispatch_handoff,
}
use marsrelay.Https.Handoff.Phases.{
  exchange, frame, Calm, Filled, Calm-Taken, Filled-Calm, Taken-blocked,
}
use marsrelay.Https.Handoff.Invariant.{
  Alive, pending, requests, Inv, unset_absent, is_absent-absent, Alive-absent, Alive-next,
  request_at-blocked, put_response-blocked, Phase-at,
}

module _ (json : Json) (s : Shared) (h : Inv json s) where
  polled-Inv : (q : Option ℕ) → s.request_queue ≡ q → s.main ≡ polling → Inv json (polled q s)
  polled-Inv none q e = record {
    phase = Phase-at json s h polling e;
    alive = Alive-next s.failed s.main outside s.task (λ x. cc) h.alive;
    read = h.read;
    results = h.results;
  }
  polled-Inv (some p) q e = record {
    phase = Calm-Taken p s.response_queue s.dispatched s.answers (frame s.task) (
        subst (λ x. Calm x s.response_queue s.dispatched s.answers (frame s.task)) q
          (Phase-at json s h polling e));
    alive = Alive-next s.failed s.main (received p) s.task (λ x. cc) h.alive;
    read = h.read;
    results = h.results;
  }

  pub poll-Inv : s.main ≡ polling → Inv json (poll s)
  unfolding poll
  poll-Inv e = polled-Inv s.request_queue refl e

  pub setup-Inv : (a b : Bool) → s.main ≡ unset → Inv json (setup a b s)
  unfolding setup
  setup-Inv a b e =
      let t = unset_absent s.failed s.task (subst (λ x. Alive s.failed x s.task) e h.alive) in
      elim (Bool-cases (not a || not b)) [
        | inl c ↦ rw c (record {
          phase = Phase-at json s h unset e;
          alive = Alive-absent true outside s.task t;
          read = h.read;
          results = h.results;
        })
        | inr c ↦ rw c (record {
          phase = Phase-at json s h unset e;
          alive = Alive-absent s.failed outside s.task t;
          read = h.read;
          results = h.results;
        })
      ]

  entered :
      (created : Bool)
      → s.main ≡ outside
      → s.failed ≡ false
      → s.task ≡ absent
      → Inv json (
          if created
          then record s { start_requested = false; task = opening; main = polling }
          else record s { start_requested = false; failed = true; main = outside })
  entered true e f t = record {
    phase =
        subst (λ x. Calm s.request_queue s.response_queue s.dispatched s.answers (frame x)) t
          (Phase-at json s h outside e);
    alive = (f, λ x. cc);
    read = subst (λ x. s.accepted ≡ pending x ++ requests s.answers) t h.read;
    results = h.results;
  }
  entered false e f t = record {
    phase = Phase-at json s h outside e;
    alive = Alive-absent true outside s.task t;
    read = h.read;
    results = h.results;
  }

  pub enter_loop-Inv :
      (created : Bool) → s.main ≡ outside → s.failed ≡ false → Inv json (enter_loop created s)
  unfolding enter_loop
  enter_loop-Inv created e f = elim (Bool-cases (s.start_requested && is_absent s.task)) [
    | inl c ↦ rw c (entered created e f (is_absent-absent s.start_requested s.task c))
    | inr c ↦ rw c (record {
      phase = Phase-at json s h outside e;
      alive = Alive-next s.failed s.main polling s.task (λ x. cc) h.alive;
      read = h.read;
      results = h.results;
    })
  ]

  dispatch_at-Inv :
      (p now : ℕ) (clock : Clock) (n : ℕ) (req : Request) (old : Response)
      → s.task ≡ blocked n req old
      → p ≡ n
      → s.request_queue ≡ none
      → s.response_queue ≡ none
      → s.dispatched ≡ s.answers
      → s.main ≡ received p
      → Inv json (dispatch_at (some req) json now clock p s)
  dispatch_at-Inv p now clock n req old t k q r d e =
      let res = (dispatch json s.marstack req now clock).1 in
      let Read = λ (x : Task). s.accepted ≡ pending x ++ requests s.answers in
      let t' : put_response p res s.task ≡ blocked n req res =
        ap (λ x. put_response x res s.task) k
        ∙ ap (put_response n res) t
        ∙ put_response-blocked n req old res in
      record {
        phase =
            subst
              (λ x.
                Filled s.request_queue s.response_queue (exchange req res ∷ s.dispatched) s.answers
                  p (frame x))
              (sym t') (k, q, r, ap (λ x. exchange req res ∷ x) d);
        alive = subst (Alive s.failed (answering p)) (sym t') (
            Alive-next s.failed s.main (answering p) (blocked n req res) (λ x. cc)
              (subst (Alive s.failed s.main) t h.alive));
        read = subst Read (sym t') (subst Read t h.read);
        results = ((s.marstack, now, clock, refl), h.results);
      }

  pub dispatch_handoff-Inv :
      (p now : ℕ) (clock : Clock)
      → s.main ≡ received p
      → Inv json (dispatch_handoff json now clock p s)
  unfolding dispatch_handoff
  dispatch_handoff-Inv p now clock e =
      let (n, req, old, t, k, q, r, d) =
        Taken-blocked p s.request_queue s.response_queue s.dispatched s.answers s.task
          (Phase-at json s h (received p) e) in
      let at : request_at p s.task ≡ some req =
        ap (λ x. request_at x s.task) k ∙ ap (request_at n) t ∙ request_at-blocked n req old in
      subst (λ x. Inv json (dispatch_at x json now clock p s)) (sym at)
        (dispatch_at-Inv p now clock n req old t k q r d e)

  pub replies-Inv :
      (p : ℕ)
      → s.main ≡ answering p
      → s.response_queue ≡ none
      → Inv json (record s { response_queue = some p; main = polling })
  replies-Inv p e q = record {
    phase =
        Filled-Calm p s.request_queue s.response_queue s.dispatched s.answers (frame s.task)
          (Phase-at json s h (answering p) e);
    alive = Alive-next s.failed s.main polling s.task (λ x. cc) h.alive;
    read = h.read;
    results = h.results;
  }
