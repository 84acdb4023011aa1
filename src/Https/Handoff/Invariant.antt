-- ===== src/Https/Handoff/Invariant.antt =====
-- What holds in every state that the TLS task and the main loop reach, in whatever order they run.
use marsrelay.Common.{
  ℕ, ◌≡◌, ◌≢◌, sym, subst, refl, Bool, true, false, ◌&&◌, some, List, [], ◌∷◌, ◌++◌, All, arith,
}
use marsrelay.Marstack.Telemetry.{Json}
use marsrelay.Marstack.{Marstack, Request, Response, Clock, dispatch}
use marsrelay.Https.Handoff.{
  is_absent, Task, absent, opening, selecting, posting, blocked, Main, unset, Exchange, Shared,
  request_at, put_response,
}
use marsrelay.Https.Handoff.Phases.{frame, Phase}

-- The task runs only behind a `setup` that did not fail.
abbrev pub Alive : Bool → Main → Task → Type 0
Alive failed main absent = Unit
Alive failed main _ = (failed ≡ false) × (main ≢ unset)

-- The request that was read and not answered yet.
abbrev pub pending : Task → List Request
pending (posting n req) = req ∷ []
pending (blocked n req res) = req ∷ []
pending _ = []

abbrev pub requests : List Exchange → List Request
requests [] = []
requests (e ∷ exchanges) = e.request ∷ requests exchanges

-- What `dispatch` gives for the request, in some state and at some time.
abbrev pub IsDispatch : Json → Exchange → Type 0
IsDispatch json e =
    (m : Marstack) × (now : ℕ) × (clock : Clock) × (e.response
      ≡ (dispatch json m e.request now clock).1)

abbrev PhaseOf : Shared → Type 0
PhaseOf s = Phase s.request_queue s.response_queue s.dispatched s.answers s.main (frame s.task)

pub record Inv (json : Json) (s : Shared) : Type 0 where
  pub phase : PhaseOf s
  pub alive : Alive s.failed s.main s.task
  pub read : s.accepted ≡ pending s.task ++ requests s.answers
  pub results : All (IsDispatch json) s.dispatched

pub unset_absent : (failed : Bool) (t : Task) → Alive failed unset t → t ≡ absent
unset_absent failed absent h = refl
unset_absent failed opening h = absurd (h.1 refl)
unset_absent failed selecting h = absurd (h.1 refl)
unset_absent failed (posting n req) h = absurd (h.1 refl)
unset_absent failed (blocked n req res) h = absurd (h.1 refl)

pub is_absent-absent : (b : Bool) (t : Task) → (b && is_absent t) ≡ true → t ≡ absent
is_absent-absent b absent h = refl
is_absent-absent b opening h = absurd (ground (arith, h))
is_absent-absent b selecting h = absurd (ground (arith, h))
is_absent-absent b (posting n req) h = absurd (ground (arith, h))
is_absent-absent b (blocked n req res) h = absurd (ground (arith, h))

pub Alive-absent : (failed : Bool) (main : Main) (t : Task) → t ≡ absent → Alive failed main t
Alive-absent failed main t e = subst (Alive failed main) (sym e) tt

pub request_at-blocked :
    (n : ℕ) (req : Request) (res : Response) → request_at n (blocked n req res) ≡ some req
unfolding request_at
request_at-blocked n req res = ground arith

pub put_response-blocked :
    (n : ℕ) (req : Request) (old res : Response)
    → put_response n res (blocked n req old) ≡ blocked n req res
unfolding put_response
put_response-blocked n req old res = ground arith

pub Alive-next :
    (failed : Bool) (main next : Main) (t : Task)
    → next ≢ unset
    → Alive failed main t
    → Alive failed next t
Alive-next failed main next absent n h = h
Alive-next failed main next opening n h = (h.0, n)
Alive-next failed main next selecting n h = (h.0, n)
Alive-next failed main next (posting k req) n h = (h.0, n)
Alive-next failed main next (blocked k req res) n h = (h.0, n)

module _ (json : Json) (s : Shared) (h : Inv json s) where
  pub Phase-at :
      (m : Main)
      → s.main ≡ m
      → Phase s.request_queue s.response_queue s.dispatched s.answers m (frame s.task)
  Phase-at m e =
      subst (λ x. Phase s.request_queue s.response_queue s.dispatched s.answers x (frame s.task)) e
        h.phase

  pub task-Phase :
      (t : Task)
      → s.task ≡ t
      → Phase s.request_queue s.response_queue s.dispatched s.answers s.main (frame t)
  task-Phase t e =
      subst (λ x. Phase s.request_queue s.response_queue s.dispatched s.answers s.main (frame x)) e
        h.phase

  pub task-Alive : (t : Task) → s.task ≡ t → Alive s.failed s.main t
  task-Alive t e = subst (Alive s.failed s.main) e h.alive

  pub task_read : (t : Task) → s.task ≡ t → s.accepted ≡ pending t ++ requests s.answers
  task_read t e = subst (λ x. s.accepted ≡ pending x ++ requests s.answers) e h.read
