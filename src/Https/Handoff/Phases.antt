-- ===== src/Https/Handoff/Phases.antt =====
-- How far an exchange between the TLS task and the main loop has come.
use marsrelay.Common.{ℕ, ◌≡◌, ap, refl, Option, none, some, List, ◌∷◌, ◌⊎◌, inl, inr, arith}
use marsrelay.Marstack.{Request, Response}
use marsrelay.Https.Handoff.{
  Task, absent, opening, selecting, posting, blocked, Main, unset, outside, polling, received,
  answering, stray, Exchange, unfilled,
}

abbrev pub exchange : Request → Response → Exchange
exchange req res = record { request = req; response = res }

-- The `Handoff` of a task that waits for its response.
pub record Frame : Type 0 where
  pub address : ℕ
  pub request : Request
  pub response : Response

abbrev pub frame : Task → Option Frame
frame (blocked n req res) = some (record { address = n; request = req; response = res })
frame _ = none

module _ (rq sq : Option ℕ) (dispatched answers : List Exchange) where
  abbrev pub Quiet : Type 0
  Quiet = (rq ≡ none) × (sq ≡ none) × (dispatched ≡ answers)

  -- A request on its way to the main loop, or a response on its way back.
  abbrev pub OnItsWay : ℕ → Request → Response → Type 0
  OnItsWay n req res =
      ((rq ≡ some n) × (sq ≡ none) × (dispatched ≡ answers))
      ⊎ ((rq ≡ none) × (sq ≡ some n) × (dispatched ≡ exchange req res ∷ answers))

  abbrev pub Calm : Option Frame → Type 0
  Calm none = Quiet
  Calm (some f) = OnItsWay f.address f.request f.response

  -- The main loop has the handoff of the connection that waits.
  abbrev pub Taken : ℕ → Option Frame → Type 0
  Taken p none = ⊥
  Taken p (some f) = (p ≡ f.address) × (rq ≡ none) × (sq ≡ none) × (dispatched ≡ answers)

  -- It has written its response.
  abbrev pub Filled : ℕ → Option Frame → Type 0
  Filled p none = ⊥
  Filled p (some f) =
      (p ≡ f.address)
      × (rq ≡ none)
      × (sq ≡ none)
      × (dispatched ≡ exchange f.request f.response ∷ answers)

  abbrev pub Phase : Main → Option Frame → Type 0
  Phase (received p) f = Taken p f
  Phase (answering p) f = Filled p f
  Phase stray f = ⊥
  Phase _ f = Calm f

-- A request that lies in the queue is received by the main loop.
pub Calm-Taken :
    (p : ℕ) (sq : Option ℕ) (d a : List Exchange) (f : Option Frame)
    → Calm (some p) sq d a f
    → Taken none sq d a p f
Calm-Taken p sq d a none h = absurd cc
Calm-Taken p sq d a (some f) h = ground (arith, h)

-- The main loop sends the response.
pub Filled-Calm :
    (p : ℕ) (rq sq : Option ℕ) (d a : List Exchange) (f : Option Frame)
    → Filled rq sq d a p f
    → Calm rq (some p) d a f
Filled-Calm p rq sq d a none h = absurd h
Filled-Calm p rq sq d a (some f) h = inr (h.1, ap some h.0, h.3)

-- The main loop has a handoff only if the task is blocked.
pub Taken-blocked :
    (p : ℕ) (rq sq : Option ℕ) (d a : List Exchange) (t : Task)
    → Taken rq sq d a p (frame t)
    → (n : ℕ) × (req : Request) × (old : Response) × (t ≡ blocked n req old)
      × (p ≡ n)
      × (rq ≡ none)
      × (sq ≡ none)
      × (d ≡ a)
Taken-blocked p rq sq d a absent h = absurd h
Taken-blocked p rq sq d a opening h = absurd h
Taken-blocked p rq sq d a selecting h = absurd h
Taken-blocked p rq sq d a (posting n req) h = absurd h
Taken-blocked p rq sq d a (blocked n req old) h = (n, req, old, refl, h.0, h.1, h.2, h.3)

pub posted :
    (n : ℕ) (req : Request) (rq sq : Option ℕ) (d a : List Exchange) (m : Main)
    → Phase rq sq d a m none
    → Phase (some n) sq d a m (frame (blocked n req unfilled))
posted n req rq sq d a unset h = inl (refl, h.1, h.2)
posted n req rq sq d a outside h = inl (refl, h.1, h.2)
posted n req rq sq d a polling h = inl (refl, h.1, h.2)
posted n req rq sq d a (received p) h = absurd h
posted n req rq sq d a (answering p) h = absurd h
posted n req rq sq d a stray h = absurd h

sent_back :
    (n p : ℕ) (req : Request) (res : Response) (rq sq : Option ℕ) (d a : List Exchange)
    → OnItsWay rq sq d a n req res
    → sq ≡ some p
    → Quiet rq none d (exchange req res ∷ a)
sent_back n p req res rq sq d a (inl h) e = absurd cc
sent_back n p req res rq sq d a (inr h) e = (h.0, refl, h.2)

pub taken_back :
    (n p : ℕ) (req : Request) (res : Response) (rq sq : Option ℕ) (d a : List Exchange) (m : Main)
    → Phase rq sq d a m (frame (blocked n req res))
    → sq ≡ some p
    → Phase rq none d (exchange req res ∷ a) m none
taken_back n p req res rq sq d a unset h e = sent_back n p req res rq sq d a h e
taken_back n p req res rq sq d a outside h e = sent_back n p req res rq sq d a h e
taken_back n p req res rq sq d a polling h e = sent_back n p req res rq sq d a h e
taken_back n p req res rq sq d a (received k) h e = absurd cc
taken_back n p req res rq sq d a (answering k) h e = absurd cc
taken_back n p req res rq sq d a stray h e = absurd h
