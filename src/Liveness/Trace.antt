-- ===== src/Liveness/Trace.antt =====
-- When a trigger fires over a sequence of rounds, against a description by the activity alone.
use marsrelay.Common.{
  ℕ, Bool, true, false, ◌&&◌, ◌||◌, not, List, [], ◌∷◌, ◌≡◌, refl, arith, if◌then◌else◌, Bool-cases,
  inl, inr,
}
use marsrelay.Liveness.{State, waiting, active, timed_out, Trigger, is_active, step, update}

-- One round: `seen`, `last_ms` and the reading of `millis()`.
pub record Round : Type 0 where
  pub seen : Bool
  pub last_ms : ℕ
  pub now : ℕ

-- The fires of a trigger over the rounds, oldest first.
unfoldable pub run : Trigger → List Round → List Bool
run t [] = []
run t (r ∷ rs) = let (t', fired) = update t r.seen r.last_ms r.now in fired ∷ run t' rs

pub observed : ℕ → List Round → List Bool
observed timeout_ms [] = []
observed timeout_ms (r ∷ rs) = is_active timeout_ms r.seen r.last_ms r.now ∷ observed timeout_ms rs

-- What the comments promise, of the activity alone: with `was` for an active round just before and
-- `ever` for one at any time before, a timeout is a fall, and a recovery is a rise that is not the
-- first.
pub edges : Bool → Bool → Bool → List Bool → List Bool
edges on_timeout was ever [] = []
edges on_timeout was ever (a ∷ rest) =
    (if on_timeout then was && not a else ever && not was && a)
    ∷ edges on_timeout a (ever || a) rest

abbrev was_active : State → Bool
was_active waiting = false
was_active active = true
was_active timed_out = false

abbrev ever_active : State → Bool
ever_active waiting = false
ever_active active = true
ever_active timed_out = true

run-edges_from :
    (timeout_ms : ℕ) (on_timeout : Bool) (s : State) (rs : List Round)
    → run (record { timeout_ms = timeout_ms; fire_on_timeout = on_timeout; state = s }) rs
      ≡ edges on_timeout (was_active s) (ever_active s) (observed timeout_ms rs)
unfolding run observed edges update
run-edges_from timeout_ms on_timeout s [] = refl
run-edges_from timeout_ms on_timeout s (r ∷ rs) = ground (
  arith,
  run-edges_from timeout_ms on_timeout waiting rs,
  run-edges_from timeout_ms on_timeout active rs,
  run-edges_from timeout_ms on_timeout timed_out rs,
)

-- A trigger that starts in WAITING fires exactly at the falls of the activity if it is a timeout
-- trigger, and exactly at the rises that follow an earlier active round if it is a recovery
-- trigger: so no timeout before the first activity, and no recovery before a timeout.
pub run-edges :
    (timeout_ms : ℕ) (on_timeout : Bool) (rs : List Round)
    → run (record { timeout_ms = timeout_ms; fire_on_timeout = on_timeout; state = waiting }) rs
      ≡ edges on_timeout false false (observed timeout_ms rs)
run-edges timeout_ms on_timeout rs = run-edges_from timeout_ms on_timeout waiting rs

-- Fires of the two kinds in turn, a timeout first: `lost` says that a timeout is not yet recovered.
pub Alternates : Bool → List Bool → List Bool → Type 0
Alternates lost [] rs = Unit {0}
Alternates lost (o ∷ os) [] = Unit {0}
Alternates lost (o ∷ os) (r ∷ rs) =
    (o ≡ true → lost ≡ false)
    × (r ≡ true → lost ≡ true)
    × Alternates (if o then true else if r then false else lost) os rs

abbrev is_lost : State → Bool
is_lost waiting = false
is_lost active = false
is_lost timed_out = true

run-Alternates_from :
    (timeout_ms : ℕ) (s : State) (rs : List Round)
    → Alternates
        (is_lost s)
        (run (record { timeout_ms = timeout_ms; fire_on_timeout = true; state = s }) rs)
        (run (record { timeout_ms = timeout_ms; fire_on_timeout = false; state = s }) rs)
unfolding run update Alternates
run-Alternates_from timeout_ms s [] = tt
run-Alternates_from timeout_ms waiting (r ∷ rs) =
    elim (Bool-cases (is_active timeout_ms r.seen r.last_ms r.now)) [
      | inl e ↦ rw (e, step) ((λ h. cc), (λ h. cc), run-Alternates_from timeout_ms active rs)
      | inr e ↦ rw (e, step) ((λ h. cc), (λ h. cc), run-Alternates_from timeout_ms waiting rs)
    ]
run-Alternates_from timeout_ms active (r ∷ rs) =
    elim (Bool-cases (is_active timeout_ms r.seen r.last_ms r.now)) [
      | inl e ↦ rw (e, step) ((λ h. cc), (λ h. cc), run-Alternates_from timeout_ms active rs)
      | inr e ↦ rw (e, step) ((λ h. cc), (λ h. cc), run-Alternates_from timeout_ms timed_out rs)
    ]
run-Alternates_from timeout_ms timed_out (r ∷ rs) =
    elim (Bool-cases (is_active timeout_ms r.seen r.last_ms r.now)) [
      | inl e ↦ rw (e, step) ((λ h. cc), (λ h. cc), run-Alternates_from timeout_ms active rs)
      | inr e ↦ rw (e, step) ((λ h. cc), (λ h. cc), run-Alternates_from timeout_ms timed_out rs)
    ]

-- A timeout trigger and a recovery trigger with the same timeout, run over the same rounds, fire
-- in turn, the timeout first: never two timeouts without a recovery between them, never a recovery
-- that no timeout came before, and never both in one round.
pub run-Alternates :
    (timeout_ms : ℕ) (rs : List Round)
    → Alternates false
        (run (record { timeout_ms = timeout_ms; fire_on_timeout = true; state = waiting }) rs)
        (run (record { timeout_ms = timeout_ms; fire_on_timeout = false; state = waiting }) rs)
run-Alternates timeout_ms rs = run-Alternates_from timeout_ms waiting rs
