-- ===== src/Liveness/Tests.antt =====
-- The theorems on the liveness triggers at a concrete sequence of rounds.
use marsrelay.Common.{◌≡◌, refl, true, false, List, [], ◌∷◌, sub32}
use marsrelay.Liveness.{waiting, update}
use marsrelay.Liveness.Trace.{Round, run, edges, observed, run-edges}

-- Silent, active, silent for longer than the timeout, and active again.
abbrev rounds : List Round
rounds =
    record { seen = false; last_ms = 0; now = 10 }
    ∷ record { seen = true; last_ms = 20; now = 30 }
    ∷ record { seen = true; last_ms = 20; now = 500 }
    ∷ record { seen = true; last_ms = 510; now = 520 }
    ∷ []

timeout_fires :
    run (record { timeout_ms = 100; fire_on_timeout = true; state = waiting }) rounds
    ≡ false ∷ false ∷ true ∷ false ∷ []
unfolding run update sub32
timeout_fires = refl

run-edges_example :
    run (record { timeout_ms = 100; fire_on_timeout = false; state = waiting }) rounds
    ≡ edges false false false (observed 100 rounds)
run-edges_example = run-edges 100 false rounds
