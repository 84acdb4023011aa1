-- ===== src/Https/Connections.antt =====
-- Which connections are held, and that each is closed once.
use marsrelay.Common.{
  ℕ, suc, ◌+◌, ◌≤◌, ◌≡◌, ◌⊎◌, refl, leb, ◌==◌, if◌then◌else◌, List, [], ◌∷◌, ◌++◌, ◌-◌, length,
  drop, length-drop, length-append, add32, Bool-cases, inl, inr, arith,
}
use marsrelay.Marstack.Telemetry.{Json}
use marsrelay.Marstack.{Marstack}
use marsrelay.Https.{
  HeldConnection, Https, Session, Fate, busy, closed, answered, serve_connection, hold_or_close,
  reap, reap_held, make_room, front_fds, Accepted, accept_connection,
}

-- How often `x` stands in a list.
abbrev pub count : ℕ → List ℕ → ℕ
count x [] = 0
count x (y ∷ ys) = if x == y then suc (count x ys) else count x ys

abbrev pub fds : List HeldConnection → List ℕ
fds [] = []
fds (c ∷ rest) = c.fd ∷ fds rest

pub count-append : (x : ℕ) (ys zs : List ℕ) → count x (ys ++ zs) ≡ count x ys + count x zs
count-append x [] zs = ground arith
count-append x (y ∷ ys) zs = ground (arith, count-append x ys zs)

count-fds :
    (x : ℕ) (cs : List HeldConnection) (c : HeldConnection)
    → count x (fds (cs ++ c ∷ [])) ≡ count x (fds cs) + count x (c.fd ∷ [])
count-fds x [] c = ground arith
count-fds x (d ∷ cs) c = ground (arith, count-fds x cs c)

reap-count :
    (x now : ℕ) (cs : List HeldConnection)
    → count x (fds (reap now cs).0) + count x (reap now cs).1 ≡ count x (fds cs)
unfolding reap
reap-count x now [] = ground arith
reap-count x now (c ∷ cs) = ground (arith, reap-count x now cs)

pub length-reap : (now : ℕ) (cs : List HeldConnection) → length (reap now cs).0 ≤ length cs
unfolding reap
length-reap now [] = omega arith
length-reap now (c ∷ cs) = ground (arith, length-reap now cs)

-- What one step makes of the connections: those that it is given are held or ended, and at most
-- `bound` are held.
record Settled (given : List ℕ) (bound : ℕ) (h : Https) (ended : List ℕ) : Type 0 where
  pub few : length h.held ≤ bound
  pub counted : (x : ℕ) → count x ended + count x (fds h.held) ≡ count x given

reap_held-Settled :
    (h : Https) (now : ℕ)
    → Settled (fds h.held) (length h.held) (reap_held h now).0 (reap_held h now).1
unfolding reap_held
reap_held-Settled h now = record {
  few = length-reap now h.held;
  counted = λ x. omega (arith, reap-count x now h.held);
}

first-count :
    (x : ℕ) (cs : List HeldConnection)
    → count x (front_fds cs) + count x (fds (drop 1 cs)) ≡ count x (fds cs)
first-count x [] = omega arith
first-count x (c ∷ cs) = ground arith

make_room-Settled :
    (h : Https) (bound : ℕ)
    → h.max_connections ≡ suc bound
    → length h.held ≤ suc bound
    → Settled (fds h.held) bound (make_room h).0 (make_room h).1
unfolding make_room
make_room-Settled h bound m l = elim (Bool-cases (leb h.max_connections (length h.held))) [
  | inr e ↦ rw (make_room, e) (record { few = ground arith; counted = λ x. omega arith })
  | inl e ↦
      rw (make_room, e)
        (record { few = omega (arith, length-drop 1 h.held); counted = λ x. first-count x h.held })
]

hold_or_close-Settled :
    (h : Https) (fd now : ℕ)
    → Settled
        (fd ∷ fds h.held)
        (suc (length h.held))
        (hold_or_close h fd now).0
        (hold_or_close h fd now).1
unfolding hold_or_close
hold_or_close-Settled h fd now = elim (Bool-cases (h.hold_time_ms == 0)) [
  | inl e ↦ rw (hold_or_close, e) (record { few = omega arith; counted = λ x. ground arith })
  | inr e ↦
      rw (hold_or_close, e)
        (record {
          few = omega (
            arith,
            length-append h.held (record { fd = fd; close_at = add32 now h.hold_time_ms } ∷ []),
          );
          counted = λ x.
              ground (
                arith,
                count-fds x h.held (record { fd = fd; close_at = add32 now h.hold_time_ms }),
              );
        })
]

pub Fate-cases : (f : Fate) → (f ≡ busy) ⊎ ((f ≡ closed) ⊎ (f ≡ answered))
Fate-cases busy = inl refl
Fate-cases closed = inr (inl refl)
Fate-cases answered = inr (inr refl)

-- What is left when a connection has been accepted.
abbrev pub Conserved : Https → ℕ → Accepted → Type 0
Conserved h fd a =
    (length a.https.held ≤ h.max_connections)
    × ((x : ℕ)
        → count x a.ended + count x (fds a.https.held) + count x a.in_progress
          ≡ count x (fd ∷ fds h.held))

module _ (json : Json) (h : Https) (m : Marstack) (s : Session) (bound : ℕ)
    (max : h.max_connections ≡ suc bound) (few : length h.held ≤ suc bound) where
  accept-busy :
      (serve_connection json (make_room h).0 m s).2 ≡ busy
      → Conserved h s.fd (accept_connection json h m s)
  unfolding accept_connection
  accept-busy e =
      let v = make_room-Settled h bound max few in
      rw (accept_connection, e) ((omega (arith, v.few, max)), (λ x. ground (arith, v.counted x)))

  accept-closed :
      (serve_connection json (make_room h).0 m s).2 ≡ closed
      → Conserved h s.fd (accept_connection json h m s)
  unfolding accept_connection
  accept-closed e =
      let v = make_room-Settled h bound max few in
      let w = reap_held-Settled (make_room h).0 s.reap_now in
      rw (accept_connection, e)
        (
          omega (arith, v.few, w.few, max),
          (λ x. ground (
            arith,
            v.counted x,
            w.counted x,
            count-append x (make_room h).1 (s.fd ∷ (reap_held (make_room h).0 s.reap_now).1),
          )),
        )

  accept-answered :
      (serve_connection json (make_room h).0 m s).2 ≡ answered
      → Conserved h s.fd (accept_connection json h m s)
  unfolding accept_connection
  accept-answered e =
      let h1 = (make_room h).0 in
      let v = make_room-Settled h bound max few in
      let u = hold_or_close-Settled h1 s.fd s.hold_now in
      let h2 = (hold_or_close h1 s.fd s.hold_now).0 in
      let w = reap_held-Settled h2 s.reap_now in
      rw (accept_connection, e)
        (
          omega (arith, v.few, u.few, w.few, max),
          (λ x. ground (
            arith,
            v.counted x,
            u.counted x,
            w.counted x,
            count-append x (make_room h).1
                ((hold_or_close h1 s.fd s.hold_now).1 ++ (reap_held h2 s.reap_now).1),
            count-append x (hold_or_close h1 s.fd s.hold_now).1 (reap_held h2 s.reap_now).1,
          )),
        )

-- When a connection is accepted, no more are held behind it than the budget allows, if no more were
-- held before and the budget is not zero; and each connection, the new one and those held before, is
-- closed once or still held, or is the new one with a loop that waits on.
pub accept_connection-Conserved :
    (json : Json) (h : Https) (m : Marstack) (s : Session)
    → 1 ≤ h.max_connections
    → length h.held ≤ h.max_connections
    → Conserved h s.fd (accept_connection json h m s)
accept_connection-Conserved json h m s p few =
    let bound = h.max_connections - 1 in
    let max : h.max_connections ≡ suc bound = omega (arith, p) in
    let l : length h.held ≤ suc bound = omega (arith, p, few) in
    elim (Fate-cases (serve_connection json (make_room h).0 m s).2) [
      | inl e ↦ accept-busy json h m s bound max l e
      | inr (inl e) ↦ accept-closed json h m s bound max l e
      | inr (inr e) ↦ accept-answered json h m s bound max l e
    ]
