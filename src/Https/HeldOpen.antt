-- ===== src/Https/HeldOpen.antt =====
-- How long an answered connection is held, over the sweeps and connections that follow.
use marsrelay.Common.{
  ℕ, suc, ◌+◌, ◌≤◌, ◌<◌, ◌≡◌, ◌≢◌, ◌∙◌, ap, sym, subst, true, add32, before32, before32_ahead,
  before32_due, List, [], ◌∷◌, All, inl, inr, arith,
}
use marsrelay.Marstack.Telemetry.{Json}
use marsrelay.Marstack.{Marstack}
use marsrelay.Https.{
  HeldConnection, Https, Session, serve_connection, hold_or_close, reap, reap_held, make_room,
  accept_connection,
}
use marsrelay.Https.Connections.{count, Fate-cases}
use marsrelay.Https.Holding.{
  Holds, max_connections-make_room, max_connections-hold_or_close, reap-due, reap-Holds,
  make_room-Holds, more-Holds, hold_or_close-Holds, new-Holds,
}

-- What the task does next: it sweeps the held connections, or accepts a connection.
pub data Event : Type 0 where
  sweep : ℕ → Event
  arrives : Session → Event

-- When it looks at the held connections.
abbrev pub time : Event → ℕ
time (sweep now) = now
time (arrives s) = s.reap_now

abbrev pub happens : Json → Event → Https × Marstack → Https × Marstack
happens json (sweep now) (h, m) = ((reap_held h now).0, m)
happens json (arrives s) (h, m) = let a = accept_connection json h m s in (a.https, a.marstack)

abbrev pub run : Json → List Event → Https × Marstack → Https × Marstack
run json [] x = x
run json (e ∷ events) x = run json events (happens json e x)

abbrev pub arrivals : List Event → ℕ
arrivals [] = 0
arrivals (sweep now ∷ events) = arrivals events
arrivals (arrives s ∷ events) = suc (arrivals events)

module _ (c : HeldConnection) where
  module _ (json : Json) where
    accept_connection-Holds :
        (n : ℕ) (h : Https) (m : Marstack) (s : Session)
        → n + 1 < h.max_connections
        → before32 s.reap_now c.close_at ≡ true
        → Holds c n h.held
        → Holds c (suc n) (accept_connection json h m s).https.held
    unfolding accept_connection reap_held
    accept_connection-Holds n h m s l e v =
        let h1 = (make_room h).0 in
        let v1 = make_room-Holds c n h l v in
        elim (Fate-cases (serve_connection json h1 m s).2) [
          | inl f ↦ rw (accept_connection, f) (more-Holds c n h1.held v1)
          | inr (inl f) ↦
              rw (accept_connection, f) (more-Holds c n _ (reap-Holds c n s.reap_now h1.held e v1))
          | inr (inr f) ↦
              rw (accept_connection, f)
                (reap-Holds c (suc n) s.reap_now (hold_or_close h1 s.fd s.hold_now).0.held e
                  (hold_or_close-Holds c n h1 s.fd s.hold_now v1))
        ]

    max_connections-accept :
        (h : Https) (m : Marstack) (s : Session)
        → (accept_connection json h m s).https.max_connections ≡ h.max_connections
    unfolding accept_connection reap_held
    max_connections-accept h m s =
        let h1 = (make_room h).0 in
        let k = max_connections-make_room h in
        elim (Fate-cases (serve_connection json h1 m s).2) [
          | inl f ↦ rw (accept_connection, f) k
          | inr (inl f) ↦ rw (accept_connection, f) k
          | inr (inr f) ↦
              rw (accept_connection, f) (max_connections-hold_or_close h1 s.fd s.hold_now ∙ k)
        ]

    run-Holds :
        (n : ℕ) (events : List Event) (h : Https) (m : Marstack)
        → All (λ e. before32 (time e) c.close_at ≡ true) events
        → n + arrivals events < h.max_connections
        → Holds c n h.held
        → Holds c (n + arrivals events) (run json events (h, m)).0.held
    unfolding reap_held
    run-Holds n [] h m a l v = let k : n + 0 ≡ n = omega arith in rw k v
    run-Holds n (sweep now ∷ events) h m a l v =
        run-Holds n events (reap_held h now).0 m a.1 l (reap-Holds c n now h.held a.0 v)
    run-Holds n (arrives s ∷ events) h m a l v =
        let r = accept_connection json h m s in
        let k : n + suc (arrivals events) ≡ suc n + arrivals events = omega arith in
        let l' : suc n + arrivals events < r.https.max_connections =
          omega (arith, l, max_connections-accept h m s) in
        subst (λ x. Holds c x (run json events (r.https, r.marstack)).0.held) (sym k)
          (run-Holds (suc n) events r.https r.marstack a.1 l'
            (accept_connection-Holds n h m s (omega (arith, l)) a.0 v))

-- At an event that comes less than the hold time after `t`.
abbrev pub Within : ℕ → ℕ → Event → Type 0
Within t hold event = (e : ℕ) × (time event ≡ add32 t e) × (e < hold)

early-Within :
    (t hold : ℕ) (fd : ℕ) (events : List Event)
    → hold < 2147483648
    → All (Within t hold) events
    → All (λ e. before32 (time e) (add32 t hold) ≡ true) events
early-Within t hold fd [] l a = tt
early-Within t hold fd (event ∷ events) l a =
    let (e, k, f) = a.0 in
    (
      ap (λ x. before32 x (add32 t hold)) k ∙ before32_ahead t e hold f l,
      early-Within t hold fd events l a.1,
    )

-- A connection that was answered at `t` is held open for its whole hold time, if that is neither 0
-- nor 2^31 ms or more: whatever sweeps and connections come within it, the connection is still held
-- behind them, as long as fewer connections have come than the budget allows; and a sweep at any
-- moment behind the hold time, within 2^31 ms, closes it. The clock may wrap in between.
pub hold_or_close-Holds_on :
    (json : Json) (h : Https) (m : Marstack) (fd t late : ℕ) (events : List Event)
    → h.hold_time_ms ≢ 0
    → h.hold_time_ms < 2147483648
    → All (Within t h.hold_time_ms) events
    → arrivals events < h.max_connections
    → h.hold_time_ms ≤ late
    → late < h.hold_time_ms + 2147483648
    → let c : HeldConnection = record { fd = fd; close_at = add32 t h.hold_time_ms } in
      let h' = (run json events ((hold_or_close h fd t).0, m)).0 in
      Holds c (arrivals events) h'.held × (1 ≤ count fd (reap_held h' (add32 t late)).1)
unfolding reap_held
hold_or_close-Holds_on json h m fd t late events z l a few due far =
    let c : HeldConnection = record { fd = fd; close_at = add32 t h.hold_time_ms } in
    let h1 = (hold_or_close h fd t).0 in
    let v : Holds c 0 h1.held = new-Holds h fd t z in
    let w =
      run-Holds c json 0 events h1 m (early-Within t h.hold_time_ms fd events l a)
        (omega (arith, few, max_connections-hold_or_close h fd t)) v in
    let held = (run json events (h1, m)).0.held in
    let same : 0 + arrivals events ≡ arrivals events = omega arith in
    (
      subst (λ x. Holds c x held) same w,
      subst (λ x. 1 ≤ count fd (reap (add32 t late) x).1) (sym w.place)
          (reap-due (add32 t late) c w.before w.behind
            (before32_due t late h.hold_time_ms due far)),
    )
