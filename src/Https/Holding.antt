-- ===== src/Https/Holding.antt =====
-- A connection among the held ones: what the steps of the task leave of its place.
use marsrelay.Common.{
  ℕ, suc, ◌+◌, ◌≤◌, ◌<◌, ◌≡◌, ◌≢◌, ◌∙◌, ap, refl, true, false, leb, ◌==◌, add32, before32, List, [],
  ◌∷◌, ◌++◌, append_assoc, length, length-append, drop, Bool-cases, inl, inr, arith,
}
use marsrelay.Https.{HeldConnection, Https, hold_or_close, reap, make_room}
use marsrelay.Https.Connections.{count, length-reap}

-- The connection is held, and at most `n` behind it.
pub record Holds (c : HeldConnection) (n : ℕ) (held : List HeldConnection) : Type 0 where
  pub before : List HeldConnection
  pub behind : List HeldConnection
  pub place : held ≡ before ++ c ∷ behind
  pub few : length behind ≤ n

reap-append :
    (now : ℕ) (a b : List HeldConnection) → (reap now (a ++ b)).0 ≡ (reap now a).0 ++ (reap now b).0
unfolding reap
reap-append now [] b = refl
reap-append now (c ∷ a) b = ground (arith, reap-append now a b)

reap-early :
    (now : ℕ) (c : HeldConnection) (cs : List HeldConnection)
    → before32 now c.close_at ≡ true
    → (reap now (c ∷ cs)).0 ≡ c ∷ (reap now cs).0
unfolding reap
reap-early now c cs e = rw (reap, e) refl

pub max_connections-make_room : (h : Https) → (make_room h).0.max_connections ≡ h.max_connections
unfolding make_room
max_connections-make_room h = elim (Bool-cases (leb h.max_connections (length h.held))) [
  | inl e ↦ rw e refl
  | inr e ↦ rw e refl
]

pub max_connections-hold_or_close :
    (h : Https) (fd now : ℕ) → (hold_or_close h fd now).0.max_connections ≡ h.max_connections
unfolding hold_or_close
max_connections-hold_or_close h fd now = elim (Bool-cases (h.hold_time_ms == 0)) [
  | inl e ↦ rw e refl
  | inr e ↦ rw e refl
]

pub reap-due :
    (now : ℕ) (c : HeldConnection) (a b : List HeldConnection)
    → before32 now c.close_at ≡ false
    → 1 ≤ count c.fd (reap now (a ++ c ∷ b)).1
unfolding reap
reap-due now c [] b e = ground arith
reap-due now c (d ∷ a) b e = ground (arith, reap-due now c a b e)

module _ (c : HeldConnection) where
  pub reap-Holds :
      (n now : ℕ) (cs : List HeldConnection)
      → before32 now c.close_at ≡ true
      → Holds c n cs
      → Holds c n (reap now cs).0
  reap-Holds n now cs e h = record {
    before = (reap now h.before).0;
    behind = (reap now h.behind).0;
    place =
        ap (λ x. (reap now x).0) h.place
        ∙ reap-append now h.before (c ∷ h.behind)
        ∙ ap (λ x. (reap now h.before).0 ++ x) (reap-early now c h.behind e);
    few = omega (arith, h.few, length-reap now h.behind);
  }

  drop-Holds :
      (n : ℕ) (before behind cs : List HeldConnection)
      → cs ≡ before ++ c ∷ behind
      → length behind ≤ n
      → n + 1 < length cs
      → Holds c n (drop 1 cs)
  drop-Holds n [] behind cs p f l = absurd (omega (arith, l, f, ap length p))
  drop-Holds n (b ∷ before) behind cs p f l = record {
    before = before;
    behind = behind;
    place = ap (drop 1) p;
    few = f;
  }

  pub make_room-Holds :
      (n : ℕ) (h : Https)
      → n + 1 < h.max_connections
      → Holds c n h.held
      → Holds c n (make_room h).0.held
  unfolding make_room
  make_room-Holds n h l v = elim (Bool-cases (leb h.max_connections (length h.held))) [
    | inr e ↦ rw e v
    | inl e ↦ rw e (drop-Holds n v.before v.behind h.held v.place v.few (ground arith))
  ]

  pub more-Holds : (n : ℕ) (cs : List HeldConnection) → Holds c n cs → Holds c (suc n) cs
  more-Holds n cs h = record {
    before = h.before;
    behind = h.behind;
    place = h.place;
    few = omega (arith, h.few);
  }

  append-Holds :
      (n : ℕ) (cs : List HeldConnection) (d : HeldConnection)
      → Holds c n cs
      → Holds c (suc n) (cs ++ d ∷ [])
  append-Holds n cs d h = record {
    before = h.before;
    behind = h.behind ++ d ∷ [];
    place = ap (λ x. x ++ d ∷ []) h.place ∙ append_assoc h.before (c ∷ h.behind) (d ∷ []);
    few = omega (arith, h.few, length-append h.behind (d ∷ []));
  }

  pub hold_or_close-Holds :
      (n : ℕ) (h : Https) (fd now : ℕ)
      → Holds c n h.held
      → Holds c (suc n) (hold_or_close h fd now).0.held
  unfolding hold_or_close
  hold_or_close-Holds n h fd now v = elim (Bool-cases (h.hold_time_ms == 0)) [
    | inl e ↦ rw e (more-Holds n h.held v)
    | inr e ↦
        rw e (append-Holds n h.held (record { fd = fd; close_at = add32 now h.hold_time_ms }) v)
  ]

pub new-Holds :
    (h : Https) (fd t : ℕ)
    → h.hold_time_ms ≢ 0
    → Holds (record { fd = fd; close_at = add32 t h.hold_time_ms }) 0 (hold_or_close h fd t).0.held
unfolding hold_or_close
new-Holds h fd t z = elim (Bool-cases (h.hold_time_ms == 0)) [
  | inl e ↦ absurd (z (ground arith))
  | inr e ↦ rw e (record { before = h.held; behind = []; place = refl; few = omega arith })
]
