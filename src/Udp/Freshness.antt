-- ===== src/Udp/Freshness.antt =====
-- The session of one client in the map: what the two handlers and the cleanup make of it.
use marsrelay.Common.{
  ℕ, ◌-◌, ◌≤◌, ◌<◌, ◌≡◌, ◌∙◌, ◌⊎◌, ap, sym, subst, refl, Bool, true, false, ◌==◌, List, [], ◌∷◌,
  map, some, add32, sub32, Option-cases, Bool-cases, inl, inr, arith,
}
use mathlib.Core.List.{Memᴰ}
use mathlib.Core.List.Memᴰ.{head, tail}
use marsrelay.Udp.{
  UdpProxy, UdpSession, SessionMap, Receive, nothing, packet, Send, Delivery, session_key, assign,
  cleanup, is_expired, process_requests, process_responses, new_session, received,
}
use marsrelay.Udp.Sessions.{
  find, find-assign, find-cleanup, session_key-injective, IsSortedFrom, touch, send_to,
  forward_each-map,
}

elapsed : (t a e : ℕ) → a ≤ e → e < 4294967296 → sub32 (add32 t e) (add32 t a) ≡ e - a
unfolding sub32 add32
elapsed t a e l h = omega (arith, l, h)

abbrev pub to : ℕ → ℕ → List ℕ → Send
to ip port bytes = record { ip = ip; port = port; bytes = bytes }

find-touch :
    (d : Delivery) (m : SessionMap) (j : ℕ) (s : UdpSession)
    → find m j ≡ some s
    → find (map (touch d) m) j ≡ some (touch d (j, s)).1
unfolding find
find-touch d [] j s h = absurd cc
find-touch d ((k, x) ∷ rest) j s h = ground (arith, h, find-touch d rest j s)

pub find-Memᴰ :
    (bytes : List ℕ) (m : SessionMap) (j : ℕ) (s : UdpSession)
    → find m j ≡ some s
    → Memᴰ (send_to bytes (j, s)) (map (send_to bytes) m)
unfolding find
find-Memᴰ bytes [] j s h = absurd cc
find-Memᴰ bytes ((k, x) ∷ rest) j s h = elim (Bool-cases (k == j)) [
  | inl e ↦
      let q : find ((k, x) ∷ rest) j ≡ some x = rw (find, e) refl in
      let i : s ≡ x = cc in head (ap (λ y. send_to bytes (j, y)) i)
  | inr e ↦ tail (find-Memᴰ bytes rest j s (ground (arith, h, e)))
]

-- The ports of UDP take 16 bits.
abbrev pub IsPort : Receive → Type 0
IsPort nothing = Unit
IsPort (packet src src_port bytes) = src_port < 65536

-- The moments at which an answer goes out come at most `bound` after `start`.
abbrev pub Timely : ℕ → Delivery → ℕ → Type 0
Timely start d bound = (j t : ℕ) → d j ≡ some t → (x : ℕ) × (t ≡ add32 start x) × (x ≤ bound)

module _ (ip port start : ℕ) where
  abbrev pub key : ℕ
  key = session_key ip port

  -- The client has a session, whose last activity was at most `bound` after `start`.
  pub record Fresh (m : SessionMap) (bound : ℕ) : Type 0 where
    pub session : UdpSession
    pub found : find m key ≡ some session
    pub same_ip : session.client_ip ≡ ip
    pub same_port : session.client_port ≡ port
    pub after : ℕ
    pub stamped : session.last_activity ≡ add32 start after
    pub old : after ≤ bound

  older-Fresh : (m : SessionMap) (lo hi : ℕ) → lo ≤ hi → Fresh m lo → Fresh m hi
  older-Fresh m lo hi l f = record {
    session = f.session;
    found = f.found;
    same_ip = f.same_ip;
    same_port = f.same_port;
    after = f.after;
    stamped = f.stamped;
    old = omega (arith, l, f.old);
  }

  assign-Fresh :
      (m : SessionMap) (ip' port' later x lo hi : ℕ)
      → port < 65536
      → port' < 65536
      → later ≡ add32 start x
      → lo ≤ hi
      → x ≤ hi
      → Fresh m lo
      → Fresh (assign m (session_key ip' port') (new_session ip' port' later)) hi
  assign-Fresh m ip' port' later x lo hi p p' e l h f =
      let s = new_session ip' port' later in
      let k = find-assign m (session_key ip' port') key s in
      elim (Bool-cases (session_key ip' port' == key)) [
        | inl q ↦
            let i = session_key-injective ip' ip port' port p' p (ground arith) in
            record {
              session = s;
              found = k ∙ rw q refl;
              same_ip = i.0;
              same_port = i.1;
              after = x;
              stamped = e;
              old = h;
            }
        | inr q ↦
            let g = older-Fresh m lo hi l f in
            record {
              session = g.session;
              found = k ∙ rw q g.found;
              same_ip = g.same_ip;
              same_port = g.same_port;
              after = g.after;
              stamped = g.stamped;
              old = g.old;
            }
      ]

  pub cleanup-Fresh :
      (m : SessionMap) (timeout now hi : ℕ)
      → IsSortedFrom 0 m
      → now ≡ add32 start hi
      → hi ≤ timeout
      → timeout < 4294967296
      → Fresh m hi
      → Fresh (cleanup timeout now m) hi
  cleanup-Fresh m timeout now hi v e h t f =
      let gone =
        ap (sub32 now) f.stamped
        ∙ ap (λ x. sub32 x (add32 start f.after)) e
        ∙ elapsed start f.after hi f.old (omega (arith, h, t)) in
      let n : is_expired timeout now f.session ≡ false = ground (arith, gone, f.old) in
      record {
        session = f.session;
        found = find-cleanup timeout now m 0 key v ∙ rw (f.found) (rw n refl);
        same_ip = f.same_ip;
        same_port = f.same_port;
        after = f.after;
        stamped = f.stamped;
        old = f.old;
      }

  touch-Fresh :
      (d : Delivery) (m : SessionMap) (lo hi : ℕ)
      → lo ≤ hi
      → Timely start d hi
      → Fresh m lo
      → Fresh (map (touch d) m) hi
  touch-Fresh d m lo hi l w f = elim (Option-cases (d key)) [
    | inl e ↦ record {
      session = f.session;
      found = find-touch d m key f.session f.found ∙ rw e refl;
      same_ip = f.same_ip;
      same_port = f.same_port;
      after = f.after;
      stamped = f.stamped;
      old = omega (arith, l, f.old);
    }
    | inr (t, e) ↦
        let (x, k, h) = w key t e in
        record {
          session = record f.session { last_activity = t };
          found = find-touch d m key f.session f.found ∙ rw e refl;
          same_ip = f.same_ip;
          same_port = f.same_port;
          after = x;
          stamped = k;
          old = h;
        }
  ]

  process_requests-sessions :
      (p : UdpProxy) (src src_port : ℕ) (bytes : List ℕ) (now later : ℕ) (sent : Bool)
      → let after = (process_requests p (packet src src_port bytes) now later sent).0.sessions in
        (after ≡ p.sessions)
        ⊎ (after ≡ assign p.sessions (session_key src src_port) (new_session src src_port later))
  unfolding process_requests
  process_requests-sessions p src src_port bytes now later sent = ground arith

  process_responses-sessions :
      (p : UdpProxy) (src src_port : ℕ) (bytes : List ℕ) (now : ℕ) (d : Delivery)
      → let after = (process_responses p (packet src src_port bytes) now d).0.sessions in
        (after ≡ p.sessions) ⊎ (after ≡ map (touch d) p.sessions)
  unfolding process_responses
  process_responses-sessions p src src_port bytes now d =
      let q = record p { last_response = now; has_response = true } in
      ground (arith, forward_each-map q d (received bytes) p.sessions)

  pub requests-Fresh :
      (p : UdpProxy) (input : Receive) (now later : ℕ) (sent : Bool) (x lo hi : ℕ)
      → port < 65536
      → IsPort input
      → later ≡ add32 start x
      → lo ≤ hi
      → x ≤ hi
      → Fresh p.sessions lo
      → Fresh (process_requests p input now later sent).0.sessions hi
  unfolding process_requests
  requests-Fresh p nothing now later sent x lo hi pt ip' e l h f = older-Fresh p.sessions lo hi l f
  requests-Fresh p (packet src src_port bytes) now later sent x lo hi pt ip' e l h f =
      elim (process_requests-sessions p src src_port bytes now later sent) [
        | inl k ↦ subst (λ m. Fresh m hi) (sym k) (older-Fresh p.sessions lo hi l f)
        | inr k ↦
            subst (λ m. Fresh m hi) (sym k)
              (assign-Fresh p.sessions src src_port later x lo hi pt ip' e l h f)
      ]

  pub responses-Fresh :
      (p : UdpProxy) (input : Receive) (now : ℕ) (d : Delivery) (hi : ℕ)
      → Timely start d hi
      → Fresh p.sessions hi
      → Fresh (process_responses p input now d).0.sessions hi
  unfolding process_responses
  responses-Fresh p nothing now d hi w f = f
  responses-Fresh p (packet src src_port bytes) now d hi w f =
      elim (process_responses-sessions p src src_port bytes now d) [
        | inl k ↦ subst (λ m. Fresh m hi) (sym k) f
        | inr k ↦ subst (λ m. Fresh m hi) (sym k) (touch-Fresh d p.sessions hi hi (omega arith) w f)
      ]
