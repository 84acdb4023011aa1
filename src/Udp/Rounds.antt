-- ===== src/Udp/Rounds.antt =====
-- A round of `loop` in its parts, and rounds one behind the other.
use marsrelay.Common.{
  ℕ, ◌≤◌, ◌≡◌, ◌∙◌, refl, Bool, true, ltb, List, [], ◌∷◌, ◌++◌, add32, sub32, Bool-cases, inl, inr,
  arith,
}
use marsrelay.Udp.{
  UdpProxy, Receive, nothing, packet, Delivery, process_requests, process_responses,
  cleanup_expired_sessions, received,
}
use marsrelay.Udp.Lifecycle.{IsValid}
use marsrelay.Udp.Forward.{forward_each-counters, process_requests-IsValid}
use marsrelay.Udp.Loop.{Component, Surroundings, serve, loop}
use marsrelay.Udp.Freshness.{IsPort, Timely}

-- What the handlers leave as it is.
abbrev Settings : UdpProxy → UdpProxy → Type 0
Settings q p = (q.config ≡ p.config) × (q.is_active ≡ p.is_active)

process_requests-Settings :
    (p : UdpProxy) (input : Receive) (now later : ℕ) (sent : Bool)
    → Settings (process_requests p input now later sent).0 p
unfolding process_requests
process_requests-Settings p nothing now later sent = (refl, refl)
process_requests-Settings p (packet ip port bytes) now later sent = ground arith

pub process_responses-Settings :
    (p : UdpProxy) (input : Receive) (now : ℕ) (d : Delivery)
    → Settings (process_responses p input now d).0 p
unfolding process_responses
process_responses-Settings p nothing now d = (refl, refl)
process_responses-Settings p (packet ip port bytes) now d =
    let q = record p { last_response = now; has_response = true } in
    ground (arith, forward_each-counters q d (received bytes) p.sessions)

module _ (p : UdpProxy) (e : Surroundings) (v : IsValid p) where
  abbrev pub asked_of : UdpProxy
  asked_of = (process_requests p e.request e.request_now e.session_now e.request_sent).0

  pub asked-IsValid : IsValid asked_of
  asked-IsValid = process_requests-IsValid p e.request e.request_now e.session_now e.request_sent v

  pub asked-Settings : Settings asked_of p
  asked-Settings = process_requests-Settings p e.request e.request_now e.session_now e.request_sent

  pub serve-sends :
      (serve p e).1
      ≡ (process_requests p e.request e.request_now e.session_now e.request_sent).1
        ++ (process_responses asked_of e.response e.response_now e.delivery).1
  unfolding serve
  serve-sends =
      let p2 = (process_responses asked_of e.response e.response_now e.delivery).0 in
      elim (Bool-cases (ltb 5000 (sub32 e.now p2.last_cleanup))) [
        | inr k ↦ rw k refl
        | inl k ↦ rw k refl
      ]

  pub serve-Settings : Settings (serve p e).0 p
  unfolding serve cleanup_expired_sessions
  serve-Settings =
      let p2 = (process_responses asked_of e.response e.response_now e.delivery).0 in
      let c = process_responses-Settings asked_of e.response e.response_now e.delivery in
      let a = c.0 ∙ asked-Settings.0 in
      let b = c.1 ∙ asked-Settings.1 in
      elim (Bool-cases (ltb 5000 (sub32 e.now p2.last_cleanup))) [
        | inr k ↦ rw k (a, b)
        | inl k ↦ rw k (a, b)
      ]

pub loop-serve :
    (c : Component) (e : Surroundings)
    → c.proxy.is_active ≡ true
    → ((loop c e).0.proxy ≡ (serve c.proxy e).0) × ((loop c e).1.sends ≡ (serve c.proxy e).1)
unfolding loop
loop-serve c e h = ground arith

abbrev pub rounds : Component → List Surroundings → Component
rounds c [] = c
rounds c (e ∷ es) = rounds (loop c e).0 es

module _ (start : ℕ) where
  -- A round of `loop` whose readings of the clock come between `lo` and `hi` after `start`, the one of
  -- the cleanup last.
  pub record Round (lo hi : ℕ) (e : Surroundings) : Type 0 where
    pub later : lo ≤ hi
    pub port_number : IsPort e.request
    pub asked : ℕ
    pub session : e.session_now ≡ add32 start asked
    pub before : asked ≤ hi
    pub answered : Timely start e.delivery hi
    pub cleaned : e.cleanup_now ≡ add32 start hi

  -- Rounds one behind the other, all of them within the timeout.
  abbrev pub Timeline : ℕ → ℕ → List Surroundings → Type 0
  Timeline timeout lo [] = Unit
  Timeline timeout lo (e ∷ es) = (hi : ℕ) × Round lo hi e × (hi ≤ timeout) × Timeline timeout hi es
