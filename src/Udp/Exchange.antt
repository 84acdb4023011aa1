-- ===== src/Udp/Exchange.antt =====
-- A request of a battery and the answers of the meter that follow it.
use marsrelay.Common.{
  ℕ, ◌≤◌, ◌<◌, ◌≡◌, ◌∙◌, ap, sym, subst, refl, true, ◌&&◌, ltb, ◌==◌, if◌then◌else◌, List, [], ◌∷◌,
  ◌++◌, map, some, sub32, Bool-cases, inl, inr, arith,
}
use mathlib.Core.List.{Memᴰ}
use mathlib.Core.List.Memᴰ.{cast, append_right}
use marsrelay.Udp.{
  Config, UdpProxy, packet, process_requests, process_responses, cleanup_expired_sessions,
  new_session, received,
}
use marsrelay.Udp.Addresses.{on_access_point}
use marsrelay.Udp.Sessions.{find, send_to}
use marsrelay.Udp.Lifecycle.{IsValid}
use marsrelay.Udp.Forward.{
  process_responses-IsValid, from_batteries, from_meter, request_routed, answer_fans_out,
}
use marsrelay.Udp.Loop.{Component, Surroundings, serve, serve-IsValid, loop}
use marsrelay.Udp.Freshness.{
  to, find-Memᴰ, key, Fresh, cleanup-Fresh, requests-Fresh, responses-Fresh,
}
use marsrelay.Udp.Rounds.{
  process_responses-Settings, asked_of, asked-IsValid, asked-Settings, serve-sends, serve-Settings,
  loop-serve, rounds, Round, Timeline,
}

module _ (ip port start : ℕ) where
  module _ (p : UdpProxy) (e : Surroundings) (v : IsValid p) where
    -- The rest of the round keeps the session.
    serve_rest :
        (lo hi : ℕ)
        → hi ≤ p.session_timeout_ms
        → p.session_timeout_ms < 4294967296
        → Round start lo hi e
        → Fresh ip port start (asked_of p e v).sessions hi
        → Fresh ip port start (serve p e).0.sessions hi
    unfolding serve cleanup_expired_sessions
    serve_rest lo hi h t r f =
        let p2 = (process_responses (asked_of p e v) e.response e.response_now e.delivery).0 in
        let f2 =
          responses-Fresh ip port start (asked_of p e v) e.response e.response_now e.delivery hi
            r.answered f in
        let v2 =
          process_responses-IsValid (asked_of p e v) e.response e.response_now e.delivery
            (asked-IsValid p e v) in
        let c2 =
          (process_responses-Settings (asked_of p e v) e.response e.response_now e.delivery).0 in
        let same : p2.session_timeout_ms ≡ p.session_timeout_ms =
          ap (λ c. c.session_timeout_ms) (c2 ∙ (asked-Settings p e v).0) in
        elim (Bool-cases (ltb 5000 (sub32 e.now p2.last_cleanup))) [
          | inr k ↦ rw k f2
          | inl k ↦ rw k (
              cleanup-Fresh ip port start p2.sessions p2.session_timeout_ms e.cleanup_now hi
                v2.sorted r.cleaned (omega (arith, h, same)) (omega (arith, t, same)) f2)
        ]

  -- An active proxy that has the session of the client.
  record Serving (config : Config) (bound : ℕ) (c : Component) : Type 0 where
    pub valid : IsValid c.proxy
    pub active : c.proxy.is_active ≡ true
    pub same : c.proxy.config ≡ config
    pub session : Fresh ip port start c.proxy.sessions bound

  module _ (config : Config) (small : config.session_timeout_ms < 4294967296)
      (pt : port < 65536) where
    -- A loop in which the session is there behind the first socket keeps it.
    loop_kept :
        (c : Component) (e : Surroundings) (lo hi : ℕ)
        → hi ≤ config.session_timeout_ms
        → Round start lo hi e
        → (v : IsValid c.proxy) → c.proxy.is_active ≡ true
        → c.proxy.config ≡ config
        → Fresh ip port start (asked_of c.proxy e v).sessions hi
        → Serving config hi (loop c e).0
    loop_kept c e lo hi h r v a k f =
        let l = (loop-serve c e a).0 in
        let s = serve-Settings c.proxy e v in
        let t = ap (λ x. x.session_timeout_ms) k in
        record {
          valid = subst IsValid (sym l) (serve-IsValid c.proxy e v);
          active = ap (λ x. x.is_active) l ∙ s.1 ∙ a;
          same = ap (λ x. x.config) l ∙ s.0 ∙ k;
          session =
              subst (λ x. Fresh ip port start x.sessions hi) (sym l)
                (serve_rest c.proxy e v lo hi (omega (arith, h, t)) (omega (arith, small, t)) r f);
        }

    loop-Serving :
        (c : Component) (e : Surroundings) (lo hi : ℕ)
        → hi ≤ config.session_timeout_ms
        → Round start lo hi e
        → Serving config lo c
        → Serving config hi (loop c e).0
    loop-Serving c e lo hi h r s = loop_kept c e lo hi h r s.valid s.active s.same (
        requests-Fresh ip port start c.proxy e.request e.request_now e.session_now e.request_sent
          r.asked lo hi pt r.port_number r.session r.later r.before s.session)

    last_round :
        (es : List Surroundings) (last : Surroundings) (c : Component) (lo : ℕ)
        → Timeline start config.session_timeout_ms lo (es ++ last ∷ [])
        → Serving config lo c
        → (lo' hi' : ℕ) × Serving config lo' (rounds c es) × Round start lo' hi' last
    last_round [] last c lo (hi, r, h, t) s = (lo, hi, s, r)
    last_round (e ∷ es) last c lo (hi, r, h, t) s =
        last_round es last (loop c e).0 hi t (loop-Serving c e lo hi h r s)

    -- The loop that takes the request makes the session.
    request-Fresh :
        (c : Component) (e : Surroundings) (lo hi byte : ℕ) (bytes : List ℕ)
        → Round start lo hi e
        → (v : IsValid c.proxy) → c.proxy.is_active ≡ true
        → e.request ≡ packet ip port (byte ∷ bytes)
        → from_batteries c.proxy ip ≡ true
        → Fresh ip port start (asked_of c.proxy e v).sessions hi
    request-Fresh c e lo hi byte bytes r v a q b =
        let sent =
          (request_routed c.proxy v a ip port byte bytes e.request_now e.session_now e.request_sent
              pt).0
            b in
        let f : find
              (process_requests c.proxy (packet ip port (byte ∷ bytes)) e.request_now e.session_now
                e.request_sent).0.sessions
              (key ip port start)
            ≡ some (new_session ip port e.session_now) =
          sent.session ip port pt ∙ found_key in
        record {
          session = new_session ip port e.session_now;
          found =
              ap
                (λ x.
                  find
                    (process_requests c.proxy x e.request_now e.session_now
                      e.request_sent).0.sessions
                    (key ip port start))
                q
              ∙ f;
          same_ip = refl;
          same_port = refl;
          after = r.asked;
          stamped = r.session;
          old = r.before;
        }
      where
        found_key :
            (if ip == ip && port == port
              then some (new_session ip port e.session_now)
              else find c.proxy.sessions (key ip port start))
            ≡ some (new_session ip port e.session_now)
        found_key = ground arith

    -- A loop that takes an answer sends it to the client.
    answer_sent :
        (c : Component) (e : Surroundings) (lo hi from from_port byte : ℕ) (bytes : List ℕ)
        → Round start lo hi e
        → Serving config lo c
        → e.response ≡ packet from from_port (byte ∷ bytes)
        → from_meter c.proxy from ≡ true
        → Memᴰ (to ip port (received (byte ∷ bytes))) (loop c e).1.sends
    answer_sent c e lo hi from from_port byte bytes r s q b =
        let p = c.proxy in
        let p1 = asked_of p e s.valid in
        let set = asked-Settings p e s.valid in
        let f =
          requests-Fresh ip port start p e.request e.request_now e.session_now e.request_sent
            r.asked lo hi pt r.port_number r.session r.later r.before s.session in
        let meter : from_meter p1 from ≡ true =
          ap (λ x. if x.meter_on_ap then on_access_point x from else true) set.0 ∙ b in
        let answers : (process_responses p1 e.response e.response_now e.delivery).1
            ≡ map (send_to (received (byte ∷ bytes))) p1.sessions =
          ap (λ x. (process_responses p1 x e.response_now e.delivery).1) q
          ∙ (answer_fans_out p1 (asked-IsValid p e s.valid) (set.1 ∙ s.active) from from_port byte
              bytes e.response_now e.delivery meter).0 in
        let send =
          ap (λ x. to x f.session.client_port (received (byte ∷ bytes))) f.same_ip
          ∙ ap (λ x. to ip x (received (byte ∷ bytes))) f.same_port in
        subst (Memᴰ (to ip port (received (byte ∷ bytes))))
          (sym ((loop-serve c e s.active).1 ∙ serve-sends p e s.valid))
          (append_right (process_requests p e.request e.request_now e.session_now e.request_sent).1
            (subst (Memᴰ (to ip port (received (byte ∷ bytes)))) (sym answers) (
              cast (sym send) (
                find-Memᴰ (received (byte ∷ bytes)) p1.sessions (key ip port start) f.session
                  f.found))))

    -- A request is answered: when a proxy that is up takes a battery's packet in one round of `loop`,
    -- then in every later round an answer of the meter is sent on to the battery's address and port,
    -- its first 1500 bytes unchanged, whatever the rounds in between bring and whether or not the cleanup runs, as long as
    -- the clock has moved on from `start`, a moment before the request, by no more than the session
    -- timeout.
    pub request_answered :
        (c : Component) (e : Surroundings) (es : List Surroundings) (last : Surroundings)
        (lo byte : ℕ) (bytes : List ℕ) (from from_port first : ℕ) (rest : List ℕ)
        → IsValid c.proxy
        → c.proxy.is_active ≡ true
        → c.proxy.config ≡ config
        → e.request ≡ packet ip port (byte ∷ bytes)
        → from_batteries c.proxy ip ≡ true
        → Timeline start config.session_timeout_ms lo (e ∷ (es ++ last ∷ []))
        → last.response ≡ packet from from_port (first ∷ rest)
        → from_meter c.proxy from ≡ true
        → Memᴰ (to ip port (received (first ∷ rest))) (loop (rounds c (e ∷ es)) last).1.sends
    request_answered c e es last lo byte bytes from from_port first rest v a k q b (hi0, r, h, t) w
          meter =
        let f = request-Fresh c e lo hi0 byte bytes r v a q b in
        let s = loop_kept c e lo hi0 h r v a k f in
        let (l2, h2, s2, r2) = last_round es last (loop c e).0 hi0 t s in
        let meter2 =
          ap (λ x. if x.meter_on_ap then on_access_point x from else true) (s2.same ∙ sym k)
          ∙ meter in
        answer_sent (rounds (loop c e).0 es) last l2 h2 from from_port first rest r2 s2 w meter2
