-- ===== src/Udp/Expiry.antt =====
-- `cleanup_expired_sessions`: which sessions it ends, by the time that passed since their last
-- activity.
use marsrelay.Common.{
  ℕ, ◌+◌, ◌%◌, ◌≤◌, ◌<◌, ◌≡◌, refl, sym, subst, Option, none, some, sub32, Bool-cases, inl, inr,
  ltb, arith,
}
use marsrelay.Udp.{UdpProxy, UdpSession, session_key, cleanup_expired_sessions}
use marsrelay.Udp.Sessions.{find, find-cleanup, drop_expired}
use marsrelay.Udp.Lifecycle.{IsValid}

-- The clock, which wraps at 2^32, reads `now` when `passed` milliseconds have passed since `last`.
pub record IsSince (last now passed : ℕ) : Type 0 where
  pub short : passed < 4294967296
  pub clock : now ≡ (last + passed) % 4294967296

-- What a cleanup at `now` may make of a client's entry: nothing of nothing; the same session, if no
-- more than the timeout has passed since its last activity; nothing of a session, if more has.
pub data Cleaned (timeout_ms now : ℕ) : Option UdpSession → Option UdpSession → Type 0 where
  absent : Cleaned timeout_ms now none none
  kept :
      (s : UdpSession) (passed : ℕ)
      → IsSince s.last_activity now passed
      → passed ≤ timeout_ms
      → Cleaned timeout_ms now (some s) (some s)
  ended :
      (s : UdpSession) (passed : ℕ)
      → IsSince s.last_activity now passed
      → timeout_ms < passed
      → Cleaned timeout_ms now (some s) none

sub32-IsSince :
    (last now : ℕ) → last < 4294967296 → now < 4294967296 → IsSince last now (sub32 now last)
unfolding sub32
sub32-IsSince last now h k = record { short = omega arith; clock = omega arith }

drop_expired-Cleaned :
    (timeout_ms now : ℕ) (s : Option UdpSession)
    → now < 4294967296
    → ((x : UdpSession) → s ≡ some x → x.last_activity < 4294967296)
    → Cleaned timeout_ms now s (drop_expired timeout_ms now s)
drop_expired-Cleaned timeout_ms now none word stamped = absent
drop_expired-Cleaned timeout_ms now (some s) word stamped =
    let passed = sub32 now s.last_activity in
    let since = sub32-IsSince s.last_activity now (stamped s refl) word in
    elim (Bool-cases (ltb timeout_ms passed)) [
      | inl late ↦ rw late (ended s passed since (ground arith))
      | inr early ↦ rw early (kept s passed since (ground arith))
    ]

-- With readings of the 32-bit clock, a cleanup ends the session of a client exactly if more than
-- the timeout has passed since its last activity, across a wrap of the clock as well; it keeps every
-- other as it is, and makes none.
pub cleanup_exact :
    (p : UdpProxy) (now ip port : ℕ)
    → IsValid p
    → now < 4294967296
    → ((x : UdpSession)
        → find p.sessions (session_key ip port) ≡ some x
        → x.last_activity < 4294967296)
    → Cleaned p.session_timeout_ms now
        (find p.sessions (session_key ip port))
        (find (cleanup_expired_sessions p now).sessions (session_key ip port))
unfolding cleanup_expired_sessions
cleanup_exact p now ip port v word stamped =
    subst (Cleaned p.session_timeout_ms now (find p.sessions (session_key ip port)))
      (sym (find-cleanup p.session_timeout_ms now p.sessions 0 (session_key ip port) v.sorted))
      (drop_expired-Cleaned p.session_timeout_ms now (find p.sessions (session_key ip port)) word
        stamped)
