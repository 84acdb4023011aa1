-- ===== src/Udp/Lifecycle.antt =====
-- `start`, `stop`, `setup` and `retry_start`, and the invariant of the proxy.
use marsrelay.Common.{
  ℕ, zero, suc, ◌*◌, ◌≤◌, ◌<◌, ◌≡◌, Bool, true, false, not, ◌==◌, ltb, if◌then◌else◌, List, [], ◌∷◌,
  length, ap, ◌∙◌, min, sub32, dec_le, arith,
}
use marsrelay.Udp.{UdpProxy, start_retry_min_ms, start_retry_max_ms}
use marsrelay.Udp.Sessions.{IsSortedFrom, IsKeyed}

-- Whether the socket layer makes and binds the two sockets.
pub record SocketLayer : Type 0 where
  pub listen_made : Bool
  pub listen_bound : Bool
  pub forward_made : Bool
  pub forward_bound : Bool

abbrev with_sockets : UdpProxy → Bool → Bool → UdpProxy
with_sockets p listen forward = record p {
  has_listen_socket = listen;
  has_forward_socket = forward;
}

unfoldable pub start : UdpProxy → SocketLayer → UdpProxy
start p net =
    if p.is_active
    then p
    else if p.port == 0
    then p
    else if not net.listen_made
    then record p { has_listen_socket = false }
    else if not net.listen_bound
    then record p { has_listen_socket = false }
    else if not net.forward_made
    then with_sockets p false false
    else if not net.forward_bound
    then with_sockets p false false
    else record p { has_listen_socket = true; has_forward_socket = true; is_active = true }

unfoldable pub stop : UdpProxy → UdpProxy
stop p = if not p.is_active then p else record p {
  is_active = false;
  has_listen_socket = false;
  has_forward_socket = false;
  sessions = [];
}

unfoldable pub setup : UdpProxy → SocketLayer → ℕ → UdpProxy
unfolding start
setup p net now = let q = start p net in record q { last_start_attempt = now }

unfoldable pub retry_start : UdpProxy → SocketLayer → ℕ → UdpProxy
retry_start p net now =
    if ltb (sub32 now p.last_start_attempt) p.start_retry_delay_ms
    then p
    else let q = start (record p { last_start_attempt = now }) net in
      if q.is_active
      then record q { start_retry_delay_ms = start_retry_min_ms }
      else record q { start_retry_delay_ms = min (q.start_retry_delay_ms * 2) start_retry_max_ms }

-- The sockets exist exactly while the proxy is active, the session map is a map whose keys are its
-- clients, and the retry delay is within its bounds.
pub record IsValid (p : UdpProxy) : Type 0 where
  pub listens : p.has_listen_socket ≡ p.is_active
  pub forwards : p.has_forward_socket ≡ p.is_active
  pub sorted : IsSortedFrom 0 p.sessions
  pub keyed : IsKeyed p.sessions
  pub least_delay : start_retry_min_ms ≤ p.start_retry_delay_ms
  pub most_delay : p.start_retry_delay_ms ≤ start_retry_max_ms

pub start-IsValid : (p : UdpProxy) (net : SocketLayer) → IsValid p → IsValid (start p net)
unfolding start
start-IsValid p net v = ground arith

pub stop-IsValid : (p : UdpProxy) → IsValid p → IsValid (stop p)
unfolding stop
stop-IsValid p v = ground arith

pub retry_start-IsValid :
    (p : UdpProxy) (net : SocketLayer) (now : ℕ) → IsValid p → IsValid (retry_start p net now)
unfolding retry_start
retry_start-IsValid p net now v =
    let v' : IsValid (record p { last_start_attempt = now }) = ground arith in
    ground (arith, start-IsValid (record p { last_start_attempt = now }) net v')

-- Whether `start` reaches its end.
abbrev pub ComesUp : UdpProxy → SocketLayer → Type 0
ComesUp p net =
    (0 < p.port)
    × (net.listen_made ≡ true)
    × (net.listen_bound ≡ true)
    × (net.forward_made ≡ true)
    × (net.forward_bound ≡ true)

-- A proxy that is down for whatever reason is up again after the next retry that comes a minute or
-- more after the last attempt and finds the network ready, and its retry delay starts over.
pub retry_start_recovers :
    (p : UdpProxy) (net : SocketLayer) (now : ℕ)
    → IsValid p
    → p.is_active ≡ false
    → ComesUp p net
    → start_retry_max_ms ≤ sub32 now p.last_start_attempt
    → let q = retry_start p net now in
      (q.is_active ≡ true)
      × (q.has_listen_socket ≡ true)
      × (q.has_forward_socket ≡ true)
      × (q.start_retry_delay_ms ≡ start_retry_min_ms)
unfolding retry_start start
retry_start_recovers p net now v down up late = ground arith

pub record Attempt : Type 0 where
  pub net : SocketLayer
  pub now : ℕ

unfoldable pub retries : UdpProxy → List Attempt → UdpProxy
retries p [] = p
retries p (a ∷ rest) = retries (retry_start p a.net a.now) rest

-- Every attempt is due when it comes, and none brings the proxy up.
abbrev pub AllFail : UdpProxy → List Attempt → Type 0
AllFail p [] = Unit {0}
AllFail p (a ∷ rest) =
    (p.start_retry_delay_ms ≤ sub32 a.now p.last_start_attempt)
    × ((retry_start p a.net a.now).is_active ≡ false)
    × AllFail (retry_start p a.net a.now) rest

abbrev pub pow2 : ℕ → ℕ
pow2 zero = 1
pow2 (suc n) = 2 * pow2 n

pow2_pos : (n : ℕ) → 1 ≤ pow2 n
pow2_pos zero = omega arith
pow2_pos (suc n) = omega (arith, pow2_pos n)

double_le : (d k : ℕ) → 1 ≤ k → d * 2 ≤ d * (2 * k)
double_le d k h = grind arith

min_doubled :
    (d n : ℕ)
    → min (min (d * 2) start_retry_max_ms * pow2 n) start_retry_max_ms
      ≡ min (d * (2 * pow2 n)) start_retry_max_ms
min_doubled d n = elim (dec_le (d * 2) start_retry_max_ms) [
  | yes small ↦ let e : min (d * 2) start_retry_max_ms ≡ d * 2 = omega arith in rw e (omega arith)
  | no large ↦
      let e : min (d * 2) start_retry_max_ms ≡ start_retry_max_ms = omega arith in
      rw e (omega (arith, pow2_pos n, double_le d (pow2 n) (pow2_pos n)))
]

retry_start_fails :
    (p : UdpProxy) (net : SocketLayer) (now : ℕ)
    → p.start_retry_delay_ms ≤ sub32 now p.last_start_attempt
    → (retry_start p net now).is_active ≡ false
    → (retry_start p net now).start_retry_delay_ms
      ≡ min (p.start_retry_delay_ms * 2) start_retry_max_ms
unfolding retry_start start
retry_start_fails p net now due down = ground arith

-- Each failed attempt doubles the delay, up to a minute.
pub retries_back_off :
    (p : UdpProxy) (attempts : List Attempt)
    → p.start_retry_delay_ms ≤ start_retry_max_ms
    → AllFail p attempts
    → (retries p attempts).start_retry_delay_ms
      ≡ min (p.start_retry_delay_ms * pow2 (length attempts)) start_retry_max_ms
unfolding retries
retries_back_off p [] h f = omega arith
retries_back_off p (a ∷ rest) h (due, down, f) =
    let e = retry_start_fails p a.net a.now due down in
    retries_back_off (retry_start p a.net a.now) rest (omega arith) f
    ∙ ap (λ d. min (d * pow2 (length rest)) start_retry_max_ms) e
    ∙ min_doubled p.start_retry_delay_ms (length rest)
