-- ===== src/Udp/Sessions.antt =====
-- The session map seen as a partial function from keys.
use marsrelay.Common.{
  ℕ, ◌+◌, ◌≤◌, ◌<◌, ◌≡◌, refl, ◌==◌, if◌then◌else◌, List, [], ◌∷◌, Option, none, some, arith,
  Option-cases, inl, inr, map,
}
use marsrelay.Udp.{
  UdpSession, SessionMap, Delivery, UdpProxy, session_key, assign, is_expired, cleanup,
  forward_each, drop_packet, count_to_battery, Send,
}

unfoldable pub find : SessionMap → ℕ → Option UdpSession
find [] j = none
find ((k, s) ∷ rest) j = if k == j then some s else find rest j

-- The keys rise strictly, from `lo` on.
abbrev pub IsSortedFrom : ℕ → SessionMap → Type 0
IsSortedFrom lo [] = Unit {0}
IsSortedFrom lo ((k, s) ∷ rest) = (lo ≤ k) × IsSortedFrom (k + 1) rest

-- Every entry stands under the key of its own client.
abbrev pub IsKeyed : SessionMap → Type 0
IsKeyed [] = Unit {0}
IsKeyed ((k, s) ∷ rest) = (k ≡ session_key s.client_ip s.client_port) × IsKeyed rest

abbrev pub drop_expired : ℕ → ℕ → Option UdpSession → Option UdpSession
drop_expired timeout_ms now none = none
drop_expired timeout_ms now (some s) = if is_expired timeout_ms now s then none else some s

-- Two clients share a key only if they share address and port.
pub session_key-injective :
    (ip ip' port port' : ℕ)
    → port < 65536
    → port' < 65536
    → session_key ip port ≡ session_key ip' port'
    → (ip ≡ ip') × (port ≡ port')
unfolding session_key
session_key-injective ip ip' port port' h h' e = (omega arith, omega arith)

pub find-assign :
    (m : SessionMap) (key j : ℕ) (s : UdpSession)
    → find (assign m key s) j ≡ (if key == j then some s else find m j)
unfolding find assign
find-assign [] key j s = refl
find-assign ((k, x) ∷ rest) key j s = ground (arith, find-assign rest key j s)

IsSortedFrom-mono : (m : SessionMap) (a b : ℕ) → a ≤ b → IsSortedFrom b m → IsSortedFrom a m
IsSortedFrom-mono [] a b h s = tt
IsSortedFrom-mono ((k, x) ∷ rest) a b h s = (omega arith, s.1)

pub assign-IsSortedFrom :
    (m : SessionMap) (lo key : ℕ) (s : UdpSession)
    → lo ≤ key
    → IsSortedFrom lo m
    → IsSortedFrom lo (assign m key s)
unfolding assign
assign-IsSortedFrom [] lo key s h v = (h, tt)
assign-IsSortedFrom ((k, x) ∷ rest) lo key s h v =
    ground (arith, assign-IsSortedFrom rest (k + 1) key s)

pub assign-IsKeyed :
    (m : SessionMap) (s : UdpSession)
    → IsKeyed m
    → IsKeyed (assign m (session_key s.client_ip s.client_port) s)
unfolding assign
assign-IsKeyed [] s v = (refl, tt)
assign-IsKeyed ((k, x) ∷ rest) s v = ground (arith, assign-IsKeyed rest s v.1)

find_below : (m : SessionMap) (lo j : ℕ) → IsSortedFrom lo m → j < lo → find m j ≡ none
unfolding find
find_below [] lo j v h = refl
find_below ((k, x) ∷ rest) lo j v h = ground (arith, find_below rest (k + 1) j v.1)

pub find-cleanup :
    (timeout_ms now : ℕ) (m : SessionMap) (lo j : ℕ)
    → IsSortedFrom lo m
    → find (cleanup timeout_ms now m) j ≡ drop_expired timeout_ms now (find m j)
unfolding find cleanup
find-cleanup timeout_ms now [] lo j v = refl
find-cleanup timeout_ms now ((k, x) ∷ rest) lo j v =
    ground (arith, find-cleanup timeout_ms now rest (k + 1) j v.1, find_below rest (k + 1) j v.1)

pub cleanup-IsSortedFrom :
    (timeout_ms now : ℕ) (m : SessionMap) (lo : ℕ)
    → IsSortedFrom lo m
    → IsSortedFrom lo (cleanup timeout_ms now m)
unfolding cleanup
cleanup-IsSortedFrom timeout_ms now [] lo v = tt
cleanup-IsSortedFrom timeout_ms now ((k, x) ∷ rest) lo v = ground (
  arith,
  cleanup-IsSortedFrom timeout_ms now rest (k + 1) v.1,
  IsSortedFrom-mono (cleanup timeout_ms now rest) lo (k + 1),
)

pub cleanup-IsKeyed :
    (timeout_ms now : ℕ) (m : SessionMap) → IsKeyed m → IsKeyed (cleanup timeout_ms now m)
unfolding cleanup
cleanup-IsKeyed timeout_ms now [] v = tt
cleanup-IsKeyed timeout_ms now ((k, x) ∷ rest) v =
    ground (arith, cleanup-IsKeyed timeout_ms now rest v.1)

-- What forwarding an answer does to a session: its activity moves on if the send succeeds.
abbrev pub touch : Delivery → ℕ × UdpSession → ℕ × UdpSession
touch d (k, s) = (k, elim (d k) [ none ↦ s | some t ↦ record s { last_activity = t } ])

abbrev pub send_to : List ℕ → ℕ × UdpSession → Send
send_to bytes (k, s) = record { ip = s.client_ip; port = s.client_port; bytes = bytes }

pub forward_each-map :
    (p : UdpProxy) (d : Delivery) (bytes : List ℕ) (m : SessionMap)
    → ((forward_each p d bytes m).1 ≡ map (touch d) m)
      × ((forward_each p d bytes m).2 ≡ map (send_to bytes) m)
unfolding forward_each
forward_each-map p d bytes [] = (refl, refl)
forward_each-map p d bytes ((k, x) ∷ rest) = elim (Option-cases (d k)) [
  | inl e ↦
      let h = forward_each-map (drop_packet p) d bytes rest in
      rw (e, forward_each) (ground (arith, h))
  | inr (t, e) ↦
      let h = forward_each-map (count_to_battery p) d bytes rest in
      rw (e, forward_each) (ground (arith, h))
]

pub touch-IsSortedFrom :
    (d : Delivery) (m : SessionMap) (lo : ℕ) → IsSortedFrom lo m → IsSortedFrom lo (map (touch d) m)
touch-IsSortedFrom d [] lo v = tt
touch-IsSortedFrom d ((k, x) ∷ rest) lo v = (v.0, touch-IsSortedFrom d rest (k + 1) v.1)

pub touch-IsKeyed : (d : Delivery) (m : SessionMap) → IsKeyed m → IsKeyed (map (touch d) m)
touch-IsKeyed d [] v = tt
touch-IsKeyed d ((k, x) ∷ rest) v = (ground arith, touch-IsKeyed d rest v.1)
