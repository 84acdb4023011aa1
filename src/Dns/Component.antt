-- ===== src/Dns/Component.antt =====
-- `CaptiveDns` of components/capture_dns/capture_dns.h and capture_dns.cpp, on the ESP32: it owns
-- the server of `Dns` while it is active.
use marsrelay.Common.{
  ℕ, ◌≡◌, refl, Bool, true, false, ◌&&◌, if◌then◌else◌, Option, none, some, List, [], ◌∷◌, arith,
}
use marsrelay.Dns.{DnsServer, Receive, no_packet, packet, process_next_request}
use marsrelay.Dns

pub record CaptiveDns : Type 0 where
  pub is_active : Bool
  pub dns_server : Option DnsServer

-- A new `DNSServer`, whose buffer holds whatever was in the memory.
abbrev new_server : List ℕ → DnsServer
new_server memory = record { has_socket = false; server_ip = []; buffer = memory }

-- `made` and `bound` are what the socket layer answers, `ip` is the access point's address.
unfoldable pub start : CaptiveDns → List ℕ → Bool → Bool → List ℕ → CaptiveDns
start c ip made bound memory = if c.is_active then c else record {
  is_active = true;
  dns_server = some (Dns.start (new_server memory) ip made bound);
}

unfoldable pub stop : CaptiveDns → CaptiveDns
stop c = if c.is_active then record { is_active = false; dns_server = none } else c

-- `loop`: the component and the packet sent, if any.
unfoldable pub loop : CaptiveDns → Receive → CaptiveDns × Option (List ℕ)
loop c input = elim c.dns_server [
  | none ↦ (c, none)
  | some s ↦
      let (s', sent) = process_next_request s input in (record c { dns_server = some s' }, sent)
]

-- The packets sent over a sequence of loops.
pub run : CaptiveDns → List Receive → List (Option (List ℕ))
run c [] = []
run c (input ∷ rest) = let (c', sent) = loop c input in sent ∷ run c' rest

abbrev pub silent : List Receive → List (Option (List ℕ))
silent [] = []
silent (input ∷ rest) = none ∷ silent rest

run-silent :
    (c : CaptiveDns) (s : DnsServer) (inputs : List Receive)
    → c.dns_server ≡ some s
    → s.has_socket ≡ false
    → run c inputs ≡ silent inputs
unfolding run loop process_next_request
run-silent c s [] e h = refl
run-silent c s (no_packet ∷ rest) e h =
    ground (arith, run-silent (record c { dns_server = some s }) s rest refl h)
run-silent c s (packet bytes ∷ rest) e h =
    ground (arith, run-silent (record c { dns_server = some s }) s rest refl h)

-- When the socket cannot be made or bound, a start still reports the component as active, a second
-- start does nothing whatever the socket layer would then answer, and no query is ever answered.
pub start_unbound :
    (c : CaptiveDns) (ip memory : List ℕ) (made bound : Bool) (inputs : List Receive)
    → c.is_active ≡ false
    → (made && bound) ≡ false
    → let c' = start c ip made bound memory in
      (c'.is_active ≡ true)
      × ((m b : Bool) → start c' ip m b memory ≡ c')
      × (run c' inputs ≡ silent inputs)
unfolding start Dns.start
start_unbound c ip memory made bound inputs idle failed =
    rw (idle, failed)
      (
        refl,
        (λ m b. refl),
        run-silent _ (record { has_socket = false; server_ip = ip; buffer = memory }) inputs refl
            refl,
      )
