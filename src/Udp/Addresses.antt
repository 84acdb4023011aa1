-- ===== src/Udp/Addresses.antt =====
-- Addresses by their octets: the network of the access point, and where requests are sent.
use marsrelay.Common.{
  ℕ, zero, suc, ◌+◌, ◌*◌, ◌/◌, ◌%◌, ◌<◌, ◌≡◌, Bool, ◌&&◌, ◌==◌, if◌then◌else◌, arith,
}
use marsrelay.Udp.{Config, session_key, is_ap_network, request_destination}

-- An address by its octets, the first in the lowest byte.
abbrev pub octet : ℕ → ℕ → ℕ
octet zero ip = ip % 256
octet (suc i) ip = octet i (ip / 256)

abbrev pub address : ℕ → ℕ → ℕ → ℕ → ℕ
address a b c d = a + b * 256 + c * 65536 + d * 16777216

-- The access point's network is the /24 network of its address.
unfoldable pub on_access_point : Config → ℕ → Bool
on_access_point c ip =
    octet 0 ip == octet 0 c.ap_ip && octet 1 ip == octet 1 c.ap_ip && octet 2 ip == octet 2 c.ap_ip

-- All of the meter's network: the last address of the access point's network, or the broadcast
-- address for a meter at home.
unfoldable pub meter_network : Config → ℕ
meter_network c =
    if c.meter_on_ap
    then address (octet 0 c.ap_ip) (octet 1 c.ap_ip) (octet 2 c.ap_ip) 255
    else address 255 255 255 255

pub is_ap_network-on_access_point :
    (c : Config) (ip : ℕ) → is_ap_network c ip ≡ on_access_point c ip
unfolding is_ap_network on_access_point
is_ap_network-on_access_point c ip = ground arith

pub request_destination-meter_network : (c : Config) → request_destination c ≡ meter_network c
unfolding request_destination meter_network
request_destination-meter_network c = ground arith

-- Clients share a key only if they share address and port.
pub session_key-client :
    (ip ip' port port' : ℕ)
    → port < 65536
    → port' < 65536
    → (session_key ip port == session_key ip' port') ≡ (ip' == ip && port' == port)
unfolding session_key
session_key-client ip ip' port port' h h' = ground arith
