-- ===== src/Dns/Tests.antt =====
-- The DNS theorems at concrete queries, and runs of the server on them.
use marsrelay.Common.{
  ℕ, ◌+◌, ◌<◌, ◌≡◌, ◌↔◌, refl, List, [], ◌∷◌, ◌++◌, Bool, true, false, none, some, replicate,
  length,
}
use marsrelay.Dns.Buffer.{byte_at, write_at}
use marsrelay.Dns.Resolver.{resolve, resolve-process_next_request}
use marsrelay.Dns.Building.{as_response}
use marsrelay.Dns.Answer.{Answerable, answered_iff, response_bytes}
use marsrelay.Dns.Component.{CaptiveDns, start, run, silent, start_unbound}
use marsrelay.Dns.{
  DnsServer, packet, process_next_request, handle_packet, receive, is_standard_query, name_end,
  skip_labels, is_a_question, build_answer, answer_record,
}

abbrev server : DnsServer
server = record { has_socket = true; server_ip = 192 ∷ 168 ∷ 4 ∷ 1 ∷ []; buffer = replicate 192 7 }

-- "a", type A, class IN.
abbrev question : List ℕ
question = 1 ∷ 97 ∷ 0 ∷ 0 ∷ 1 ∷ 0 ∷ 1 ∷ []

-- Id 0x1234, recursion desired, one question and one additional record, as a resolver with EDNS
-- sends it.
abbrev query : List ℕ
query =
    (18 ∷ 52 ∷ 1 ∷ 0 ∷ 0 ∷ 1 ∷ 0 ∷ 0 ∷ 0 ∷ 0 ∷ 0 ∷ 1 ∷ [])
    ++ (question ++ (0 ∷ 0 ∷ 41 ∷ 4 ∷ 208 ∷ 0 ∷ 0 ∷ 0 ∷ 0 ∷ 0 ∷ 0 ∷ []))

-- The answer announces the additional record, and does not hold it.
abbrev reply : List ℕ
reply =
    (18 ∷ 52 ∷ 132 ∷ 0 ∷ 0 ∷ 1 ∷ 0 ∷ 1 ∷ 0 ∷ 0 ∷ 0 ∷ 1 ∷ [])
    ++ (question ++ (192 ∷ 12 ∷ 0 ∷ 1 ∷ 0 ∷ 1 ∷ 0 ∷ 0 ∷ 1 ∷ 44 ∷ 0 ∷ 4 ∷ 192 ∷ 168 ∷ 4 ∷ 1 ∷ []))

query_answered : (process_next_request server (packet query)).1 ≡ some reply
unfolding process_next_request handle_packet receive is_standard_query name_end skip_labels
    is_a_question build_answer write_at
query_answered = refl

resolve-process_next_request_example : resolve query reply ≡ some (192 ∷ 168 ∷ 4 ∷ 1 ∷ [])
resolve-process_next_request_example =
    resolve-process_next_request server query refl refl refl reply query_answered

answered_iff_example :
    ((r : List ℕ) × ((process_next_request server (packet query)).1 ≡ some r))
    ↔ ((p : ℕ) × Answerable (receive server.buffer query) 30 p)
answered_iff_example = answered_iff server query refl refl refl

response_bytes_example :
    (p : ℕ) × Answerable (receive server.buffer query) 30 p
    × (length reply ≡ p + 21)
    × ((i : ℕ) → i < p + 5 → byte_at reply i ≡ as_response query i)
    × ((i : ℕ) → i < 16 → byte_at reply (p + 5 + i) ≡ byte_at (answer_record server.server_ip) i)
response_bytes_example = response_bytes server query refl refl refl reply query_answered

abbrev idle : CaptiveDns
idle = record { is_active = false; dns_server = none }

start_unbound_example :
    let c = start idle (192 ∷ 168 ∷ 4 ∷ 1 ∷ []) true false (replicate 192 0) in
    (c.is_active ≡ true)
    × ((m b : Bool) → start c (192 ∷ 168 ∷ 4 ∷ 1 ∷ []) m b (replicate 192 0) ≡ c)
    × (run c (packet query ∷ []) ≡ silent (packet query ∷ []))
start_unbound_example =
    start_unbound idle (192 ∷ 168 ∷ 4 ∷ 1 ∷ []) (replicate 192 0) true false (packet query ∷ [])
      refl refl
