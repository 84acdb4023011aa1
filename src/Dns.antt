-- ===== src/Dns.antt =====
-- components/capture_dns: the DNS server that answers every A query with the access point's
-- address (dns_server_esp32_idf.h, dns_server_esp32_idf.cpp), and the component around it
-- (capture_dns.h, capture_dns.cpp). A packet is a list of bytes in network order.
mod Buffer
pub mod Name
pub mod Building
pub mod Answer
pub mod Resolver
pub mod Component
pub mod Tests
use marsrelay.Common.{
  ℕ, zero, suc, ◌+◌, ◌*◌, ◌/◌, ◌%◌, Bool, true, false, not, ◌&&◌, ◌||◌, ltb, leb, ◌==◌,
  if◌then◌else◌, Option, none, some, List, [], ◌∷◌, ◌++◌, length, take, drop, get_or,
}
use Buffer.{write_at, be16, be32, read16, byte_at}

-- DNS_BUFFER_SIZE, and the packed sizes of DNSHeader, DNSQuestion and DNSAnswer.
abbrev pub buffer_size : ℕ
buffer_size = 192

abbrev pub header_size : ℕ
header_size = 12

abbrev pub question_size : ℕ
question_size = 4

abbrev pub answer_size : ℕ
answer_size = 16

-- The `while` over the labels of the queried name, on fuel: `none` is one of the two `return`s in
-- its body (or no fuel left), `some p` that the loop was left by its test at `p`.
unfoldable pub skip_labels : ℕ → List ℕ → ℕ → ℕ → Option ℕ
skip_labels zero buf len pos = none
skip_labels (suc fuel) buf len pos =
    let label_len = byte_at buf pos in
    let rest = skip_labels fuel buf len (pos + label_len + 1) in
    if ltb pos len && not (label_len == 0)
    then (if ltb 63 label_len then none else if ltb len (pos + label_len + 1) then none else rest)
    else some pos

-- The check behind the loop: `ptr` must stand on a null byte inside the packet.
unfoldable pub name_end : List ℕ → ℕ → Option ℕ
name_end buf len = elim (skip_labels (suc len) buf len header_size) [
  | none ↦ none
  | some p ↦ if leb len p || not (byte_at buf p == 0) then none else some p
]

-- DNS_QR_FLAG is bit 15, DNS_OPCODE_MASK bits 11 to 14.
unfoldable pub is_standard_query : List ℕ → Bool
is_standard_query buf =
    let flags = read16 buf 2 in
    let qd_count = read16 buf 4 in
    not (leb 32768 flags || not ((flags / 2048) % 16 == 0) || not (qd_count == 1))

-- DNS_QTYPE_A and DNS_QCLASS_IN.
unfoldable pub is_a_question : List ℕ → ℕ → Bool
is_a_question buf pos = read16 buf pos == 1 && read16 buf (pos + 2) == 1

-- The DNSAnswer record: pointer to the name, type A, class IN, TTL 300, four address bytes.
unfoldable pub answer_record : List ℕ → List ℕ
answer_record ip = be16 49164 ++ (be16 1 ++ (be16 1 ++ (be32 300 ++ (be16 4 ++ ip))))

-- From the question at `pos` on: the buffer written in place, and the bytes sent, if any.
unfoldable pub build_answer : List ℕ → List ℕ → ℕ → List ℕ × Option (List ℕ)
unfolding answer_record
build_answer ip buf pos =
    let buf1 = write_at buf 2 (be16 33792) in
    let buf2 = write_at buf1 6 (be16 1) in
    let answer_offset = pos + question_size in
    if ltb buffer_size (answer_offset + answer_size)
    then (buf2, none)
    else let buf3 = write_at buf2 answer_offset (answer_record ip) in
      (buf3, some (take (answer_offset + answer_size) buf3))

-- `process_next_request` from the received packet on: `len` bytes at the front of the buffer.
unfoldable pub handle_packet : List ℕ → List ℕ → ℕ → List ℕ × Option (List ℕ)
handle_packet ip buf len =
    if ltb len (header_size + 1)
    then (buf, none)
    else if not (is_standard_query buf)
    then (buf, none)
    else elim (name_end buf len) [
      | none ↦ (buf, none)
      | some p ↦
          if ltb len (p + 1 + question_size)
          then (buf, none)
          else if is_a_question buf (p + 1)
          then build_answer ip buf (p + 1)
          else (buf, none)
    ]

pub record DnsServer : Type 0 where
  pub has_socket : Bool
  pub server_ip : List ℕ
  pub buffer : List ℕ

-- What the socket gives: nothing (not ready, no descriptor, an error), or a packet, which
-- `recvfrom` cuts to the size of the buffer.
pub data Receive : Type 0 where
  no_packet : Receive
  packet : List ℕ → Receive

unfoldable pub receive : List ℕ → List ℕ → List ℕ
receive buf bytes = write_at buf 0 (take buffer_size bytes)

unfoldable pub process_next_request : DnsServer → Receive → DnsServer × Option (List ℕ)
unfolding handle_packet receive
process_next_request s no_packet = (s, none)
process_next_request s (packet bytes) =
    if s.has_socket
    then (let len = length (take buffer_size bytes) in
        let (buf, sent) = handle_packet s.server_ip (receive s.buffer bytes) len in
        (record s { buffer = buf }, sent))
    else (s, none)

-- `start`: `made` says that the socket was created, `bound` that `bind` returned 0.
unfoldable pub start : DnsServer → List ℕ → Bool → Bool → DnsServer
start s ip made bound = record s { server_ip = ip; has_socket = made && bound }

unfoldable pub stop : DnsServer → DnsServer
stop s = record s { has_socket = false }
