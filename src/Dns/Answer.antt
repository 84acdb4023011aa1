-- ===== src/Dns/Answer.antt =====
-- What is sent for a query, byte by byte, and when.
use marsrelay.Common.{
  ℕ, ◌+◌, ◌*◌, ◌≤◌, ◌<◌, ◌≡◌, ◌↔◌, ◌∙◌, ap, inl, inr, true, List, length, take, Option, some, arith,
  length-take, Option-cases,
}
use marsrelay.Dns.Buffer.{byte_at, write_at, get_or-take, length-write_at, get_or-write_at_in}
use marsrelay.Dns.Building.{marked, as_response, build_answer_bytes, build_answer-some}
use marsrelay.Dns.Name.{NameAt, name_end-NameAt_iff}
use marsrelay.Dns.{
  buffer_size, name_end, is_standard_query, is_a_question, answer_record, build_answer,
  handle_packet, DnsServer, packet, receive, process_next_request,
}

-- What a query must be to get an answer, with the null byte of its name at `p`, by the fields of
-- RFC 1035: in the 16 bits of the flags the response bit and the opcode, the five highest, are
-- clear; the question count is 1; type and class behind the name are A (1) and IN (1).
pub record Answerable (buf : List ℕ) (len p : ℕ) : Type 0 where
  pub long_enough : 13 ≤ len
  pub standard : byte_at buf 2 * 256 + byte_at buf 3 < 2048
  pub count_high : byte_at buf 4 ≡ 0
  pub count_low : byte_at buf 5 ≡ 1
  pub name : NameAt buf len p 12
  pub whole_question : p + 5 ≤ len
  pub type_high : byte_at buf (p + 1) ≡ 0
  pub type_low : byte_at buf (p + 2) ≡ 1
  pub class_high : byte_at buf (p + 3) ≡ 0
  pub class_low : byte_at buf (p + 4) ≡ 1
  pub room : p + 21 ≤ 192

-- The two tests of the code read these fields.
abbrev StandardFields : List ℕ → Type 0
StandardFields buf =
    (byte_at buf 2 * 256 + byte_at buf 3 < 2048) × (byte_at buf 4 ≡ 0) × (byte_at buf 5 ≡ 1)

is_standard_query-fields : (buf : List ℕ) → is_standard_query buf ≡ true → StandardFields buf
unfolding is_standard_query
is_standard_query-fields buf h = ground arith

fields-is_standard_query : (buf : List ℕ) → StandardFields buf → is_standard_query buf ≡ true
unfolding is_standard_query
fields-is_standard_query buf h = ground arith

abbrev QuestionFields : List ℕ → ℕ → Type 0
QuestionFields buf p =
    (byte_at buf (p + 1) ≡ 0)
    × (byte_at buf (p + 2) ≡ 1)
    × (byte_at buf (p + 3) ≡ 0)
    × (byte_at buf (p + 4) ≡ 1)

is_a_question-fields :
    (buf : List ℕ) (p : ℕ) → is_a_question buf (p + 1) ≡ true → QuestionFields buf p
unfolding is_a_question
is_a_question-fields buf p h = ground arith

fields-is_a_question :
    (buf : List ℕ) (p : ℕ) → QuestionFields buf p → is_a_question buf (p + 1) ≡ true
unfolding is_a_question
fields-is_a_question buf p h = ground arith

handle_packet_sent :
    (ip buf : List ℕ) (len : ℕ) (r : List ℕ)
    → (handle_packet ip buf len).1 ≡ some r
    → (p : ℕ) × (Answerable buf len p) × ((build_answer ip buf (p + 1)).1 ≡ some r)
unfolding handle_packet
handle_packet_sent ip buf len r e = elim (Option-cases (name_end buf len)) [
  | inl k ↦ ground arith
  | inr (p, k) ↦
      let f = is_standard_query-fields buf (ground arith) in
      let q = is_a_question-fields buf p (ground arith) in
      (
        p,
        record {
          long_enough = ground arith;
          standard = f.0;
          count_high = f.1;
          count_low = f.2;
          name = (name_end-NameAt_iff buf len p).0 k;
          whole_question = ground arith;
          type_high = q.0;
          type_low = q.1;
          class_high = q.2;
          class_low = q.3;
          room = unfold build_answer in ground arith;
        },
        ground arith,
      )
]

Answerable-handle_packet :
    (ip buf : List ℕ) (len p : ℕ)
    → Answerable buf len p
    → handle_packet ip buf len ≡ build_answer ip buf (p + 1)
unfolding handle_packet
Answerable-handle_packet ip buf len p a =
    let e = (name_end-NameAt_iff buf len p).1 a.name in
    let f = fields-is_standard_query buf (a.standard, a.count_high, a.count_low) in
    let q = fields-is_a_question buf p (a.type_high, a.type_low, a.class_high, a.class_low) in
    rw (e, handle_packet) (ground (arith, f, q))

pub receive-byte_at :
    (buf bytes : List ℕ) (i : ℕ)
    → length buf ≡ buffer_size
    → i < length (take buffer_size bytes)
    → byte_at (receive buf bytes) i ≡ byte_at bytes i
unfolding receive
receive-byte_at buf bytes i whole h =
    let fits : 0 + length (take buffer_size bytes) ≤ length buf =
      omega (arith, length-take buffer_size bytes) in
    let e : i ≡ 0 + i = omega arith in
    ap (byte_at (write_at buf 0 (take buffer_size bytes))) e
    ∙ get_or-write_at_in buf 0 (take buffer_size bytes) fits i h
    ∙ get_or-take buffer_size i bytes (omega (arith, length-take buffer_size bytes))

length-receive :
    (buf bytes : List ℕ) → length buf ≡ buffer_size → length (receive buf bytes) ≡ buffer_size
unfolding receive
length-receive buf bytes whole =
    length-write_at buf 0 (take buffer_size bytes) (omega (arith, length-take buffer_size bytes))
    ∙ whole

module _ (s : DnsServer) (bytes : List ℕ) (ready : s.has_socket ≡ true)
    (four : length s.server_ip ≡ 4) (whole : length s.buffer ≡ buffer_size) where
  abbrev received : List ℕ
  received = receive s.buffer bytes

  abbrev received_len : ℕ
  received_len = length (take buffer_size bytes)

  process-handle_packet :
      (process_next_request s (packet bytes)).1
      ≡ (handle_packet s.server_ip received received_len).1
  unfolding process_next_request
  process-handle_packet = rw (ready, process_next_request)

  -- A packet is answered exactly if it is longer than a header, has the response bit and the opcode
  -- clear and a question count of 1, holds a whole encoded name and a whole question behind it, with
  -- the numbers of type A and class IN, and leaves room for the answer record in the buffer.
  pub answered_iff :
      ((r : List ℕ) × ((process_next_request s (packet bytes)).1 ≡ some r))
      ↔ ((p : ℕ) × Answerable received received_len p)
  answered_iff = (
    (λ (r, e).
        let (p, a, b) =
          handle_packet_sent s.server_ip received received_len r (rw process-handle_packet at e) in
        (p, a)),
    (λ (p, a).
        let e = Answerable-handle_packet s.server_ip received received_len p a in
        let sent = build_answer-some s.server_ip received (p + 1) (omega (arith, a.room)) in
        (sent.0, process-handle_packet ∙ ap (λ (t : List ℕ × Option (List ℕ)). t.1) e ∙ sent.1)),
  )

  -- An answer is the query up to the end of its question, with the flags of an authoritative
  -- response, an answer count of 1 and every other header field as it was, followed by a record
  -- with a pointer to the name and the server's address; nothing of the query behind the question
  -- is kept.
  pub response_bytes :
      (r : List ℕ)
      → (process_next_request s (packet bytes)).1 ≡ some r
      → (p : ℕ) × Answerable received received_len p
        × (length r ≡ p + 21)
        × ((i : ℕ) → i < p + 5 → byte_at r i ≡ as_response bytes i)
        × ((i : ℕ) → i < 16 → byte_at r (p + 5 + i) ≡ byte_at (answer_record s.server_ip) i)
  response_bytes r e =
      let (p, a, b) =
        handle_packet_sent s.server_ip received received_len r (rw process-handle_packet at e) in
      let (l, head, rest) =
        build_answer_bytes s.server_ip received (p + 1) four (length-receive s.buffer bytes whole) r
          b in
      (
        p,
        a,
        omega arith,
        (λ i h.
            head i (omega arith)
            ∙ ap (marked i)
                (receive-byte_at s.buffer bytes i whole (omega (arith, a.whole_question)))),
        (λ i h. let k : p + 5 + i ≡ p + 1 + 4 + i = omega arith in ap (byte_at r) k ∙ rest i h),
      )
