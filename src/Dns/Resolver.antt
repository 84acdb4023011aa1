-- ===== src/Dns/Resolver.antt =====
-- A resolver that reads the answer to its query, as RFC 1035 says.
use marsrelay.Common.{
  ℕ, zero, suc, ◌+◌, ◌%◌, ◌≤◌, ◌<◌, ◌≡◌, ◌∙◌, ap, sym, refl, Bool, true, not, ◌&&◌, leb, ◌==◌,
  if◌then◌else◌, Option, none, some, List, [], ◌∷◌, length, take, get_or, arith,
}
use marsrelay.Dns.Buffer.{byte_at, read16}
use marsrelay.Dns.Name.{NameAt, root, label, NameAt-end}
use marsrelay.Dns.Building.{as_response}
use marsrelay.Dns.Answer.{Answerable, response_bytes, receive-byte_at}
use marsrelay.Dns.{buffer_size, DnsServer, packet, receive, process_next_request, answer_record}

-- The position behind the name at `pos`, on fuel.
unfoldable pub skip_name : ℕ → List ℕ → ℕ → Option ℕ
skip_name zero r pos = none
skip_name (suc fuel) r pos =
    let n = byte_at r pos in
    let rest = skip_name fuel r (pos + n + 1) in
    if n == 0 then some (pos + 1) else if leb 64 n then none else rest

-- The header of an answer without an error to one question, under the id of the query.
abbrev pub is_reply : List ℕ → List ℕ → Bool
is_reply query r =
    (byte_at r 0 == byte_at query 0)
    && (byte_at r 1 == byte_at query 1)
    && leb 128 (byte_at r 2)
    && (byte_at r 3 % 16 == 0)
    && (read16 r 4 == 1)
    && leb 1 (read16 r 6)

-- An A record of class IN for the name of the question, with its four bytes.
abbrev pub is_address : List ℕ → ℕ → Bool
is_address r a =
    (read16 r a == 49164)
    && (read16 r (a + 2) == 1)
    && (read16 r (a + 4) == 1)
    && (read16 r (a + 10) == 4)
    && leb (a + 16) (length r)

abbrev pub four_bytes : List ℕ → ℕ → List ℕ
four_bytes r i = byte_at r i ∷ byte_at r (i + 1) ∷ byte_at r (i + 2) ∷ byte_at r (i + 3) ∷ []

-- The address that the first record gives.
unfoldable pub resolve : List ℕ → List ℕ → Option (List ℕ)
resolve query r = if not (is_reply query r) then none else elim (skip_name (length r) r 12) [
  | none ↦ none
  | some q ↦ if is_address r (q + 4) then some (four_bytes r (q + 16)) else none
]

skip_name-NameAt :
    (fuel : ℕ) (buf r : List ℕ) {len p pos : ℕ}
    → NameAt buf len p pos
    → ((i : ℕ) → pos ≤ i → i ≤ p → byte_at r i ≡ byte_at buf i)
    → p < fuel + pos
    → skip_name fuel r pos ≡ some (p + 1)
unfolding skip_name
skip_name-NameAt zero buf r v same h = absurd (omega (arith, h, (NameAt-end v).0))
skip_name-NameAt (suc fuel) buf r (root {pos} e l z) same h =
    ground (arith, e, z, same pos (omega arith) (omega (arith, e)))
skip_name-NameAt (suc fuel) buf r {p = p} (label {pos} l k m rest) same h =
    let e = NameAt-end rest in
    let b = same pos (omega arith) (omega (arith, e.0)) in
    let ih =
      skip_name-NameAt fuel buf r rest (λ i x y. same i (omega (arith, x)) y) (omega (arith, h)) in
    let n : byte_at r pos ≡ byte_at buf pos = b in
    ground (arith, k, m, b, ap (λ x. skip_name fuel r (pos + x + 1)) b ∙ ih)

four-get_or :
    (ip : List ℕ)
    → length ip ≡ 4
    → ip ≡ get_or ip 0 0 ∷ get_or ip 1 0 ∷ get_or ip 2 0 ∷ get_or ip 3 0 ∷ []
four-get_or [] h = absurd (omega (arith, h))
four-get_or (a ∷ []) h = absurd (omega (arith, h))
four-get_or (a ∷ b ∷ []) h = absurd (omega (arith, h))
four-get_or (a ∷ b ∷ c ∷ []) h = absurd (omega (arith, h))
four-get_or (a ∷ b ∷ c ∷ d ∷ []) h = refl
four-get_or (a ∷ b ∷ c ∷ d ∷ e ∷ s) h = absurd (omega (arith, h))

module _ (ip r : List ℕ) (a : ℕ) (long : a + 16 ≤ length r)
    (rest : (i : ℕ) → i < 16 → byte_at r (a + i) ≡ byte_at (answer_record ip) i) where
  at : (i j : ℕ) → j ≡ a + i → i < 16 → byte_at r j ≡ byte_at (answer_record ip) i
  at i j e h = ap (byte_at r) e ∙ rest i h

  record-is_address : is_address r a ≡ true
  unfolding answer_record
  record-is_address = ground (
    arith,
    at 0 a (omega arith) (omega arith),
    at 1 (a + 1) (omega arith) (omega arith),
    at 2 (a + 2) (omega arith) (omega arith),
    at 3 (a + 2 + 1) (omega arith) (omega arith),
    at 4 (a + 4) (omega arith) (omega arith),
    at 5 (a + 4 + 1) (omega arith) (omega arith),
    at 10 (a + 10) (omega arith) (omega arith),
    at 11 (a + 10 + 1) (omega arith) (omega arith),
  )

  record-four_bytes : length ip ≡ 4 → four_bytes r (a + 12) ≡ ip
  unfolding answer_record
  record-four_bytes four =
      let b0 = at 12 (a + 12) (omega arith) (omega arith) in
      let b1 = at 13 (a + 12 + 1) (omega arith) (omega arith) in
      let b2 = at 14 (a + 12 + 2) (omega arith) (omega arith) in
      let b3 = at 15 (a + 12 + 3) (omega arith) (omega arith) in
      rw (b0, b1, b2, b3) (sym (four-get_or ip four))

module _ (s : DnsServer) (bytes : List ℕ) (ready : s.has_socket ≡ true)
    (four : length s.server_ip ≡ 4) (whole : length s.buffer ≡ buffer_size) where
  abbrev received : List ℕ
  received = receive s.buffer bytes

  header_is_reply :
      (r : List ℕ) (p : ℕ)
      → Answerable received (length (take buffer_size bytes)) p
      → ((i : ℕ) → i < p + 5 → byte_at r i ≡ as_response bytes i)
      → is_reply bytes r ≡ true
  header_is_reply r p a head =
      let e = NameAt-end a.name in
      ground (
        arith,
        a.count_high,
        a.count_low,
        receive-byte_at s.buffer bytes 4 whole (omega (arith, a.long_enough)),
        receive-byte_at s.buffer bytes 5 whole (omega (arith, a.long_enough)),
        head 0 (omega arith),
        head 1 (omega arith),
        head 2 (omega arith),
        head 3 (omega arith),
        head 4 (omega arith),
        head 5 (omega arith),
        head 6 (omega (arith, e.0)),
        head 7 (omega (arith, e.0)),
      )

  name_kept :
      (r : List ℕ) (p : ℕ)
      → Answerable received (length (take buffer_size bytes)) p
      → ((i : ℕ) → i < p + 5 → byte_at r i ≡ as_response bytes i)
      → (i : ℕ) → 12 ≤ i
      → i ≤ p
      → byte_at r i ≡ byte_at received i
  name_kept r p a head i l h =
      let e = NameAt-end a.name in
      let k = receive-byte_at s.buffer bytes i whole (omega (arith, h, e.1)) in
      ground (arith, head i (omega (arith, h)), k, l)

  -- Whatever the server sends for a packet, a resolver that sent the packet reads the server's address
  -- from it: the answer has the query's id and no error, the name of its question ends where the
  -- server found its end, and the first record is an address for that name.
  pub resolve-process_next_request :
      (r : List ℕ)
      → (process_next_request s (packet bytes)).1 ≡ some r
      → resolve bytes r ≡ some s.server_ip
  unfolding resolve
  resolve-process_next_request r e =
      let (p, a, l, head, rest) = response_bytes s bytes ready four whole r e in
      let n = NameAt-end a.name in
      let q =
        skip_name-NameAt (length r) received r a.name (name_kept r p a head) (omega (arith, l)) in
      let i = record-is_address s.server_ip r (p + 5) (omega (arith, l)) rest in
      let b = record-four_bytes s.server_ip r (p + 5) (omega (arith, l)) rest four in
      let k : p + 1 + 4 ≡ p + 5 = omega arith in
      let k' : p + 1 + 16 ≡ p + 5 + 12 = omega arith in
      rw (resolve, header_is_reply r p a head) (rw q (rw (k, k') (rw i (ap some b))))
