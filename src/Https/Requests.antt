-- ===== src/Https/Requests.antt =====
-- `header_value` and `read_request_` of components/marstack/marstack_https.cpp.
use marsrelay.Common.{
  ℕ, suc, ◌+◌, ◌-◌, ◌%◌, Bool, true, false, not, ◌&&◌, ◌||◌, ltb, ◌==◌, if◌then◌else◌, bytes_eq,
  Option, none, some, List, [], ◌∷◌, ◌++◌, map, length, take, drop, codes, min, sub32, find,
  find_from, substr, end_or, starts_with,
}
use marsrelay.Marstack.Paths.{to_lower}
use marsrelay.Marstack.Telemetry.{digits_value, is_space}
use marsrelay.Marstack.{Request}

abbrev pub max_header_bytes : ℕ
max_header_bytes = 2048

abbrev pub request_timeout_ms : ℕ
request_timeout_ms = 15000

-- `static_cast<int32_t>(millis() - deadline) > 0`.
unfoldable pub expired : ℕ → ℕ → Bool
expired deadline now = let d = sub32 now deadline in ltb 0 d && ltb d 2147483648

-- What `esp_tls_conn_read` returns: WANT_READ or WANT_WRITE, nothing (an error or the end), or bytes.
pub data Read : Type 0 where
  want_io : Read
  ended : Read
  bytes : List ℕ → Read

-- A round of a loop: the reading of `millis()` by which it tests the deadline, and the read.
pub record Round : Type 0 where
  pub now : ℕ
  pub read : Read

pub data Reading {ℓ} (A : Type ℓ) : Type ℓ where
  waiting : Reading A
  failed : Reading A
  done : A → List Round → Reading A

abbrev after_byte : Option ℕ → Option ℕ
after_byte none = none
after_byte (some i) = some (suc i)

-- `s.find(p)`.
unfoldable pub find_text : List ℕ → List ℕ → Option ℕ
find_text p [] = if starts_with p [] then some 0 else none
find_text p (x ∷ s) = if starts_with p (x ∷ s) then some 0 else after_byte (find_text p s)

abbrev pub crlf : List ℕ
crlf = 13 ∷ 10 ∷ []

abbrev pub skip_blanks : List ℕ → List ℕ
skip_blanks [] = []
skip_blanks (c ∷ s) = if (c == 32) || (c == 9) then skip_blanks s else c ∷ s

abbrev pub value_behind : List ℕ → List ℕ
value_behind s = let v = skip_blanks s in take (end_or (find 13 v) (length v)) v

abbrev pub starts_with_colon : List ℕ → Bool
starts_with_colon [] = false
starts_with_colon (c ∷ s) = c == b':'

-- The loop of `header_value`; `line_start` says that the position is 0 or behind a newline.
unfoldable pub header_value_from : Bool → List ℕ → List ℕ → Option (List ℕ)
header_value_from line_start name [] = none
header_value_from line_start name (x ∷ s) =
    let rest = header_value_from (x == 10) name s in
    if not (ltb (length name) (length (x ∷ s)))
    then none
    else if line_start
        && bytes_eq (map to_lower (take (length name) (x ∷ s))) (map to_lower name)
        && starts_with_colon (drop (length name) (x ∷ s))
    then some (value_behind (drop (length name + 1) (x ∷ s)))
    else rest

unfoldable pub header_value : List ℕ → List ℕ → Option (List ℕ)
header_value headers name = header_value_from true name headers

abbrev negated : ℕ → ℕ
negated n = if ltb 4294967295 n then 4294967295 else (4294967296 - n) % 4294967296

-- `strtoul(s, nullptr, 10)` on the 32-bit target; a minus sign negates in the unsigned type.
unfoldable pub strtoul : List ℕ → ℕ
strtoul [] = 0
strtoul (c ∷ s) =
    if is_space c
    then strtoul s
    else if c == b'-'
    then negated (digits_value 0 s)
    else if c == b'+'
    then min (digits_value 0 s) 4294967295
    else min (digits_value 0 (c ∷ s)) 4294967295

-- The loop up to the end of the headers: the buffer and where they end.
unfoldable pub read_headers : ℕ → List ℕ → List Round → Reading (List ℕ × ℕ)
read_headers deadline buffer [] = waiting
read_headers deadline buffer (r ∷ rounds) = if expired deadline r.now then failed else elim r.read [
  | want_io ↦ read_headers deadline buffer rounds
  | ended ↦ failed
  | bytes chunk ↦
      let more = buffer ++ chunk in
      elim (find_text (crlf ++ crlf) more) [
        | some header_end ↦ done (more, header_end) rounds
        | none ↦ elim (ltb max_header_bytes (length more)) [
          | true ↦ failed
          | false ↦ read_headers deadline more rounds
        ]
      ]
]

-- The loop over the body: `received` bytes have come, `body` is kept.
unfoldable pub read_body : ℕ → ℕ → ℕ → ℕ → List ℕ → List Round → Reading (List ℕ)
read_body max_body content_length deadline received body [] =
    if ltb received content_length then waiting else done body []
read_body max_body content_length deadline received body (r ∷ rounds) =
    if not (ltb received content_length)
    then done body (r ∷ rounds)
    else if expired deadline r.now
    then failed
    else elim r.read [
      | want_io ↦ read_body max_body content_length deadline received body rounds
      | ended ↦ failed
      | bytes chunk ↦
          let kept =
            if ltb (length body) max_body
            then body ++ take (min (length chunk) (max_body - length body)) chunk
            else body in
          read_body max_body content_length deadline (received + length chunk) kept rounds
    ]

-- The request line: method and path, if there is a space in it.
unfoldable pub request_line : List ℕ → Option (List ℕ × List ℕ)
request_line headers =
    let line = take (end_or (find_text crlf headers) (length headers)) headers in
    elim (find 32 line) [
      | none ↦ none
      | some method_end ↦
          let target_end = end_or (find_from line 32 (method_end + 1)) (length line) in
          let target = substr line (method_end + 1) (target_end - method_end - 1) in
          some (take method_end line, take (end_or (find b'?' target) (length target)) target)
    ]

abbrev whole : List ℕ → List ℕ → List ℕ → Reading (List ℕ) → Bool → Reading Request
whole method url peer waiting complete = waiting
whole method url peer failed complete = failed
whole method url peer (done body rest) complete =
    done
      (record {
        method = method;
        url = url;
        body = body;
        source_ip = peer;
        body_complete = complete;
      })
      rest

-- `read_request_` behind the loop over the headers, for a body that is `start` so far.
unfoldable pub read_rest :
    ℕ → ℕ → List ℕ → List ℕ → List ℕ → List ℕ → List ℕ → List Round → Reading Request
read_rest max_body deadline method url peer headers start rounds =
    let counted = λ (n : ℕ).
      whole method url peer
        (read_body max_body n deadline (length start) (take max_body start) rounds)
        (not (ltb max_body n)) in
    elim (header_value headers (codes "Content-Length")) [
      | some value ↦ counted (strtoul value)
      | none ↦ elim (header_value headers (codes "Transfer-Encoding")) [
        | some value ↦ whole method url peer (done [] rounds) false
        | none ↦ counted 0
      ]
    ]

-- The whole of `read_request_` for a client at `peer`.
unfoldable pub read_request : ℕ → ℕ → List ℕ → List Round → Reading Request
read_request max_body deadline peer rounds = elim (read_headers deadline [] rounds) [
  | waiting ↦ waiting
  | failed ↦ failed
  | done got rest ↦
      let headers = take got.1 got.0 in
      elim (request_line headers) [
        | none ↦ failed
        | some line ↦
            read_rest max_body deadline line.0 line.1 peer headers (drop (got.1 + 4) got.0) rest
      ]
]
