-- ===== src/Marstack/Framing/Framed.antt =====
-- What a client reads from a raw response.
use marsrelay.Common.{
  ℕ, zero, suc, ◌+◌, ◌%◌, ◌≤◌, ◌<◌, ◌≡◌, ◌∙◌, ap, refl, true, false, not, leb, ◌==◌, if◌then◌else◌,
  bytes_eq, codes, some, List, [], ◌∷◌, ◌++◌, append-nil, length, starts_with, take-append,
  drop-append, take_all, drop_all, find, find-none-Lacks, decimal, hexadecimal, read_digits,
  read-print_digits, to_string, to_hex, Bool-cases, inl, inr, arith,
}
use marsrelay.Marstack.Framing.Dates.{Lacks-print_digits}
use marsrelay.Marstack.Framing.Lines.{head_lines, behind, head_lines-headers, framed-print_lines}
use marsrelay.Marstack.{Response, upload_answer}
use marsrelay.Marstack.Framing.{
  crlf, line, Origin, http_date, reason_phrase, chunked, build_raw_response,
}
use marsrelay.Marstack.Framing.Reader.{
  IsLine, length-line, read_line, read_line-line, read_chunks, framing_of, Framing, chunks, fixed,
  read_body, read_response, read_response-print_lines,
}

-- The body that a client is meant to read.
abbrev pub body_of : Response → List ℕ
body_of res = if res.code == 200 then res.body else []

abbrev pub announced : Response → Framing
announced res =
    if not (res.code == 200)
    then fixed 0
    else if res.content_length
    then fixed (length res.body)
    else chunks

framing_of-head_lines :
    (res : Response) (o : Origin) → framing_of (head_lines res o) ≡ announced res
unfolding framing_of bytes_eq starts_with
framing_of-head_lines res o = elim (Bool-cases (res.code == 200)) [
  | inr e ↦ rw e refl
  | inl e ↦ elim (Bool-cases res.content_length) [
    | inl f ↦ rw (e, f) (ap fixed (read-print_digits decimal (length res.body)))
    | inr f ↦ rw (e, f) refl
  ]
]

read_chunks-last : (fuel : ℕ) → read_chunks (suc fuel) (chunked []) ≡ some ([], [])
unfolding read_chunks chunked read_line
read_chunks-last fuel = refl

read_chunks-cons :
    (fuel : ℕ) (size bytes rest body left : List ℕ)
    → IsLine size
    → read_digits hexadecimal 0 size ≡ length bytes
    → 0 < length bytes
    → read_chunks fuel rest ≡ some (body, left)
    → read_chunks (suc fuel) (line size (line bytes rest)) ≡ some (bytes ++ body, left)
unfolding read_chunks
read_chunks-cons fuel size bytes rest body left l n p h =
    let k : (length bytes == 0) ≡ false = ground arith in
    rw (read_chunks, read_line-line size (line bytes rest) l)
      (rw
        (
          n,
          drop-append bytes (crlf ++ rest),
          read_line-line [] rest tt,
          n,
          k,
          h,
          n,
          take-append bytes (crlf ++ rest),
        )
        refl)

read_chunks-chunked :
    (fuel : ℕ) (body : List ℕ)
    → length body < 4294967296
    → 2 ≤ fuel
    → read_chunks fuel (chunked body) ≡ some (body, [])
unfolding chunked
read_chunks-chunked zero body h f = absurd (omega arith)
read_chunks-chunked (suc zero) body h f = absurd (omega arith)
read_chunks-chunked (suc (suc fuel)) [] h f = read_chunks-last (suc fuel)
read_chunks-chunked (suc (suc fuel)) (c ∷ s) h f =
    let n = length (c ∷ s) % 4294967296 in
    let e : n ≡ length (c ∷ s) = omega arith in
    read_chunks-cons (suc fuel) (to_hex n) (c ∷ s) (chunked []) [] []
      (Lacks-print_digits (suc n) hexadecimal n [] tt) (read-print_digits hexadecimal n ∙ e)
      (omega arith) (read_chunks-last fuel)
    ∙ rw (append-nil s) refl

length-chunked : (body : List ℕ) → 1 ≤ length (chunked body)
unfolding chunked
length-chunked [] = omega arith
length-chunked (c ∷ s) = omega (
  arith,
  length-line (to_hex (length (c ∷ s) % 4294967296)) (line (c ∷ s) (line (codes "0") crlf)),
)

read_body-behind :
    (res : Response)
    → length res.body < 4294967296
    → read_body (announced res) (length (behind res) + 1) (behind res) ≡ some (body_of res, [])
unfolding read_body
read_body-behind res h = elim (Bool-cases (res.code == 200)) [
  | inr e ↦ rw e refl
  | inl e ↦ elim (Bool-cases res.content_length) [
    | inl f ↦
        let k : leb (length res.body) (length res.body) ≡ true = ground arith in
        rw (e, f)
          (rw
            (
              k,
              take_all (length res.body) res.body (omega arith),
              drop_all (length res.body) res.body (omega arith),
            )
            refl)
    | inr f ↦ rw (e, f) (read_chunks-chunked _ res.body h (omega (arith, length-chunked res.body)))
  ]
]

-- A raw response with a body shorter than 2^32 bytes and a content type without a CR is read by a
-- client, which finds the lines of the head as they were meant and the body byte for byte, an
-- empty one unless the code is 200, and finds nothing behind it on the connection, whether the body
-- is framed in a chunk or by its length.
pub read_response-build_raw_response :
    (res : Response) (o : Origin)
    → IsLine res.content_type
    → length res.body < 4294967296
    → read_response (build_raw_response res o) ≡ some (head_lines res o, body_of res, [])
unfolding build_raw_response
read_response-build_raw_response res o l h =
    ap
      (λ x. read_response (
        line (codes "HTTP/1.1 " ++ (to_string res.code ++ (codes " " ++ reason_phrase res.code)))
          (line (codes "Date: " ++ http_date o.date) x)))
      (framed-print_lines res o)
    ∙ read_response-print_lines (head_lines res o) (behind res) (body_of res) []
        (head_lines-headers res o l)
        (ap (λ x. read_body x (length (behind res) + 1) (behind res)) (framing_of-head_lines res o)
          ∙ read_body-behind res h)

json_line : IsLine upload_answer.content_type
json_line = find-none-Lacks 13 upload_answer.content_type (unfold find in refl)

-- The acknowledgement of uploads as it is read by a client.
pub read_response-upload_answer :
    (o : Origin)
    → read_response (build_raw_response upload_answer o)
      ≡ some (head_lines upload_answer o, upload_answer.body, [])
read_response-upload_answer o =
    let l : length upload_answer.body < 4294967296 = omega arith in
    read_response-build_raw_response upload_answer o json_line l
