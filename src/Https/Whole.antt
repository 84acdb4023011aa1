-- ===== src/Https/Whole.antt =====
-- `read_request_` of components/marstack/marstack_https.cpp on a whole request.
use marsrelay.Common.{
  ℕ, ◌+◌, ◌≤◌, ◌≡◌, ◌∙◌, ap, sym, refl, not, ltb, some, List, [], ◌∷◌, ◌++◌, append_assoc, length,
  length-append, take, drop, take-append, starts_with, All, arith,
}
use marsrelay.Marstack.{Request}
use marsrelay.Https.Requests.{
  strtoul, Round, done, find_text, request_line, read_rest, read_request, read_headers,
  header_value,
}
use marsrelay.Https.Bodies.{arrived, IsGood, read_rest-whole}
use marsrelay.Https.Ends.{end_mark}
use marsrelay.Https.Head.{read_headers-Reads}
use marsrelay.Https.Printing.{
  RequestText, IsRequest, content_length, print_head, print_request, head-request_line,
  head-header_value, head-EndsAt,
}

-- A front of a text and what follows it, where the text goes on behind the front.
front_of :
    (s t got rest : List ℕ)
    → got ++ rest ≡ s ++ t
    → length s ≤ length got
    → (got ≡ s ++ drop (length s) got) × (drop (length s) got ++ rest ≡ t)
front_of [] t got rest e l = (refl, e)
front_of (x ∷ s) t [] rest e l = absurd (omega (arith, l))
front_of (x ∷ s) t (y ∷ got) rest e l =
    let l' : length s ≤ length got = omega (arith, l) in
    let h : y ≡ x = cc in
    let k : got ++ rest ≡ s ++ t = cc in
    let (a, b) = front_of s t got rest k l' in (rw h (ap (λ q. x ∷ q) a), b)

request_found :
    (max deadline : ℕ) (peer : List ℕ) (rounds : List Round) (got method url : List ℕ) (n : ℕ)
    (more : List Round)
    → read_headers deadline [] rounds ≡ done (got, n) more
    → request_line (take n got) ≡ some (method, url)
    → read_request max deadline peer rounds
      ≡ read_rest max deadline method url peer (take n got) (drop (n + 4) got) more
unfolding read_request
request_found max deadline peer rounds got method url n more e l = rw (read_request, e) (rw l refl)

-- The request that is made of it, with `body` for what arrived and `announced` for its length.
abbrev read_with : ℕ → List ℕ → RequestText → List ℕ → ℕ → Request
read_with max peer r body announced = record {
  method = r.method;
  url = r.path;
  body = take max body;
  source_ip = peer;
  body_complete = not (ltb max announced);
}

abbrev pub as_read : ℕ → List ℕ → RequestText → Request
as_read max peer r = read_with max peer r r.body (length r.body)

-- A well-formed request is read as it was printed, in whatever portions and with whatever pauses it
-- arrives, if they come in time and nothing follows it: its method and its path without the query,
-- and its body, cut at the limit for bodies and marked as incomplete exactly if it is longer.
pub read_request-print_request :
    (max deadline : ℕ) (peer : List ℕ) (r : RequestText) (rounds : List Round)
    → IsRequest r
    → All (IsGood deadline) rounds
    → arrived rounds ≡ print_request r
    → (rest : List Round) × (read_request max deadline peer rounds ≡ done (as_read max peer r) rest)
read_request-print_request max deadline peer r rounds h a m =
    let head = print_head r in
    let (got, more, e, v) =
      read_headers-Reads deadline head r.body (head-EndsAt r h) h.fits [] rounds a m
        (unfold find_text in unfold starts_with in refl) in
    let size : length (head ++ end_mark) ≡ length head + 4 = length-append head end_mark in
    let (i, j) =
      front_of (head ++ end_mark) r.body got (arrived more)
        (v.missing ∙ sym (append_assoc head end_mark r.body)) (omega (arith, v.enough, size)) in
    let start = drop (length head + 4) got in
    let j' : start ++ arrived more ≡ r.body = ap (λ n. drop n got ++ arrived more) (sym size) ∙ j in
    let front : take (length head) got ≡ head =
      ap (take (length head))
        (i ∙ append_assoc head end_mark (drop (length (head ++ end_mark)) got))
      ∙ take-append head (end_mark ++ drop (length (head ++ end_mark)) got) in
    let (rest, w) =
      read_rest-whole max deadline r.method r.path peer (take (length head) got) start
        r.length_field.value more
        (ap (λ s. header_value s content_length) front ∙ head-header_value r h) v.good
        (ap length j' ∙ sym h.announced) in
    (
      rest,
      request_found max deadline peer rounds got r.method r.path (length head) more e
            (ap request_line front ∙ head-request_line r h)
          ∙ w
          ∙ ap (λ b. done (read_with max peer r b (strtoul r.length_field.value)) rest) j'
          ∙ ap (λ n. done (read_with max peer r r.body n) rest) h.announced,
    )
