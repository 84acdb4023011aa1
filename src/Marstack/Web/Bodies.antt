-- ===== src/Marstack/Web/Bodies.antt =====
-- The body of a request of the web server, collected from its pieces.
use marsrelay.Common.{
  ℕ, ◌+◌, ◌≡◌, ◌≢◌, ap, refl, true, false, ◌==◌, some, List, [], ◌∷◌, ◌++◌, append-nil,
  append_assoc, length, length-append, arith,
}
use marsrelay.Marstack.Paths.{http_post}
use marsrelay.Marstack.Web.{Web, WebRequest, handle_body, request_body}

-- The web server hands over the pieces in their order, each with its place in the body.
abbrev pub feed : Web → ℕ → ℕ → List (List ℕ) → Web
feed w address index [] = w
feed w address index (piece ∷ pieces) =
    feed (handle_body w address piece index) address (index + length piece) pieces

abbrev pub concat : List (List ℕ) → List ℕ
concat [] = []
concat (piece ∷ pieces) = piece ++ concat pieces

-- A body of `address` is being collected, and it is `collected` so far.
record IsCollecting (w : Web) (address : ℕ) (collected : List ℕ) : Type 0 where
  pub current : w.current_post_request ≡ some address
  pub buffer : w.post_body_buffer ≡ collected

handle_body-first :
    (w : Web) (address : ℕ) (piece : List ℕ)
    → IsCollecting (handle_body w address piece 0) address piece
unfolding handle_body
handle_body-first w address piece = record { current = refl; buffer = refl }

handle_body-next :
    (w : Web) (address : ℕ) (piece collected : List ℕ)
    → IsCollecting w address collected
    → IsCollecting (handle_body w address piece (length collected)) address (collected ++ piece)
unfolding handle_body
handle_body-next w address piece [] v = record { current = refl; buffer = refl }
handle_body-next w address piece (x ∷ s) v =
    let k : (length (x ∷ s) == 0) ≡ false = ground arith in
    record { current = rw k v.current; buffer = rw k (ap (λ b. b ++ piece) v.buffer) }

feed-IsCollecting :
    (w : Web) (address : ℕ) (collected : List ℕ) (pieces : List (List ℕ))
    → IsCollecting w address collected
    → IsCollecting (feed w address (length collected) pieces) address (collected ++ concat pieces)
feed-IsCollecting w address collected [] v = rw (append-nil collected) v
feed-IsCollecting w address collected (piece ∷ pieces) v =
    let k = length-append collected piece in
    let ih =
      feed-IsCollecting (handle_body w address piece (length collected)) address
        (collected ++ piece) pieces (handle_body-next w address piece collected v) in
    rw (← k, ← append_assoc collected piece (concat pieces)) ih

request_body-collected :
    (w : Web) (r : WebRequest) (c : ℕ) (s : List ℕ)
    → r.method ≡ http_post
    → IsCollecting w r.address (c ∷ s)
    → (request_body w r).1 ≡ c ∷ s
unfolding request_body
request_body-collected w r c s m v =
    let k : (r.address == r.address) ≡ true = ground arith in
    rw (request_body, m) (rw (v.current, v.buffer) (rw k refl))

-- However the web server cuts the body of a POST into pieces, `handleRequest` finds their
-- concatenation, if it is not empty, whatever an earlier request has left in the buffer.
pub request_body-concat :
    (w : Web) (r : WebRequest) (piece : List ℕ) (pieces : List (List ℕ))
    → r.method ≡ http_post
    → concat (piece ∷ pieces) ≢ []
    → (request_body (feed w r.address 0 (piece ∷ pieces)) r).1 ≡ concat (piece ∷ pieces)
request_body-concat w r piece pieces m h =
    let v =
      feed-IsCollecting (handle_body w r.address piece 0) r.address piece pieces
        (handle_body-first w r.address piece) in
    let k : 0 + length piece ≡ length piece = omega arith in
    found (piece ++ concat pieces) (rw k v) h
  where
    found :
        (s : List ℕ)
        → IsCollecting (feed w r.address 0 (piece ∷ pieces)) r.address s
        → s ≢ []
        → (request_body (feed w r.address 0 (piece ∷ pieces)) r).1 ≡ s
    found [] v h = absurd (h refl)
    found (c ∷ s) v h = request_body-collected (feed w r.address 0 (piece ∷ pieces)) r c s m v
