-- ===== src/Marstack/Web/Uploads.antt =====
-- An upload over plain HTTP, from the pieces of its body to the answer that the battery reads.
use marsrelay.Common.{
  ℕ, ◌≤◌, ◌≡◌, ◌≢◌, ◌∙◌, ap, refl, true, not, ◌&&◌, ◌==◌, add32, Option, none, some, List, [], ◌∷◌,
  ◌+◌, length, All, Bool-cases, inl, inr, arith,
}
use marsrelay.Marstack.Paths.{http_post, method_name, is_empty}
use marsrelay.Marstack.Paths.Upload.{IsUploadOf}
use marsrelay.Marstack.Telemetry.{Json}
use marsrelay.Marstack.Framing.{Origin, build_raw_response}
use marsrelay.Marstack.Framing.Reader.{read_response}
use marsrelay.Marstack.Framing.Lines.{head_lines}
use marsrelay.Marstack.Framing.Framed.{read_response-upload_answer}
use marsrelay.Marstack.Uploads.{upload_acknowledged, told}
use marsrelay.Marstack.{Request, Clock, upload_answer}
use marsrelay.Marstack.Web.{
  Web, WebRequest, handle_body, request_body, is_current, or_empty, is_post, reply, handle_request,
}
use marsrelay.Marstack.Web.Bodies.{feed, concat, request_body-concat}
use marsrelay.Marstack.Web.Replies.{IsProgress, taken, send_raw-taken, reply-front}

-- What neither `handleBody` nor the search for the body changes.
abbrev Same : Web → Web → Type 0
Same v w = (v.marstack ≡ w.marstack) × (v.raw_responses ≡ w.raw_responses)

handle_body-Same :
    (w : Web) (address : ℕ) (piece : List ℕ) (index : ℕ)
    → Same (handle_body w address piece index) w
unfolding handle_body
handle_body-Same w address piece index = elim (Bool-cases (index == 0)) [
  | inl e ↦ rw e (refl, refl)
  | inr e ↦ rw e (refl, refl)
]

feed-Same :
    (w : Web) (address index : ℕ) (pieces : List (List ℕ)) → Same (feed w address index pieces) w
feed-Same w address index [] = (refl, refl)
feed-Same w address index (piece ∷ pieces) =
    let h = handle_body-Same w address piece index in
    let v = feed-Same (handle_body w address piece index) address (index + length piece) pieces in
    (v.0 ∙ h.0, v.1 ∙ h.1)

request_body-Same : (w : Web) (r : WebRequest) → Same (request_body w r).0 w
unfolding request_body
request_body-Same w r = elim (Bool-cases (not (is_post r.method))) [
  | inl e ↦ rw e (refl, refl)
  | inr e ↦
      elim (Bool-cases
        (is_current w.current_post_request r.address && not (is_empty w.post_body_buffer))) [
          | inl f ↦ rw e (rw f (refl, refl))
          | inr f ↦ elim (Bool-cases (not (is_empty r.plain_argument))) [
            | inl g ↦ rw e (rw f (rw g (refl, refl)))
            | inr g ↦ rw e (rw f (rw g (refl, refl)))
          ]
        ]
]

-- The request that `handleRequest` hands to `dispatch`.
abbrev pub dispatched : WebRequest → List ℕ → Request
dispatched r body = record {
  method = method_name r.method;
  url = r.url;
  body = body;
  source_ip = or_empty r.peer;
  body_complete = true;
}

-- An upload whose body the web server hands over in pieces is acknowledged on a socket of its own, if
-- raw responses are switched on, each send takes a byte at least and they take as many as there are: a
-- client that reads the bytes
-- that were sent finds the acknowledgement with the gateway's headers, with nothing of the web
-- server's own behind it; the upload is counted; and the upload triggers are told what the pieces
-- hold together, whatever an earlier request has left in the buffer.
pub handle_request-upload :
    (json : Json) (w : Web) (r : WebRequest) (piece : List ℕ) (pieces : List (List ℕ)) (id : List ℕ)
    (now : ℕ) (clock : Clock) (origin : Origin) (results : List (Option ℕ))
    → r.method ≡ http_post
    → concat (piece ∷ pieces) ≢ []
    → IsUploadOf id r.url
    → w.raw_responses ≡ true
    → r.has_socket ≡ true
    → All IsProgress results
    → length (build_raw_response upload_answer origin) ≤ taken results
    → let x =
        handle_request json (feed w r.address 0 (piece ∷ pieces)) r now clock origin results in
      (read_response x.1.bytes ≡ some (head_lines upload_answer origin, upload_answer.body, []))
      × (x.1.framework ≡ none)
      × (x.0.marstack.venus_upload_count ≡ add32 w.marstack.venus_upload_count 1)
      × (x.2.venus_uploads
          ≡ told json w.marstack.config.venus_upload_triggers id
              (dispatched r (concat (piece ∷ pieces))))
unfolding handle_request
handle_request-upload json w r piece pieces id now clock origin results m n u raw socket a l =
    let v = feed w r.address 0 (piece ∷ pieces) in
    let body = request_body-concat w r piece pieces m n in
    let kept = feed-Same w r.address 0 (piece ∷ pieces) in
    let c = (request_body v r).0 in
    let same = request_body-Same v r in
    let marstack = same.0 ∙ kept.0 in
    let is_raw : (c.raw_responses && r.has_socket) ≡ true = ground (arith, same.1, kept.1) in
    let (answer, counted, sent) =
      upload_acknowledged json c.marstack (dispatched r (request_body v r).1) now clock id
        (ap method_name m) u in
    let whole = send_raw-taken (build_raw_response upload_answer origin) results a l in
    let front =
      (reply-front c r upload_answer origin results refl is_raw).1 (ap (λ x. x.1) whole) in
    let to_client = ap (λ x. reply c r x origin results) answer in
    (
      ap (λ x. read_response x.bytes) to_client
          ∙ ap read_response front.0
          ∙ read_response-upload_answer origin,
      ap (λ x. x.framework) to_client ∙ front.1,
      counted ∙ ap (λ x. add32 x.venus_upload_count 1) marstack,
      sent
          ∙ ap
              (λ x. told json x.config.venus_upload_triggers id (dispatched r (request_body v r).1))
              marstack
          ∙ ap (λ x. told json w.marstack.config.venus_upload_triggers id (dispatched r x)) body,
    )
