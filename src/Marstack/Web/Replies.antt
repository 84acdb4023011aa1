-- ===== src/Marstack/Web/Replies.antt =====
-- What a client of the web server gets to see of a response.
use marsrelay.Common.{
  ℕ, ◌+◌, ◌≤◌, ◌<◌, ◌≡◌, ◌∙◌, ap, sym, refl, true, false, ◌&&◌, ltb, ◌==◌, Option, none, some, List,
  [], ◌∷◌, ◌++◌, append_assoc, length, take, drop, All, take-append-drop, drop-drop, drop_all,
  Bool-cases, inl, inr, arith,
}
use marsrelay.Marstack.{Response}
use marsrelay.Marstack.Framing.{Origin, build_raw_response}
use marsrelay.Marstack.Web.{
  Web, WebRequest, Sending, finished, failed, waiting, send_raw, by_framework, reply,
}

abbrev pub IsPrefix : List ℕ → List ℕ → Type 0
IsPrefix p s = (rest : List ℕ) × (s ≡ p ++ rest)

-- What went out is the front of what was to go out, and all of it if the loop finished.
record IsSent (whole : List ℕ) (r : List ℕ × Sending) : Type 0 where
  pub front : IsPrefix r.0 whole
  pub all : r.1 ≡ finished → r.0 ≡ whole

module _ (raw : List ℕ) (sent : ℕ) where
  none_sent :
      (ending : Sending)
      → (ending ≡ finished → [] ≡ drop sent raw)
      → IsSent (drop sent raw) ([], ending)
  none_sent ending h = record { front = (drop sent raw, refl); all = h }

  at_end : ltb sent (length raw) ≡ false → [] ≡ drop sent raw
  at_end h = sym (drop_all sent raw (ground arith))

  some_sent :
      (written : ℕ) (more : List ℕ) (ending : Sending)
      → IsSent (drop (sent + written) raw) (more, ending)
      → IsSent (drop sent raw) (take written (drop sent raw) ++ more, ending)
  some_sent written more ending v =
      let s = drop sent raw in
      let e = drop-drop sent written raw in
      record {
        front = (
          v.front.0,
          sym (take-append-drop written s)
              ∙ ap (λ t. take written s ++ t) (e ∙ v.front.1)
              ∙ sym (append_assoc (take written s) more v.front.0),
        );
        all = λ h. ap (λ t. take written s ++ t) (v.all h ∙ sym e) ∙ take-append-drop written s;
      }

send_raw-IsSent :
    (raw : List ℕ) (sent : ℕ) (results : List (Option ℕ))
    → IsSent (drop sent raw) (send_raw raw sent results)
unfolding send_raw
send_raw-IsSent raw sent [] = elim (Bool-cases (ltb sent (length raw))) [
  | inl e ↦ rw (send_raw, e) (none_sent raw sent waiting (λ h. absurd (cc)))
  | inr e ↦ rw (send_raw, e) (none_sent raw sent finished (λ h. at_end raw sent e))
]
send_raw-IsSent raw sent (none ∷ results) = elim (Bool-cases (ltb sent (length raw))) [
  | inl e ↦ rw (send_raw, e) (none_sent raw sent failed (λ h. absurd (cc)))
  | inr e ↦ rw (send_raw, e) (none_sent raw sent finished (λ h. at_end raw sent e))
]
send_raw-IsSent raw sent (some written ∷ results) = elim (Bool-cases (ltb sent (length raw))) [
  | inl e ↦
      let v = send_raw-IsSent raw (sent + written) results in
      rw (send_raw, e)
        (some_sent raw sent written (send_raw raw (sent + written) results).0
          (send_raw raw (sent + written) results).1 v)
  | inr e ↦ rw (send_raw, e) (none_sent raw sent finished (λ h. at_end raw sent e))
]

-- A send that takes a byte at least.
abbrev pub IsProgress : Option ℕ → Type 0
IsProgress none = ⊥
IsProgress (some written) = 0 < written

-- How much the sends take.
abbrev pub taken : List (Option ℕ) → ℕ
taken [] = 0
taken (none ∷ results) = taken results
taken (some written ∷ results) = written + taken results

length-taken : (results : List (Option ℕ)) → All IsProgress results → length results ≤ taken results
length-taken [] a = omega arith
length-taken (none ∷ results) a = absurd a.0
length-taken (some written ∷ results) a = omega (arith, a.0, length-taken results a.1)

send_raw-finished :
    (raw : List ℕ) (sent : ℕ) (results : List (Option ℕ))
    → All IsProgress results
    → length raw ≤ sent + taken results
    → (send_raw raw sent results).1 ≡ finished
unfolding send_raw
send_raw-finished raw sent [] a h =
    let e : ltb sent (length raw) ≡ false = ground arith in rw (send_raw, e) refl
send_raw-finished raw sent (none ∷ results) a h = absurd a.0
send_raw-finished raw sent (some written ∷ results) a h =
    elim (Bool-cases (ltb sent (length raw))) [
      | inl e ↦
          rw (send_raw, e) (send_raw-finished raw (sent + written) results a.1 (omega (arith, a.0)))
      | inr e ↦ rw (send_raw, e) refl
    ]

pub send_raw-taken :
    (raw : List ℕ) (results : List (Option ℕ))
    → All IsProgress results
    → length raw ≤ taken results
    → send_raw raw 0 results ≡ (raw, finished)
send_raw-taken raw results a h =
    let f = send_raw-finished raw 0 results a (omega arith) in
    let v = (send_raw-IsSent raw 0 results).all f in
    ap (λ b. (b, (send_raw raw 0 results).1)) v ∙ ap (λ x. (raw, x)) f

-- The sending loop ends with the raw response sent byte for byte, in whatever portions the socket
-- takes it, when no send fails and each takes a byte at least; it needs no more rounds than there are
-- bytes.
pub send_raw-whole :
    (raw : List ℕ) (results : List (Option ℕ))
    → All IsProgress results
    → length raw ≤ length results
    → send_raw raw 0 results ≡ (raw, finished)
send_raw-whole raw results a h =
    send_raw-taken raw results a (omega (arith, h, length-taken results a))

reply-raw :
    (w : Web) (r : WebRequest) (res : Response) (origin : Origin) (results : List (Option ℕ))
    → (res.code == 404) ≡ false
    → (w.raw_responses && r.has_socket) ≡ true
    → let s = send_raw (build_raw_response res origin) 0 results in
      reply w r res origin results
      ≡ record { bytes = s.0; framework = elim s.1 [ failed ↦ some (by_framework res) | _ ↦ none ] }
unfolding reply
reply-raw w r res origin results n k = rw (reply, n) (rw k refl)

-- An answer that goes out raw: a client gets a front of the raw response, the whole of it if the
-- sending loop finishes, and then nothing more unless a send has failed; but if one has, whatever
-- had gone out before, the web server's own response to the same request follows it.
pub reply-front :
    (w : Web) (r : WebRequest) (res : Response) (origin : Origin) (results : List (Option ℕ))
    → (res.code == 404) ≡ false
    → (w.raw_responses && r.has_socket) ≡ true
    → let raw = build_raw_response res origin in
      let s = send_raw raw 0 results in
      let p = reply w r res origin results in
      IsPrefix p.bytes raw
      × (s.1 ≡ finished → (p.bytes ≡ raw) × (p.framework ≡ none))
      × (s.1 ≡ waiting → p.framework ≡ none)
      × (s.1 ≡ failed → p.framework ≡ some (by_framework res))
reply-front w r res origin results n k =
    let raw = build_raw_response res origin in
    let s = send_raw raw 0 results in
    let v = send_raw-IsSent raw 0 results in
    rw (reply-raw w r res origin results n k)
      (v.front, (λ h. (v.all h, rw h refl)), (λ h. rw h refl), (λ h. rw h refl))
