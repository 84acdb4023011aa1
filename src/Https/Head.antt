-- ===== src/Https/Head.antt =====
-- The loop that reads the headers, for a message that arrives in portions.
use marsrelay.Common.{
  ℕ, ◌+◌, ◌≤◌, ◌<◌, ◌≡◌, ◌∙◌, ap, refl, false, ltb, none, some, List, [], ◌∷◌, ◌++◌, append_assoc,
  length, length-append, All, Option-cases, Bool-cases, inl, inr, arith,
}
use marsrelay.Https.Requests.{
  Read, want_io, ended, bytes, Round, done, expired, read_headers, find_text,
}
use marsrelay.Https.Bodies.{chunk_of, arrived, IsGood}
use marsrelay.Https.Ends.{end_mark, EndsAt, find_text-room, find_text-front, find_text-longer}

module _ (deadline : ℕ) (head body : List ℕ) (ends : EndsAt head)
    (fits : length head + 3 ≤ 2048) where
  abbrev pub message : List ℕ
  message = head ++ (end_mark ++ body)

  -- What the loop hands on: a front of the message that reaches behind the headers, the place where
  -- they end, and the rounds that bring what is missing.
  pub record Found (buffer : List ℕ) (rest : List Round) : Type 0 where
    pub enough : length head + 4 ≤ length buffer
    pub missing : buffer ++ arrived rest ≡ message
    pub good : All (IsGood deadline) rest

  abbrev pub Reads : List ℕ → List Round → Type 0
  Reads buffer rounds =
      (got : List ℕ) × (rest : List Round) × (read_headers deadline buffer rounds
        ≡ done (got, length head) rest)
      × Found got rest

  not_found :
      (buffer rest : List ℕ)
      → buffer ++ rest ≡ message
      → find_text end_mark buffer ≡ none
      → length buffer < length head + 4
  not_found buffer rest e n = elim (Bool-cases (ltb (length buffer) (length head + 4))) [
    | inl l ↦ ground arith
    | inr l ↦
        let f =
          find_text-front end_mark buffer rest (length head) (ap (find_text end_mark) e ∙ ends body)
            (ground arith) in
        absurd (ground (arith, n, f))
  ]

  found_at :
      (buffer rest : List ℕ) (i : ℕ)
      → buffer ++ rest ≡ message
      → find_text end_mark buffer ≡ some i
      → i ≡ length head
  found_at buffer rest i e f =
      let k = find_text-longer end_mark buffer rest i f in
      let j = ap (find_text end_mark) e ∙ ends body in ground (arith, k, j)

  module _ (buffer : List ℕ) (now : ℕ) (rounds : List Round)
      (early : expired deadline now ≡ false) where
    step-want_io :
        read_headers deadline buffer (record { now = now; read = want_io } ∷ rounds)
        ≡ read_headers deadline buffer rounds
    unfolding read_headers
    step-want_io = rw (read_headers, early) refl

    step-found :
        (chunk : List ℕ) (i : ℕ)
        → find_text end_mark (buffer ++ chunk) ≡ some i
        → read_headers deadline buffer (record { now = now; read = bytes chunk } ∷ rounds)
          ≡ done (buffer ++ chunk, i) rounds
    unfolding read_headers
    step-found chunk i f = rw (read_headers, early) (rw f refl)

    step-more :
        (chunk : List ℕ)
        → find_text end_mark (buffer ++ chunk) ≡ none
        → length (buffer ++ chunk) ≤ 2048
        → read_headers deadline buffer (record { now = now; read = bytes chunk } ∷ rounds)
          ≡ read_headers deadline (buffer ++ chunk) rounds
    unfolding read_headers
    step-more chunk f l =
        let k : ltb 2048 (length (buffer ++ chunk)) ≡ false = ground arith in
        rw (read_headers, early) (rw f (rw k refl))

  Reads-bytes :
      (buffer : List ℕ) (now : ℕ) (chunk : List ℕ) (rounds : List Round)
      → ((b : List ℕ)
          → b ++ arrived rounds ≡ message
          → find_text end_mark b ≡ none
          → Reads b rounds)
      → expired deadline now ≡ false
      → All (IsGood deadline) rounds
      → (buffer ++ chunk) ++ arrived rounds ≡ message
      → Reads buffer (record { now = now; read = bytes chunk } ∷ rounds)
  Reads-bytes buffer now chunk rounds ih early a m =
      elim (Option-cases (find_text end_mark (buffer ++ chunk))) [
        | inl f ↦
            let l = not_found (buffer ++ chunk) (arrived rounds) m f in
            let (got, rest, r, v) = ih (buffer ++ chunk) m f in
            (got, rest, step-more buffer now rounds early chunk f (omega (arith, l, fits)) ∙ r, v)
        | inr (i, f) ↦
            let k = found_at (buffer ++ chunk) (arrived rounds) i m f in
            (
              buffer ++ chunk,
              rounds,
              step-found buffer now rounds early chunk i f
                  ∙ ap (λ j. done (buffer ++ chunk, j) rounds) k,
              record {
                enough = omega (arith, k, find_text-room end_mark (buffer ++ chunk) i f);
                missing = m;
                good = a;
              },
            )
      ]

  Reads-one :
      (buffer : List ℕ) (now : ℕ) (read : Read) (rounds : List Round)
      → ((b : List ℕ)
          → b ++ arrived rounds ≡ message
          → find_text end_mark b ≡ none
          → Reads b rounds)
      → IsGood deadline (record { now = now; read = read })
      → All (IsGood deadline) rounds
      → buffer ++ (chunk_of read ++ arrived rounds) ≡ message
      → find_text end_mark buffer ≡ none
      → Reads buffer (record { now = now; read = read } ∷ rounds)
  Reads-one buffer now want_io rounds ih g a m f =
      let (got, rest, r, v) = ih buffer m f in
      (got, rest, step-want_io buffer now rounds g.0 ∙ r, v)
  Reads-one buffer now ended rounds ih g a m f = absurd g.1
  Reads-one buffer now (bytes chunk) rounds ih g a m f =
      Reads-bytes buffer now chunk rounds ih g.0 a (append_assoc buffer chunk (arrived rounds) ∙ m)

  -- However the message is cut, the loop goes on to the end of its headers.
  pub read_headers-Reads :
      (buffer : List ℕ) (rounds : List Round)
      → All (IsGood deadline) rounds
      → buffer ++ arrived rounds ≡ message
      → find_text end_mark buffer ≡ none
      → Reads buffer rounds
  read_headers-Reads buffer [] a m f =
      let l = not_found buffer [] m f in
      let k = ap length m in
      absurd (omega (arith, l, k, length-append buffer [], length-append head (end_mark ++ body)))
  read_headers-Reads buffer (r ∷ rounds) a m f =
      Reads-one buffer r.now r.read rounds (λ b k g. read_headers-Reads b rounds a.1 k g) a.0 a.1 m
        f
