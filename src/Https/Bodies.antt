-- ===== src/Https/Bodies.antt =====
-- The body of a request, however it is cut into reads.
use marsrelay.Common.{
  ℕ, zero, suc, ◌-◌, ◌≤◌, ◌≡◌, ◌∙◌, ap, sym, refl, true, false, not, ltb, leb, if◌then◌else◌, some,
  List, [], ◌∷◌, ◌++◌, append-nil, append_assoc, length, length-append, length-take, take, take-nil,
  take_all, min, All, codes, Bool-cases, inl, inr, arith,
}
use marsrelay.Https.Requests.{
  Read, want_io, ended, bytes, Round, done, expired, read_body, read_rest, header_value, strtoul,
}

-- The bytes of the rounds, in their order.
abbrev pub chunk_of : Read → List ℕ
chunk_of want_io = []
chunk_of ended = []
chunk_of (bytes chunk) = chunk

abbrev pub arrived : List Round → List ℕ
arrived [] = []
arrived (r ∷ rounds) = chunk_of r.read ++ arrived rounds

-- A round in time on a connection that stands.
abbrev pub IsAlive : Read → Type 0
IsAlive ended = ⊥
IsAlive _ = Unit

abbrev pub IsGood : ℕ → Round → Type 0
IsGood deadline r = (expired deadline r.now ≡ false) × IsAlive r.read

take-append_more : (m : ℕ) (s c : List ℕ) → take m (s ++ c) ≡ take m s ++ take (m - length s) c
take-append_more m [] c = let k : m - 0 ≡ m = omega arith in rw (k, take-nil m) refl
take-append_more zero (x ∷ s) c = let k : 0 - suc (length s) ≡ 0 = omega arith in rw k refl
take-append_more (suc m) (x ∷ s) c =
    let k : suc m - suc (length s) ≡ m - length s = omega arith in
    rw k (ap (λ t. x ∷ t) (take-append_more m s c))

take-min : (k : ℕ) (c : List ℕ) → take (min (length c) k) c ≡ take k c
take-min k c = elim (Bool-cases (leb k (length c))) [
  | inl l ↦ let e : min (length c) k ≡ k = ground arith in rw e refl
  | inr l ↦
      let e : min (length c) k ≡ length c = ground arith in
      rw e (take_all (length c) c (omega arith) ∙ sym (take_all k c (ground arith)))
]

-- What the loop keeps of a chunk behind the bytes `start`.
kept-take :
    (max : ℕ) (start chunk : List ℕ)
    → (if ltb (length (take max start)) max
        then take max start ++ take (min (length chunk) (max - length (take max start))) chunk
        else take max start)
      ≡ take max (start ++ chunk)
kept-take max start chunk =
    let n = length-take max start in
    elim (Bool-cases (ltb (length (take max start)) max)) [
      | inl l ↦
          let e : max - length (take max start) ≡ max - length start = ground (arith, n) in
          rw (l, e, take-min (max - length start) chunk) (sym (take-append_more max start chunk))
      | inr l ↦
          let e : max - length start ≡ 0 = ground (arith, n) in
          rw l (sym (take-append_more max start chunk ∙ rw e (append-nil (take max start))))
    ]

nil-length_zero : (s : List ℕ) → length s ≡ 0 → s ≡ []
nil-length_zero [] h = refl
nil-length_zero (x ∷ s) h = absurd (omega (arith, h))

module _ (max n deadline : ℕ) where
  abbrev Whole : List ℕ → List Round → Type 0
  Whole start rounds =
      (rest : List Round) × (read_body max n deadline (length start) (take max start) rounds
        ≡ done (take max (start ++ arrived rounds)) rest)

  body_full :
      (start : List ℕ) (rounds : List Round)
      → length (start ++ arrived rounds) ≡ n
      → n ≤ length start
      → Whole start rounds
  unfolding read_body
  body_full start [] l f =
      let e : ltb (length start) n ≡ false = ground arith in
      ([], rw (read_body, e) (rw (append-nil start) refl))
  body_full start (r ∷ rounds) l f =
      let e : ltb (length start) n ≡ false = ground arith in
      let k =
        nil-length_zero (arrived (r ∷ rounds))
          (omega (arith, l, f, length-append start (arrived (r ∷ rounds)))) in
      (r ∷ rounds, rw (read_body, e) (rw (k, append-nil start) refl))

  module _ (start : List ℕ) (now : ℕ) (rounds : List Round) (more : ltb (length start) n ≡ true)
      (early : expired deadline now ≡ false) where
    step-want_io :
        read_body max n deadline
          (length start)
          (take max start)
          (record { now = now; read = want_io } ∷ rounds)
        ≡ read_body max n deadline (length start) (take max start) rounds
    unfolding read_body
    step-want_io = rw (read_body, more) (rw early refl)

    step-bytes :
        (chunk : List ℕ)
        → read_body max n deadline
            (length start)
            (take max start)
            (record { now = now; read = bytes chunk } ∷ rounds)
          ≡ read_body max n deadline (length (start ++ chunk)) (take max (start ++ chunk)) rounds
    unfolding read_body
    step-bytes chunk =
        rw (read_body, more)
          (rw early (rw (kept-take max start chunk, length-append start chunk) refl))

  body_one :
      (start : List ℕ) (now : ℕ) (read : Read) (rounds : List Round)
      → ((s : List ℕ) → length (s ++ arrived rounds) ≡ n → Whole s rounds)
      → IsGood deadline (record { now = now; read = read })
      → ltb (length start) n ≡ true
      → length (start ++ (chunk_of read ++ arrived rounds)) ≡ n
      → Whole start (record { now = now; read = read } ∷ rounds)
  body_one start now want_io rounds ih a e l =
      let (rest, v) = ih start l in (rest, step-want_io start now rounds e a.0 ∙ v)
  body_one start now ended rounds ih a e l = absurd a.1
  body_one start now (bytes chunk) rounds ih a e l =
      let k = append_assoc start chunk (arrived rounds) in
      let (rest, v) = ih (start ++ chunk) (ap length k ∙ l) in
      (rest, step-bytes start now rounds e a.0 chunk ∙ v ∙ ap (λ b. done (take max b) rest) k)

  body-Whole :
      (start : List ℕ) (rounds : List Round)
      → All (IsGood deadline) rounds
      → length (start ++ arrived rounds) ≡ n
      → Whole start rounds
  body-Whole start [] a l = body_full start [] l (omega (arith, l, length-append start []))
  body-Whole start (r ∷ rounds) a l = elim (Bool-cases (ltb (length start) n)) [
    | inr e ↦ body_full start (r ∷ rounds) l (ground arith)
    | inl e ↦ body_one start r.now r.read rounds (λ s k. body-Whole s rounds a.1 k) a.0 e l
  ]

-- Behind headers that announce a length, a request is read to its end when exactly that many bytes
-- come in time, in whatever portions and with whatever pauses: its body is what came, cut at the
-- limit for bodies, and marked as incomplete exactly if it was announced longer than that.
pub read_rest-whole :
    (max deadline : ℕ) (method url peer headers start value : List ℕ) (rounds : List Round)
    → header_value headers (codes "Content-Length") ≡ some value
    → All (IsGood deadline) rounds
    → length (start ++ arrived rounds) ≡ strtoul value
    → (rest : List Round) × (read_rest max deadline method url peer headers start rounds
        ≡ done
            (record {
              method = method;
              url = url;
              body = take max (start ++ arrived rounds);
              source_ip = peer;
              body_complete = not (ltb max (strtoul value));
            })
            rest)
unfolding read_rest
read_rest-whole max deadline method url peer headers start value rounds h a l =
    let (rest, v) = body-Whole max (strtoul value) deadline start rounds a l in
    (rest, rw (read_rest, h) (rw v refl))
