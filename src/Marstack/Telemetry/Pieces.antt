-- ===== src/Marstack/Telemetry/Pieces.antt =====
-- The decoding loop against the pieces of the text between its ampersands.
use marsrelay.Common.{
  ℕ, zero, suc, ◌+◌, ◌-◌, ◌≤◌, ◌<◌, ◌≡◌, ◌∙◌, ap, sym, refl, true, false, ltb, leb, none, some,
  List, [], ◌∷◌, length, take, drop, take_all, drop_all, drop-drop, length-drop, find, find_from,
  end_or, split, split-none, split-some, Bool-cases, Option-cases, inl, inr, arith,
}
use marsrelay.Marstack.Url.{ampersand, equals_sign, url_decode}
use marsrelay.Marstack.Url.Query.{end-none, end-some}
use marsrelay.Common.{find-take, find-take_beyond, find-take-none, take-take, drop-take}
use marsrelay.Marstack.Telemetry.{Decoded, put, put_piece, decode_pieces, decode_blob}

-- A piece `key=value` is put under its key, up to the first equals sign; without one it is left out.
unfoldable pub put_text : Decoded → List ℕ → Decoded
put_text d piece = elim (find equals_sign piece) [
  | none ↦ d
  | some i ↦ put d (take i piece) (drop (suc i) piece)
]

abbrev pub put_all : Decoded → List (List ℕ) → Decoded
put_all d [] = d
put_all d (piece ∷ pieces) = put_all (put_text d piece) pieces

module _ (d : Decoded) (text : List ℕ) (start n : ℕ) where
  put_piece-none :
      find equals_sign (drop start text) ≡ none
      → put_piece d text start (start + n) ≡ put_text d (take n (drop start text))
  unfolding put_piece put_text find_from
  put_piece-none e =
      rw (put_text, find-take-none equals_sign (drop start text) n e)
        (rw (put_piece, find_from, e) refl)

  put_piece-beyond :
      (i : ℕ)
      → find equals_sign (drop start text) ≡ some i
      → n ≤ i
      → put_piece d text start (start + n) ≡ put_text d (take n (drop start text))
  unfolding put_piece put_text find_from
  put_piece-beyond i e l =
      let k : leb (start + n) (start + i) ≡ true = ground arith in
      rw (put_text, find-take_beyond equals_sign (drop start text) n i e l)
        (rw (put_piece, find_from, e) (rw k refl))

  put_piece-inside :
      (i : ℕ)
      → find equals_sign (drop start text) ≡ some i
      → i < n
      → put_piece d text start (start + n) ≡ put_text d (take n (drop start text))
  unfolding put_piece put_text find_from
  put_piece-inside i e l =
      let k : leb (start + n) (start + i) ≡ false = ground arith in
      let j : start + i - start ≡ i = omega arith in
      let a : start + n - (start + i) - 1 ≡ n - suc i = omega arith in
      let b : start + i + 1 ≡ start + suc i = omega arith in
      rw (put_text, find-take equals_sign (drop start text) n i e l)
        (rw (put_piece, find_from, e)
          (rw
            (
              k,
              j,
              a,
              b,
              take-take (drop start text) i n (omega arith),
              drop-take (drop start text) (suc i) n,
              drop-drop start (suc i) text,
            )
            refl))

  put_piece-put_text : put_piece d text start (start + n) ≡ put_text d (take n (drop start text))
  put_piece-put_text = elim (Option-cases (find equals_sign (drop start text))) [
    | inl e ↦ put_piece-none e
    | inr (i, e) ↦ elim (Bool-cases (ltb i n)) [
      | inl l ↦ put_piece-inside i e (ground arith)
      | inr l ↦ put_piece-beyond i e (ground arith)
    ]
  ]

module _ (fuel : ℕ) (d : Decoded) (text : List ℕ) (start end : ℕ)
    (e : end_or (find_from text ampersand start) (length text) ≡ end) where
  round :
      start < length text
      → decode_pieces (suc fuel) d text start
        ≡ decode_pieces fuel (put_piece d text start end) text (end + 1)
  unfolding decode_pieces
  round h =
      let l : ltb start (length text) ≡ true = ground arith in rw (decode_pieces, l) (rw e refl)

decode_pieces-end :
    (fuel : ℕ) (d : Decoded) (text : List ℕ) (start : ℕ)
    → length text ≤ start
    → decode_pieces fuel d text start ≡ d
unfolding decode_pieces
decode_pieces-end zero d text start h = refl
decode_pieces-end (suc fuel) d text start h =
    let l : ltb start (length text) ≡ false = ground arith in rw (decode_pieces, l) refl

put_text-nil : (d : Decoded) → put_text d [] ≡ d
unfolding put_text find
put_text-nil d = refl

split-nil : split ampersand [] ≡ [] ∷ []
unfolding split
split-nil = refl

past_end :
    (fuel : ℕ) (d : Decoded) (text : List ℕ) (start : ℕ)
    → length text ≤ start
    → decode_pieces fuel d text start ≡ put_all d (split ampersand (drop start text))
past_end fuel d text start h =
    decode_pieces-end fuel d text start h
    ∙ rw (drop_all start text h, split-nil) (sym (put_text-nil d))

decode_pieces-put_all :
    (fuel : ℕ) (d : Decoded) (text : List ℕ) (start : ℕ)
    → length text ≤ fuel + start
    → decode_pieces fuel d text start ≡ put_all d (split ampersand (drop start text))
decode_pieces-put_all zero d text start f = past_end zero d text start (omega arith)
decode_pieces-put_all (suc fuel) d text start f = elim (Bool-cases (ltb start (length text))) [
  | inr over ↦ past_end (suc fuel) d text start (ground arith)
  | inl l ↦
      let h : start < length text = ground arith in
      elim (Option-cases (find ampersand (drop start text))) [
        | inl e ↦
            let n = length text - start in
            let k : start + n ≡ length text = omega arith in
            let w = take_all n (drop start text) (omega (arith, length-drop start text)) in
            let v : put_piece d text start (length text) ≡ put_text d (drop start text) =
              ap (λ j. put_piece d text start j) (sym k)
              ∙ put_piece-put_text d text start n
              ∙ ap (put_text d) w in
            round fuel d text start (length text) (end-none text [] start e) h
            ∙ decode_pieces-end fuel (put_piece d text start (length text)) text (length text + 1)
                (omega arith)
            ∙ rw (split-none ampersand (drop start text) e) v
        | inr (i, e) ↦
            let j : start + i + 1 ≡ start + suc i = omega arith in
            round fuel d text start (start + i) (end-some text [] start i e) h
            ∙ decode_pieces-put_all fuel (put_piece d text start (start + i)) text (start + i + 1)
                (omega arith)
            ∙ rw
                (
                  split-some ampersand (drop start text) i e,
                  put_piece-put_text d text start i,
                  j,
                  ← drop-drop start (suc i) text,
                )
                refl
      ]
]

-- A telemetry blob is decoded piece by piece: its decoded text is cut at the ampersands, and each
-- piece is put under its key in turn; the loop needs no more rounds than the text has bytes.
pub decode_blob-put_all :
    (blob : List ℕ)
    → decode_blob blob
      ≡ put_all (record { root = []; unmapped = [] }) (split ampersand (url_decode blob))
decode_blob-put_all blob =
    decode_pieces-put_all (length (url_decode blob)) (record { root = []; unmapped = [] })
      (url_decode blob) 0 (omega arith)
