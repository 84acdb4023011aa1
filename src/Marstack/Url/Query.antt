-- ===== src/Marstack/Url/Query.antt =====
-- `query_param` against the pieces of the query between its ampersands.
use marsrelay.Common.{
  find-take, find-take_beyond, find-take-none, take-take, drop-take, ℕ, zero, suc, ◌+◌, ◌-◌, ◌≤◌,
  ◌<◌, ◌≡◌, ◌∙◌, ap, sym, refl, true, false, ◌&&◌, ltb, leb, ◌==◌, if◌then◌else◌, bytes_eq,
  bytes_eq→eq, Option, none, some, List, [], ◌∷◌, length, take, drop, take_all, drop-drop,
  length-drop, length-take, find, find_from, find-lt-length, end_or, split, split-none, split-some,
  Bool-cases, Option-cases, inl, inr, arith,
}
use marsrelay.Marstack.Url.{
  ampersand, equals_sign, url_decode, value_at, query_param_from, query_param,
}

-- What a piece `name=value` gives for a name.
unfoldable pub value_of : List ℕ → List ℕ → Option (List ℕ)
value_of name piece = elim (find equals_sign piece) [
  | none ↦ none
  | some i ↦ if bytes_eq (take i piece) name then some (url_decode (drop (suc i) piece)) else none
]

-- The value of the first piece that has the name.
unfoldable pub first_value : List ℕ → List (List ℕ) → Option (List ℕ)
first_value name [] = none
first_value name (piece ∷ rest) = elim (value_of name piece) [
  | none ↦ first_value name rest
  | some value ↦ some value
]

module _ (query name : List ℕ) (pos n : ℕ) where
  value_at-none :
      find equals_sign (drop pos query) ≡ none
      → value_at query name pos (pos + n) ≡ value_of name (take n (drop pos query))
  unfolding value_at value_of find_from
  value_at-none e =
      rw (value_of, find-take-none equals_sign (drop pos query) n e)
        (rw (value_at, find_from, e) refl)

  value_at-beyond :
      (i : ℕ)
      → find equals_sign (drop pos query) ≡ some i
      → n ≤ i
      → value_at query name pos (pos + n) ≡ value_of name (take n (drop pos query))
  unfolding value_at value_of find_from
  value_at-beyond i e l =
      let k : ltb (pos + i) (pos + n) ≡ false = ground arith in
      rw (value_of, find-take_beyond equals_sign (drop pos query) n i e l)
        (rw (value_at, find_from, e) (rw k refl))

  names_agree :
      (i : ℕ) (s : List ℕ)
      → i ≤ length s
      → ((pos + i - pos == length name) && bytes_eq (take (length name) s) name)
        ≡ bytes_eq (take i s) name
  names_agree i s l =
      let k : pos + i - pos ≡ i = omega arith in
      elim (Bool-cases (i == length name)) [
        | inl same ↦ let j : i ≡ length name = ground arith in rw (k, same, j) refl
        | inr other ↦ elim (Bool-cases (bytes_eq (take i s) name)) [
          | inr miss ↦ rw (k, other, miss) refl
          | inl hit ↦
              let j = ap length (bytes_eq→eq (take i s) name hit) in
              absurd (ground (arith, j, length-take i s))
        ]
      ]

  value_at-inside :
      (i : ℕ)
      → find equals_sign (drop pos query) ≡ some i
      → i < n
      → n ≤ length (drop pos query)
      → value_at query name pos (pos + n) ≡ value_of name (take n (drop pos query))
  unfolding value_at value_of find_from
  value_at-inside i e l m =
      let k : ltb (pos + i) (pos + n) ≡ true = ground arith in
      let a : pos + n - (pos + i) - 1 ≡ n - suc i = omega arith in
      let b : pos + i + 1 ≡ pos + suc i = omega arith in
      rw (value_of, find-take equals_sign (drop pos query) n i e l)
        (rw (value_at, find_from, e)
          (rw
            (
              k,
              names_agree i (drop pos query) (omega (arith, m)),
              a,
              b,
              take-take (drop pos query) i n (omega arith),
              drop-take (drop pos query) (suc i) n,
              drop-drop pos (suc i) query,
            )
            refl))

  value_at-value_of :
      n ≤ length (drop pos query)
      → value_at query name pos (pos + n) ≡ value_of name (take n (drop pos query))
  value_at-value_of m = elim (Option-cases (find equals_sign (drop pos query))) [
    | inl e ↦ value_at-none e
    | inr (i, e) ↦ elim (Bool-cases (ltb i n)) [
      | inl l ↦ value_at-inside i e (ground arith) m
      | inr l ↦ value_at-beyond i e (ground arith)
    ]
  ]

module _ (query name : List ℕ) (fuel pos end : ℕ) (inside : pos ≤ length query)
    (e : end_or (find_from query ampersand pos) (length query) ≡ end) where
  round_hit :
      (value : List ℕ)
      → value_at query name pos end ≡ some value
      → query_param_from (suc fuel) query name pos ≡ some value
  unfolding query_param_from
  round_hit value h =
      let l : leb pos (length query) ≡ true = ground arith in
      rw (query_param_from, l) (rw e (rw h refl))

  round_last :
      end ≡ length query
      → value_at query name pos end ≡ none
      → query_param_from (suc fuel) query name pos ≡ none
  unfolding query_param_from
  round_last j h =
      let l : leb pos (length query) ≡ true = ground arith in
      let r : (end == length query) ≡ true = ground arith in
      rw (query_param_from, l) (rw e (rw h (rw e (rw r refl))))

  round_next :
      end < length query
      → value_at query name pos end ≡ none
      → query_param_from (suc fuel) query name pos ≡ query_param_from fuel query name (end + 1)
  unfolding query_param_from
  round_next j h =
      let l : leb pos (length query) ≡ true = ground arith in
      let r : (end == length query) ≡ false = ground arith in
      rw (query_param_from, l) (rw e (rw h (rw e (rw r (rw e refl)))))

module _ (query name : List ℕ) where
  piece :
      (pos i : ℕ)
      → i ≤ length (drop pos query)
      → value_at query name pos (pos + i) ≡ value_of name (take i (drop pos query))
  piece pos i l = value_at-value_of query name pos i l

  pub end-none :
      (pos : ℕ)
      → find ampersand (drop pos query) ≡ none
      → end_or (find_from query ampersand pos) (length query) ≡ length query
  unfolding find_from
  end-none pos e = rw (find_from, e) refl

  pub end-some :
      (pos i : ℕ)
      → find ampersand (drop pos query) ≡ some i
      → end_or (find_from query ampersand pos) (length query) ≡ pos + i
  unfolding find_from
  end-some pos i e = rw (find_from, e) refl

  first_value-miss :
      (p : List ℕ) (ps : List (List ℕ))
      → value_of name p ≡ none
      → first_value name (p ∷ ps) ≡ first_value name ps
  unfolding first_value
  first_value-miss p ps h = rw (first_value, h) refl

  first_value-hit :
      (p v : List ℕ) (ps : List (List ℕ))
      → value_of name p ≡ some v
      → first_value name (p ∷ ps) ≡ some v
  unfolding first_value
  first_value-hit p v ps h = rw (first_value, h) refl

  query_param_from-first_value :
      (fuel pos : ℕ)
      → pos ≤ length query
      → length query < fuel + pos
      → query_param_from fuel query name pos ≡ first_value name (split ampersand (drop pos query))
  query_param_from-first_value zero pos h f = absurd (omega arith)
  query_param_from-first_value (suc fuel) pos h f =
      elim (Option-cases (find ampersand (drop pos query))) [
        | inl e ↦
            let n = length query - pos in
            let k : pos + n ≡ length query = omega arith in
            let d = length-drop pos query in
            let v : value_at query name pos (length query) ≡ value_of name (drop pos query) =
              ap (λ j. value_at query name pos j) (sym k)
              ∙ piece pos n (omega (arith, d))
              ∙ ap (value_of name) (take_all n (drop pos query) (omega (arith, d))) in
            rw (split-none ampersand (drop pos query) e)
              (elim (Option-cases (value_of name (drop pos query))) [
                | inl miss ↦
                    round_last query name fuel pos (length query) h (end-none pos e) refl (v ∙ miss)
                    ∙ sym (first_value-miss (drop pos query) [] miss ∙ unfold first_value in refl)
                | inr (x, hit) ↦
                    round_hit query name fuel pos (length query) h (end-none pos e) x (v ∙ hit)
                    ∙ sym (first_value-hit (drop pos query) x [] hit)
              ])
        | inr (i, e) ↦
            let room = find-lt-length ampersand (drop pos query) i e in
            let d = length-drop pos query in
            let v = piece pos i (omega arith) in
            let j : pos + i + 1 ≡ pos + suc i = omega arith in
            rw (split-some ampersand (drop pos query) i e)
              (elim (Option-cases (value_of name (take i (drop pos query)))) [
                | inl miss ↦
                    round_next query name fuel pos (pos + i) h (end-some pos i e) (omega (arith, d))
                      (v ∙ miss)
                    ∙ query_param_from-first_value fuel (pos + i + 1) (omega (arith, d))
                        (omega arith)
                    ∙ rw (j, ← drop-drop pos (suc i) query) (sym (first_value-miss _ _ miss))
                | inr (x, hit) ↦
                    round_hit query name fuel pos (pos + i) h (end-some pos i e) x (v ∙ hit)
                    ∙ sym (first_value-hit _ x _ hit)
              ])
      ]

-- A parameter of a query is the value of the first piece between the ampersands that is the name, an
-- equals sign and the value, percent-decoded.
pub query_param-first_value :
    (query name : List ℕ) → query_param query name ≡ first_value name (split ampersand query)
unfolding query_param
query_param-first_value query name =
    query_param_from-first_value query name (length query + 2) 0 (omega arith) (omega arith)
