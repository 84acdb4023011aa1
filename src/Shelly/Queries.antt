-- ===== src/Shelly/Queries.antt =====
-- Which queries are answered, and with what.
use marsrelay.Common.{
  ℕ, ℤ, ◌≡◌, ◌≢◌, ◌↔◌, ◌⊎◌, ap, sym, refl, true, false, if◌then◌else◌, bytes_eq, bytes_eq→eq,
  bytes_eq_refl, codes, Option, none, some, List, [], ◌∷◌, get_or, take, Bool-cases, Option-cases,
  inl, inr, arith,
}
use marsrelay.Shelly.{
  Arithmetic, Result, em_status, em1_status, Query, Answer, Json, ShellyEmulator, packet,
  answer_query, result_of, calculate_derived_value, total_rounded, serialized, process_socket,
  is_empty,
}
use marsrelay.Shelly.Powers.{phases, fill_powers-phases}

module _ (F : Arithmetic) where
  open F use {Float}

  -- What a status query asks for, of three powers.
  abbrev pub Reports : List Float → List ℕ → Result F → Type 0
  Reports powers method result =
      ((method ≡ codes "EM.GetStatus")
        × (result
            ≡ em_status (calculate_derived_value F (get_or powers 0 F.zero))
                (calculate_derived_value F (get_or powers 1 F.zero))
                (calculate_derived_value F (get_or powers 2 F.zero)) (total_rounded F powers)))
      ⊎ ((method ≡ codes "EM1.GetStatus") × (result ≡ em1_status (total_rounded F powers)))

  -- A query with two integer ids and the answer to it.
  pub record IsAnswer (e : ShellyEmulator) (sensors : List (Option Float)) (query : Query)
      (answer : Answer F) : Type 0 where
    pub asked : query.id ≡ some answer.id
    pub addressed : (j : ℤ) × (query.params_id ≡ some j)
    pub signed : answer.src ≡ e.device_id
    pub anyone : answer.dst ≡ codes "unknown"
    pub reports : Reports (phases F sensors) query.method answer.result

  result_of-Reports :
      (powers : List Float) (method : List ℕ) (result : Result F)
      → result_of F method powers ≡ some result
      → Reports powers method result
  unfolding result_of
  result_of-Reports powers method result h = ground (
    arith,
    h,
    bytes_eq→eq method (codes "EM.GetStatus"),
    bytes_eq→eq method (codes "EM1.GetStatus"),
  )

  em_not_em1 : bytes_eq (codes "EM1.GetStatus") (codes "EM.GetStatus") ≡ false
  unfolding bytes_eq
  em_not_em1 = refl

  Reports-result_of :
      (powers : List Float) (method : List ℕ) (result : Result F)
      → Reports powers method result
      → result_of F method powers ≡ some result
  unfolding result_of
  Reports-result_of powers method result (inl (m, r)) =
      let k = bytes_eq_refl (codes "EM.GetStatus") in rw (m, result_of, k) (ap some (sym r))
  Reports-result_of powers method result (inr (m, r)) =
      let k = bytes_eq_refl (codes "EM1.GetStatus") in
      rw (m, result_of, em_not_em1) (rw k (ap some (sym r)))

  module _ (e : ShellyEmulator) (sensors : List (Option Float)) (query : Query) where
    answer_query-IsAnswer :
        (answer : Answer F)
        → answer_query F e sensors query ≡ some answer
        → IsAnswer e sensors query answer
    unfolding answer_query
    answer_query-IsAnswer answer h =
        let f = fill_powers-phases F sensors in
        elim (Option-cases query.params_id) [
          | inl e ↦ absurd (ground (arith, h, e))
          | inr (j, e) ↦ record {
            asked = ground (arith, h, e);
            addressed = (j, e);
            signed = ground (arith, h, e);
            anyone = ground (arith, h, e);
            reports =
                result_of-Reports (phases F sensors) query.method answer.result
                  (ground (arith, h, e, f));
          }
        ]

    IsAnswer-answer_query :
        (answer : Answer F)
        → IsAnswer e sensors query answer
        → answer_query F e sensors query ≡ some answer
    unfolding answer_query
    IsAnswer-answer_query answer a =
        let r = Reports-result_of (phases F sensors) query.method answer.result a.reports in
        ground (arith, r, fill_powers-phases F sensors)

  serialized-some :
      (json : Json F) (answer : Answer F) (out : List ℕ)
      → (serialized F json answer ≡ some out)
        ↔ ((out ≡ take 512 (json.serialize answer)) × (out ≢ []))
  unfolding serialized
  serialized-some json answer out =
      (there (take 512 (json.serialize answer)), back (take 512 (json.serialize answer)))
    where
      there :
          (t : List ℕ) → (if is_empty t then none else some t) ≡ some out → (out ≡ t) × (out ≢ [])
      there [] h = absurd (ground (arith, h))
      there (c ∷ t) h = (ground (arith, h), (λ e. ground (arith, h, e)))

      back :
          (t : List ℕ) → (out ≡ t) × (out ≢ []) → (if is_empty t then none else some t) ≡ some out
      back [] (e, n) = absurd (n e)
      back (c ∷ t) (e, n) = ap some (sym e)

  -- What a datagram must hold for `out` to be sent.
  abbrev pub Answered : Json F → ShellyEmulator → List (Option Float) → List ℕ → List ℕ → Type 0
  Answered json e sensors bytes out =
      (query : Query) × (json.parse (take 1023 bytes) ≡ some query)
      × (answer : Answer F) × IsAnswer e sensors query answer
      × (out ≡ take 512 (json.serialize answer))
      × (out ≢ [])

  module _ (json : Json F) (e : ShellyEmulator) (sensors : List (Option Float)) (c : ℕ)
      (s out : List ℕ) where
    Answered-up :
        e.has_socket ≡ true
        → process_socket F json e sensors (packet (c ∷ s)) ≡ some out
        → Answered json e sensors (c ∷ s) out
    unfolding process_socket
    Answered-up up h = elim (Option-cases (json.parse (take 1023 (c ∷ s)))) [
      | inl p ↦ absurd (ground (arith, h, p))
      | inr (query, p) ↦ elim (Option-cases (answer_query F e sensors query)) [
        | inl a ↦ absurd (ground (arith, h, p, a))
        | inr (answer, a) ↦
            let k = (serialized-some json answer out).0 (ground (arith, h, p, a)) in
            (query, p, answer, answer_query-IsAnswer e sensors query answer a, k.0, k.1)
      ]
    ]

    sent_up :
        e.has_socket ≡ true
        → Answered json e sensors (c ∷ s) out
        → process_socket F json e sensors (packet (c ∷ s)) ≡ some out
    unfolding process_socket
    sent_up up (query, p, answer, a, o, n) =
        let k = (serialized-some json answer out).1 (o, n) in
        let q = IsAnswer-answer_query e sensors query answer a in ground (arith, p, k, q)

  no_socket_silent :
      (json : Json F) (e : ShellyEmulator) (sensors : List (Option Float)) (bytes : List ℕ)
      → e.has_socket ≡ false
      → process_socket F json e sensors (packet bytes) ≡ none
  unfolding process_socket
  no_socket_silent json e sensors bytes h = rw h refl

  empty_silent :
      (json : Json F) (e : ShellyEmulator) (sensors : List (Option Float))
      → process_socket F json e sensors (packet []) ≡ none
  unfolding process_socket
  empty_silent json e sensors = ground arith

  -- A datagram is answered exactly if the emulator runs, the datagram is not empty, its first 1023
  -- bytes are a query with an integer id and an integer `params.id` for one of the two methods, and the
  -- answer, which repeats the id and reports the three powers, takes at least a byte; the first 512
  -- bytes of it are sent.
  pub process_socket-IsAnswer :
      (json : Json F) (e : ShellyEmulator) (sensors : List (Option Float)) (bytes out : List ℕ)
      → (process_socket F json e sensors (packet bytes) ≡ some out)
        ↔ ((e.has_socket ≡ true) × (bytes ≢ []) × Answered json e sensors bytes out)
  process_socket-IsAnswer json e sensors [] out =
      ((λ h. absurd (ground (arith, h, empty_silent json e sensors))), (λ h. absurd (h.1 refl)))
  process_socket-IsAnswer json e sensors (c ∷ s) out = elim (Bool-cases e.has_socket) [
    | inl up ↦ (
      (λ h. (up, (λ n. ground (arith, n)), Answered-up json e sensors c s out up h)),
      (λ h. sent_up json e sensors c s out h.0 h.2),
    )
    | inr down ↦ (
      (λ h. absurd (ground (arith, h, no_socket_silent json e sensors (c ∷ s) down))),
      (λ h. absurd (ground (arith, h.0, down))),
    )
  ]
