-- ===== src/Broker/Topics/RoundTrip.antt =====
-- A message's topic translated for the home broker, and back again for a command.
use marsrelay.Common.{
  ℕ, ◌≡◌, ◌≢◌, ◌∙◌, refl, sym, ap, subst, Bool, true, false, List, [], ◌∷◌, map, All, ◌⊎◌, inl, inr,
  bytes_eq, bytes_eq→eq, bytes_eq_refl, Lacks, split, split-join, join-split, All-split-Lacks,
  Bool-cases, split-ne-nil, arith,
}
use marsrelay.Broker.Topics.{
  IdMapping, slash, matches_external, to_device, to_external, external_of,
  topic_uses_encrypted_external, translate_external_to_device, translate_device_to_external,
}
use marsrelay.Broker.Topics.Segments.{
  map_segments, translate_external_to_device-map_segments,
  translate_device_to_external-map_segments,
}

-- The external ids of a mapping: the plain one, and the encrypted one if there is one.
abbrev pub Names : IdMapping → List ℕ → Type 0
Names m s = (s ≡ m.external) ⊎ ((m.external_encrypted ≢ []) × (s ≡ m.external_encrypted))

-- Whoever else has an external id of `m` stands for the same device.
abbrev pub Agrees : IdMapping → IdMapping → Type 0
Agrees m n = (s : List ℕ) → Names m s → Names n s → n.device ≡ m.device

-- What the validation of the configuration ensures of the mappings: no external id stands for two
-- devices, and ids are single segments.
pub record IsUnambiguous (mappings : List IdMapping) : Type 0 where
  pub agree : All (λ m. All (Agrees m) mappings) mappings
  pub plain_segments : All (λ m. Lacks slash m.external) mappings
  pub encrypted_segments : All (λ m. Lacks slash m.external_encrypted) mappings

clash : {b : Bool} → b ≡ true → b ≡ false → ⊥
clash h k = cc

-- A segment as the battery may use it: the device id of a mapping, or no external id at all.
abbrev pub IsDevice : List IdMapping → List ℕ → Type 0
IsDevice [] s = ⊥
IsDevice (m ∷ ms) s = (s ≡ m.device) ⊎ IsDevice ms s

abbrev pub IsDeviceSide : List IdMapping → List ℕ → Type 0
IsDeviceSide mappings s = IsDevice mappings s ⊎ All (λ m. ¬ Names m s) mappings

abbrev Member : IdMapping → List IdMapping → Type 0
Member m [] = ⊥
Member m (n ∷ ns) = (m ≡ n) ⊎ Member m ns

All-Member :
    (P : IdMapping → Type 0) {m : IdMapping} (ms : List IdMapping) → All P ms → Member m ms → P m
All-Member P [] a h = absurd h
All-Member P (n ∷ ns) a (inl e) = subst P (sym e) a.0
All-Member P (n ∷ ns) a (inr h) = All-Member P ns a.1 h

matches→Names : (m : IdMapping) (s : List ℕ) → matches_external m s ≡ true → Names m s
unfolding matches_external
matches→Names m s h = ground (arith, bytes_eq→eq s m.external, bytes_eq→eq s m.external_encrypted)

Names→matches : (m : IdMapping) (s : List ℕ) → Names m s → matches_external m s ≡ true
unfolding matches_external
Names→matches m s (inl e) = rw e (rw (bytes_eq_refl m.external))
Names→matches m s (inr (h, e)) = ground (arith, bytes_eq_refl m.external_encrypted)

external_of-Names : (e : Bool) (m : IdMapping) → Names m (external_of e m)
unfolding external_of
external_of-Names e m = ground arith

to_device-agree :
    (m n : IdMapping) (ns : List IdMapping) (s : List ℕ)
    → Names m s
    → All (Agrees m) ns
    → Member n ns
    → Names n s
    → to_device ns s ≡ m.device
unfolding to_device
to_device-agree m n [] s h a i k = absurd i
to_device-agree m n (x ∷ ns) s h a i k = elim (Bool-cases (matches_external x s)) [
  | inl e ↦ rw e (a.0 s h (matches→Names x s e))
  | inr e ↦ rw e (elim i [
    | inl same ↦ absurd (clash (Names→matches x s (subst (λ y. Names y s) same k)) e)
    | inr there ↦ to_device-agree m n ns s h a.1 there k
  ])
]

to_device-unnamed :
    (ns : List IdMapping) (s : List ℕ) → All (λ m. ¬ Names m s) ns → to_device ns s ≡ s
unfolding to_device
to_device-unnamed [] s a = refl
to_device-unnamed (x ∷ ns) s a = elim (Bool-cases (matches_external x s)) [
  | inl e ↦ absurd (a.0 (matches→Names x s e))
  | inr e ↦ rw e (to_device-unnamed ns s a.1)
]

-- What a segment becomes: it stays, or it is the device id of the mapping whose external id
-- replaces it.
abbrev Replaced : Bool → List IdMapping → List IdMapping → List ℕ → Type 0
Replaced e all ms s =
    (m : IdMapping) × Member m all × (m.device ≡ s) × (to_external e ms s ≡ external_of e m)

to_external-cases :
    (e : Bool) (ms : List IdMapping) (s : List ℕ) → (to_external e ms s ≡ s) ⊎ Replaced e ms ms s
unfolding to_external
to_external-cases e [] s = inl refl
to_external-cases e (m ∷ ms) s = elim (Bool-cases (bytes_eq s m.device)) [
  | inl hit ↦ inr (m, inl refl, sym (bytes_eq→eq s m.device hit), rw hit)
  | inr miss ↦ elim (to_external-cases e ms s) [
    | inl same ↦ inl (rw miss same)
    | inr (n, there, d, r) ↦ inr (n, inr there, d, rw miss r)
  ]
]

to_external-IsDevice :
    (e : Bool) (ms : List IdMapping) (s : List ℕ) → IsDevice ms s → Replaced e ms ms s
unfolding to_external
to_external-IsDevice e [] s h = absurd h
to_external-IsDevice e (m ∷ ms) s h = elim (Bool-cases (bytes_eq s m.device)) [
  | inl hit ↦ (m, inl refl, sym (bytes_eq→eq s m.device hit), rw hit)
  | inr miss ↦ elim h [
    | inl same ↦ absurd (clash (subst (λ y. bytes_eq s y ≡ true) same (bytes_eq_refl s)) miss)
    | inr there ↦ let (n, i, d, r) = to_external-IsDevice e ms s there in (n, inr i, d, rw miss r)
  ]
]

module _ (mappings : List IdMapping) (u : IsUnambiguous mappings) (e : Bool) where
  Replaced-back :
      (s : List ℕ)
      → Replaced e mappings mappings s
      → to_device mappings (to_external e mappings s) ≡ s
  Replaced-back s (m, i, d, r) = rw r (
      to_device-agree m m mappings (external_of e m) (external_of-Names e m)
        (All-Member (λ n. All (Agrees n) mappings) mappings u.agree i) i (external_of-Names e m)
      ∙ d)

  segment_back :
      (s : List ℕ) → IsDeviceSide mappings s → to_device mappings (to_external e mappings s) ≡ s
  segment_back s (inl device) = Replaced-back s (to_external-IsDevice e mappings s device)
  segment_back s (inr unnamed) = elim (to_external-cases e mappings s) [
    | inl same ↦ rw same (to_device-unnamed mappings s unnamed)
    | inr replaced ↦ Replaced-back s replaced
  ]

  segments_back :
      (ps : List (List ℕ))
      → All (IsDeviceSide mappings) ps
      → map (to_device mappings) (map (to_external e mappings) ps) ≡ ps
  segments_back [] a = refl
  segments_back (p ∷ ps) a = rw (segment_back p a.0, segments_back ps a.1)

  Lacks-external_of : (m : IdMapping) → Member m mappings → Lacks slash (external_of e m)
  unfolding external_of
  Lacks-external_of m i = ground (
    arith,
    All-Member (λ n. Lacks slash n.external) mappings u.plain_segments i,
    All-Member (λ n. Lacks slash n.external_encrypted) mappings u.encrypted_segments i,
  )

  Lacks-to_external : (s : List ℕ) → Lacks slash s → Lacks slash (to_external e mappings s)
  Lacks-to_external s l = elim (to_external-cases e mappings s) [
    | inl same ↦ rw same l
    | inr (m, i, d, r) ↦ rw r (Lacks-external_of m i)
  ]

  All-to_external :
      (ps : List (List ℕ))
      → All (Lacks slash) ps
      → All (Lacks slash) (map (to_external e mappings) ps)
  All-to_external [] a = tt
  All-to_external (p ∷ ps) a = (Lacks-to_external p a.0, All-to_external ps a.1)

  map_segments_back :
      (topic : List ℕ) (ps : List (List ℕ))
      → split slash topic ≡ ps
      → ps ≢ []
      → All (IsDeviceSide mappings) ps
      → map_segments (to_device mappings) (map_segments (to_external e mappings) topic) ≡ topic
  map_segments_back topic [] k h a = absurd (h refl)
  map_segments_back topic (p ∷ ps) k h a =
      let l =
        All-to_external (p ∷ ps) (subst (All (Lacks slash)) k (All-split-Lacks slash topic)) in
      rw
        (
          k,
          split-join slash (to_external e mappings p) (map (to_external e mappings) ps) l,
          segments_back (p ∷ ps) a,
          ← k,
        )
        (join-split slash topic)

-- When the configured ids are unambiguous and no segment of a message's topic happens to be an
-- external id of a mapping (device ids apart), translating the topic for the home broker and
-- translating the result as a command's topic gives the topic back, whether the encrypted ids were
-- used or the plain ones.
pub translate_round_trip :
    (mappings : List IdMapping) (topic : List ℕ)
    → IsUnambiguous mappings
    → All (IsDeviceSide mappings) (split slash topic)
    → translate_external_to_device mappings (translate_device_to_external mappings topic) ≡ topic
translate_round_trip mappings topic u a =
    translate_external_to_device-map_segments mappings _
    ∙ ap (map_segments (to_device mappings))
        (translate_device_to_external-map_segments mappings topic)
    ∙ map_segments_back mappings u (topic_uses_encrypted_external topic) topic (split slash topic)
        refl (split-ne-nil slash topic) a
