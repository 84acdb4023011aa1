-- ===== src/Broker/Topics/Segments.antt =====
-- The position loop of the translations replaces every segment of the topic.
use marsrelay.Common.{
  ℕ, zero, suc, ◌+◌, ◌-◌, ◌≤◌, ◌<◌, ◌≡◌, ◌≢◌, ◌∙◌, refl, sym, leb, true, none, some, List, [], ◌∷◌,
  ◌++◌, map, append_assoc, length, take, drop, take_all, drop-drop, length-drop, find, find_from,
  find-lt-length, split, join, split-none, split-some, split-ne-nil, join-split, Option-cases, inl,
  inr, arith,
}
use marsrelay.Broker.Topics.{
  IdMapping, slash, to_device, to_external, translate_segments, translate_external_to_device,
  translate_device_to_external, topic_uses_encrypted_external,
}

-- Every segment between the slashes replaced.
abbrev pub map_segments : (List ℕ → List ℕ) → List ℕ → List ℕ
map_segments replace topic = join slash (map replace (split slash topic))

module _ (replace : List ℕ → List ℕ) where
  map_segments-none : (s : List ℕ) → find slash s ≡ none → map_segments replace s ≡ replace s
  unfolding join
  map_segments-none s e = rw (split-none slash s e)

  join-cons :
      (p : List ℕ) (ps : List (List ℕ)) → ps ≢ [] → join slash (p ∷ ps) ≡ p ++ slash ∷ join slash ps
  unfolding join
  join-cons p [] h = absurd (h refl)
  join-cons p (q ∷ ps) h = refl

  map-ne-nil : (ps : List (List ℕ)) → ps ≢ [] → map replace ps ≢ []
  map-ne-nil [] h = h
  map-ne-nil (p ∷ ps) h = λ e. cc

  map_segments-some :
      (s : List ℕ) (i : ℕ)
      → find slash s ≡ some i
      → map_segments replace s ≡ replace (take i s) ++ slash ∷ map_segments replace (drop (suc i) s)
  map_segments-some s i e =
      rw (split-some slash s i e)
        (join-cons (replace (take i s)) _ (map-ne-nil _ (split-ne-nil slash (drop (suc i) s))))

  module _ (fuel : ℕ) (topic : List ℕ) (pos : ℕ) (result : List ℕ)
      (inside : pos ≤ length topic) where
    step-none :
        find_from topic slash pos ≡ none
        → translate_segments (suc fuel) replace topic pos result
          ≡ result ++ replace (take (length topic - pos) (drop pos topic))
    unfolding translate_segments
    step-none e =
        let l : leb pos (length topic) ≡ true = ground arith in rw (l, e, translate_segments) (rw e)

    step-some :
        (n : ℕ)
        → find_from topic slash pos ≡ some n
        → translate_segments (suc fuel) replace topic pos result
          ≡ translate_segments fuel replace topic
              (n + 1)
              ((result ++ replace (take (n - pos) (drop pos topic))) ++ slash ∷ [])
    unfolding translate_segments
    step-some n e =
        let l : leb pos (length topic) ≡ true = ground arith in rw (l, e, translate_segments) (rw e)

  find_from-none :
      (topic : List ℕ) (pos : ℕ)
      → find slash (drop pos topic) ≡ none
      → find_from topic slash pos ≡ none
  unfolding find_from
  find_from-none topic pos e = rw (e, find_from)

  find_from-some :
      (topic : List ℕ) (pos i : ℕ)
      → find slash (drop pos topic) ≡ some i
      → find_from topic slash pos ≡ some (pos + i)
  unfolding find_from
  find_from-some topic pos i e = rw (e, find_from)

  translate_segments_from :
      (fuel : ℕ) (topic : List ℕ) (pos : ℕ) (result : List ℕ)
      → pos ≤ length topic
      → length topic < fuel + pos
      → translate_segments fuel replace topic pos result
        ≡ result ++ map_segments replace (drop pos topic)
  translate_segments_from zero topic pos result h f = absurd (omega arith)
  translate_segments_from (suc fuel) topic pos result h f =
      elim (Option-cases (find slash (drop pos topic))) [
        | inl e ↦
            let whole =
              take_all (length topic - pos) (drop pos topic)
                (omega (arith, length-drop pos topic)) in
            step-none fuel topic pos result h (find_from-none topic pos e)
            ∙ rw (whole, map_segments-none (drop pos topic) e)
        | inr (i, e) ↦
            let room = find-lt-length slash (drop pos topic) i e in
            let ih =
              translate_segments_from fuel topic (pos + i + 1)
                ((result ++ replace (take (pos + i - pos) (drop pos topic))) ++ slash ∷ [])
                (omega (arith, length-drop pos topic)) (omega arith) in
            let k : pos + i - pos ≡ i = omega arith in
            let k' : pos + i + 1 ≡ pos + suc i = omega arith in
            step-some fuel topic pos result h (pos + i) (find_from-some topic pos i e)
            ∙ ih
            ∙ rw (k, k', ← drop-drop pos (suc i) topic, map_segments-some (drop pos topic) i e)
                (simp append_assoc)
      ]

map_same : (f : List ℕ → List ℕ) → ((s : List ℕ) → f s ≡ s) → (ps : List (List ℕ)) → map f ps ≡ ps
map_same f h [] = refl
map_same f h (p ∷ ps) = rw (h p, map_same f h ps)

map_segments_same :
    (f : List ℕ → List ℕ)
    → ((s : List ℕ) → f s ≡ s)
    → (topic : List ℕ) → map_segments f topic ≡ topic
map_segments_same f h topic = rw (map_same f h (split slash topic)) (join-split slash topic)

-- Translating a command's topic is translating each of its segments, and the loop over positions
-- needs no more rounds than the topic has bytes, and one.
pub translate_external_to_device-map_segments :
    (mappings : List IdMapping) (topic : List ℕ)
    → translate_external_to_device mappings topic ≡ map_segments (to_device mappings) topic
unfolding translate_external_to_device
translate_external_to_device-map_segments [] topic =
    sym (map_segments_same (to_device []) (unfold to_device in λ s. refl) topic)
translate_external_to_device-map_segments (m ∷ ms) topic =
    translate_segments_from (to_device (m ∷ ms)) (length topic + 1) topic 0 [] (omega arith)
      (omega arith)

-- Likewise for a message of the battery: each segment of its topic is replaced, with the encrypted
-- form of an id on the topics that hm2mqtt uses it on.
pub translate_device_to_external-map_segments :
    (mappings : List IdMapping) (topic : List ℕ)
    → translate_device_to_external mappings topic
      ≡ map_segments (to_external (topic_uses_encrypted_external topic) mappings) topic
unfolding translate_device_to_external
translate_device_to_external-map_segments [] topic = sym (
    map_segments_same (to_external (topic_uses_encrypted_external topic) [])
      (unfold to_external in λ s. refl) topic)
translate_device_to_external-map_segments (m ∷ ms) topic =
    translate_segments_from (to_external (topic_uses_encrypted_external topic) (m ∷ ms))
      (length topic + 1) topic 0 [] (omega arith) (omega arith)
