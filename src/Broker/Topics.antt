-- ===== src/Broker/Topics.antt =====
-- The topic translation of components/mosquitto_broker/mosquitto_broker.cpp, from the anonymous
-- namespace with `is_b2500_type_segment` to `translate_device_to_external_`.
pub mod Segments
pub mod RoundTrip
use Prim.Native.String.{String}
use marsrelay.Common.{
  ℕ, zero, suc, ◌+◌, ◌-◌, Bool, true, false, not, ◌&&◌, ◌||◌, leb, ◌==◌, if◌then◌else◌, bytes_eq,
  Option, none, some, List, [], ◌∷◌, ◌++◌, map, length, take, codes, find, find_from, substr,
  end_or,
}

pub record IdMapping : Type 0 where
  pub device : List ℕ
  pub external : List ℕ
  pub external_encrypted : List ℕ

abbrev pub slash : ℕ
slash = b'/'

abbrev pub is_empty : List ℕ → Bool
is_empty [] = true
is_empty (x ∷ xs) = false

-- `::toupper` in the C locale.
unfoldable pub to_upper : ℕ → ℕ
to_upper c = if leb b'a' c && leb c b'z' then c - 32 else c

unfoldable pub is_b2500_type_segment : List ℕ → Bool
unfolding to_upper
is_b2500_type_segment segment =
    let base = map to_upper (take (end_or (find b'-' segment) (length segment)) segment) in
    bytes_eq base (codes "HMA")
    || bytes_eq base (codes "HMF")
    || bytes_eq base (codes "HMK")
    || bytes_eq base (codes "HMJ")

unfoldable pub topic_uses_encrypted_external : List ℕ → Bool
topic_uses_encrypted_external topic = elim (find_from topic slash 0) [
  | none ↦ false
  | some first ↦
      if not (bytes_eq (take first topic) (codes "marstek_energy"))
      then false
      else let type_end = end_or (find_from topic slash (first + 1)) (length topic) in
        is_b2500_type_segment (substr topic (first + 1) (type_end - first - 1))
]

unfoldable pub matches_external : IdMapping → List ℕ → Bool
matches_external mapping segment =
    bytes_eq segment mapping.external
    || (not (is_empty mapping.external_encrypted) && bytes_eq segment mapping.external_encrypted)

-- The inner `for` of the two translations: what the first mapping that matches makes of the
-- segment, and the segment itself if none does.
unfoldable pub to_device : List IdMapping → List ℕ → List ℕ
to_device [] segment = segment
to_device (mapping ∷ rest) segment =
    if matches_external mapping segment then mapping.device else to_device rest segment

unfoldable pub external_of : Bool → IdMapping → List ℕ
external_of use_encrypted mapping =
    if use_encrypted && not (is_empty mapping.external_encrypted)
    then mapping.external_encrypted
    else mapping.external

unfoldable pub to_external : Bool → List IdMapping → List ℕ → List ℕ
to_external use_encrypted [] segment = segment
to_external use_encrypted (mapping ∷ rest) segment =
    if bytes_eq segment mapping.device
    then external_of use_encrypted mapping
    else to_external use_encrypted rest segment

-- The `while (pos <= topic.size())` around it, with what it appends for a segment, on fuel.
unfoldable pub translate_segments : ℕ → (List ℕ → List ℕ) → List ℕ → ℕ → List ℕ → List ℕ
translate_segments zero replace topic pos result = result
translate_segments (suc fuel) replace topic pos result =
    let next = find_from topic slash pos in
    let end = end_or next (length topic) in
    let appended = result ++ replace (substr topic pos (end - pos)) in
    let more = λ (n : ℕ). translate_segments fuel replace topic (n + 1) (appended ++ slash ∷ []) in
    elim (leb pos (length topic)) [
      | true ↦ elim next [ none ↦ appended | some n ↦ more n ]
      | false ↦ result
    ]

unfoldable pub translate_external_to_device : List IdMapping → List ℕ → List ℕ
translate_external_to_device [] topic = topic
translate_external_to_device (mapping ∷ rest) topic =
    translate_segments (length topic + 1) (to_device (mapping ∷ rest)) topic 0 []

unfoldable pub translate_device_to_external : List IdMapping → List ℕ → List ℕ
translate_device_to_external [] topic = topic
translate_device_to_external (mapping ∷ rest) topic =
    let use_encrypted = topic_uses_encrypted_external topic in
    translate_segments (length topic + 1) (to_external use_encrypted (mapping ∷ rest)) topic 0 []
