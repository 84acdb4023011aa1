-- ===== src/Marstack/Paths/Upload.antt =====
-- Which paths are telemetry uploads, and of which device.
use marsrelay.Common.{
  ℕ, ◌≤◌, ◌<◌, ◌≡◌, ◌≢◌, ◌↔◌, ◌∙◌, ap, subst, sym, refl, true, false, not, leb, none, some, List,
  [], ◌∷◌, ◌++◌, length, drop, length-append, drop-append, find, find_from, starts_with, Lacks,
  find-none-Lacks, Lacks-find-none, Bool-cases, Option-cases, inl, inr, arith,
}
use marsrelay.Marstack.Paths.{
  slash, upload_prefix, is_empty, data_upload_device_id, is_data_upload_path,
}

starts_with-append : (p s : List ℕ) → starts_with p (p ++ s) ≡ true
unfolding starts_with
starts_with-append [] s = refl
starts_with-append (x ∷ p) s = ground (arith, starts_with-append p s)

starts_with-drop : (p s : List ℕ) → starts_with p s ≡ true → s ≡ p ++ drop (length p) s
unfolding starts_with
starts_with-drop [] s h = refl
starts_with-drop (x ∷ p) [] h = cc
starts_with-drop (x ∷ p) (y ∷ s) h = ground (arith, starts_with-drop p s)

-- The path of the uploads of a device.
abbrev pub IsUploadOf : List ℕ → List ℕ → Type 0
IsUploadOf id url = (url ≡ upload_prefix ++ id) × (id ≢ []) × Lacks slash id

device_id-short :
    (url : List ℕ) → length url ≤ length upload_prefix → data_upload_device_id url ≡ []
unfolding data_upload_device_id
device_id-short url h =
    let k : leb (length url) (length upload_prefix) ≡ true = ground arith in
    rw (data_upload_device_id, k) refl

device_id-other :
    (url : List ℕ) → starts_with upload_prefix url ≡ false → data_upload_device_id url ≡ []
unfolding data_upload_device_id
device_id-other url h = elim (Bool-cases (leb (length url) (length upload_prefix))) [
  | inl k ↦ rw (data_upload_device_id, k) refl
  | inr k ↦ rw (data_upload_device_id, k) (rw h refl)
]

module _ (url : List ℕ) (long : length upload_prefix < length url)
    (here : starts_with upload_prefix url ≡ true) where
  device_id-deeper :
      (i : ℕ)
      → find slash (drop (length upload_prefix) url) ≡ some i
      → data_upload_device_id url ≡ []
  unfolding data_upload_device_id find_from
  device_id-deeper i e =
      let k : leb (length url) (length upload_prefix) ≡ false = ground arith in
      rw (data_upload_device_id, k) (rw here (rw (find_from, e) refl))

  device_id-upload :
      find slash (drop (length upload_prefix) url) ≡ none
      → data_upload_device_id url ≡ drop (length upload_prefix) url
  unfolding data_upload_device_id find_from
  device_id-upload e =
      let k : leb (length url) (length upload_prefix) ≡ false = ground arith in
      rw (data_upload_device_id, k) (rw here (rw (find_from, e) refl))

nil-length : (s : List ℕ) → s ≢ [] → 0 < length s
nil-length [] h = absurd (h refl)
nil-length (x ∷ s) h = omega arith

upload-device_id : (id url : List ℕ) → IsUploadOf id url → data_upload_device_id url ≡ id
upload-device_id id url (e, h, l) =
    let d : drop (length upload_prefix) url ≡ id = rw e (drop-append upload_prefix id) in
    device_id-upload url
      (omega (arith, ap length e, length-append upload_prefix id, nil-length id h))
      (ap (starts_with upload_prefix) e ∙ starts_with-append upload_prefix id)
      (ap (find slash) d ∙ Lacks-find-none slash id l)
    ∙ d

device_id-IsUploadOf :
    (url : List ℕ) → data_upload_device_id url ≢ [] → IsUploadOf (data_upload_device_id url) url
device_id-IsUploadOf url h = elim (Bool-cases (leb (length url) (length upload_prefix))) [
  | inl k ↦ absurd (h (device_id-short url (ground arith)))
  | inr k ↦ elim (Bool-cases (starts_with upload_prefix url)) [
    | inr other ↦ absurd (h (device_id-other url other))
    | inl here ↦ elim (Option-cases (find slash (drop (length upload_prefix) url))) [
      | inr (i, e) ↦ absurd (h (device_id-deeper url (ground arith) here i e))
      | inl e ↦
          let d = device_id-upload url (ground arith) here e in
          (rw d (starts_with-drop upload_prefix url here), h, rw d (find-none-Lacks slash _ e))
    ]
  ]
]

-- A path is taken for a telemetry upload of the device `id`, which is not empty, exactly if it is the
-- prefix of the uploads, `/data-upload/v1/venus/`, and then `id` in one segment.
pub data_upload_device_id-IsUploadOf :
    (url id : List ℕ) → ((data_upload_device_id url ≡ id) × (id ≢ [])) ↔ IsUploadOf id url
data_upload_device_id-IsUploadOf url id = (
  (λ (e, h). subst (λ x. IsUploadOf x url) e (device_id-IsUploadOf url (λ n. h (sym e ∙ n)))),
  (λ u. (upload-device_id id url u, u.1)),
)

clash : {A : Type 0} → false ≡ true → A
clash h = absurd (ground (arith, h))

not-is_empty : (s : List ℕ) → (not (is_empty s) ≡ true) → s ≢ []
not-is_empty [] h = absurd (clash h)
not-is_empty (x ∷ s) h = λ e. cc

pub is_data_upload_path-device :
    (url : List ℕ) → is_data_upload_path url ≡ true → IsUploadOf (data_upload_device_id url) url
unfolding is_data_upload_path
is_data_upload_path-device url h = device_id-IsUploadOf url (not-is_empty _ h)
