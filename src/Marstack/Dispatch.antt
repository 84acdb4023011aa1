-- ===== src/Marstack/Dispatch.antt =====
-- What `dispatch` answers, and what it hands to the automations.
use marsrelay.Common.{
  ℕ, ◌≡◌, ◌∙◌, ap, refl, Bool, true, false, ◌||◌, bytes_eq, bytes_eq→eq, codes, Option, none, List,
  arith,
}
use marsrelay.Marstack.Paths.{
  HttpMethod, http_get, http_post, http_put, http_patch, http_delete, http_other, method_name,
  can_handle, is_get_path, is_cloud_host, is_time_path, is_data_upload_path, get_devices_apply,
  puterrinfo,
}
use marsrelay.Marstack.Telemetry.{Json}
use marsrelay.Marstack.{Marstack, Request, Clock, is_get, is_post, respond}

module _ (json : Json) (m : Marstack) (req : Request) (clock : Clock) where
  abbrev code : ℕ
  code = (respond json m req clock).1.code

  get_answered :
      is_get req ≡ true
      → is_post req ≡ false
      → code ≡ 200
      → (is_get_path req.url || is_time_path req.url) ≡ true
  unfolding respond
  get_answered g p h = ground arith

  get_unanswered :
      is_get req ≡ true
      → (is_get_path req.url || is_time_path req.url) ≡ true
      → code ≡ 404
      → (bytes_eq req.url get_devices_apply ≡ true) × (m.config.power_version ≡ 0)
  unfolding respond
  get_unanswered g k h = ground arith

  post_answered :
      is_get req ≡ false
      → is_post req ≡ true
      → code ≡ 200
      → (bytes_eq req.url puterrinfo || is_data_upload_path req.url) ≡ true
  unfolding respond
  post_answered g p h = ground arith

  post_unanswered :
      is_post req ≡ true
      → (bytes_eq req.url puterrinfo || is_data_upload_path req.url) ≡ true
      → code ≡ 404
      → ⊥
  unfolding respond
  post_unanswered p k h = ground arith

  other_unanswered : is_get req ≡ false → is_post req ≡ false → code ≡ 404
  unfolding respond
  other_unanswered g p = ground arith

-- A request of the web server, with its method by name.
abbrev pub IsMethod : HttpMethod → Request → Type 0
IsMethod method req = req.method ≡ method_name method

abbrev pub gets : HttpMethod → Bool
gets http_get = true
gets _ = false

abbrev pub posts : HttpMethod → Bool
posts http_post = true
posts _ = false

get-gets : (method : HttpMethod) → bytes_eq (method_name method) (codes "GET") ≡ gets method
unfolding method_name bytes_eq
get-gets http_get = refl
get-gets http_post = refl
get-gets http_put = refl
get-gets http_patch = refl
get-gets http_delete = refl
get-gets http_other = refl

post-posts : (method : HttpMethod) → bytes_eq (method_name method) (codes "POST") ≡ posts method
unfolding method_name bytes_eq
post-posts http_get = refl
post-posts http_post = refl
post-posts http_put = refl
post-posts http_patch = refl
post-posts http_delete = refl
post-posts http_other = refl

pub is_get-gets :
    (method : HttpMethod) (req : Request) → IsMethod method req → is_get req ≡ gets method
is_get-gets method req e = ap (λ s. bytes_eq s (codes "GET")) e ∙ get-gets method

pub is_post-posts :
    (method : HttpMethod) (req : Request) → IsMethod method req → is_post req ≡ posts method
is_post-posts method req e = ap (λ s. bytes_eq s (codes "POST")) e ∙ post-posts method

claimed_get :
    (url : List ℕ)
    → can_handle http_get none url ≡ true
    → (is_get_path url || is_time_path url) ≡ true
unfolding can_handle is_cloud_host
claimed_get url h = h

claimed_post :
    (url : List ℕ)
    → can_handle http_post none url ≡ true
    → (bytes_eq url puterrinfo || is_data_upload_path url) ≡ true
unfolding can_handle is_cloud_host
claimed_post url h = h

claims_get :
    (host : Option (List ℕ)) (url : List ℕ)
    → (is_get_path url || is_time_path url) ≡ true
    → can_handle http_get host url ≡ true
unfolding can_handle
claims_get host url h = ground arith

claims_post :
    (host : Option (List ℕ)) (url : List ℕ)
    → (bytes_eq url puterrinfo || is_data_upload_path url) ≡ true
    → can_handle http_post host url ≡ true
unfolding can_handle
claims_post host url h = ground arith

module _ (json : Json) (m : Marstack) (req : Request) (clock : Clock) where
  abbrev Reached : HttpMethod → Option (List ℕ) → Type 0
  Reached method host =
      let r = (respond json m req clock).1 in
      (r.code ≡ 200 → can_handle method host req.url ≡ true)
      × (can_handle method none req.url ≡ true
          → r.code ≡ 404
          → (method ≡ http_get) × (req.url ≡ get_devices_apply) × (m.config.power_version ≡ 0))

  unclaimed :
      (method : HttpMethod) (host : Option (List ℕ))
      → is_get req ≡ false
      → is_post req ≡ false
      → can_handle method none req.url ≡ false
      → Reached method host
  unclaimed method host g p c = (
    (λ h. absurd (ground (arith, h, other_unanswered json m req clock g p))),
    (λ k h. absurd (ground (arith, k, c))),
  )

  -- Whatever `dispatch` answers with a 200 is a request that `canHandle` claims, whichever host it
  -- names; and of the requests that are claimed without the name of a cloud host, only the one for
  -- the power class is ever answered with a 404, and only if no power class is configured.
  pub respond-can_handle :
      (method : HttpMethod) (host : Option (List ℕ))
      → IsMethod method req
      → let r = (respond json m req clock).1 in
        (r.code ≡ 200 → can_handle method host req.url ≡ true)
        × (can_handle method none req.url ≡ true
            → r.code ≡ 404
            → (method ≡ http_get) × (req.url ≡ get_devices_apply) × (m.config.power_version ≡ 0))
  respond-can_handle http_get host e =
      let g = is_get-gets http_get req e in
      let p = is_post-posts http_get req e in
      (
        (λ h. claims_get host req.url (get_answered json m req clock g p h)),
        (λ k h.
            let r = get_unanswered json m req clock g (claimed_get req.url k) h in
            (refl, bytes_eq→eq req.url get_devices_apply r.0, r.1)),
      )
  respond-can_handle http_post host e =
      let g = is_get-gets http_post req e in
      let p = is_post-posts http_post req e in
      (
        (λ h. claims_post host req.url (post_answered json m req clock g p h)),
        (λ k h. absurd (post_unanswered json m req clock p (claimed_post req.url k) h)),
      )
  respond-can_handle http_put host e =
      unclaimed http_put host (is_get-gets http_put req e) (is_post-posts http_put req e)
        (unfold can_handle in refl)
  respond-can_handle http_patch host e =
      unclaimed http_patch host (is_get-gets http_patch req e) (is_post-posts http_patch req e)
        (unfold can_handle in refl)
  respond-can_handle http_delete host e =
      unclaimed http_delete host (is_get-gets http_delete req e) (is_post-posts http_delete req e)
        (unfold can_handle in refl)
  respond-can_handle http_other host e =
      unclaimed http_other host (is_get-gets http_other req e) (is_post-posts http_other req e)
        (unfold can_handle in refl)
