-- ===== src/Marstack/Uploads.antt =====
-- The acknowledgement of uploads, and what the automations see of a request's body.
use marsrelay.Common.{
  ℕ, zero, suc, ◌≡◌, ◌≢◌, ◌∙◌, ap, sym, refl, Bool, true, false, not, ◌&&◌, ◌||◌, ◌==◌,
  if◌then◌else◌, bytes_eq, bytes_eq→eq, add32, List, [], ◌∷◌, replicate, All, Bool-cases, inl, inr,
  arith, starts_with, find,
}
use marsrelay.Marstack.Paths.{
  http_post, puterrinfo, is_empty, is_data_upload_path, data_upload_device_id,
}
use marsrelay.Marstack.Paths.Upload.{IsUploadOf, data_upload_device_id-IsUploadOf}
use marsrelay.Marstack.Telemetry.{Json, decode_venus_telemetry}
use marsrelay.Marstack.Dispatch.{IsMethod, is_get-gets, is_post-posts}
use marsrelay.Marstack.{
  Marstack, Request, Clock, Upload, is_get, is_post, respond, dispatch, uploads, upload_answer,
  count_request,
}

respond-body :
    (json : Json) (m : Marstack) (req : Request) (clock : Clock) (body ip : List ℕ)
    (complete : Bool)
    → let r = respond json m req clock in
      let r' =
        respond json m
          (record req { body = body; source_ip = ip; body_complete = complete })
          clock in
      (r'.0 ≡ r.0) × (r'.1 ≡ r.1)
unfolding respond
respond-body json m req clock body ip complete = ground arith

-- The answer to a request and the state behind it depend on nothing but its method and its path: the
-- body, whether it arrived whole, and the sender play no part.
pub dispatch_blind :
    (json : Json) (m : Marstack) (req : Request) (now : ℕ) (clock : Clock) (body ip : List ℕ)
    (complete : Bool)
    → let r = dispatch json m req now clock in
      let r' =
        dispatch json m
          (record req { body = body; source_ip = ip; body_complete = complete })
          now
          clock in
      (r'.0 ≡ r.0) × (r'.1 ≡ r.1)
unfolding dispatch
dispatch_blind json m req now clock body ip complete =
    respond-body json (count_request m now) req clock body ip complete

All-replicate : (P : Request → Type 0) (n : ℕ) (a : Request) → P a → All P (replicate n a)
All-replicate P zero a h = tt
All-replicate P (suc n) a h = (h, All-replicate P n a h)

respond-incomplete :
    (json : Json) (m : Marstack) (req : Request) (clock : Clock)
    → req.body_complete ≡ false
    → (respond json m req clock).2 ≡ []
unfolding respond uploads
respond-incomplete json m req clock h = ground arith

-- A body that did not arrive whole reaches no automation: the request triggers see an empty one, and
-- no telemetry is decoded from it.
pub incomplete_body_unseen :
    (json : Json) (m : Marstack) (req : Request) (now : ℕ) (clock : Clock)
    → req.body_complete ≡ false
    → let seen = (dispatch json m req now clock).2 in
      All (λ q. q.body ≡ []) seen.requests × (seen.venus_uploads ≡ [])
unfolding dispatch
incomplete_body_unseen json m req now clock h = (
  All-replicate (λ q. q.body ≡ []) m.config.request_triggers _ (rw h refl),
  respond-incomplete json (count_request m now) req clock h,
)

-- What the upload triggers are to be told of a body: nothing if it is not whole or holds no
-- telemetry, and else the same once each.
abbrev pub told : Json → ℕ → List ℕ → Request → List Upload
told json triggers id req =
    if req.body_complete && not (is_empty (decode_venus_telemetry json req.body))
    then replicate triggers
        (record { device_id = id; telemetry = decode_venus_telemetry json req.body })
    else []

told_from :
    (complete : Bool) (n : ℕ) (id telemetry : List ℕ)
    → (if not complete || (n == 0) then [] else elim telemetry [
      | [] ↦ []
      | c ∷ s ↦ replicate {A = Upload} n (record { device_id = id; telemetry = c ∷ s })
    ])
      ≡ (if complete && not (is_empty telemetry)
          then replicate n (record { device_id = id; telemetry = telemetry })
          else [])
told_from false n id telemetry = refl
told_from true zero id [] = refl
told_from true zero id (c ∷ s) = refl
told_from true (suc n) id [] = ground arith
told_from true (suc n) id (c ∷ s) = ground arith

uploads-told :
    (json : Json) (m : Marstack) (req : Request)
    → uploads json m req
      ≡ told json m.config.venus_upload_triggers (data_upload_device_id req.url) req
unfolding uploads
uploads-told json m req =
    told_from req.body_complete m.config.venus_upload_triggers (data_upload_device_id req.url)
      (decode_venus_telemetry json req.body)

puterrinfo-no_upload : is_data_upload_path puterrinfo ≡ false
unfolding is_data_upload_path data_upload_device_id starts_with find
puterrinfo-no_upload = refl

not-puterrinfo : (url : List ℕ) → is_data_upload_path url ≡ true → bytes_eq url puterrinfo ≡ false
not-puterrinfo url h = elim (Bool-cases (bytes_eq url puterrinfo)) [
  | inr e ↦ e
  | inl e ↦ absurd (
      ground (
        arith,
        sym h ∙ ap is_data_upload_path (bytes_eq→eq url puterrinfo e),
        puterrinfo-no_upload,
      ))
]

respond-upload :
    (json : Json) (m : Marstack) (req : Request) (clock : Clock)
    → is_get req ≡ false
    → is_post req ≡ true
    → is_data_upload_path req.url ≡ true
    → bytes_eq req.url puterrinfo ≡ false
    → respond json m req clock ≡ (
      record m { venus_upload_count = add32 m.venus_upload_count 1 },
      upload_answer,
      uploads json m req,
    )
unfolding respond
respond-upload json m req clock g p u n = ground arith

is_empty-false : (s : List ℕ) → s ≢ [] → is_empty s ≡ false
is_empty-false [] h = absurd (h refl)
is_empty-false (x ∷ s) h = refl

upload-is_data_upload_path : (id url : List ℕ) → IsUploadOf id url → is_data_upload_path url ≡ true
unfolding is_data_upload_path
upload-is_data_upload_path id url u =
    let d = (data_upload_device_id-IsUploadOf url id).1 u in
    ap not (ap is_empty d.0 ∙ is_empty-false id d.1)

-- A POST to the upload path of a device is always answered with the acknowledgement that the
-- battery waits for, a 200 with the gateway's headers whose body has the code 0, and counted; and
-- each upload trigger is told the device and the telemetry once, if the body is whole and has any.
pub upload_acknowledged :
    (json : Json) (m : Marstack) (req : Request) (now : ℕ) (clock : Clock) (id : List ℕ)
    → IsMethod http_post req
    → IsUploadOf id req.url
    → let r = dispatch json m req now clock in
      (r.1 ≡ upload_answer)
      × (r.0.venus_upload_count ≡ add32 m.venus_upload_count 1)
      × (r.2.venus_uploads ≡ told json m.config.venus_upload_triggers id req)
unfolding dispatch
upload_acknowledged json m req now clock id e u =
    let h = upload-is_data_upload_path id req.url u in
    let r =
      respond-upload json (count_request m now) req clock (is_get-gets http_post req e)
        (is_post-posts http_post req e) h (not-puterrinfo req.url h) in
    let d = ((data_upload_device_id-IsUploadOf req.url id).1 u).0 in
    (
      ap (λ x. x.1) r,
      ap (λ x. x.0.venus_upload_count) r,
      ap (λ x. x.2) r
          ∙ uploads-told json (count_request m now) req
          ∙ ap (λ x. told json m.config.venus_upload_triggers x req) d,
    )
