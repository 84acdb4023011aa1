-- ===== src/Marstack.antt =====
-- `Marstack` of components/marstack/marstack.h and marstack.cpp: the stand-in for the cloud's HTTP
-- hosts, with `dispatch` and the methods around it.
pub mod Url
pub mod Paths
pub mod Telemetry
pub mod Dispatch
pub mod Uploads
pub mod Framing
pub mod Web
pub mod Tests
use Prim.Native.String.{String}
use marsrelay.Common.{
  ℕ, zero, suc, ◌+◌, ◌-◌, Bool, true, false, not, ◌&&◌, ◌||◌, ltb, leb, ◌==◌, if◌then◌else◌,
  bytes_eq, codes, add32, Option, none, some, List, [], ◌∷◌, ◌++◌, to_string, padded, replicate,
  print_digits,
}
use Paths.{
  is_time_path, is_data_upload_path, data_upload_device_id, set_b2500_report, set_small_reporting,
  set_venus_d_reporting, set_ct_reporting, set_ac_couple_reporting, puterrinfo, get_realtime_soc,
  get_device_fire, get_devices_apply, schedulings_policies, backup_configs,
}
use Telemetry.{Json, decode_venus_telemetry}

pub record Request : Type 0 where
  pub method : List ℕ
  pub url : List ℕ
  pub body : List ℕ
  pub source_ip : List ℕ
  pub body_complete : Bool

pub record Response : Type 0 where
  pub code : ℕ
  pub content_type : List ℕ
  pub body : List ℕ
  pub kong_headers : Bool
  pub content_length : Bool

-- The settings; `none` stands for a negative minimum power. The triggers are counted.
pub record Config : Type 0 where
  pub time_suffix : List ℕ
  pub max_power : ℕ
  pub min_power : Option ℕ
  pub power_version : ℕ
  pub request_triggers : ℕ
  pub venus_upload_triggers : ℕ

pub record Marstack : Type 0 where
  pub config : Config
  pub request_count : ℕ
  pub venus_upload_count : ℕ
  pub last_request : ℕ
  pub has_request : Bool
  pub clock_unset_warned : Bool

-- What `time` and `localtime_r` say, the fields as they are printed.
pub record Clock : Type 0 where
  pub now : ℕ
  pub year : ℕ
  pub month : ℕ
  pub day : ℕ
  pub hour : ℕ
  pub min : ℕ
  pub sec : ℕ

abbrev pub underscore : List ℕ
underscore = codes "_"

unfoldable pub formatted_date_string : Config → Clock → List ℕ
formatted_date_string config t =
    underscore
    ++ (padded 4 t.year
        ++ (underscore
            ++ (padded 2 t.month
                ++ (underscore
                    ++ (padded 2 t.day
                        ++ (underscore
                            ++ (padded 2 t.hour
                                ++ (underscore
                                    ++ (padded 2 t.min
                                        ++ (underscore
                                            ++ (padded 2 t.sec
                                                ++ (underscore ++ config.time_suffix))))))))))))

abbrev pub clock_valid_after : ℕ
clock_valid_after = 1577836800

-- An answer with code 200.
abbrev pub answer : String → List ℕ → Response
answer content_type body = record {
  code = 200;
  content_type = codes content_type;
  body = body;
  kong_headers = false;
  content_length = false;
}

abbrev pub json_answer : String → Response
json_answer body = answer "application/json" (codes body)

abbrev pub not_found : Response
not_found = record {
  code = 404;
  content_type = codes "text/plain";
  body = [];
  kong_headers = false;
  content_length = false;
}

abbrev pub min_power_field : Option ℕ → List ℕ
min_power_field none = []
min_power_field (some watts) = codes ",\"pmin\":" ++ to_string watts

unfoldable pub device_fire_body : Config → List ℕ
device_fire_body config =
    codes
      "{\"code\":1,\"show\":0,\"msg\":\"ok\",\"data\":{\"id\":255,\"s\":360,\"c\":30,\"i\":0,\"p\":"
    ++ (to_string config.max_power ++ (min_power_field config.min_power ++ codes "}}"))

unfoldable pub devices_apply_body : Config → List ℕ
devices_apply_body config =
    codes "{\"code\":1,\"show\":0,\"msg\":\"success\",\"data\":{\"power\":"
    ++ (to_string config.power_version ++ codes "}}")

abbrev pub upload_answer : Response
upload_answer = record (json_answer "{\"code\":0,\"message\":\"success\",\"data\":null}") {
  kong_headers = true;
}

-- What the automations are handed: the arguments of `on_request` and those of `on_venus_upload`.
pub record Upload : Type 0 where
  pub device_id : List ℕ
  pub telemetry : List ℕ

abbrev pub is_get : Request → Bool
is_get req = bytes_eq req.method (codes "GET")

abbrev pub is_post : Request → Bool
is_post req = bytes_eq req.method (codes "POST")

abbrev pub count_request : Marstack → ℕ → Marstack
count_request m now = record m {
  request_count = add32 m.request_count 1;
  last_request = now;
  has_request = true;
}

-- What the upload triggers are handed for a POST of an upload.
unfoldable pub uploads : Json → Marstack → Request → List Upload
uploads json m req =
    if not req.body_complete || (m.config.venus_upload_triggers == 0)
    then []
    else elim (decode_venus_telemetry json req.body) [
      | [] ↦ []
      | c ∷ s ↦
          replicate m.config.venus_upload_triggers
            (record { device_id = data_upload_device_id req.url; telemetry = c ∷ s })
    ]

-- `dispatch` behind the request triggers: its `if`s in their order.
unfoldable pub respond : Json → Marstack → Request → Clock → Marstack × Response × List Upload
respond json m req clock =
    if is_get req && bytes_eq req.url set_b2500_report
    then (m, json_answer "{\"code\":1,\"msg\":\"ok\"}", [])
    else if is_get req && bytes_eq req.url set_small_reporting
    then (m, json_answer "{\"code\":1,\"msg\":\"ok\",\"data\":{\"de\":1}}", [])
    else if is_get req
        && (bytes_eq req.url set_venus_d_reporting || bytes_eq req.url set_ac_couple_reporting)
    then (m, json_answer "{\"code\":1,\"show\":0,\"msg\":\"ok\",\"data\":{\"de\":1}}", [])
    else if is_get req && bytes_eq req.url set_ct_reporting
    then (m, json_answer "{\"code\":1,\"msg\":\"success\"}", [])
    else if is_get req && bytes_eq req.url schedulings_policies
    then (
      m,
      record (answer "text/html; charset=utf-8" (codes "t=0;c=;l=0;d=")) { content_length = true },
      [],
    )
    else if is_get req && bytes_eq req.url backup_configs
    then (m, record (answer "text/html; charset=utf-8" []) { content_length = true }, [])
    else if is_get req && bytes_eq req.url get_devices_apply && not (m.config.power_version == 0)
    then (m, answer "application/json" (devices_apply_body m.config), [])
    else if is_get req && is_time_path req.url
    then (
      record m { clock_unset_warned = ltb clock.now clock_valid_after },
      answer "text/html; charset=utf-8" (formatted_date_string m.config clock),
      [],
    )
    else if bytes_eq req.url puterrinfo && (is_post req || is_get req)
    then (m, answer "text/plain" (if is_post req then codes "_1" else codes "_2"), [])
    else if is_post req && is_data_upload_path req.url
    then (
      record m { venus_upload_count = add32 m.venus_upload_count 1 },
      upload_answer,
      uploads json m req,
    )
    else if is_get req && bytes_eq req.url get_realtime_soc
    then (m, json_answer "{\"code\":1,\"show\":0,\"msg\":\"ok\",\"data\":{\"time_no\":0}}", [])
    else if is_get req && bytes_eq req.url get_device_fire
    then (m, answer "application/json; charset=utf-8" (device_fire_body m.config), [])
    else (m, not_found, [])

pub record Effects : Type 0 where
  pub requests : List Request
  pub venus_uploads : List Upload

-- `dispatch`: a request trigger sees no body that did not arrive whole.
unfoldable pub dispatch : Json → Marstack → Request → ℕ → Clock → Marstack × Response × Effects
dispatch json m req now clock =
    let trigger_body = if req.body_complete then req.body else [] in
    let requests = replicate m.config.request_triggers (record req { body = trigger_body }) in
    let (m', res, sent) = respond json (count_request m now) req clock in
    (m', res, record { requests = requests; venus_uploads = sent })
