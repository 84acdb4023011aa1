-- ===== src/Marstack/Tests.antt =====
-- The theorems on marstack at concrete requests, and runs of its functions.
use marsrelay.Common.{
  length, ◌≤◌, print_digits, negsuc, ◌≡◌, ◌≢◌, ◌↔◌, refl, true, false, none, some, [], ◌∷◌, codes,
  All, split, add32, find, starts_with, find-none-Lacks, arith,
}
use marsrelay.Marstack.Url.{ampersand, url_decode, escaped, hex_value, query_param}
use marsrelay.Marstack.Url.Query.{first_value, query_param-first_value}
use marsrelay.Marstack.Url.Form.{Field, IsField, print_form, lookup, query_param-print_form}
use marsrelay.Marstack.Paths.{
  http_get, method_name, can_handle, data_upload_device_id, get_devices_apply, get_realtime_soc,
  is_time_path, rfind,
}
use marsrelay.Marstack.Paths.Upload.{IsUploadOf, data_upload_device_id-IsUploadOf}
use marsrelay.Marstack.Telemetry.{Json, strtol, digits_value}
use marsrelay.Marstack.Dispatch.{respond-can_handle}
use marsrelay.Marstack.Uploads.{incomplete_body_unseen, upload_acknowledged, told}
use marsrelay.Marstack.Framing.{
  framed, chunked, http_date, random_hex, reason_phrase, Origin, build_raw_response,
}
use marsrelay.Marstack.Framing.Reader.{IsLine, read_response}
use marsrelay.Marstack.Framing.Lines.{head_lines}
use marsrelay.Marstack.Framing.Framed.{body_of, read_response-build_raw_response}
use marsrelay.Marstack.Telemetry.{decode_blob}
use marsrelay.Marstack.Telemetry.Pieces.{put_all, decode_blob-put_all}
use marsrelay.Marstack.Web.{
  handle_request, Web, WebRequest, finished, waiting, failed, send_raw, reply, by_framework,
}
use marsrelay.Marstack.Web.Bodies.{feed, concat}
use marsrelay.Marstack.Web.Uploads.{dispatched, handle_request-upload}
use marsrelay.Marstack.Web.Replies.{IsPrefix, send_raw-whole, reply-front}
use marsrelay.Common.{ℕ, List, Option}
use marsrelay.Marstack.Paths.{http_post, slash}
use marsrelay.Marstack.{
  Marstack, Config, Clock, Request, Response, respond, dispatch, upload_answer, json_answer,
}

plus_is_space : url_decode (codes "a+b%2Bc%zz%2") ≡ codes "a b+c%zz%2"
unfolding url_decode escaped hex_value
plus_is_space = refl

query_param-first_value_example :
    query_param (codes "x=1&d=2") (codes "d")
    ≡ first_value (codes "d") (split ampersand (codes "x=1&d=2"))
query_param-first_value_example = query_param-first_value (codes "x=1&d=2") (codes "d")

abbrev form_head : Field
form_head = record { key = codes "x"; value = codes "&=" }

abbrev form_d : Field
form_d = record { key = codes "d"; value = codes "2" }

form-IsField : All IsField (form_head ∷ form_d ∷ [])
form-IsField = (
  (((λ e. omega (arith, e)), tt), ((λ e. omega (arith, e)), tt), (omega arith, (omega arith, tt))),
  ((((λ e. omega (arith, e)), tt), ((λ e. omega (arith, e)), tt), (omega arith, tt)), tt),
)

query_param-print_form_example :
    query_param (print_form form_head (form_d ∷ [])) (codes "d")
    ≡ lookup (codes "d") (form_head ∷ form_d ∷ [])
query_param-print_form_example =
    query_param-print_form (codes "d") form_head (form_d ∷ []) form-IsField

data_upload_device_id-IsUploadOf_example :
    ((data_upload_device_id (codes "/data-upload/v1/venus/a1") ≡ codes "a1") × (codes "a1" ≢ []))
    ↔ IsUploadOf (codes "a1") (codes "/data-upload/v1/venus/a1")
data_upload_device_id-IsUploadOf_example =
    data_upload_device_id-IsUploadOf (codes "/data-upload/v1/venus/a1") (codes "a1")

abbrev pub json : Json
json = record { parse_d = λ s. some (codes "sc=50"); build = λ d. codes "{}" }

abbrev config : Config
config = record {
  time_suffix = codes "04_0_0_0";
  max_power = 800;
  min_power = none;
  power_version = 0;
  request_triggers = 1;
  venus_upload_triggers = 2;
}

abbrev pub marstack : Marstack
marstack = record {
  config = config;
  request_count = 4294967295;
  venus_upload_count = 6;
  last_request = 0;
  has_request = false;
  clock_unset_warned = false;
}

abbrev pub clock : Clock
clock = record {
  now = 1700000000;
  year = 2023;
  month = 11;
  day = 14;
  hour = 22;
  min = 13;
  sec = 20;
}

abbrev soc_request : Request
soc_request = record {
  method = codes "GET";
  url = get_realtime_soc;
  body = [];
  source_ip = codes "192.168.4.2";
  body_complete = true;
}

abbrev upload_request : Request
upload_request = record {
  method = codes "POST";
  url = codes "/data-upload/v1/venus/a1";
  body = codes "{}";
  source_ip = codes "192.168.4.2";
  body_complete = true;
}

abbrev cut_request : Request
cut_request = record upload_request { body_complete = false }

respond-can_handle_example :
    let r = (respond json marstack soc_request clock).1 in
    (r.code ≡ 200 → can_handle http_get none get_realtime_soc ≡ true)
    × (can_handle http_get none get_realtime_soc ≡ true
        → r.code ≡ 404
        → (http_get ≡ http_get)
          × (get_realtime_soc ≡ get_devices_apply)
          × (marstack.config.power_version ≡ 0))
unfolding method_name
respond-can_handle_example = respond-can_handle json marstack soc_request clock http_get none refl

incomplete_body_unseen_example :
    let seen = (dispatch json marstack cut_request 5 clock).2 in
    All (λ (q : Request). q.body ≡ []) seen.requests × (seen.venus_uploads ≡ [])
incomplete_body_unseen_example = incomplete_body_unseen json marstack cut_request 5 clock refl

upload_acknowledged_example :
    let r = dispatch json marstack upload_request 5 clock in
    (r.1 ≡ upload_answer)
    × (r.0.venus_upload_count ≡ add32 6 1)
    × (r.2.venus_uploads ≡ told json 2 (codes "a1") upload_request)
unfolding method_name
upload_acknowledged_example =
    upload_acknowledged json marstack upload_request 5 clock (codes "a1") refl
      (refl, (λ e. cc), ((λ e. omega (arith, e)), ((λ e. omega (arith, e)), tt)))

abbrev pub origin : Origin
origin = record {
  date = record { wday = 2; mday = 14; mon = 10; year = 2023; hour = 22; min = 13; sec = 20 };
  trace_id = 1 ∷ 255 ∷ [];
  kong_request_id = 16 ∷ [];
}

abbrev ok_response : Response
ok_response = json_answer "{}"

ok_type-IsLine : IsLine ok_response.content_type
unfolding find
ok_type-IsLine = find-none-Lacks 13 (codes "application/json") refl

read_response-build_raw_response_example :
    read_response (build_raw_response ok_response origin)
    ≡ some (head_lines ok_response origin, body_of ok_response, [])
read_response-build_raw_response_example =
    read_response-build_raw_response ok_response origin ok_type-IsLine (omega arith)

strtol_signed : strtol (codes " -12V") ≡ negsuc 11
unfolding strtol digits_value
strtol_signed = refl

time_path : is_time_path (codes "/app/neng/getDateInfoeu.php") ≡ true
unfolding is_time_path rfind starts_with find
time_path = refl

abbrev web : Web
web = record {
  marstack = marstack;
  post_body_buffer = codes "old";
  current_post_request = some 3;
  raw_responses = true;
}

abbrev post : WebRequest
post = record {
  address = 7;
  method = http_post;
  url = codes "/data-upload/v1/venus/a1";
  plain_argument = [];
  plain_parameter = none;
  peer = some (codes "192.168.4.2");
  has_socket = true;
}

abbrev sends : List (Option ℕ)
sends = some 300 ∷ some 2000 ∷ []

room : length (build_raw_response upload_answer origin) ≤ 2300
unfolding build_raw_response framed chunked http_date random_hex reason_phrase print_digits
room = omega arith

post-IsUploadOf : IsUploadOf (codes "a1") post.url
unfolding find
post-IsUploadOf = (refl, (λ e. cc), find-none-Lacks slash (codes "a1") refl)

handle_request-upload_example :
    let x =
      handle_request json
        (feed web 7 0 (codes "{\"d\"" ∷ codes ":1}" ∷ []))
        post
        80000
        clock
        origin
        sends in
    (read_response x.1.bytes ≡ some (head_lines upload_answer origin, upload_answer.body, []))
    × (x.1.framework ≡ none)
    × (x.0.marstack.venus_upload_count ≡ add32 web.marstack.venus_upload_count 1)
    × (x.2.venus_uploads
        ≡ told json web.marstack.config.venus_upload_triggers
            (codes "a1")
            (dispatched post (concat (codes "{\"d\"" ∷ codes ":1}" ∷ []))))
handle_request-upload_example =
    handle_request-upload json web post (codes "{\"d\"") (codes ":1}" ∷ []) (codes "a1") 80000 clock
      origin sends refl (λ e. cc) post-IsUploadOf refl refl (omega arith, (omega arith, tt)) room

send_raw-whole_example :
    send_raw (codes "HTTP") 0 (some 3 ∷ some 1 ∷ some 4 ∷ some 2 ∷ []) ≡ (codes "HTTP", finished)
send_raw-whole_example =
    send_raw-whole (codes "HTTP") (some 3 ∷ some 1 ∷ some 4 ∷ some 2 ∷ [])
      (omega arith, (omega arith, (omega arith, (omega arith, tt)))) (omega arith)

-- Half a raw response, and then another one.
abbrev half_sent : List (Option ℕ)
half_sent = some 5 ∷ none ∷ []

reply-front_example :
    let raw = build_raw_response ok_response origin in
    let s = send_raw raw 0 half_sent in
    let p = reply web post ok_response origin half_sent in
    IsPrefix p.bytes raw
    × (s.1 ≡ finished → (p.bytes ≡ raw) × (p.framework ≡ none))
    × (s.1 ≡ waiting → p.framework ≡ none)
    × (s.1 ≡ failed → p.framework ≡ some (by_framework ok_response))
reply-front_example = reply-front web post ok_response origin half_sent refl refl

decode_blob-put_all_example :
    decode_blob (codes "sc=50&zz=a=b")
    ≡ put_all
        (record { root = []; unmapped = [] })
        (split ampersand (url_decode (codes "sc=50&zz=a=b")))
decode_blob-put_all_example = decode_blob-put_all (codes "sc=50&zz=a=b")
