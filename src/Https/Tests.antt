-- ===== src/Https/Tests.antt =====
-- The theorems on the TLS listener at concrete connections, and runs of its functions.
use marsrelay.Common.{
  ◌≡◌, refl, true, false, some, List, [], ◌∷◌, take, drop, add32, ◌≤◌, length, ◌-◌, find-none-Lacks,
  replicate, codes, print_digits, sub32, All, arith, bytes_eq, starts_with, find, find_from,
}
use marsrelay.Marstack.Paths.{to_lower, slash, http_post, method_name}
use marsrelay.Marstack.Telemetry.{digits_value}
use marsrelay.Marstack.Tests.{json, marstack, clock, origin}
use marsrelay.Https.Requests.{
  want_io, bytes, Round, done, expired, read_body, read_rest, read_request, read_headers,
  header_value, header_value_from, strtoul, find_text, request_line,
}
use marsrelay.Https.HeldOpen.{Event, sweep, arrives, run, Within, hold_or_close-Holds_on}
use marsrelay.Https.Holding.{Holds}
use marsrelay.Https.Connections.{count, Conserved, accept_connection-Conserved}
use marsrelay.Https.Bodies.{IsGood}
use marsrelay.Https.Fields.{IsField, IsHeader}
use marsrelay.Https.Printing.{
  RequestText, IsRequest, content_length, question_mark, print_head, print_request, print_line,
  target,
}
use marsrelay.Https.Whole.{as_read, read_request-print_request}
use marsrelay.Https.Uploads.{read_deadline, Uploaded, accept_connection-Uploaded}
use marsrelay.Marstack.Paths.Upload.{IsUploadOf}
use marsrelay.Marstack.Framing.{
  build_raw_response, framed, chunked, http_date, random_hex, reason_phrase,
}
use marsrelay.Marstack.{upload_answer}
use marsrelay.Https.{hold_or_close, reap_held, Https, Session, took, accept_connection}

abbrev https : Https
https = record {
  accept_all = false;
  hold_time_ms = 25000;
  max_body = 4;
  max_connections = 1;
  held = (record { fd = 5; close_at = 90000 }) ∷ [];
}

abbrev session : Session
session = record {
  fd = 6;
  peer = codes "192.168.4.2";
  tls_made = true;
  handshake = true;
  read_start = 80000;
  reads = (record { now = 80001; read = bytes (codes "GET / HTTP/1.1\r\n\r\n") }) ∷ [];
  dispatch_now = 80002;
  clock = clock;
  origin = origin;
  write_start = 80003;
  writes = took 1 ∷ [];
  hold_now = 80004;
  reap_now = 80005;
}

accept_connection-Conserved_example :
    Conserved https 6 (accept_connection json https marstack session)
accept_connection-Conserved_example =
    accept_connection-Conserved json https marstack session (omega arith) (omega arith)

abbrev upload : RequestText
upload = record {
  method = codes "POST";
  path = codes "/data-upload/v1/venus/a1";
  query = some (codes "v=1");
  version = codes "HTTP/1.1";
  before = (record { name = codes "Host"; value = codes "eu.hamedata.com" }) ∷ [];
  length_field = record { name = codes "content-length"; value = codes "5" };
  after = [];
  body = codes "12abc";
}

host-IsField : IsField (record { name = codes "Host"; value = codes "eu.hamedata.com" })
unfolding find
host-IsField = record {
  line = ((λ e. cc), find-none-Lacks 10 (codes "Host: eu.hamedata.com") refl);
  named = find-none-Lacks 58 (codes "Host") refl;
}

length-IsField : IsField upload.length_field
unfolding find
length-IsField = record {
  line = ((λ e. cc), find-none-Lacks 10 (codes "content-length: 5") refl);
  named = find-none-Lacks 58 (codes "content-length") refl;
}

upload-IsHeader : IsHeader content_length upload.before upload.length_field
unfolding find bytes_eq to_lower
upload-IsHeader = record {
  clear_name = find-none-Lacks 58 content_length refl;
  others = ((host-IsField, refl), tt);
  field = length-IsField;
  same = refl;
  plain = ((λ e. omega (arith, e)), (λ e. omega (arith, e)), find-none-Lacks 13 (codes "5") refl);
}

upload-IsRequest : IsRequest upload
unfolding find strtoul digits_value
upload-IsRequest = record {
  line = (find-none-Lacks 13 (print_line upload) refl, find-none-Lacks 10 (print_line upload) refl);
  method_word = (find-none-Lacks 32 (codes "POST") refl, find-none-Lacks 58 (codes "POST") refl);
  target_word = find-none-Lacks 32 (target upload) refl;
  path_only = find-none-Lacks question_mark upload.path refl;
  heading = upload-IsHeader;
  lines = (
    find-none-Lacks 13 (codes "Host: eu.hamedata.com") refl,
    (find-none-Lacks 13 (codes "content-length: 5") refl, tt),
  );
  fits = omega arith;
  announced = refl;
}

-- The upload in three reads, of which the first ends within the headers and the second brings the
-- empty line and two bytes.
abbrev rounds : List Round
rounds =
    (record { now = 80001; read = bytes (take 40 (print_request upload)) })
    ∷ (record { now = 80002; read = want_io })
    ∷ (record {
      now = 80003;
      read = bytes (take (length (print_head upload) - 34) (drop 40 (print_request upload)));
    })
    ∷ (record { now = 80004; read = bytes (codes "abc") })
    ∷ []

in_time : All (IsGood 95000) rounds
unfolding expired sub32
in_time = ((refl, tt), ((refl, tt), ((refl, tt), ((refl, tt), tt))))

read_request-print_request_example :
    (rest : List Round) × (read_request 4 95000 (codes "192.168.4.2") rounds
      ≡ done (as_read 4 (codes "192.168.4.2") upload) rest)
read_request-print_request_example =
    read_request-print_request 4 95000 (codes "192.168.4.2") upload rounds upload-IsRequest in_time
      refl

-- A whole request in two reads, with one byte more than it announces: the byte is kept.
read_request_run :
    read_request 100 95000 [] (
      (record { now = 80001; read = bytes (codes "POST /x?v=1 HTTP/1.1\r\nContent-Length: 2\r\n") })
      ∷ (record { now = 80002; read = bytes (codes "\r\nabc") })
      ∷ [])
    ≡ done
        (record {
          method = codes "POST";
          url = codes "/x";
          body = codes "abc";
          source_ip = [];
          body_complete = true;
        })
        []
unfolding read_request read_headers expired find_text starts_with request_line find find_from
    read_rest header_value header_value_from bytes_eq to_lower strtoul digits_value read_body sub32
read_request_run = refl

abbrev upload_session : Session
upload_session = record session { reads = rounds; writes = replicate 4 (took 1000) }

upload_in_time : All (IsGood (read_deadline upload_session)) rounds
unfolding add32 expired sub32
upload_in_time = ((refl, tt), ((refl, tt), ((refl, tt), ((refl, tt), tt))))

IsUploadOf-a1 : IsUploadOf (codes "a1") upload.path
unfolding find
IsUploadOf-a1 = (refl, (λ e. cc), find-none-Lacks slash (codes "a1") refl)

is_post : upload.method ≡ method_name http_post
unfolding method_name
is_post = refl

room : length (build_raw_response upload_answer origin) ≤ 4000
unfolding build_raw_response framed chunked http_date random_hex reason_phrase print_digits
room = omega arith

one_later : upload_session.reap_now ≡ add32 upload_session.hold_now 1
unfolding add32
one_later = refl

accept_connection-Uploaded_example : Uploaded json https marstack upload_session
accept_connection-Uploaded_example =
    accept_connection-Uploaded json https marstack upload_session upload (codes "a1") 1 refl refl
      upload-IsRequest is_post IsUploadOf-a1 upload_in_time refl (tt, (tt, (tt, (tt, tt)))) room
      (λ e. omega (arith, e)) (omega arith) one_later (omega arith)

abbrev roomy : Https
roomy = record https { max_connections = 4 }

-- Two sweeps and a connection within the hold time of a connection that was answered at 80000.
abbrev events : List Event
events = sweep 80003 ∷ arrives session ∷ sweep 104999 ∷ []

events-Within : All (Within 80000 25000) events
unfolding add32
events-Within = ((3, refl, omega arith), ((5, refl, omega arith), ((24999, refl, omega arith), tt)))

hold_or_close-Holds_on_example :
    let h' = (run json events ((hold_or_close roomy 7 80000).0, marstack)).0 in
    Holds (record { fd = 7; close_at = add32 80000 25000 }) 1 h'.held
    × (1 ≤ count 7 (reap_held h' (add32 80000 25000)).1)
hold_or_close-Holds_on_example =
    hold_or_close-Holds_on json roomy marstack 7 80000 25000 events (λ e. omega (arith, e))
      (omega arith) events-Within (omega arith) (omega arith) (omega arith)
