-- ===== src/Marstack/Framing.antt =====
-- `Marstack::build_raw_response` of components/marstack/marstack.cpp, with `http_date`, `random_hex`
-- and `reason_phrase`.
pub mod Reader
pub mod Dates
pub mod Lines
pub mod Framed
use Prim.Native.String.{String}
use marsrelay.Common.{
  ℕ, zero, suc, ◌+◌, ◌-◌, ◌/◌, ◌%◌, Bool, true, false, not, ◌==◌, if◌then◌else◌, codes, List, [],
  ◌∷◌, ◌++◌, length, get_or, to_string, to_hex, padded, digit, print_digits,
}
use marsrelay.Marstack.{Response}

abbrev pub crlf : List ℕ
crlf = 13 ∷ 10 ∷ []

-- A line of a head, and what comes behind it.
abbrev pub line : List ℕ → List ℕ → List ℕ
line s rest = s ++ (crlf ++ rest)

unfoldable pub random_hex : List ℕ → List ℕ
random_hex [] = []
random_hex (b ∷ bytes) = digit (b / 16) ∷ digit (b % 16) ∷ random_hex bytes

-- What `gmtime_r` gives, the fields as they are printed.
pub record Gmt : Type 0 where
  pub wday : ℕ
  pub mday : ℕ
  pub mon : ℕ
  pub year : ℕ
  pub hour : ℕ
  pub min : ℕ
  pub sec : ℕ

abbrev pub days : List (List ℕ)
days =
    codes "Sun"
    ∷ codes "Mon"
    ∷ codes "Tue"
    ∷ codes "Wed"
    ∷ codes "Thu"
    ∷ codes "Fri"
    ∷ codes "Sat"
    ∷ []

abbrev pub months : List (List ℕ)
months =
    codes "Jan"
    ∷ codes "Feb"
    ∷ codes "Mar"
    ∷ codes "Apr"
    ∷ codes "May"
    ∷ codes "Jun"
    ∷ codes "Jul"
    ∷ codes "Aug"
    ∷ codes "Sep"
    ∷ codes "Oct"
    ∷ codes "Nov"
    ∷ codes "Dec"
    ∷ []

unfoldable pub http_date : Gmt → List ℕ
http_date t =
    get_or days (t.wday % 7) []
    ++ (codes ", "
        ++ (padded 2 t.mday
            ++ (codes " "
                ++ (get_or months (t.mon % 12) []
                    ++ (codes " "
                        ++ (padded 4 t.year
                            ++ (codes " "
                                ++ (padded 2 t.hour
                                    ++ (codes ":"
                                        ++ (padded 2 t.min
                                            ++ (codes ":"
                                                ++ (padded 2 t.sec ++ codes " GMT"))))))))))))

unfoldable pub reason_phrase : ℕ → List ℕ
reason_phrase code = if code == 404 then codes "Not Found" else codes "OK"

-- The clock, and the random bytes of the two ids.
pub record Origin : Type 0 where
  pub date : Gmt
  pub trace_id : List ℕ
  pub kong_request_id : List ℕ

-- What the gateway adds.
abbrev pub kong_lines : Origin → List ℕ → List ℕ
kong_lines o rest = line (codes "vary: Origin") (
    line (codes "Access-Control-Allow-Credentials: true") (
      line (codes "X-Kong-Upstream-Latency: 2") (
        line (codes "X-Kong-Proxy-Latency: 0") (
          line (codes "Via: 1.1 kong/3.9.1") (
            line (codes "X-Kong-Request-Id: " ++ random_hex o.kong_request_id) (
              line (codes "Strict-Transport-Security: max-age=31536000; includeSubDomains")
                rest))))))

-- A body as one chunk and the terminator; the size is printed as an `unsigned`.
unfoldable pub chunked : List ℕ → List ℕ
chunked [] = line (codes "0") crlf
chunked (c ∷ s) = line (to_hex (length (c ∷ s) % 4294967296)) (line (c ∷ s) (line (codes "0") crlf))

-- The headers behind the date, and the body.
unfoldable pub framed : Response → Origin → List ℕ
framed res o =
    if not (res.code == 200)
    then line (codes "Content-Length: 0") (line (codes "Connection: keep-alive") crlf)
    else if res.content_length
    then line (codes "Content-Type: " ++ res.content_type) (
        line (codes "Content-Length: " ++ to_string (length res.body)) (
          line (codes "Connection: keep-alive") (
            line (codes "vary: Origin")
              (line (codes "Access-Control-Allow-Credentials: true") (crlf ++ res.body)))))
    else line (codes "Content-Type: " ++ res.content_type) (
        line (codes "Transfer-Encoding: chunked") (
          line (codes "Connection: keep-alive") (
            line (codes "Trace-Id: " ++ random_hex o.trace_id) (
              if res.kong_headers
              then kong_lines o (crlf ++ chunked res.body)
              else crlf ++ chunked res.body))))

unfoldable pub build_raw_response : Response → Origin → List ℕ
build_raw_response res o =
    line (codes "HTTP/1.1 " ++ (to_string res.code ++ (codes " " ++ reason_phrase res.code)))
      (line (codes "Date: " ++ http_date o.date) (framed res o))
