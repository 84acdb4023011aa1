-- ===== src/Marstack/Framing/Lines.antt =====
-- The lines of the head of a raw response.
use marsrelay.Common.{
  ℕ, suc, ◌<◌, ◌≡◌, ◌≢◌, subst, refl, not, ◌==◌, if◌then◌else◌, codes, none, List, [], ◌∷◌, ◌++◌,
  append-nil, length, All, Lacks-append, find, decimal, to_string, Bool-cases, inl, inr, arith,
}
use marsrelay.Marstack.Framing.Dates.{
  Lacks-print_digits, Lacks-random_hex, literal, after_literal, IsLine-http_date,
}
use marsrelay.Marstack.{Response}
use marsrelay.Marstack.Framing.{crlf, Origin, random_hex, http_date, reason_phrase, chunked, framed}
use marsrelay.Marstack.Framing.Reader.{IsLine, IsHeader, print_lines}

-- The lines of the head, in their order.
abbrev pub kong_list : Origin → List (List ℕ)
kong_list o =
    codes "vary: Origin"
    ∷ codes "Access-Control-Allow-Credentials: true"
    ∷ codes "X-Kong-Upstream-Latency: 2"
    ∷ codes "X-Kong-Proxy-Latency: 0"
    ∷ codes "Via: 1.1 kong/3.9.1"
    ∷ (codes "X-Kong-Request-Id: " ++ random_hex o.kong_request_id)
    ∷ codes "Strict-Transport-Security: max-age=31536000; includeSubDomains"
    ∷ []

abbrev pub framing_lines : Response → Origin → List (List ℕ)
framing_lines res o =
    if not (res.code == 200)
    then codes "Content-Length: 0" ∷ codes "Connection: keep-alive" ∷ []
    else if res.content_length
    then (codes "Content-Type: " ++ res.content_type)
      ∷ (codes "Content-Length: " ++ to_string (length res.body))
      ∷ codes "Connection: keep-alive"
      ∷ codes "vary: Origin"
      ∷ codes "Access-Control-Allow-Credentials: true"
      ∷ []
    else (codes "Content-Type: " ++ res.content_type)
      ∷ codes "Transfer-Encoding: chunked"
      ∷ codes "Connection: keep-alive"
      ∷ (codes "Trace-Id: " ++ random_hex o.trace_id)
      ∷ (if res.kong_headers then kong_list o else [])

abbrev pub head_lines : Response → Origin → List (List ℕ)
head_lines res o =
    (codes "HTTP/1.1 " ++ (to_string res.code ++ (codes " " ++ reason_phrase res.code)))
    ∷ (codes "Date: " ++ http_date o.date)
    ∷ framing_lines res o

-- What stands behind the head.
abbrev pub behind : Response → List ℕ
behind res =
    if not (res.code == 200) then [] else if res.content_length then res.body else chunked res.body

pub framed-print_lines :
    (res : Response) (o : Origin)
    → framed res o ≡ print_lines (framing_lines res o) (crlf ++ behind res)
unfolding framed
framed-print_lines res o = elim (Bool-cases (res.code == 200)) [
  | inr e ↦ rw (framed, e) refl
  | inl e ↦ elim (Bool-cases res.content_length) [
    | inl f ↦ rw (framed, e) (rw f refl)
    | inr f ↦ elim (Bool-cases res.kong_headers) [
      | inl k ↦ rw (framed, e) (rw f (rw k refl))
      | inr k ↦ rw (framed, e) (rw f (rw k refl))
    ]
  ]
]

append-ne-nil : (s t : List ℕ) → 0 < length s → (s ++ t) ≢ []
append-ne-nil [] t h = absurd (omega arith)
append-ne-nil (c ∷ s) t h = λ e. cc

header : (s t : List ℕ) → 0 < length s → find 13 s ≡ none → IsLine t → IsHeader (s ++ t)
header s t p h k = (append-ne-nil s t p, after_literal s t h k)

fixed-IsHeader : (s : List ℕ) → 0 < length s → find 13 s ≡ none → IsHeader s
fixed-IsHeader s p h = subst IsHeader (append-nil s) (header s [] p h tt)

IsLine-reason_phrase : (code : ℕ) → IsLine (reason_phrase code)
unfolding reason_phrase find
IsLine-reason_phrase code = elim (Bool-cases (code == 404)) [
  | inl e ↦ rw (reason_phrase, e) (literal (codes "Not Found") refl)
  | inr e ↦ rw (reason_phrase, e) (literal (codes "OK") refl)
]

kong_list-headers : (o : Origin) → All IsHeader (kong_list o)
unfolding find
kong_list-headers o = (
  fixed-IsHeader _ (omega arith) refl,
  (
    fixed-IsHeader _ (omega arith) refl,
    (
      fixed-IsHeader _ (omega arith) refl,
      (
        fixed-IsHeader _ (omega arith) refl,
        (
          fixed-IsHeader _ (omega arith) refl,
          (
            header (codes "X-Kong-Request-Id: ") _ (omega arith) refl
                (Lacks-random_hex o.kong_request_id),
            (fixed-IsHeader _ (omega arith) refl, tt),
          ),
        ),
      ),
    ),
  ),
)

kong_or_none :
    (res : Response) (o : Origin) → All IsHeader (if res.kong_headers then kong_list o else [])
kong_or_none res o = elim (Bool-cases res.kong_headers) [
  | inl k ↦ rw k (kong_list-headers o)
  | inr k ↦ rw k tt
]

framing_lines-headers :
    (res : Response) (o : Origin) → IsLine res.content_type → All IsHeader (framing_lines res o)
unfolding find
framing_lines-headers res o h = elim (Bool-cases (res.code == 200)) [
  | inr e ↦ rw e (
    fixed-IsHeader (codes "Content-Length: 0") (omega arith) refl,
    (fixed-IsHeader (codes "Connection: keep-alive") (omega arith) refl, tt),
  )
  | inl e ↦ elim (Bool-cases res.content_length) [
    | inl f ↦
        rw (e, f)
          (
            header (codes "Content-Type: ") res.content_type (omega arith) refl h,
            (
              header (codes "Content-Length: ") _ (omega arith) refl
                  (Lacks-print_digits (suc (length res.body)) decimal (length res.body) [] tt),
              (
                fixed-IsHeader (codes "Connection: keep-alive") (omega arith) refl,
                (
                  fixed-IsHeader (codes "vary: Origin") (omega arith) refl,
                  (
                    fixed-IsHeader (codes "Access-Control-Allow-Credentials: true") (omega arith)
                        refl,
                    tt,
                  ),
                ),
              ),
            ),
          )
    | inr f ↦
        rw (e, f)
          (
            header (codes "Content-Type: ") res.content_type (omega arith) refl h,
            (
              fixed-IsHeader (codes "Transfer-Encoding: chunked") (omega arith) refl,
              (
                fixed-IsHeader (codes "Connection: keep-alive") (omega arith) refl,
                (
                  header (codes "Trace-Id: ") (random_hex o.trace_id) (omega arith) refl
                      (Lacks-random_hex o.trace_id),
                  kong_or_none res o,
                ),
              ),
            ),
          )
  ]
]

pub head_lines-headers :
    (res : Response) (o : Origin) → IsLine res.content_type → All IsHeader (head_lines res o)
unfolding find
head_lines-headers res o h = (
  header (codes "HTTP/1.1 ") _ (omega arith) refl (
      Lacks-append 13 (to_string res.code) _
        (Lacks-print_digits (suc res.code) decimal res.code [] tt)
        (after_literal (codes " ") (reason_phrase res.code) refl (IsLine-reason_phrase res.code))),
  (
    header (codes "Date: ") (http_date o.date) (omega arith) refl (IsLine-http_date o.date),
    framing_lines-headers res o h,
  ),
)
