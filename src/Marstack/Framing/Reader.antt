-- ===== src/Marstack/Framing/Reader.antt =====
-- An HTTP client that reads a response off a connection: the lines of the head, then the body that
-- they announce.
use marsrelay.Common.{
  ℕ, zero, suc, ◌+◌, ◌≤◌, ◌<◌, ◌≡◌, ◌≢◌, refl, true, false, leb, ◌==◌, if◌then◌else◌, bytes_eq,
  codes, Option, none, some, List, [], ◌∷◌, ◌++◌, length, take, drop, All, Lacks, starts_with,
  decimal, hexadecimal, read_digits, arith,
}
use marsrelay.Marstack.Framing.{crlf, line}

-- A line up to its CRLF, and the rest; a CR must be followed by a LF.
unfoldable pub read_line : List ℕ → Option (List ℕ × List ℕ)
read_line [] = none
read_line (c ∷ []) = none
read_line (c ∷ d ∷ s) = elim (c == 13) [
  | true ↦ if d == 10 then some ([], s) else none
  | false ↦ elim (read_line (d ∷ s)) [ none ↦ none | some (l, rest) ↦ some (c ∷ l, rest) ]
]

-- The lines up to the empty one, on fuel.
unfoldable pub read_head : ℕ → List ℕ → Option (List (List ℕ) × List ℕ)
read_head zero s = none
read_head (suc fuel) s = elim (read_line s) [
  | none ↦ none
  | some ([], rest) ↦ some ([], rest)
  | some (c ∷ l, rest) ↦ elim (read_head fuel rest) [
    | none ↦ none
    | some (lines, body) ↦ some ((c ∷ l) ∷ lines, body)
  ]
]

-- Chunks up to the empty one, which has no trailer.
unfoldable pub read_chunks : ℕ → List ℕ → Option (List ℕ × List ℕ)
read_chunks zero s = none
read_chunks (suc fuel) s = elim (read_line s) [
  | none ↦ none
  | some (size, rest) ↦
      let n = read_digits hexadecimal 0 size in
      elim (read_line (drop n rest)) [
        | none ↦ none
        | some ([], behind) ↦ elim (n == 0) [
          | true ↦ some ([], behind)
          | false ↦ elim (read_chunks fuel behind) [
            | none ↦ none
            | some (body, left) ↦ some (take n rest ++ body, left)
          ]
        ]
        | some (c ∷ l, behind) ↦ none
      ]
]

abbrev pub content_length_name : List ℕ
content_length_name = codes "Content-Length: "

-- How the head says that the body is framed.
pub data Framing : Type 0 where
  unknown chunks : Framing
  fixed : ℕ → Framing

unfoldable pub framing_of : List (List ℕ) → Framing
framing_of [] = unknown
framing_of (l ∷ lines) =
    if bytes_eq l (codes "Transfer-Encoding: chunked")
    then chunks
    else if starts_with content_length_name l
    then fixed (read_digits decimal 0 (drop (length content_length_name) l))
    else framing_of lines

unfoldable pub read_body : Framing → ℕ → List ℕ → Option (List ℕ × List ℕ)
read_body unknown fuel s = none
read_body chunks fuel s = read_chunks fuel s
read_body (fixed n) fuel s = if leb n (length s) then some (take n s, drop n s) else none

-- The status line with the other lines, the body, and what is left on the connection.
unfoldable pub read_response : List ℕ → Option (List (List ℕ) × List ℕ × List ℕ)
read_response s = elim (read_head (length s + 1) s) [
  | none ↦ none
  | some (lines, rest) ↦ elim (read_body (framing_of lines) (length rest + 1) rest) [
    | none ↦ none
    | some (body, left) ↦ some (lines, body, left)
  ]
]

-- A line of a head: no CR in it.
abbrev pub IsLine : List ℕ → Type 0
IsLine = Lacks 13

read_line-cons :
    (c : ℕ) (s l rest : List ℕ)
    → c ≢ 13
    → read_line s ≡ some (l, rest)
    → read_line (c ∷ s) ≡ some (c ∷ l, rest)
unfolding read_line
read_line-cons c [] l rest h e = absurd (ground (arith, e))
read_line-cons c (d ∷ s) l rest h e =
    let k : (c == 13) ≡ false = ground (arith, h) in rw (read_line, k) (rw e refl)

pub read_line-line : (l rest : List ℕ) → IsLine l → read_line (line l rest) ≡ some (l, rest)
unfolding read_line
read_line-line [] rest h = refl
read_line-line (c ∷ l) rest h =
    read_line-cons c (line l rest) l rest h.0 (read_line-line l rest h.1)

abbrev pub print_lines : List (List ℕ) → List ℕ → List ℕ
print_lines [] rest = rest
print_lines (l ∷ lines) rest = line l (print_lines lines rest)

-- A line of a head that does not end it.
abbrev pub IsHeader : List ℕ → Type 0
IsHeader l = (l ≢ []) × IsLine l

read_head-cons :
    (fuel : ℕ) (c : ℕ) (l s : List ℕ) (lines : List (List ℕ)) (body : List ℕ)
    → IsLine (c ∷ l)
    → read_head fuel s ≡ some (lines, body)
    → read_head (suc fuel) (line (c ∷ l) s) ≡ some ((c ∷ l) ∷ lines, body)
unfolding read_head
read_head-cons fuel c l s lines body h e = rw (read_head, read_line-line (c ∷ l) s h) (rw e refl)

read_head-print_lines :
    (fuel : ℕ) (lines : List (List ℕ)) (body : List ℕ)
    → All IsHeader lines
    → length lines < fuel
    → read_head fuel (print_lines lines (crlf ++ body)) ≡ some (lines, body)
unfolding read_head
read_head-print_lines zero lines body h f = absurd (omega arith)
read_head-print_lines (suc fuel) [] body h f =
    let r = read_line-line [] body tt in rw (read_head, r) refl
read_head-print_lines (suc fuel) ([] ∷ lines) body h f = absurd (h.0.0 refl)
read_head-print_lines (suc fuel) ((c ∷ l) ∷ lines) body h f =
    read_head-cons fuel c l (print_lines lines (crlf ++ body)) lines body h.0.1
      (read_head-print_lines fuel lines body h.1 (omega arith))

pub length-line : (l rest : List ℕ) → length rest < length (line l rest)
length-line [] rest = omega arith
length-line (c ∷ l) rest = omega (arith, length-line l rest)

length-print_lines :
    (lines : List (List ℕ)) (rest : List ℕ)
    → length lines + length rest ≤ length (print_lines lines rest)
length-print_lines [] rest = omega arith
length-print_lines (l ∷ lines) rest =
    omega (arith, length-line l (print_lines lines rest), length-print_lines lines rest)

-- A printed response is read as its lines and what the reader of bodies gives for the rest.
pub read_response-print_lines :
    (lines : List (List ℕ)) (rest body left : List ℕ)
    → All IsHeader lines
    → read_body (framing_of lines) (length rest + 1) rest ≡ some (body, left)
    → read_response (print_lines lines (crlf ++ rest)) ≡ some (lines, body, left)
unfolding read_response
read_response-print_lines lines rest body left h e =
    let s = print_lines lines (crlf ++ rest) in
    let r =
      read_head-print_lines (length s + 1) lines rest h
        (omega (arith, length-print_lines lines (crlf ++ rest))) in
    rw (read_response, r) (rw e refl)
