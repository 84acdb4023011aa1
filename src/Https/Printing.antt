-- ===== src/Https/Printing.antt =====
-- A request as a client prints it, and its request line, its headers and the end of its head as
-- components/marstack/marstack_https.cpp reads them.
use marsrelay.Common.{
  ℕ, suc, ◌+◌, ◌-◌, ◌≤◌, ◌≡◌, ◌∙◌, ap, sym, subst, refl, codes, Option, none, some, List, [], ◌∷◌,
  ◌++◌, append-nil, length, take, take-append, take_all, drop-append_suc, Lacks, Lacks-find-none,
  find-none-Lacks, find-append, find, find_from, substr, end_or, starts_with, All, arith,
}
use marsrelay.Https.Requests.{find_text, crlf, request_line, strtoul, header_value}
use marsrelay.Https.Ends.{end_mark, EndsAt, EndsAt-nil, EndsAt-append, EndsAt-line}
use marsrelay.Https.Lookup.{header_value-print_fields}
use marsrelay.Https.Fields.{Field, field_text, print_fields, IsHeader, cons-form, append-ne-nil}

abbrev pub question_mark : ℕ
question_mark = b'?'

-- A request as a client prints it; `length_field` announces the length of the body.
pub record RequestText : Type 0 where
  pub method : List ℕ
  pub path : List ℕ
  pub query : Option (List ℕ)
  pub version : List ℕ
  pub before : List Field
  pub length_field : Field
  pub after : List Field
  pub body : List ℕ

abbrev pub print_query : Option (List ℕ) → List ℕ
print_query none = []
print_query (some q) = question_mark ∷ q

abbrev pub target : RequestText → List ℕ
target r = r.path ++ print_query r.query

abbrev pub print_line : RequestText → List ℕ
print_line r = r.method ++ 32 ∷ (target r ++ 32 ∷ r.version)

abbrev pub fields : RequestText → List Field
fields r = r.before ++ r.length_field ∷ r.after

abbrev pub print_head : RequestText → List ℕ
print_head r = print_line r ++ print_fields (fields r)

abbrev pub print_request : RequestText → List ℕ
print_request r = print_head r ++ (end_mark ++ r.body)

abbrev pub content_length : List ℕ
content_length = codes "Content-Length"

abbrev pub IsText : List ℕ → Type 0
IsText s = Lacks 13 s × Lacks 10 s

-- A well-formed request: the request line and the headers are single lines, the head is no longer
-- than the limit, and the first header that is named Content-Length says how long the body is.
pub record IsRequest (r : RequestText) : Type 0 where
  pub line : IsText (print_line r)
  pub method_word : Lacks 32 r.method × Lacks 58 r.method
  pub target_word : Lacks 32 (target r)
  pub path_only : Lacks question_mark r.path
  pub heading : IsHeader content_length r.before r.length_field
  pub lines : All (λ f. Lacks 13 (field_text f)) (fields r)
  pub fits : length (print_head r) + 3 ≤ 2048
  pub announced : strtoul r.length_field.value ≡ length r.body

find_text-line : (l t : List ℕ) → Lacks 13 l → find_text crlf (l ++ 13 ∷ 10 ∷ t) ≡ some (length l)
unfolding find_text starts_with
find_text-line [] t h = refl
find_text-line (c ∷ l) t h = ground (arith, h.0, find_text-line l t h.1)

take-path :
    (path : List ℕ) (q : Option (List ℕ))
    → Lacks question_mark path
    → let t = path ++ print_query q in take (end_or (find question_mark t) (length t)) t ≡ path
take-path path none h =
    let k = append-nil path in
    let e = Lacks-find-none question_mark path h in
    rw k (rw e (take_all (length path) path (omega arith)))
take-path path (some q) h =
    let e = find-append question_mark path q h in rw e (take-append path (question_mark ∷ q))

fields-cons :
    (b : List Field) (f : Field) (a : List Field)
    → (t : List ℕ) × (print_fields (b ++ f ∷ a) ≡ 13 ∷ 10 ∷ t)
fields-cons [] f a = (field_text f ++ print_fields a, refl)
fields-cons (x ∷ b) f a = (field_text x ++ print_fields (b ++ f ∷ a), refl)

second_word :
    (method word version : List ℕ)
    → Lacks 32 word
    → find_from (method ++ 32 ∷ (word ++ 32 ∷ version)) 32 (length method + 1)
      ≡ some (length method + 1 + length word)
unfolding find_from
second_word method word version w =
    let k : length method + 1 ≡ suc (length method) = omega arith in
    let e = find-append 32 word version w in
    rw (k, find_from, drop-append_suc 32 method (word ++ 32 ∷ version)) (rw e refl)

-- What `request_line` makes of the first line.
abbrev words : List ℕ → Option (List ℕ × List ℕ)
words line = elim (find 32 line) [
  | none ↦ none
  | some method_end ↦
      let target_end = end_or (find_from line 32 (method_end + 1)) (length line) in
      let target = substr line (method_end + 1) (target_end - method_end - 1) in
      some (take method_end line, take (end_or (find question_mark target) (length target)) target)
]

first_line : (line t : List ℕ) → Lacks 13 line → request_line (line ++ 13 ∷ 10 ∷ t) ≡ words line
unfolding request_line
first_line line t h = ap words (rw (find_text-line line t h) (take-append line (13 ∷ 10 ∷ t)))

word-target :
    (method word version : List ℕ)
    → substr
        (method ++ 32 ∷ (word ++ 32 ∷ version))
        (length method + 1)
        (length method + 1 + length word - length method - 1)
      ≡ word
word-target method word version =
    let j : length method + 1 + length word - length method - 1 ≡ length word = omega arith in
    let k : length method + 1 ≡ suc (length method) = omega arith in
    rw (j, k, drop-append_suc 32 method (word ++ 32 ∷ version)) (take-append word (32 ∷ version))

words_lem :
    (method word version : List ℕ)
    → Lacks 32 method
    → Lacks 32 word
    → words (method ++ 32 ∷ (word ++ 32 ∷ version))
      ≡ some (method, take (end_or (find question_mark word) (length word)) word)
words_lem method word version m w =
    let c = find-append 32 method (word ++ 32 ∷ version) m in
    let d = second_word method word version w in
    rw (words, c)
      (rw d (
        rw (word-target method word version, take-append method (32 ∷ (word ++ 32 ∷ version)))
          refl))

request_line-words :
    (r : RequestText) (t : List ℕ)
    → IsRequest r
    → request_line (print_line r ++ 13 ∷ 10 ∷ t) ≡ some (r.method, r.path)
request_line-words r t h =
    first_line (print_line r) t h.line.0
    ∙ words_lem r.method (target r) r.version h.method_word.0 h.target_word
    ∙ ap (λ p. some (r.method, p)) (take-path r.path r.query h.path_only)

pub head-request_line :
    (r : RequestText) → IsRequest r → request_line (print_head r) ≡ some (r.method, r.path)
head-request_line r h =
    let (t, e) = fields-cons r.before r.length_field r.after in
    ap (λ s. request_line (print_line r ++ s)) e ∙ request_line-words r t h

name_clear : Lacks 32 content_length
name_clear = find-none-Lacks 32 content_length (unfold find in refl)

pub head-header_value :
    (r : RequestText)
    → IsRequest r
    → header_value (print_head r) content_length ≡ some r.length_field.value
head-header_value r h =
    header_value-print_fields content_length r.method (target r ++ 32 ∷ r.version) r.before
      r.length_field r.after h.heading name_clear h.method_word.1 h.line.1

-- No line of the head is empty, so the headers end behind it.
fields-EndsAt : (fs : List Field) → All (λ f. Lacks 13 (field_text f)) fs → EndsAt (print_fields fs)
fields-EndsAt [] h = EndsAt-nil
fields-EndsAt (f ∷ fs) h =
    let e = EndsAt-append (field_text f) (print_fields fs) h.0 (fields-EndsAt fs h.1) in
    let (c, s, k) = cons-form (field_text f) (append-ne-nil f.name 58 (32 ∷ f.value)) in
    let n = subst (Lacks 13) k h.0 in
    let e' = subst (λ q. EndsAt (q ++ print_fields fs)) k e in
    subst (λ q. EndsAt (crlf ++ (q ++ print_fields fs))) (sym k)
      (EndsAt-line c (s ++ print_fields fs) n.0 e')

pub head-EndsAt : (r : RequestText) → IsRequest r → EndsAt (print_head r)
head-EndsAt r h =
    EndsAt-append (print_line r) (print_fields (fields r)) h.line.0
      (fields-EndsAt (fields r) h.lines)
