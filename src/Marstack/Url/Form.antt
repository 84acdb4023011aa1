-- ===== src/Marstack/Url/Form.antt =====
-- A form as the battery sends it, printed and read.
use marsrelay.Common.{
  find-append, drop-append_suc, ℕ, ◌<◌, ◌≡◌, ◌∙◌, ap, refl, if◌then◌else◌, bytes_eq, Option, none,
  some, List, [], ◌∷◌, ◌++◌, map, All, take-append, join, split-join, Lacks, Lacks-append,
  Bool-cases, inl, inr, arith,
}
use marsrelay.Marstack.Url.{ampersand, equals_sign, query_param}
use marsrelay.Marstack.Url.Decode.{url_encode, encode_byte, url_decode-url_encode}
use marsrelay.Marstack.Url.Query.{value_of, first_value, query_param-first_value}

pub record Field : Type 0 where
  pub key : List ℕ
  pub value : List ℕ

-- Keys are free of the two separators; values are any bytes.
abbrev pub IsField : Field → Type 0
IsField f = Lacks ampersand f.key × Lacks equals_sign f.key × All (λ c. c < 256) f.value

abbrev pub print_field : Field → List ℕ
print_field f = f.key ++ equals_sign ∷ url_encode f.value

abbrev pub print_form : Field → List Field → List ℕ
print_form f fs = join ampersand (map print_field (f ∷ fs))

abbrev pub lookup : List ℕ → List Field → Option (List ℕ)
lookup name [] = none
lookup name (f ∷ fs) = if bytes_eq f.key name then some f.value else lookup name fs

Lacks-encode_byte : (c : ℕ) → Lacks ampersand (encode_byte c)
unfolding encode_byte
Lacks-encode_byte c = ground arith

Lacks-url_encode : (s : List ℕ) → Lacks ampersand (url_encode s)
unfolding url_encode
Lacks-url_encode [] = tt
Lacks-url_encode (c ∷ s) =
    Lacks-append ampersand (encode_byte c) (url_encode s) (Lacks-encode_byte c) (Lacks-url_encode s)

Lacks-print_field : (f : Field) → IsField f → Lacks ampersand (print_field f)
Lacks-print_field f h =
    Lacks-append ampersand f.key (equals_sign ∷ url_encode f.value) h.0
      ((λ e. omega (arith, e)), Lacks-url_encode f.value)

value_of-print_field :
    (name : List ℕ) (f : Field)
    → IsField f
    → value_of name (print_field f) ≡ (if bytes_eq f.key name then some f.value else none)
unfolding value_of
value_of-print_field name f h =
    rw (value_of, find-append equals_sign f.key (url_encode f.value) h.1)
      (rw
        (
          take-append f.key (equals_sign ∷ url_encode f.value),
          drop-append_suc equals_sign f.key (url_encode f.value),
          url_decode-url_encode f.value h.2,
        )
        refl)

first_value-lookup :
    (name : List ℕ) (fs : List Field)
    → All IsField fs
    → first_value name (map print_field fs) ≡ lookup name fs
unfolding first_value
first_value-lookup name [] h = refl
first_value-lookup name (f ∷ fs) h = elim (Bool-cases (bytes_eq f.key name)) [
  | inl hit ↦ let v = value_of-print_field name f h.0 in rw (first_value, v) (rw hit refl)
  | inr miss ↦
      let v = value_of-print_field name f h.0 in
      rw (first_value, v) (rw miss (first_value-lookup name fs h.1))
]

All-Lacks : (fs : List Field) → All IsField fs → All (Lacks ampersand) (map print_field fs)
All-Lacks [] h = tt
All-Lacks (f ∷ fs) h = (Lacks-print_field f h.0, All-Lacks fs h.1)

-- Reading a parameter of a printed form gives the value of the first field with that key, byte for
-- byte, and nothing if there is none, when no key holds one of the separators.
pub query_param-print_form :
    (name : List ℕ) (f : Field) (fs : List Field)
    → All IsField (f ∷ fs)
    → query_param (print_form f fs) name ≡ lookup name (f ∷ fs)
query_param-print_form name f fs h =
    query_param-first_value (print_form f fs) name
    ∙ ap (first_value name)
        (split-join ampersand (print_field f) (map print_field fs) (All-Lacks (f ∷ fs) h))
    ∙ first_value-lookup name (f ∷ fs) h
