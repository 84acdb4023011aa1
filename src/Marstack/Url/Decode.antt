-- ===== src/Marstack/Url/Decode.antt =====
-- `url_decode` against the encoding that it undoes.
use marsrelay.Common.{
  ℕ, ◌+◌, ◌/◌, ◌%◌, ◌<◌, ◌≡◌, ◌∙◌, ap, refl, Bool, false, ◌&&◌, ◌||◌, ltb, leb, ◌==◌, if◌then◌else◌,
  some, List, [], ◌∷◌, ◌++◌, All, Bool-cases, inl, inr, arith,
}
use marsrelay.Marstack.Url.{hex_value, escaped, url_decode}

-- The bytes that stand for themselves in a URL: letters, digits and `-` `.` `_` `~`.
abbrev pub is_unreserved : ℕ → Bool
is_unreserved c =
    (leb b'a' c && leb c b'z')
    || (leb b'A' c && leb c b'Z')
    || (leb b'0' c && leb c b'9')
    || (c == b'-')
    || (c == b'.')
    || (c == b'_')
    || (c == b'~')

abbrev pub hex_digit : ℕ → ℕ
hex_digit n = if ltb n 10 then n + 48 else n + 55

unfoldable pub encode_byte : ℕ → List ℕ
encode_byte c =
    if is_unreserved c then c ∷ [] else b'%' ∷ hex_digit (c / 16) ∷ hex_digit (c % 16) ∷ []

-- The percent encoding of a text.
unfoldable pub url_encode : List ℕ → List ℕ
url_encode [] = []
url_encode (c ∷ s) = encode_byte c ++ url_encode s

hex_value-hex_digit : (n : ℕ) → n < 16 → hex_value (hex_digit n) ≡ some n
unfolding hex_value
hex_value-hex_digit n h = ground arith

escaped-hex_digit : (c : ℕ) → c < 256 → escaped (hex_digit (c / 16)) (hex_digit (c % 16)) ≡ some c
unfolding escaped
escaped-hex_digit c h =
    rw
      (
        escaped,
        hex_value-hex_digit (c / 16) (omega arith),
        hex_value-hex_digit (c % 16) (omega arith),
      )
      (ap some (omega arith))

url_decode-plain :
    (c : ℕ) (s : List ℕ)
    → (c == b'+') ≡ false
    → (c == b'%') ≡ false
    → url_decode (c ∷ s) ≡ c ∷ url_decode s
unfolding url_decode
url_decode-plain c [] h k = rw h refl
url_decode-plain c (a ∷ []) h k = rw h refl
url_decode-plain c (a ∷ b ∷ s) h k = rw (url_decode, k) (rw h refl)

url_decode-escaped :
    (a b c : ℕ) (s : List ℕ)
    → escaped a b ≡ some c
    → url_decode (b'%' ∷ a ∷ b ∷ s) ≡ c ∷ url_decode s
unfolding url_decode
url_decode-escaped a b c s h = rw (url_decode, h) refl

url_decode-encode_byte :
    (c : ℕ) (s : List ℕ) → c < 256 → url_decode (encode_byte c ++ s) ≡ c ∷ url_decode s
unfolding encode_byte
url_decode-encode_byte c s h = elim (Bool-cases (is_unreserved c)) [
  | inl e ↦ rw (e, encode_byte) (url_decode-plain c s (ground arith) (ground arith))
  | inr e ↦ rw (e, encode_byte) (url_decode-escaped _ _ c s (escaped-hex_digit c h))
]

-- Decoding the percent encoding of any bytes gives the bytes back.
pub url_decode-url_encode : (s : List ℕ) → All (λ c. c < 256) s → url_decode (url_encode s) ≡ s
unfolding url_encode
url_decode-url_encode [] h = unfold url_decode in refl
url_decode-url_encode (c ∷ s) h =
    url_decode-encode_byte c (url_encode s) h.0 ∙ ap (λ t. c ∷ t) (url_decode-url_encode s h.1)
