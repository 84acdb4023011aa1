-- ===== src/Marstack/Url.antt =====
-- `hex_value`, `url_decode` and `query_param` of components/marstack/marstack.cpp.
pub mod Decode
pub mod Query
pub mod Form
use marsrelay.Common.{
  ℕ, zero, suc, ◌+◌, ◌-◌, ◌*◌, Bool, true, false, ◌&&◌, ltb, leb, ◌==◌, if◌then◌else◌, bytes_eq,
  Option, none, some, List, [], ◌∷◌, length, codes, find, find_from, substr, end_or,
}

-- `none` stands for -1.
unfoldable pub hex_value : ℕ → Option ℕ
hex_value c =
    if leb b'0' c && leb c b'9'
    then some (c - 48)
    else if leb b'a' c && leb c b'f'
    then some (c - 97 + 10)
    else if leb b'A' c && leb c b'F'
    then some (c - 65 + 10)
    else none

-- `(hi << 4) | lo`, if both digits are hexadecimal.
unfoldable pub escaped : ℕ → ℕ → Option ℕ
unfolding hex_value
escaped a b = elim (hex_value a) [
  | none ↦ none
  | some hi ↦ elim (hex_value b) [ none ↦ none | some lo ↦ some (hi * 16 + lo) ]
]

-- A byte that has not two more behind it; a `%` stands for itself there.
abbrev pub plain : ℕ → ℕ
plain c = if c == b'+' then b' ' else c

unfoldable pub url_decode : List ℕ → List ℕ
url_decode [] = []
url_decode (c ∷ []) = plain c ∷ []
url_decode (c ∷ a ∷ []) = plain c ∷ url_decode (a ∷ [])
url_decode (c ∷ a ∷ b ∷ rest) = elim (c == b'%') [
  | false ↦ plain c ∷ url_decode (a ∷ b ∷ rest)
  | true ↦ elim (escaped a b) [
    | none ↦ c ∷ url_decode (a ∷ b ∷ rest)
    | some byte ↦ byte ∷ url_decode rest
  ]
]

abbrev pub ampersand : ℕ
ampersand = b'&'

abbrev pub equals_sign : ℕ
equals_sign = b'='

-- The test in the loop of `query_param`, and what it gives, for the piece from `pos` to `end`.
unfoldable pub value_at : List ℕ → List ℕ → ℕ → ℕ → Option (List ℕ)
value_at query name pos end = elim (find_from query equals_sign pos) [
  | none ↦ none
  | some eq ↦
      if ltb eq end && (eq - pos == length name) && bytes_eq (substr query pos (length name)) name
      then some (url_decode (substr query (eq + 1) (end - eq - 1)))
      else none
]

-- The loop, on fuel.
unfoldable pub query_param_from : ℕ → List ℕ → List ℕ → ℕ → Option (List ℕ)
query_param_from zero query name pos = none
query_param_from (suc fuel) query name pos =
    let end = end_or (find_from query ampersand pos) (length query) in
    elim (leb pos (length query)) [
      | false ↦ none
      | true ↦ elim (value_at query name pos end) [
        | some value ↦ some value
        | none ↦ elim (end == length query) [
          | true ↦ none
          | false ↦ query_param_from fuel query name (end + 1)
        ]
      ]
    ]

unfoldable pub query_param : List ℕ → List ℕ → Option (List ℕ)
query_param query name = query_param_from (length query + 2) query name 0
