-- ===== src/Dns/Buffer.antt =====
-- Bytes of a packet, and writes into it in place.
use marsrelay.Common.{
  ℕ, zero, suc, ◌+◌, ◌-◌, ◌*◌, ◌/◌, ◌%◌, ◌≤◌, ◌<◌, ◌≡◌, refl, ap, ◌∙◌, ltb, ◌==◌, lt→ltb, le→ltb,
  if◌then◌else◌, List, [], ◌∷◌, ◌++◌, length, take, drop, get_or, arith, length-append, length-take,
  length-drop,
}

abbrev pub byte_at : List ℕ → ℕ → ℕ
byte_at buf i = get_or buf i 0

-- `ntohs` of the two bytes at `i`.
abbrev pub read16 : List ℕ → ℕ → ℕ
read16 buf i = byte_at buf i * 256 + byte_at buf (i + 1)

-- The bytes that `htons` and `htonl` put into memory.
abbrev pub be16 : ℕ → List ℕ
be16 n = (n / 256) % 256 ∷ n % 256 ∷ []

abbrev pub be32 : ℕ → List ℕ
be32 n = (n / 16777216) % 256 ∷ (n / 65536) % 256 ∷ (n / 256) % 256 ∷ n % 256 ∷ []

-- Writes `bytes` over the buffer from `off` on.
unfoldable pub write_at : List ℕ → ℕ → List ℕ → List ℕ
write_at buf off bytes = take off buf ++ (bytes ++ drop (off + length bytes) buf)

get_or-append :
    (xs ys : List ℕ) (i : ℕ)
    → get_or (xs ++ ys) i 0
      ≡ (if ltb i (length xs) then get_or xs i 0 else get_or ys (i - length xs) 0)
get_or-append [] ys zero = refl
get_or-append [] ys (suc i) = ground arith
get_or-append (x ∷ xs) ys zero = ground arith
get_or-append (x ∷ xs) ys (suc i) = ground (arith, get_or-append xs ys i)

pub get_or-take : (n i : ℕ) (xs : List ℕ) → i < n → get_or (take n xs) i 0 ≡ get_or xs i 0
get_or-take zero i xs h = elim h [ ]
get_or-take (suc n) i [] h = refl
get_or-take (suc n) zero (x ∷ xs) h = refl
get_or-take (suc n) (suc i) (x ∷ xs) h = get_or-take n i xs (omega arith)

get_or-drop : (n i : ℕ) (xs : List ℕ) → get_or (drop n xs) i 0 ≡ get_or xs (n + i) 0
get_or-drop zero i xs = ground arith
get_or-drop (suc n) i [] = refl
get_or-drop (suc n) i (x ∷ xs) = ground (arith, get_or-drop n i xs)

get_or-append_left :
    (xs ys : List ℕ) (i : ℕ) → i < length xs → get_or (xs ++ ys) i 0 ≡ get_or xs i 0
get_or-append_left xs ys i h = rw (get_or-append xs ys i, lt→ltb _ _ h)

get_or-append_right :
    (xs ys : List ℕ) (i : ℕ) → length xs ≤ i → get_or (xs ++ ys) i 0 ≡ get_or ys (i - length xs) 0
get_or-append_right xs ys i h = rw (get_or-append xs ys i, le→ltb _ _ h)

length-take_le : (n : ℕ) (xs : List ℕ) → n ≤ length xs → length (take n xs) ≡ n
length-take_le n xs h = omega (arith, length-take n xs)

module _ (buf : List ℕ) (off : ℕ) (bytes : List ℕ) (fits : off + length bytes ≤ length buf) where
  pub length-write_at : length (write_at buf off bytes) ≡ length buf
  unfolding write_at
  length-write_at =
      length-append (take off buf) _
      ∙ omega (
        arith,
        length-append bytes (drop (off + length bytes) buf),
        length-take off buf,
        length-drop (off + length bytes) buf,
      )

  -- A write inside the buffer changes the bytes that it covers and no others.
  pub get_or-write_at_below :
      (i : ℕ) → i < off → get_or (write_at buf off bytes) i 0 ≡ get_or buf i 0
  unfolding write_at
  get_or-write_at_below i h =
      get_or-append_left (take off buf) _ i (omega (arith, length-take off buf))
      ∙ get_or-take off i buf h

  pub get_or-write_at_in :
      (i : ℕ) → i < length bytes → get_or (write_at buf off bytes) (off + i) 0 ≡ get_or bytes i 0
  unfolding write_at
  get_or-write_at_in i h =
      let e : length (take off buf) ≡ off = length-take_le off buf (omega arith) in
      let k : off + i - length (take off buf) ≡ i = omega arith in
      get_or-append_right (take off buf) _ (off + i) (omega arith)
      ∙ ap (λ n. get_or (bytes ++ drop (off + length bytes) buf) n 0) k
      ∙ get_or-append_left bytes _ i h

  pub get_or-write_at_above :
      (i : ℕ) → off + length bytes ≤ i → get_or (write_at buf off bytes) i 0 ≡ get_or buf i 0
  unfolding write_at
  get_or-write_at_above i h =
      let e : length (take off buf) ≡ off = length-take_le off buf (omega arith) in
      let k : off + length bytes + (i - length (take off buf) - length bytes) ≡ i = omega arith in
      get_or-append_right (take off buf) _ i (omega arith)
      ∙ get_or-append_right bytes _ (i - length (take off buf)) (omega arith)
      ∙ get_or-drop (off + length bytes) (i - length (take off buf) - length bytes) buf
      ∙ ap (λ n. get_or buf n 0) k

-- The same in one equation, for the two bytes of a 16-bit field.
pub byte_at-write_at :
    (buf : List ℕ) (off a b i : ℕ)
    → off + 2 ≤ length buf
    → byte_at (write_at buf off (a ∷ b ∷ [])) i
      ≡ (if i == off then a else if i == off + 1 then b else byte_at buf i)
byte_at-write_at buf off a b i h = ground (
  arith,
  get_or-write_at_below buf off (a ∷ b ∷ []) h i,
  get_or-write_at_in buf off (a ∷ b ∷ []) h 0,
  get_or-write_at_in buf off (a ∷ b ∷ []) h 1,
  get_or-write_at_above buf off (a ∷ b ∷ []) h i,
)
