-- ===== src/Dns/Building.antt =====
-- `build_answer`: the bytes of the answer that is built in the query's buffer.
use marsrelay.Common.{
  ℕ, ◌+◌, ◌≤◌, ◌<◌, ◌≡◌, ◌∙◌, List, length, take, some, arith, ◌==◌, if◌then◌else◌, length-take,
}
use marsrelay.Dns.Buffer.{
  byte_at, be16, write_at, get_or-take, length-write_at, byte_at-write_at, get_or-write_at_below,
  get_or-write_at_in,
}
use marsrelay.Dns.{buffer_size, answer_record, build_answer}

-- The query with the flags of an authoritative response and an answer count of 1.
abbrev pub marked : ℕ → ℕ → ℕ
marked i byte =
    if i == 2 then 132 else if i == 3 then 0 else if i == 6 then 0 else if i == 7 then 1 else byte

abbrev pub as_response : List ℕ → ℕ → ℕ
as_response buf i = marked i (byte_at buf i)

abbrev with_header : List ℕ → List ℕ
with_header buf = write_at (write_at buf 2 (be16 33792)) 6 (be16 1)

length-with_header : (buf : List ℕ) → 12 ≤ length buf → length (with_header buf) ≡ length buf
length-with_header buf h =
    length-write_at (write_at buf 2 (be16 33792)) 6 (be16 1)
      (omega (arith, length-write_at buf 2 (be16 33792) (omega arith)))
    ∙ length-write_at buf 2 (be16 33792) (omega arith)

with_header-as_response :
    (buf : List ℕ) (i : ℕ) → 12 ≤ length buf → byte_at (with_header buf) i ≡ as_response buf i
with_header-as_response buf i h = ground (
  arith,
  byte_at-write_at (write_at buf 2 (be16 33792)) 6 0 1 i,
  byte_at-write_at buf 2 132 0 i,
  length-write_at buf 2 (be16 33792) (omega arith),
)

length-answer_record : (ip : List ℕ) → length ip ≡ 4 → length (answer_record ip) ≡ 16
unfolding answer_record
length-answer_record ip h = omega arith

module _ (ip buf : List ℕ) (pos : ℕ) (four : length ip ≡ 4) (whole : length buf ≡ buffer_size) where
  build_answer_fits :
      (r : List ℕ)
      → (build_answer ip buf pos).1 ≡ some r
      → (pos + 20 ≤ buffer_size)
        × (r ≡ take (pos + 20) (write_at (with_header buf) (pos + 4) (answer_record ip)))
  unfolding build_answer
  build_answer_fits r e = ground arith

  -- Up to the end of the question the answer is the query under the header of a response, and
  -- the answer record follows.
  pub build_answer_bytes :
      (r : List ℕ)
      → (build_answer ip buf pos).1 ≡ some r
      → (length r ≡ pos + 20)
        × ((i : ℕ) → i < pos + 4 → byte_at r i ≡ as_response buf i)
        × ((i : ℕ) → i < 16 → byte_at r (pos + 4 + i) ≡ byte_at (answer_record ip) i)
  build_answer_bytes r e =
      let (fits, out) = build_answer_fits r e in
      let w = with_header buf in
      let len : length w ≡ buffer_size = length-with_header buf (omega arith) ∙ whole in
      let rec_len = length-answer_record ip four in
      let inside : pos + 4 + length (answer_record ip) ≤ length w = omega arith in
      let full = write_at w (pos + 4) (answer_record ip) in
      let full_len = length-write_at w (pos + 4) (answer_record ip) inside in
      (
        rw out (omega (arith, length-take (pos + 20) full)),
        (λ i h. rw out (
            get_or-take (pos + 20) i full (omega arith)
            ∙ get_or-write_at_below w (pos + 4) (answer_record ip) inside i h
            ∙ with_header-as_response buf i (omega arith))),
        (λ i h. rw out (
            get_or-take (pos + 20) (pos + 4 + i) full (omega arith)
            ∙ get_or-write_at_in w (pos + 4) (answer_record ip) inside i (omega arith))),
      )

pub build_answer-some :
    (ip buf : List ℕ) (pos : ℕ)
    → pos + 20 ≤ buffer_size
    → (r : List ℕ) × ((build_answer ip buf pos).1 ≡ some r)
unfolding build_answer
build_answer-some ip buf pos h =
    (take (pos + 20) (write_at (with_header buf) (pos + 4) (answer_record ip)), ground arith)
