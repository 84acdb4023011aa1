-- ===== src/Dns/Name.antt =====
-- The walk over the queried name, against the encoding of names in RFC 1035.
use marsrelay.Common.{ℕ, zero, suc, ◌+◌, ◌≤◌, ◌<◌, ◌≡◌, ◌↔◌, ◌⊎◌, inl, inr, List, some, arith}
use marsrelay.Dns.Buffer.{byte_at}
use marsrelay.Dns.{skip_labels, name_end, header_size}

-- A name inside the packet, from a position on: labels of 1 to 63 bytes, each behind its length,
-- and then a null byte at `p`.
pub data NameAt (buf : List ℕ) (len p : ℕ) : ℕ → Type 0 where
  root : {pos : ℕ} → pos ≡ p → pos < len → byte_at buf pos ≡ 0 → NameAt buf len p pos
  label :
      {pos : ℕ}
      → pos < len
      → 0 < byte_at buf pos
      → byte_at buf pos ≤ 63
      → NameAt buf len p (pos + byte_at buf pos + 1)
      → NameAt buf len p pos

NameAt-lt : {buf : List ℕ} {len p pos : ℕ} → NameAt buf len p pos → pos < len
NameAt-lt (root e h z) = h
NameAt-lt (label h k m rest) = h

pub NameAt-end :
    {buf : List ℕ} {len p pos : ℕ}
    → NameAt buf len p pos
    → (pos ≤ p) × (p < len) × (byte_at buf p ≡ 0)
NameAt-end (root e h z) = ground arith
NameAt-end (label h k m rest) = let r = NameAt-end rest in (omega arith, r.1, r.2)

skip_labels_step :
    (fuel : ℕ) (buf : List ℕ) (len pos p : ℕ)
    → skip_labels (suc fuel) buf len pos ≡ some p
    → p < len
    → byte_at buf p ≡ 0
    → ((pos ≡ p) × (pos < len) × (byte_at buf pos ≡ 0))
      ⊎ ((pos < len)
          × (0 < byte_at buf pos)
          × (byte_at buf pos ≤ 63)
          × (skip_labels fuel buf len (pos + byte_at buf pos + 1) ≡ some p))
unfolding skip_labels
skip_labels_step fuel buf len pos p e h z = ground arith

skip_labels-NameAt :
    (fuel : ℕ) (buf : List ℕ) (len pos p : ℕ)
    → skip_labels fuel buf len pos ≡ some p
    → p < len
    → byte_at buf p ≡ 0
    → NameAt buf len p pos
unfolding skip_labels
skip_labels-NameAt zero buf len pos p e h z = cc
skip_labels-NameAt (suc fuel) buf len pos p e h z =
    elim (skip_labels_step fuel buf len pos p e h z) [
      | inl (i, l, y) ↦ root i l y
      | inr (l, k, m, rest) ↦ label l k m (skip_labels-NameAt fuel buf len _ p rest h z)
    ]

NameAt-skip_labels :
    (fuel : ℕ) (buf : List ℕ) {len p pos : ℕ}
    → NameAt buf len p pos
    → len < fuel + pos
    → skip_labels fuel buf len pos ≡ some p
unfolding skip_labels
NameAt-skip_labels zero buf (root e h z) f = absurd (omega arith)
NameAt-skip_labels zero buf (label h k m rest) f = absurd (omega arith)
NameAt-skip_labels (suc fuel) buf (root e h z) f = ground arith
NameAt-skip_labels (suc fuel) buf (label {pos = pos} h k m rest) f =
    ground (arith, NameAt-lt rest, NameAt-skip_labels fuel buf rest)

-- The walk ends at `p` exactly if a whole encoded name stands in the packet from the end of the
-- header on and its null byte is at `p`; in particular the fuel of one more than the length of the
-- packet suffices.
pub name_end-NameAt_iff :
    (buf : List ℕ) (len p : ℕ) → (name_end buf len ≡ some p) ↔ NameAt buf len p header_size
unfolding name_end
name_end-NameAt_iff buf len p = (
  (λ e.
      skip_labels-NameAt (suc len) buf len header_size p (ground arith) (ground arith)
        (ground arith)),
  (λ n. let r = NameAt-end n in ground (arith, NameAt-skip_labels (suc len) buf n (omega arith))),
)
