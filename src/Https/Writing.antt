-- ===== src/Https/Writing.antt =====
-- The sending loop of the TLS listener.
use marsrelay.Common.{
  ℕ, ◌+◌, ◌≤◌, ◌≡◌, ◌∙◌, ap, sym, refl, true, false, ltb, List, [], ◌∷◌, ◌++◌, length, take, drop,
  drop-drop, drop_all, take-append-drop, All, Bool-cases, inl, inr, arith,
}
use marsrelay.Https.Requests.{expired}
use marsrelay.Https.{Written, want_io, broken, took, sent, write_all}

-- A write that takes something, or nothing, or a wait in time.
abbrev pub IsGoodWrite : ℕ → Written → Type 0
IsGoodWrite deadline (want_io now) = expired deadline now ≡ false
IsGoodWrite deadline broken = ⊥
IsGoodWrite deadline (took n) = Unit

-- How much the writes take.
abbrev pub takes : List Written → ℕ
takes [] = 0
takes (want_io now ∷ results) = takes results
takes (broken ∷ results) = takes results
takes (took n ∷ results) = n + takes results

module _ (deadline : ℕ) (text : List ℕ) where
  write_all-done :
      (at : ℕ) (results : List Written)
      → ltb at (length text) ≡ false
      → write_all deadline text at results ≡ ([], sent)
  unfolding write_all
  write_all-done at [] e = rw (write_all, e) refl
  write_all-done at (want_io now ∷ rs) e = rw (write_all, e) refl
  write_all-done at (broken ∷ rs) e = rw (write_all, e) refl
  write_all-done at (took n ∷ rs) e = rw (write_all, e) refl

  write_all_behind :
      (at : ℕ) (results : List Written)
      → ltb at (length text) ≡ false
      → write_all deadline text at results ≡ (drop at text, sent)
  write_all_behind at results e =
      let d : drop at text ≡ [] = drop_all at text (ground arith) in
      write_all-done at results e ∙ ap (λ t. (t, sent)) (sym d)

  write_all_one :
      (at : ℕ) (w : Written) (results : List Written)
      → ((a : ℕ)
          → length text ≤ a + takes results
          → write_all deadline text a results ≡ (drop a text, sent))
      → IsGoodWrite deadline w
      → ltb at (length text) ≡ true
      → length text ≤ at + takes (w ∷ results)
      → write_all deadline text at (w ∷ results) ≡ (drop at text, sent)
  unfolding write_all
  write_all_one at (want_io now) results ih g e h = rw (write_all, e) (rw g (ih at h))
  write_all_one at broken results ih g e h = absurd g
  write_all_one at (took n) results ih g e h =
      let v = ih (at + n) (omega (arith, h)) in
      rw (write_all, e)
        (rw v (
          ap (λ t. (t, sent))
            (ap (λ t. take n (drop at text) ++ t) (sym (drop-drop at n text))
              ∙ take-append-drop n (drop at text))))

  write_all_from :
      (at : ℕ) (results : List Written)
      → All (IsGoodWrite deadline) results
      → length text ≤ at + takes results
      → write_all deadline text at results ≡ (drop at text, sent)
  write_all_from at [] a h = write_all_behind at [] (ground arith)
  write_all_from at (r ∷ results) a h = elim (Bool-cases (ltb at (length text))) [
    | inr e ↦ write_all_behind at (r ∷ results) e
    | inl e ↦ write_all_one at r results (λ x k. write_all_from x results a.1 k) a.0 e h
  ]

-- The response goes out byte for byte, in whatever portions and with whatever waits, when no write
-- fails, no wait is past the deadline and the writes take as many bytes as there are.
pub write_all-whole :
    (deadline : ℕ) (text : List ℕ) (results : List Written)
    → All (IsGoodWrite deadline) results
    → length text ≤ takes results
    → write_all deadline text 0 results ≡ (text, sent)
write_all-whole deadline text results a h =
    write_all_from deadline text 0 results a (omega (arith, h))
