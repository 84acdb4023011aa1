-- ===== src/Https/Ends.antt =====
-- Where the headers end: the search for the empty line in a text and in the front of it.
use marsrelay.Common.{
  ℕ, zero, suc, ◌+◌, ◌≤◌, ◌≡◌, ◌≢◌, refl, true, some, List, [], ◌∷◌, ◌++◌, length, Lacks,
  starts_with, arith,
}
use marsrelay.Https.Requests.{find_text, crlf}

starts_with-longer : (p s t : List ℕ) → starts_with p s ≡ true → starts_with p (s ++ t) ≡ true
unfolding starts_with
starts_with-longer [] s t h = refl
starts_with-longer (x ∷ p) [] t h = absurd (ground (arith, h))
starts_with-longer (x ∷ p) (y ∷ s) t h = ground (arith, h, starts_with-longer p s t)

starts_with-front :
    (p s t : List ℕ) → starts_with p (s ++ t) ≡ true → length p ≤ length s → starts_with p s ≡ true
unfolding starts_with
starts_with-front [] s t h l = refl
starts_with-front (x ∷ p) [] t h l = absurd (omega (arith, l))
starts_with-front (x ∷ p) (y ∷ s) t h l =
    let k : length p ≤ length s = omega (arith, l) in ground (arith, h, k, starts_with-front p s t)

length-starts_with : (p s : List ℕ) → starts_with p s ≡ true → length p ≤ length s
unfolding starts_with
length-starts_with [] s h = omega arith
length-starts_with (x ∷ p) [] h = absurd (ground (arith, h))
length-starts_with (x ∷ p) (y ∷ s) h = ground (arith, h, length-starts_with p s)

pub find_text-room : (p s : List ℕ) (i : ℕ) → find_text p s ≡ some i → i + length p ≤ length s
unfolding find_text
find_text-room p [] i h = ground (arith, h, length-starts_with p [])
find_text-room p (x ∷ s) zero h = ground (arith, h, length-starts_with p (x ∷ s))
find_text-room p (x ∷ s) (suc i) h = ground (arith, h, find_text-room p s i)

-- A place that is found in a text and has room in its front is found there.
pub find_text-front :
    (p s t : List ℕ) (i : ℕ)
    → find_text p (s ++ t) ≡ some i
    → i + length p ≤ length s
    → find_text p s ≡ some i
unfolding find_text
find_text-front [] [] t i h l =
    let k : i ≡ 0 = omega (arith, l) in rw k (unfold starts_with in refl)
find_text-front (x ∷ p) [] t i h l = absurd (omega (arith, l))
find_text-front p (x ∷ s) t zero h l =
    let k = starts_with-front p (x ∷ s) t in
    let l' : length p ≤ length (x ∷ s) = omega (arith, l) in ground (arith, h, k, l')
find_text-front p (x ∷ s) t (suc i) h l =
    let l' : i + length p ≤ length s = omega (arith, l) in
    ground (arith, h, starts_with-longer p (x ∷ s) t, l', find_text-front p s t i)

-- A place that is found in the front of a text is the first of the text.
pub find_text-longer :
    (p s t : List ℕ) (i : ℕ) → find_text p s ≡ some i → find_text p (s ++ t) ≡ some i
unfolding find_text
find_text-longer [] [] [] i h = h
find_text-longer [] [] (y ∷ t) i h = unfold starts_with in h
find_text-longer (x ∷ p) [] t i h = absurd (unfold starts_with in ground (arith, h))
find_text-longer p (x ∷ s) t zero h = ground (arith, h, starts_with-longer p (x ∷ s) t)
find_text-longer p (x ∷ s) t (suc i) h =
    let r = find_text-room p s i in
    ground (arith, h, r, starts_with-front p (x ∷ s) t, find_text-longer p s t i)

abbrev pub end_mark : List ℕ
end_mark = crlf ++ crlf

-- The headers end behind a text `s`, whatever follows.
abbrev pub EndsAt : List ℕ → Type 0
EndsAt s = (t : List ℕ) → find_text end_mark (s ++ (end_mark ++ t)) ≡ some (length s)

pub EndsAt-nil : EndsAt []
unfolding find_text starts_with
EndsAt-nil t = refl

EndsAt-cons : (c : ℕ) (s : List ℕ) → c ≢ 13 → EndsAt s → EndsAt (c ∷ s)
unfolding find_text starts_with
EndsAt-cons c s h e t = let k = e t in ground (arith, h, k)

pub EndsAt-append : (l s : List ℕ) → Lacks 13 l → EndsAt s → EndsAt (l ++ s)
EndsAt-append [] s h e = e
EndsAt-append (c ∷ l) s h e = EndsAt-cons c (l ++ s) h.0 (EndsAt-append l s h.1 e)

-- A line that is not empty does not end them.
pub EndsAt-line : (c : ℕ) (s : List ℕ) → c ≢ 13 → EndsAt (c ∷ s) → EndsAt (crlf ++ c ∷ s)
unfolding find_text starts_with
EndsAt-line c s h e t = let k = e t in ground (arith, h, k)
