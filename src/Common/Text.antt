-- ===== src/Common/Text.antt =====
-- Byte strings: what the sources use of `std::string` (`find`, `substr`, `compare`), and the
-- pieces between separators, by which the position loops are specified.
use Prim.Native.Char.{code}
use Prim.Native.String.{String}
use Prim.Native.Nat.{ℕ, zero, suc, ◌+◌, ◌≤◌, ◌<◌}
use mathlib.Core.Path.{◌≡◌, refl}
use mathlib.Core.Logic.{◌≢◌, inl, inr}
use mathlib.Core.Bool.{Bool, true, false, ◌&&◌, ◌||◌}
use mathlib.Core.Option.{Option, none, some}
use mathlib.Core.List.{List, [], ◌∷◌, ◌++◌}
use native.Mathlib.Omega.{arith}
use marsrelay.Common.Tests.{◌==◌, Bool-cases, if◌then◌else◌}
use marsrelay.Common.Lists.{length, take, drop, All}

-- The bytes of an ASCII literal.
abbrev pub codes : String → List ℕ
codes String.[] = []
codes (String.◌∷◌ c s) = code c ∷ codes s

abbrev after_byte : Option ℕ → Option ℕ
after_byte none = none
after_byte (some i) = some (suc i)

-- The first place of `c`.
unfoldable pub find : ℕ → List ℕ → Option ℕ
find c [] = none
find c (x ∷ xs) = if x == c then some 0 else after_byte (find c xs)

abbrev shift : ℕ → Option ℕ → Option ℕ
shift n none = none
shift n (some i) = some (n + i)

-- `s.find(c, pos)`.
unfoldable pub find_from : List ℕ → ℕ → ℕ → Option ℕ
find_from s c pos = shift pos (find c (drop pos s))

-- `s.substr(pos, n)`.
abbrev pub substr : List ℕ → ℕ → ℕ → List ℕ
substr s pos n = take n (drop pos s)

-- The end of the piece that starts at `pos`: the next `c`, or the end of the text.
abbrev pub end_or : Option ℕ → ℕ → ℕ
end_or none size = size
end_or (some i) size = i

-- `s.compare(0, p.size(), p) == 0`.
unfoldable pub starts_with : List ℕ → List ℕ → Bool
starts_with [] s = true
starts_with (x ∷ p) [] = false
starts_with (x ∷ p) (y ∷ s) = (x == y) && starts_with p s

-- `s.find(p) != npos`.
unfoldable pub contains : List ℕ → List ℕ → Bool
unfolding starts_with
contains p [] = starts_with p []
contains p (x ∷ s) = starts_with p (x ∷ s) || contains p s

abbrev add_front : ℕ → List (List ℕ) → List (List ℕ)
add_front x [] = (x ∷ []) ∷ []
add_front x (p ∷ ps) = (x ∷ p) ∷ ps

-- The pieces of `s` between the separators; always at least one.
unfoldable pub split : ℕ → List ℕ → List (List ℕ)
split c [] = [] ∷ []
split c (x ∷ s) = if x == c then [] ∷ split c s else add_front x (split c s)

unfoldable pub join : ℕ → List (List ℕ) → List ℕ
join c [] = []
join c (p ∷ []) = p
join c (p ∷ q ∷ ps) = p ++ c ∷ join c (q ∷ ps)

abbrev pub Lacks : ℕ → List ℕ → Type 0
Lacks c = All (λ x. x ≢ c)

pub find-lt-length : (c : ℕ) (s : List ℕ) (i : ℕ) → find c s ≡ some i → i < length s
unfolding find
find-lt-length c [] i h = cc
find-lt-length c (x ∷ s) zero h = omega arith
find-lt-length c (x ∷ s) (suc i) h = ground (arith, find-lt-length c s i)

pub split-none : (c : ℕ) (s : List ℕ) → find c s ≡ none → split c s ≡ s ∷ []
unfolding find split
split-none c [] h = refl
split-none c (x ∷ s) h = ground (arith, split-none c s)

pub split-some :
    (c : ℕ) (s : List ℕ) (i : ℕ)
    → find c s ≡ some i
    → split c s ≡ take i s ∷ split c (drop (suc i) s)
unfolding find split
split-some c [] i h = cc
split-some c (x ∷ s) zero h = ground arith
split-some c (x ∷ s) (suc i) h = ground (arith, split-some c s i)

pub split-ne-nil : (c : ℕ) (s : List ℕ) → split c s ≢ []
unfolding split
split-ne-nil c [] h = cc
split-ne-nil c (x ∷ s) h = ground (arith, split-ne-nil c s)

pub split-Lacks : (c : ℕ) (s : List ℕ) → Lacks c s → split c s ≡ s ∷ []
unfolding split
split-Lacks c [] h = refl
split-Lacks c (x ∷ s) h = ground (arith, split-Lacks c s h.1)

pub split-append : (c : ℕ) (p s : List ℕ) → Lacks c p → split c (p ++ c ∷ s) ≡ p ∷ split c s
unfolding split
split-append c [] s h = ground arith
split-append c (x ∷ p) s h = ground (arith, split-append c p s h.1)

-- Joining pieces that hold no separator and splitting again gives the pieces.
pub split-join :
    (c : ℕ) (p : List ℕ) (ps : List (List ℕ))
    → All (Lacks c) (p ∷ ps)
    → split c (join c (p ∷ ps)) ≡ p ∷ ps
unfolding join
split-join c p [] h = split-Lacks c p h.0
split-join c p (q ∷ ps) h =
    ground (arith, split-append c p (join c (q ∷ ps)) h.0, split-join c q ps h.1)

join-add_front : (c x : ℕ) (ps : List (List ℕ)) → ps ≢ [] → join c (add_front x ps) ≡ x ∷ join c ps
unfolding join
join-add_front c x [] h = absurd (h refl)
join-add_front c x (p ∷ []) h = refl
join-add_front c x (p ∷ q ∷ ps) h = refl

join-nil_front : (c : ℕ) (ps : List (List ℕ)) → ps ≢ [] → join c ([] ∷ ps) ≡ c ∷ join c ps
unfolding join
join-nil_front c [] h = absurd (h refl)
join-nil_front c (p ∷ ps) h = refl

pub join-split : (c : ℕ) (s : List ℕ) → join c (split c s) ≡ s
unfolding split
join-split c [] = unfold join in refl
join-split c (x ∷ s) = elim (Bool-cases (x == c)) [
  | inl e ↦
      rw (e, split) (ground (arith, join-nil_front c (split c s), split-ne-nil c s, join-split c s))
  | inr e ↦
      rw (e, split)
        (ground (arith, join-add_front c x (split c s), split-ne-nil c s, join-split c s))
]

pub All-split-Lacks : (c : ℕ) (s : List ℕ) → All (Lacks c) (split c s)
unfolding split
All-split-Lacks c [] = (tt, tt)
All-split-Lacks c (x ∷ s) = ground (arith, All-split-Lacks c s)

pub Lacks-append : (c : ℕ) (s t : List ℕ) → Lacks c s → Lacks c t → Lacks c (s ++ t)
Lacks-append c [] t h k = k
Lacks-append c (x ∷ s) t h k = (h.0, Lacks-append c s t h.1 k)

-- A literal is searched for a byte by running the search.
pub find-none-Lacks : (c : ℕ) (s : List ℕ) → find c s ≡ none → Lacks c s
unfolding find
find-none-Lacks c [] h = tt
find-none-Lacks c (x ∷ s) h = ground (arith, find-none-Lacks c s)

pub Lacks-find-none : (c : ℕ) (s : List ℕ) → Lacks c s → find c s ≡ none
unfolding find
Lacks-find-none c [] h = refl
Lacks-find-none c (x ∷ s) h = ground (arith, Lacks-find-none c s h.1)

-- A search in the front of a text.
pub find-take :
    (c : ℕ) (s : List ℕ) (n i : ℕ) → find c s ≡ some i → i < n → find c (take n s) ≡ some i
unfolding find
find-take c [] n i h l = cc
find-take c (x ∷ s) zero i h l = absurd (omega arith)
find-take c (x ∷ s) (suc n) zero h l = ground arith
find-take c (x ∷ s) (suc n) (suc i) h l = ground (arith, find-take c s n i)

pub find-take_beyond :
    (c : ℕ) (s : List ℕ) (n i : ℕ) → find c s ≡ some i → n ≤ i → find c (take n s) ≡ none
unfolding find
find-take_beyond c s zero i h l = refl
find-take_beyond c [] (suc n) i h l = refl
find-take_beyond c (x ∷ s) (suc n) zero h l = absurd (omega arith)
find-take_beyond c (x ∷ s) (suc n) (suc i) h l = ground (arith, find-take_beyond c s n i)

pub find-take-none : (c : ℕ) (s : List ℕ) (n : ℕ) → find c s ≡ none → find c (take n s) ≡ none
unfolding find
find-take-none c s zero h = refl
find-take-none c [] (suc n) h = refl
find-take-none c (x ∷ s) (suc n) h = ground (arith, find-take-none c s n)

pub find-append : (c : ℕ) (s t : List ℕ) → Lacks c s → find c (s ++ c ∷ t) ≡ some (length s)
unfolding find
find-append c [] t h = ground arith
find-append c (x ∷ s) t h = ground (arith, find-append c s t h.1)

pub drop-append_suc : (c : ℕ) (s t : List ℕ) → drop (suc (length s)) (s ++ c ∷ t) ≡ t
drop-append_suc c [] t = refl
drop-append_suc c (x ∷ s) t = drop-append_suc c s t
