-- ===== src/Marstack/Framing/Dates.antt =====
-- What is printed into the lines of a head holds no CR: numbers, ids and dates.
use marsrelay.Common.{
  Option-cases, some, true, false, Bool, ℕ, zero, suc, ◌-◌, ◌/◌, ◌%◌, ◌≡◌, ◌≢◌, refl, codes, none,
  List, [], ◌∷◌, ◌++◌, length, get_or, replicate, All, Lacks-append, find, find-none-Lacks, Base,
  decimal, digit, print_digits, quotient, remainder, ℕ-cases, to_string, padded, inl, inr, arith,
}
use marsrelay.Marstack.Framing.{days, months, Gmt, random_hex, http_date}
use marsrelay.Marstack.Framing.Reader.{IsLine}

digit-no_cr : (n : ℕ) → digit n ≢ 13
digit-no_cr n = ground arith

pub Lacks-print_digits :
    (fuel : ℕ) (b : Base) (n : ℕ) (printed : List ℕ)
    → IsLine printed
    → IsLine (print_digits fuel b n printed)
unfolding print_digits
Lacks-print_digits zero b n printed h = h
Lacks-print_digits (suc fuel) b n printed h = elim (ℕ-cases (quotient b n)) [
  | inl e ↦ rw (print_digits, e) (digit-no_cr (remainder b n), h)
  | inr (q, e) ↦
      rw (print_digits, e) (Lacks-print_digits fuel b (suc q) _ (digit-no_cr (remainder b n), h))
]

Lacks-replicate : (n : ℕ) → IsLine (replicate n 48)
Lacks-replicate zero = tt
Lacks-replicate (suc n) = ((λ e. omega (arith, e)), Lacks-replicate n)

Lacks-padded : (width n : ℕ) → IsLine (padded width n)
Lacks-padded width n =
    Lacks-append 13 (replicate (width - length (to_string n)) 48) (to_string n) (Lacks-replicate _)
      (Lacks-print_digits (suc n) decimal n [] tt)

pub Lacks-random_hex : (bytes : List ℕ) → IsLine (random_hex bytes)
unfolding random_hex
Lacks-random_hex [] = tt
Lacks-random_hex (b ∷ bytes) =
    (digit-no_cr (b / 16), (digit-no_cr (b % 16), Lacks-random_hex bytes))

All-get_or : (xs : List (List ℕ)) (i : ℕ) → All IsLine xs → IsLine (get_or xs i [])
All-get_or [] i h = tt
All-get_or (x ∷ xs) zero h = h.0
All-get_or (x ∷ xs) (suc i) h = All-get_or xs i h.1

pub literal : (s : List ℕ) → find 13 s ≡ none → IsLine s
literal s h = find-none-Lacks 13 s h

pub after_literal : (s t : List ℕ) → find 13 s ≡ none → IsLine t → IsLine (s ++ t)
after_literal s t h k = Lacks-append 13 s t (literal s h) k

abbrev lack_cr : List (List ℕ) → Bool
lack_cr [] = true
lack_cr (x ∷ xs) = elim (find 13 x) [ none ↦ lack_cr xs | some i ↦ false ]

All-IsLine : (xs : List (List ℕ)) → lack_cr xs ≡ true → All IsLine xs
All-IsLine [] h = tt
All-IsLine (x ∷ xs) h = elim (Option-cases (find 13 x)) [
  | inl e ↦ (literal x e, All-IsLine xs (ground (arith, h, e)))
  | inr (i, e) ↦ absurd (ground (arith, h, e))
]

days-IsLine : All IsLine days
unfolding find
days-IsLine = All-IsLine days refl

months-IsLine : All IsLine months
unfolding find
months-IsLine = All-IsLine months refl

number_then :
    (width n : ℕ) (sign rest : List ℕ)
    → find 13 sign ≡ none
    → IsLine rest
    → IsLine (padded width n ++ (sign ++ rest))
number_then width n sign rest h k =
    Lacks-append 13 (padded width n) (sign ++ rest) (Lacks-padded width n)
      (after_literal sign rest h k)

name_then :
    (names : List (List ℕ)) (i : ℕ) (sign rest : List ℕ)
    → All IsLine names
    → find 13 sign ≡ none
    → IsLine rest
    → IsLine (get_or names i [] ++ (sign ++ rest))
name_then names i sign rest a h k =
    Lacks-append 13 (get_or names i []) (sign ++ rest) (All-get_or names i a)
      (after_literal sign rest h k)

pub IsLine-http_date : (t : Gmt) → IsLine (http_date t)
unfolding http_date find
IsLine-http_date t = name_then days (t.wday % 7) (codes ", ") _ days-IsLine refl (
    number_then 2 t.mday (codes " ") _ refl (
      name_then months (t.mon % 12) (codes " ") _ months-IsLine refl (
        number_then 4 t.year (codes " ") _ refl (
          number_then 2 t.hour (codes ":") _ refl (
            number_then 2 t.min (codes ":") _ refl (
              Lacks-append 13 (padded 2 t.sec) (codes " GMT") (Lacks-padded 2 t.sec)
                (literal (codes " GMT") refl)))))))
