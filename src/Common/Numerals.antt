-- ===== src/Common/Numerals.antt =====
-- Numbers printed in base 10 and base 16, and read back.
use Prim.Native.Nat.{ℕ, zero, suc, ◌+◌, ◌-◌, ◌*◌, ◌/◌, ◌%◌, ◌<◌}
use mathlib.Core.Path.{◌≡◌, refl, sym, ap, ◌∙◌}
use mathlib.Core.Logic.{◌⊎◌, inl, inr}
use mathlib.Core.List.{List, [], ◌∷◌, ◌++◌}
use native.Mathlib.Omega.{arith}
use marsrelay.Common.Tests.{ltb, if◌then◌else◌}
use marsrelay.Common.Lists.{length, replicate}

-- A signed number, as `strtol` and a JSON `int` give it.
pub data ℤ : Type 0 where
  pos : ℕ → ℤ
  negsuc : ℕ → ℤ

abbrev pub minus : ℕ → ℤ
minus zero = pos 0
minus (suc n) = negsuc n

pub data Base : Type 0 where
  decimal hexadecimal : Base

abbrev pub quotient : Base → ℕ → ℕ
quotient decimal n = n / 10
quotient hexadecimal n = n / 16

abbrev pub remainder : Base → ℕ → ℕ
remainder decimal n = n % 10
remainder hexadecimal n = n % 16

abbrev pub times : Base → ℕ → ℕ
times decimal n = n * 10
times hexadecimal n = n * 16

-- The digits `0` to `9` and `a` to `f`.
abbrev pub digit : ℕ → ℕ
digit n = if ltb n 10 then n + 48 else n + 87

abbrev pub digit_value : ℕ → ℕ
digit_value c = if ltb c 58 then c - 48 else c - 87

-- On fuel, the last digit first into what is printed already.
unfoldable pub print_digits : ℕ → Base → ℕ → List ℕ → List ℕ
print_digits zero b n printed = printed
print_digits (suc fuel) b n printed =
    let more = digit (remainder b n) ∷ printed in
    elim (quotient b n) [ zero ↦ more | suc q ↦ print_digits fuel b (suc q) more ]

-- `std::to_string(n)`.
abbrev pub to_string : ℕ → List ℕ
to_string n = print_digits (suc n) decimal n []

-- `%x`.
abbrev pub to_hex : ℕ → List ℕ
to_hex n = print_digits (suc n) hexadecimal n []

-- `%0<width>d` of a number that is not negative.
abbrev pub padded : ℕ → ℕ → List ℕ
padded width n = let s = to_string n in replicate (width - length s) 48 ++ s

-- The number that digits stand for, with `acc` in front of them.
abbrev pub read_digits : Base → ℕ → List ℕ → ℕ
read_digits b acc [] = acc
read_digits b acc (c ∷ s) = read_digits b (times b acc + digit_value c) s

read_digit : (b : Base) (n : ℕ) → times b (quotient b n) + digit_value (digit (remainder b n)) ≡ n
read_digit decimal n = ground arith
read_digit hexadecimal n = ground arith

quotient-lt : (b : Base) (n q : ℕ) → quotient b n ≡ suc q → suc q < n
quotient-lt decimal n q h = omega arith
quotient-lt hexadecimal n q h = omega arith

times-zero : (b : Base) → times b 0 ≡ 0
times-zero decimal = refl
times-zero hexadecimal = refl

pub ℕ-cases : (n : ℕ) → (n ≡ 0) ⊎ ((q : ℕ) × (n ≡ suc q))
ℕ-cases zero = inl refl
ℕ-cases (suc n) = inr (n, refl)

-- One more digit in front of what is printed already.
read_step :
    (b : Base) (n q : ℕ) (printed : List ℕ)
    → quotient b n ≡ q
    → read_digits b q (digit (remainder b n) ∷ printed) ≡ read_digits b n printed
read_step b n q printed e =
    ap (λ x. read_digits b x printed)
      (ap (λ x. times b x + digit_value (digit (remainder b n))) (sym e) ∙ read_digit b n)

read-print_digits_from :
    (fuel : ℕ) (b : Base) (n : ℕ) (printed : List ℕ)
    → n < fuel
    → read_digits b 0 (print_digits fuel b n printed) ≡ read_digits b n printed
unfolding print_digits
read-print_digits_from zero b n printed h = absurd (omega arith)
read-print_digits_from (suc fuel) b n printed h = elim (ℕ-cases (quotient b n)) [
  | inl e ↦ rw (print_digits, e) (read_step b n 0 printed e)
  | inr (q, e) ↦
      rw (print_digits, e)
        (read-print_digits_from fuel b (suc q) (digit (remainder b n) ∷ printed)
            (omega (arith, quotient-lt b n q e))
          ∙ read_step b n (suc q) printed e)
]

-- A printed number is read back.
pub read-print_digits : (b : Base) (n : ℕ) → read_digits b 0 (print_digits (suc n) b n []) ≡ n
read-print_digits b n = read-print_digits_from (suc n) b n [] (omega arith)
