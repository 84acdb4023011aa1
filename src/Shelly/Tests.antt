-- ===== src/Shelly/Tests.antt =====
-- The theorems on the emulator over a fixed-point arithmetic, at concrete sensors and queries.
use marsrelay.Common.{
  ℕ, ◌+◌, ◌*◌, ◌/◌, ◌≡◌, ◌≢◌, ◌↔◌, refl, Bool, true, false, ltb, ◌==◌, bytes_eq, codes, pos, Option,
  none, some, List, [], ◌∷◌, length, All,
}
use marsrelay.Shelly.{
  Arithmetic, Json, ShellyEmulator, packet, fill_powers, calculate_derived_value, total_rounded,
  result_of, answer_query, serialized, process_socket, start, loop,
}
use marsrelay.Shelly.Powers.{phases, IsNumber, fill_powers_lem}
use marsrelay.Shelly.Queries.{Answered, process_socket-IsAnswer}

-- Numbers of ten-thousandths that are not negative, or NaN.
abbrev lift : (ℕ → ℕ → ℕ) → Option ℕ → Option ℕ → Option ℕ
lift f none b = none
lift f (some a) none = none
lift f (some a) (some b) = some (f a b)

abbrev lift_one : (ℕ → ℕ) → Option ℕ → Option ℕ
lift_one f none = none
lift_one f (some a) = some (f a)

abbrev test : (ℕ → ℕ → Bool) → Option ℕ → Option ℕ → Bool
test f none b = false
test f (some a) none = false
test f (some a) (some b) = f a b

abbrev is_none : Option ℕ → Bool
is_none none = true
is_none (some a) = false

abbrev fixed_point : Arithmetic
fixed_point = record {
  Float = Option ℕ;
  zero = some 0;
  enforcer = some 10;
  tenth = some 1000;
  ten = some 100000;
  thousand = some 10000000;
  add = lift (λ a b. a + b);
  multiply = lift (λ a b. a * b / 10000);
  divide = lift (λ a b. a * 10000 / b);
  round = lift_one (λ a. (a + 5000) / 10000 * 10000);
  abs = λ v. v;
  is_nan = is_none;
  equal = test (λ a b. a == b);
  less = test (λ a b. ltb a b);
}

-- 5.04 W is reported as 5, and 5.06 W as 5.1.
whole_unmarked : calculate_derived_value fixed_point (some 50400) ≡ some 50000
unfolding calculate_derived_value
whole_unmarked = refl

tenths_kept : calculate_derived_value fixed_point (some 50600) ≡ some 51000
unfolding calculate_derived_value
tenths_kept = refl

whole_marked : calculate_derived_value fixed_point (some 50000) ≡ some 50010
unfolding calculate_derived_value
whole_marked = refl

abbrev readings : List (Option (Option ℕ))
readings = some (some 3000000) ∷ none ∷ some none ∷ []

fill_powers_lem_example :
    (length (fill_powers fixed_point readings) ≡ 3)
    × All (IsNumber fixed_point) (fill_powers fixed_point readings)
    × (fill_powers fixed_point readings ≡ phases fixed_point readings)
fill_powers_lem_example = fill_powers_lem fixed_point refl readings

abbrev json : Json fixed_point
json = record {
  parse = λ s.
      some (record { id = some (pos 7); method = codes "EM1.GetStatus"; params_id = some (pos 0) });
  serialize = λ a. codes "{}";
}

abbrev emulator : ShellyEmulator
emulator = record {
  device_id = codes "marsrelay";
  port = 1010;
  has_socket = true;
  is_active = true;
}

process_socket-IsAnswer_example :
    (process_socket fixed_point json emulator readings (packet (codes "{\"id\":7}"))
      ≡ some (codes "{}"))
    ↔ ((emulator.has_socket ≡ true)
        × (codes "{\"id\":7}" ≢ [])
        × Answered fixed_point json emulator readings (codes "{\"id\":7}") (codes "{}"))
process_socket-IsAnswer_example =
    process_socket-IsAnswer fixed_point json emulator readings (codes "{\"id\":7}") (codes "{}")

query_answered :
    process_socket fixed_point json emulator readings (packet (codes "{\"id\":7}"))
    ≡ some (codes "{}")
unfolding process_socket answer_query result_of serialized fill_powers total_rounded bytes_eq
query_answered = refl

-- A port that cannot be bound leaves the emulator silent.
unbound_silent :
    loop fixed_point json
      (start (record emulator { has_socket = false; is_active = false }) true false)
      readings
      (packet (codes "{}"))
    ≡ none
unfolding loop start
unbound_silent = refl
