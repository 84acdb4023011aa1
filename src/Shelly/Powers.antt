-- ===== src/Shelly/Powers.antt =====
-- The powers that are reported: always three numbers, by the sensors' phases.
use marsrelay.Common.{◌≡◌, refl, false, Option, none, some, List, [], ◌∷◌, length, All, arith}
use marsrelay.Shelly.{Arithmetic, number, sensor_value, three, fill_powers}

module _ (F : Arithmetic) where
  open F use {Float, is_nan}

  -- The phases of one sensor or of three; any other number of sensors counts for nothing.
  abbrev pub phases : List (Option Float) → List Float
  phases (a ∷ []) = three F (sensor_value F a) F.zero F.zero
  phases (a ∷ b ∷ c ∷ []) = three F (sensor_value F a) (sensor_value F b) (sensor_value F c)
  phases _ = three F F.zero F.zero F.zero

  pub fill_powers-phases : (sensors : List (Option Float)) → fill_powers F sensors ≡ phases sensors
  unfolding fill_powers
  fill_powers-phases [] = refl
  fill_powers-phases (a ∷ []) = refl
  fill_powers-phases (a ∷ b ∷ []) = refl
  fill_powers-phases (a ∷ b ∷ c ∷ []) = refl
  fill_powers-phases (a ∷ b ∷ c ∷ d ∷ rest) = ground arith

  abbrev pub IsNumber : Float → Type 0
  IsNumber v = is_nan v ≡ false

  module _ (zero_number : IsNumber F.zero) where
    IsNumber-number : (v : Float) → IsNumber (number F v)
    IsNumber-number v = ground arith

    IsNumber-sensor_value : (s : Option Float) → IsNumber (sensor_value F s)
    IsNumber-sensor_value none = zero_number
    IsNumber-sensor_value (some v) = IsNumber-number v

    phases-IsNumber : (sensors : List (Option Float)) → All IsNumber (phases sensors)
    phases-IsNumber [] = (zero_number, (zero_number, (zero_number, tt)))
    phases-IsNumber (a ∷ []) = (IsNumber-sensor_value a, (zero_number, (zero_number, tt)))
    phases-IsNumber (a ∷ b ∷ []) = (zero_number, (zero_number, (zero_number, tt)))
    phases-IsNumber (a ∷ b ∷ c ∷ []) =
        (IsNumber-sensor_value a, (IsNumber-sensor_value b, (IsNumber-sensor_value c, tt)))
    phases-IsNumber (a ∷ b ∷ c ∷ d ∷ rest) = (zero_number, (zero_number, (zero_number, tt)))

    length-phases : (sensors : List (Option Float)) → length (phases sensors) ≡ 3
    length-phases [] = refl
    length-phases (a ∷ []) = refl
    length-phases (a ∷ b ∷ []) = refl
    length-phases (a ∷ b ∷ c ∷ []) = refl
    length-phases (a ∷ b ∷ c ∷ d ∷ rest) = refl

    -- Whatever sensors are configured and whatever they read, there are three powers, none of them
    -- is NaN, and they are the readings of one sensor or of three, with zero for a missing one, and
    -- three zeros for any other number of sensors.
    pub fill_powers_lem :
        (sensors : List (Option Float))
        → (length (fill_powers F sensors) ≡ 3)
          × All IsNumber (fill_powers F sensors)
          × (fill_powers F sensors ≡ phases sensors)
    fill_powers_lem sensors =
        rw (fill_powers-phases sensors) (length-phases sensors, phases-IsNumber sensors, refl)
