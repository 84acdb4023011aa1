-- ===== src/Shelly.antt =====
-- `ShellyEmulator` of components/shelly_emulator/shelly_emulator.h and shelly_emulator.cpp: a UDP
-- server that answers a battery's queries as a Shelly energy meter would. Float arithmetic, JSON and
-- the socket are libraries; they are arguments.
pub mod Powers
pub mod Queries
pub mod Tests
use marsrelay.Common.{
  ℕ, zero, suc, ℤ, Bool, true, false, not, ◌&&◌, ◌||◌, ◌==◌, if◌then◌else◌, bytes_eq, codes, Option,
  none, some, List, [], ◌∷◌, map, length, get_or, take,
}

-- What the code uses of `float`: the constants 0.0f, 0.001f, 0.1f, 10.0f and 1000.0f, the operators
-- and the functions of cmath.
pub record Arithmetic : Type 1 where
  pub Float : Type 0
  pub zero : Float
  pub enforcer : Float
  pub tenth : Float
  pub ten : Float
  pub thousand : Float
  pub add : Float → Float → Float
  pub multiply : Float → Float → Float
  pub divide : Float → Float → Float
  pub round : Float → Float
  pub abs : Float → Float
  pub is_nan : Float → Bool
  pub equal : Float → Float → Bool
  pub less : Float → Float → Bool

-- What is read of a query: the ids are `none` where there is no `int`, the method is empty where
-- there is no string.
pub record Query : Type 0 where
  pub id : Option ℤ
  pub method : List ℕ
  pub params_id : Option ℤ

pub record ShellyEmulator : Type 0 where
  pub device_id : List ℕ
  pub port : ℕ
  pub has_socket : Bool
  pub is_active : Bool

-- What the socket gives: nothing (not ready, no descriptor, an error), or a packet, which
-- `recvfrom` cuts to one byte less than the buffer.
pub data Receive : Type 0 where
  nothing : Receive
  packet : List ℕ → Receive

abbrev pub is_empty : List ℕ → Bool
is_empty [] = true
is_empty (x ∷ xs) = false

-- `start_`: `made` says that the socket was created, `bound` that `bind` returned 0.
unfoldable pub start : ShellyEmulator → Bool → Bool → ShellyEmulator
start e made bound =
    if e.is_active
    then e
    else if e.port == 0
    then e
    else if not made
    then record e { has_socket = false }
    else if not bound
    then record e { has_socket = false }
    else record e { has_socket = true; is_active = true }

module _ (F : Arithmetic) where
  open F use {
    Float, enforcer, tenth, ten, thousand, add, multiply, divide, round, abs, is_nan, equal, less,
  }

  abbrev pub number : Float → Float
  number v = if is_nan v then F.zero else v

  unfoldable pub calculate_derived_value : Float → Float
  calculate_derived_value power =
      let p = number power in
      if less (abs p) tenth
      then enforcer
      else let ret = divide (round (multiply p ten)) ten in
        if equal p (round p) || equal p F.zero then add ret enforcer else ret

  -- What a sensor gives; `none` is a null pointer.
  abbrev pub sensor_value : Option Float → Float
  sensor_value none = F.zero
  sensor_value (some state) = number state

  abbrev pub three : Float → Float → Float → List Float
  three a b c = a ∷ b ∷ c ∷ []

  unfoldable pub fill_powers : List (Option Float) → List Float
  fill_powers sensors =
      let powers = map sensor_value sensors in
      if length powers == 1
      then three (get_or powers 0 F.zero) F.zero F.zero
      else if not (length powers == 3)
      then three F.zero F.zero F.zero
      else powers

  -- The total as both methods report it.
  unfoldable pub total_rounded : List Float → Float
  total_rounded powers =
      let total =
        add (add (get_or powers 0 F.zero) (get_or powers 1 F.zero)) (get_or powers 2 F.zero) in
      let rounded = divide (round (multiply total thousand)) thousand in
      if equal total (round total) || equal total F.zero then add rounded enforcer else rounded

  -- The `result` object.
  pub data Result : Type 0 where
    em_status : Float → Float → Float → Float → Result
    em1_status : Float → Result

  unfoldable pub result_of : List ℕ → List Float → Option Result
  result_of method powers =
      if bytes_eq method (codes "EM.GetStatus")
      then some (
          em_status (calculate_derived_value (get_or powers 0 F.zero))
            (calculate_derived_value (get_or powers 1 F.zero))
            (calculate_derived_value (get_or powers 2 F.zero)) (total_rounded powers))
      else if bytes_eq method (codes "EM1.GetStatus")
      then some (em1_status (total_rounded powers))
      else none

  pub record Answer : Type 0 where
    pub id : ℤ
    pub src : List ℕ
    pub dst : List ℕ
    pub result : Result

  -- The JSON library: `none` for text that it refuses, and the text of an answer.
  pub record Json : Type 0 where
    pub parse : List ℕ → Option Query
    pub serialize : Answer → List ℕ

  -- The answer that is built for a query.
  unfoldable pub answer_query : ShellyEmulator → List (Option Float) → Query → Option Answer
  answer_query e sensors query = elim query.id [
    | none ↦ none
    | some request_id ↦ elim query.params_id [
      | none ↦ none
      | some params_id ↦ elim (result_of query.method (fill_powers sensors)) [
        | none ↦ none
        | some result ↦
            some (record {
              id = request_id;
              src = e.device_id;
              dst = codes "unknown";
              result = result;
            })
      ]
    ]
  ]

  -- The bytes sent for it: `out` holds 512, and nothing is sent if nothing was written.
  unfoldable pub serialized : Json → Answer → Option (List ℕ)
  serialized json answer =
      let out = take 512 (json.serialize answer) in if is_empty out then none else some out

  -- `process_socket_`: the bytes sent to the sender of the packet, if any.
  unfoldable pub process_socket :
      Json → ShellyEmulator → List (Option Float) → Receive → Option (List ℕ)
  process_socket json e sensors nothing = none
  process_socket json e sensors (packet bytes) =
      let chunk = take 1023 bytes in
      if not e.has_socket || is_empty chunk then none else elim (json.parse chunk) [
        | none ↦ none
        | some query ↦ elim (answer_query e sensors query) [
          | none ↦ none
          | some answer ↦ serialized json answer
        ]
      ]

  unfoldable pub loop : Json → ShellyEmulator → List (Option Float) → Receive → Option (List ℕ)
  loop json e sensors received =
      if not e.is_active then none else process_socket json e sensors received
