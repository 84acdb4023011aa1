-- ===== src/Marstack/Telemetry.antt =====
-- `decode_venus_telemetry` of components/marstack/marstack.cpp, with its tables.
-- Parsing and serialising JSON is a library's; it is an argument.
pub mod Pieces
use Prim.Native.String.{String}
use marsrelay.Common.{
  ℤ, pos, negsuc, minus, ℕ, zero, suc, ◌+◌, ◌-◌, ◌*◌, Bool, true, false, ◌&&◌, ◌||◌, ltb, leb, ◌==◌,
  if◌then◌else◌, bytes_eq, Option, none, some, List, [], ◌∷◌, ◌++◌, length, codes, find_from,
  substr, end_or, min,
}
use marsrelay.Marstack.Url.{query_param, url_decode, ampersand, equals_sign}

abbrev pub is_digit : ℕ → Bool
is_digit c = leb b'0' c && leb c b'9'

-- `isspace` in the C locale.
abbrev pub is_space : ℕ → Bool
is_space c = (c == 32) || (leb 9 c && leb c 13)

unfoldable pub digits_value : ℕ → List ℕ → ℕ
digits_value acc [] = acc
digits_value acc (c ∷ s) = if is_digit c then digits_value (acc * 10 + (c - 48)) s else acc

-- LONG_MAX of the 32-bit target bounds the value, and LONG_MIN the negative one.
abbrev pub signed_value : List ℕ → ℤ
signed_value [] = pos 0
signed_value (c ∷ s) =
    if c == b'-'
    then minus (min (digits_value 0 s) 2147483648)
    else if c == b'+'
    then pos (min (digits_value 0 s) 2147483647)
    else pos (min (digits_value 0 (c ∷ s)) 2147483647)

-- `strtol(s, nullptr, 10)`.
unfoldable pub strtol : List ℕ → ℤ
unfolding digits_value
strtol [] = pos 0
strtol (c ∷ s) = if is_space c then strtol s else signed_value (c ∷ s)

-- The scales of the tables: 0, 1, 0.1f and 0.01f.
pub data Scale : Type 0 where
  verbatim unit tenth hundredth : Scale

pub record VenusField : Type 0 where
  pub key : List ℕ
  pub name : List ℕ
  pub scale : Scale

-- `scaled n s` is the float `n * s`.
pub data Value : Type 0 where
  text : List ℕ → Value
  whole : ℤ → Value
  scaled : ℤ → Scale → Value
  array : List (ℤ × Scale) → Value

abbrev pub field : String → String → Scale → VenusField
field key name scale = record { key = codes key; name = codes name; scale = scale }

-- VENUS_FIELDS.
abbrev pub venus_fields : List VenusField
venus_fields =
    field "di" "device_id" verbatim
    ∷ field "sn" "serial" verbatim
    ∷ field "ip" "ip" verbatim
    ∷ field "dt" "device_clock" verbatim
    ∷ field "wm" "work_mode" verbatim
    ∷ field "sc" "soc" unit
    ∷ field "pb" "battery_power" unit
    ∷ field "bv" "battery_voltage" hundredth
    ∷ field "bi" "battery_current" tenth
    ∷ field "go" "grid_power" unit
    ∷ field "gv" "grid_voltage" tenth
    ∷ field "gf" "grid_frequency" tenth
    ∷ field "mc" "max_charge_power" unit
    ∷ field "md" "max_discharge_power" unit
    ∷ field "t1" "temperature_internal" tenth
    ∷ field "t2" "temperature_mos" tenth
    ∷ field "dn" "control_firmware" verbatim
    ∷ field "bm" "bms_firmware" verbatim
    ∷ field "iv" "inverter_firmware" verbatim
    ∷ field "mv" "mppt_firmware" verbatim
    ∷ []

-- VENUS_LIST_FIELDS.
abbrev pub venus_list_fields : List VenusField
venus_list_fields = field "tc" "cell_temperatures" tenth ∷ []

unfoldable pub lookup_field : List VenusField → List ℕ → Option VenusField
lookup_field [] key = none
lookup_field (f ∷ fields) key = if bytes_eq key f.key then some f else lookup_field fields key

abbrev pub field_value : Scale → List ℕ → Value
field_value verbatim value = text value
field_value unit value = whole (strtol value)
field_value tenth value = scaled (strtol value) tenth
field_value hundredth value = scaled (strtol value) hundredth

-- The loop over a comma-separated list, on fuel.
unfoldable pub list_items : ℕ → Scale → List ℕ → ℕ → List (ℤ × Scale)
list_items zero scale value item = []
list_items (suc fuel) scale value item =
    let item_end = end_or (find_from value b',' item) (length value) in
    elim (ltb item (length value)) [
      | false ↦ []
      | true ↦
          (strtol (substr value item (item_end - item)), scale)
          ∷ list_items fuel scale value (item_end + 1)
    ]

-- What is written to the JSON object, in this order, and what is kept for `unmapped`.
pub record Decoded : Type 0 where
  pub root : List (List ℕ × Value)
  pub unmapped : List (List ℕ × List ℕ)

-- One `key=value`: its place in the object.
unfoldable pub put : Decoded → List ℕ → List ℕ → Decoded
unfolding lookup_field list_items
put d key value = elim (lookup_field venus_fields key) [
  | some f ↦ record d { root = d.root ++ (f.name, field_value f.scale value) ∷ [] }
  | none ↦ elim (lookup_field venus_list_fields key) [
    | some f ↦ record d {
      root = d.root ++ (f.name, array (list_items (length value) f.scale value 0)) ∷ [];
    }
    | none ↦ record d { unmapped = d.unmapped ++ (key, value) ∷ [] }
  ]
]

-- The body of the loop for the piece from `start` to `end`.
unfoldable pub put_piece : Decoded → List ℕ → ℕ → ℕ → Decoded
put_piece d decoded start end = elim (find_from decoded equals_sign start) [
  | none ↦ d
  | some eq ↦
      if leb end eq
      then d
      else put d (substr decoded start (eq - start)) (substr decoded (eq + 1) (end - eq - 1))
]

-- The loop, on fuel.
unfoldable pub decode_pieces : ℕ → Decoded → List ℕ → ℕ → Decoded
decode_pieces zero d decoded start = d
decode_pieces (suc fuel) d decoded start =
    let end = end_or (find_from decoded ampersand start) (length decoded) in
    elim (ltb start (length decoded)) [
      | false ↦ d
      | true ↦ decode_pieces fuel (put_piece d decoded start end) decoded (end + 1)
    ]

-- The JSON library: the string under `d` of an object, nothing if there is none, and the text of an
-- object.
pub record Json : Type 0 where
  pub parse_d : List ℕ → Option (List ℕ)
  pub build : Decoded → List ℕ

abbrev or_empty : Option (List ℕ) → List ℕ
or_empty none = []
or_empty (some s) = s

unfoldable pub blob_of : Json → List ℕ → List ℕ
blob_of json [] = []
blob_of json (c ∷ s) =
    or_empty (if c == b'{' then json.parse_d (c ∷ s) else query_param (c ∷ s) (codes "d"))

abbrev pub decode_blob : List ℕ → Decoded
decode_blob blob =
    let decoded = url_decode blob in
    decode_pieces (length decoded) (record { root = []; unmapped = [] }) decoded 0

unfoldable pub decode_venus_telemetry : Json → List ℕ → List ℕ
unfolding blob_of decode_pieces
decode_venus_telemetry json body = elim (blob_of json body) [
  | [] ↦ []
  | c ∷ s ↦ json.build (decode_blob (c ∷ s))
]
