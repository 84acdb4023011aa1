-- ===== src/Https/Fields.antt =====
-- The headers of a head as they are printed, and their values as `header_value` of
-- components/marstack/marstack_https.cpp cuts them out.
use marsrelay.Common.{
  ℕ, suc, ◌+◌, ◌<◌, ◌≡◌, ◌≢◌, ap, refl, Bool, true, false, ◌||◌, ◌==◌, bytes_eq, bytes_eq→eq, List,
  [], ◌∷◌, ◌++◌, append-nil, append_assoc, map, length, length-append, take, drop, take-append,
  take_all, Lacks, Lacks-find-none, find-append, drop-append_suc, find, end_or, All, arith,
}
use marsrelay.Marstack.Paths.{to_lower}
use marsrelay.Https.Requests.{value_behind}

abbrev pub same_name : List ℕ → List ℕ → Bool
same_name a b = bytes_eq (map to_lower a) (map to_lower b)

pub record Field : Type 0 where
  pub name : List ℕ
  pub value : List ℕ

abbrev pub field_text : Field → List ℕ
field_text f = f.name ++ 58 ∷ 32 ∷ f.value

abbrev pub print_fields : List Field → List ℕ
print_fields [] = []
print_fields (f ∷ fields) = 13 ∷ 10 ∷ (field_text f ++ print_fields fields)

-- A line of a head: one character at least and no newline.
abbrev pub IsLine : List ℕ → Type 0
IsLine l = (l ≢ []) × Lacks 10 l

pub record IsField (f : Field) : Type 0 where
  pub line : IsLine (field_text f)
  pub named : Lacks 58 f.name

-- A value that is read as it is printed: no CR in it, and it starts with neither a space nor a tab.
abbrev pub IsPlain : List ℕ → Type 0
IsPlain [] = ⊥
IsPlain (c ∷ v) = (c ≢ 32) × (c ≢ 9) × Lacks 13 (c ∷ v)

find-cr :
    (v : List ℕ) (fields : List Field)
    → Lacks 13 v
    → take
        (end_or (find 13 (v ++ print_fields fields)) (length (v ++ print_fields fields)))
        (v ++ print_fields fields)
      ≡ v
unfolding find
find-cr v [] h =
    let k : v ++ [] ≡ v = append-nil v in
    let e = Lacks-find-none 13 v h in rw k (rw e (take_all (length v) v (omega arith)))
find-cr v (f ∷ fields) h =
    let e = find-append 13 v (10 ∷ (field_text f ++ print_fields fields)) h in
    rw e (take-append v (13 ∷ 10 ∷ (field_text f ++ print_fields fields)))

pub value_behind-print_fields :
    (v : List ℕ) (fields : List Field)
    → IsPlain v
    → value_behind (32 ∷ (v ++ print_fields fields)) ≡ v
value_behind-print_fields [] fields h = absurd h
value_behind-print_fields (c ∷ v) fields h =
    let a : ((c == 32) || (c == 9)) ≡ false = ground (arith, h.0, h.1) in
    rw a (find-cr (c ∷ v) fields h.2)

pub drop-named : (s t : List ℕ) (n : ℕ) → n ≡ length s → drop (n + 1) (s ++ 58 ∷ t) ≡ t
drop-named s t n e =
    let k : n + 1 ≡ suc (length s) = omega (arith, e) in rw k (drop-append_suc 58 s t)

length-lower : (s : List ℕ) → length (map to_lower s) ≡ length s
length-lower [] = refl
length-lower (x ∷ s) = omega (arith, length-lower s)

pub length-same_name : (a b : List ℕ) → same_name a b ≡ true → length a ≡ length b
length-same_name a b h = omega (
  arith,
  ap length (bytes_eq→eq (map to_lower a) (map to_lower b) h),
  length-lower a,
  length-lower b,
)

pub length-print_fields :
    (before : List Field) (f : Field) (after : List Field)
    → length f.name < length (print_fields (before ++ f ∷ after))
length-print_fields [] f after = omega (
  arith,
  length-append (field_text f) (print_fields after),
  length-append f.name (58 ∷ 32 ∷ f.value),
)
length-print_fields (b ∷ before) f after = omega (
  arith,
  length-append (field_text b) (print_fields (before ++ f ∷ after)),
  length-print_fields before f after,
)

pub field_rest :
    (f : Field) (rest : List ℕ) → field_text f ++ rest ≡ f.name ++ 58 ∷ 32 ∷ (f.value ++ rest)
field_rest f rest = append_assoc f.name (58 ∷ 32 ∷ f.value) rest

-- A header that no line before it has the name of.
pub record IsHeader (name : List ℕ) (before : List Field) (target : Field) : Type 0 where
  pub clear_name : Lacks 58 name
  pub others : All (λ f. IsField f × (same_name f.name name ≡ false)) before
  pub field : IsField target
  pub same : same_name target.name name ≡ true
  pub plain : IsPlain target.value

pub cons-form : (t : List ℕ) → t ≢ [] → (x : ℕ) × (s : List ℕ) × (t ≡ x ∷ s)
cons-form [] h = absurd (h refl)
cons-form (x ∷ s) h = (x, s, refl)

pub append-ne-nil : (m : List ℕ) (c : ℕ) (t : List ℕ) → (m ++ c ∷ t) ≢ []
append-ne-nil [] c t = λ e. cc
append-ne-nil (x ∷ m) c t = λ e. cc
