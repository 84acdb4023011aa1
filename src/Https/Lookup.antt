-- ===== src/Https/Lookup.antt =====
-- The search for a header among the lines of a head.
use marsrelay.Common.{
  ℕ, ◌+◌, ◌<◌, ◌≡◌, ◌≢◌, ◌∙◌, ap, sym, refl, Bool, true, false, ◌&&◌, ltb, ◌==◌, bytes_eq, some,
  List, [], ◌∷◌, ◌++◌, append_assoc, map, length, length-append, take, drop, Lacks, Lacks-append,
  arith,
}
use marsrelay.Marstack.Paths.{to_lower}
use marsrelay.Https.Requests.{header_value, header_value_from, value_behind, starts_with_colon}
use marsrelay.Https.Fields.{
  same_name, Field, field_text, print_fields, IsLine, IsField, IsPlain, IsHeader,
  value_behind-print_fields, drop-named, length-same_name, length-print_fields, field_rest,
  cons-form, append-ne-nil,
}

-- The test of the loop for a name.
abbrev pub is_here : List ℕ → List ℕ → Bool
is_here name text =
    bytes_eq (map to_lower (take (length name) text)) (map to_lower name)
    && starts_with_colon (drop (length name) text)

to_lower-colon : (c : ℕ) → c ≢ 58 → to_lower c ≢ 58
unfolding to_lower
to_lower-colon c h = ground arith

to_lower-space : (c : ℕ) → c ≢ 32 → to_lower c ≢ 32
unfolding to_lower
to_lower-space c h = ground arith

lower_colon : to_lower 58 ≡ 58
unfolding to_lower
lower_colon = refl

lower_space : to_lower 32 ≡ 32
unfolding to_lower
lower_space = refl

-- At the start of a line `field: …` it compares the names.
is_here-same_name :
    (name field text : List ℕ)
    → Lacks 58 name
    → Lacks 58 field
    → is_here name (field ++ 58 ∷ text) ≡ same_name field name
unfolding bytes_eq
is_here-same_name [] [] text h k = ground arith
is_here-same_name [] (y ∷ field) text h k = ground (arith, k.0)
is_here-same_name (n ∷ name) [] text h k = ground (arith, to_lower-colon n h.0, lower_colon)
is_here-same_name (n ∷ name) (y ∷ field) text h k =
    ground (arith, is_here-same_name name field text h.1 k.1)

-- At the start of a request line there is no header.
is_here-request :
    (name method text : List ℕ)
    → Lacks 32 name
    → Lacks 58 method
    → is_here name (method ++ 32 ∷ text) ≡ false
unfolding bytes_eq
is_here-request [] [] text h k = ground arith
is_here-request [] (y ∷ method) text h k = ground (arith, k.0)
is_here-request (n ∷ name) [] text h k = ground (arith, to_lower-space n h.0, lower_space)
is_here-request (n ∷ name) (y ∷ method) text h k =
    ground (arith, is_here-request name method text h.1 k.1)

module _ (name : List ℕ) where
  step-skip :
      (start : Bool) (x : ℕ) (s : List ℕ)
      → length name < length (x ∷ s)
      → (start && is_here name (x ∷ s)) ≡ false
      → header_value_from start name (x ∷ s) ≡ header_value_from (x == 10) name s
  unfolding header_value_from
  step-skip start x s l h =
      let k : ltb (length name) (length (x ∷ s)) ≡ true = ground arith in ground (arith, k, h)

  step-hit :
      (x : ℕ) (s : List ℕ)
      → length name < length (x ∷ s)
      → is_here name (x ∷ s) ≡ true
      → header_value_from true name (x ∷ s) ≡ some (value_behind (drop (length name + 1) (x ∷ s)))
  unfolding header_value_from
  step-hit x s l h =
      let k : ltb (length name) (length (x ∷ s)) ≡ true = ground arith in
      rw (header_value_from, k) (rw h refl)

  skip_line :
      (l tail : List ℕ)
      → Lacks 10 l
      → length name < length tail
      → header_value_from false name (l ++ 10 ∷ tail) ≡ header_value_from true name tail
  skip_line [] tail h k = step-skip false 10 tail (omega (arith, k)) refl
  skip_line (x ∷ l) tail h k =
      let e : (x == 10) ≡ false = ground (arith, h.0) in
      step-skip false x (l ++ 10 ∷ tail) (omega (arith, k, length-append l (10 ∷ tail))) refl
      ∙ ap (λ b. header_value_from b name (l ++ 10 ∷ tail)) e
      ∙ skip_line l tail h.1 k

  skip_first :
      (l tail : List ℕ)
      → IsLine l
      → length name < length tail
      → is_here name (l ++ 13 ∷ 10 ∷ tail) ≡ false
      → header_value_from true name (l ++ 13 ∷ 10 ∷ tail) ≡ header_value_from true name tail
  skip_first [] tail h k n = absurd (h.0 refl)
  skip_first (x ∷ l) tail h k n =
      let e : (x == 10) ≡ false = ground (arith, h.1.0) in
      let l13 : Lacks 10 (l ++ 13 ∷ []) =
        Lacks-append 10 l (13 ∷ []) h.1.1 ((λ q. omega (arith, q)), tt) in
      step-skip true x (l ++ 13 ∷ 10 ∷ tail) (omega (arith, k, length-append l (13 ∷ 10 ∷ tail))) n
      ∙ ap (λ b. header_value_from b name (l ++ 13 ∷ 10 ∷ tail)) e
      ∙ ap (header_value_from false name) (sym (append_assoc l (13 ∷ []) (10 ∷ tail)))
      ∙ skip_line (l ++ 13 ∷ []) tail l13 k

hit_line :
    (name : List ℕ) (f : Field) (after : List Field)
    → Lacks 58 name
    → IsField f
    → same_name f.name name ≡ true
    → IsPlain f.value
    → (x : ℕ) (s : List ℕ) → field_text f ++ print_fields after ≡ x ∷ s
    → header_value_from true name (field_text f ++ print_fields after) ≡ some f.value
hit_line name f after h k m p x s e =
    let t = field_rest f (print_fields after) in
    let n = length-same_name f.name name m in
    let long : length name < length (x ∷ s) = omega (
      arith,
      n,
      ap length (sym e ∙ t),
      length-append f.name (58 ∷ 32 ∷ (f.value ++ print_fields after)),
    ) in
    let here =
      ap (is_here name) (sym e ∙ t)
      ∙ is_here-same_name name f.name (32 ∷ (f.value ++ print_fields after)) h k.named
      ∙ m in
    ap (header_value_from true name) e
    ∙ step-hit name x s long here
    ∙ ap (λ q. some (value_behind (drop (length name + 1) q))) (sym e ∙ t)
    ∙ ap (λ q. some (value_behind q))
        (drop-named f.name (32 ∷ (f.value ++ print_fields after)) (length name) (sym n))
    ∙ ap some (value_behind-print_fields f.value after p)

header_line :
    (name line : List ℕ) (before : List Field) (f : Field) (after : List Field)
    → IsHeader name before f
    → IsLine line
    → is_here name (line ++ print_fields (before ++ f ∷ after)) ≡ false
    → header_value_from true name (line ++ print_fields (before ++ f ∷ after)) ≡ some f.value
header_line name line [] f after h l n =
    let long : length name < length (field_text f ++ print_fields after) = omega (
      arith,
      length-same_name f.name name h.same,
      length-append (field_text f) (print_fields after),
      length-append f.name (58 ∷ 32 ∷ f.value),
    ) in
    let (x, s, e) = cons-form (field_text f ++ print_fields after) (λ q.
      append-ne-nil f.name 58 (32 ∷ (f.value ++ print_fields after))
        (sym (field_rest f (print_fields after)) ∙ q)) in
    skip_first name line (field_text f ++ print_fields after) l long n
    ∙ hit_line name f after h.clear_name h.field h.same h.plain x s e
header_line name line (b ∷ before) f after h l n =
    let rest = print_fields (before ++ f ∷ after) in
    let long : length name < length (field_text b ++ rest) = omega (
      arith,
      length-same_name f.name name h.same,
      length-append (field_text b) rest,
      length-print_fields before f after,
    ) in
    let other =
      ap (is_here name) (field_rest b rest)
      ∙ is_here-same_name name b.name (32 ∷ (b.value ++ rest)) h.clear_name h.others.0.0.named
      ∙ h.others.0.1 in
    skip_first name line (field_text b ++ rest) l long n
    ∙ header_line name (field_text b) before f after
        (record {
          clear_name = h.clear_name;
          others = h.others.1;
          field = h.field;
          same = h.same;
          plain = h.plain;
        })
        h.others.0.0.line other

-- The first header that has the name, in whatever case, is found behind the request line, with the
-- value as it was printed.
pub header_value-print_fields :
    (name method text : List ℕ) (before : List Field) (f : Field) (after : List Field)
    → IsHeader name before f
    → Lacks 32 name
    → Lacks 58 method
    → Lacks 10 (method ++ 32 ∷ text)
    → header_value ((method ++ 32 ∷ text) ++ print_fields (before ++ f ∷ after)) name ≡ some f.value
unfolding header_value
header_value-print_fields name method text before f after h s m l =
    let rest = print_fields (before ++ f ∷ after) in
    header_line name (method ++ 32 ∷ text) before f after h (append-ne-nil method 32 text, l)
      (ap (is_here name) (append_assoc method (32 ∷ text) rest)
        ∙ is_here-request name method (text ++ rest) s m)
