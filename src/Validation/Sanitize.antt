-- ===== src/Validation/Sanitize.antt =====
-- What the sanitised body looks like.
use af_auth.Base.{
  String, ◌≡◌, refl, ap, ap₂, subst, ◌↔◌, false, Option, none, some, arith, inl, inr, Bool-cases,
  ◌===◌, if◌then◌else◌, eq_iff,
}
use af_auth.Validation.{
  Json, json_null, boolean, number, text, array, object, Items, end, item, Fields, empty, field,
  is_dangerous, sanitize_input, sanitize_items, sanitize_fields,
}

-- No object inside a value has a dangerous property.
unfoldable mutual
  pub IsSafe : Json → Type 0
  IsSafe (array items) = AllSafe items
  IsSafe (object fields) = FieldsSafe fields
  IsSafe json_null = Unit
  IsSafe (boolean b) = Unit
  IsSafe (number n) = Unit
  IsSafe (text s) = Unit

  pub AllSafe : Items → Type 0
  AllSafe end = Unit
  AllSafe (item x rest) = IsSafe x × AllSafe rest

  pub FieldsSafe : Fields → Type 0
  FieldsSafe empty = Unit
  FieldsSafe (field key value rest) = (is_dangerous key ≡ false) × (IsSafe value × FieldsSafe rest)

mutual
  unfolding sanitize_input IsSafe

  sanitized_input : (v : Json) → IsSafe (sanitize_input v)
  sanitized_input (array items) = sanitized_items items
  sanitized_input (object fields) = sanitized_fields fields
  sanitized_input json_null = tt
  sanitized_input (boolean b) = tt
  sanitized_input (number n) = tt
  sanitized_input (text s) = tt

  sanitized_items : (l : Items) → AllSafe (sanitize_items l)
  sanitized_items end = tt
  sanitized_items (item x rest) = (sanitized_input x, sanitized_items rest)

  sanitized_fields : (l : Fields) → FieldsSafe (sanitize_fields l)
  sanitized_fields empty = tt
  sanitized_fields (field key value rest) = elim (Bool-cases (is_dangerous key)) [
    | inl d ↦ rw d (sanitized_fields rest)
    | inr d ↦ rw d (d, (sanitized_input value, sanitized_fields rest))
  ]

mutual
  unfolding sanitize_input IsSafe

  safe_input : (v : Json) → IsSafe v → sanitize_input v ≡ v
  safe_input (array items) h = ap array (safe_items items h)
  safe_input (object fields) h = ap object (safe_fields fields h)
  safe_input json_null h = refl
  safe_input (boolean b) h = refl
  safe_input (number n) h = refl
  safe_input (text s) h = refl

  safe_items : (l : Items) → AllSafe l → sanitize_items l ≡ l
  safe_items end h = refl
  safe_items (item x rest) (a, b) = ap₂ item (safe_input x a) (safe_items rest b)

  safe_fields : (l : Fields) → FieldsSafe l → sanitize_fields l ≡ l
  safe_fields empty h = refl
  safe_fields (field key value rest) (d, (a, b)) =
      rw d (ap₂ (field key) (safe_input value a) (safe_fields rest b))

-- Sanitising leaves no dangerous property anywhere in a value, changes nothing in a value without
-- one, and so does nothing the second time.
pub sanitize_input-IsSafe :
    (v : Json)
    → IsSafe (sanitize_input v)
      × ((sanitize_input v ≡ v) ↔ IsSafe v)
      × (sanitize_input (sanitize_input v) ≡ sanitize_input v)
sanitize_input-IsSafe v = (
  sanitized_input v,
  ((λ h. subst IsSafe h (sanitized_input v)), safe_input v),
  safe_input (sanitize_input v) (sanitized_input v),
)

-- The value of a property, as `object[key]` reads it in an object whose keys are distinct.
abbrev pub property : String → Fields → Option Json
property key empty = none
property key (field k value rest) = if k === key then some value else property key rest

abbrev pub sanitized_value : Option Json → Option Json
sanitized_value none = none
sanitized_value (some v) = some (sanitize_input v)

-- A property with another name than the three dangerous ones is still there after sanitising, with
-- its value sanitised, and no other property has appeared; a dangerous one is gone.
pub property-sanitize_fields :
    (key : String) (fields : Fields)
    → property key (sanitize_fields fields)
      ≡ (if is_dangerous key then none else sanitized_value (property key fields))
unfolding sanitize_input
property-sanitize_fields key empty = ground arith
property-sanitize_fields key (field k value rest) =
    let i = property-sanitize_fields key rest in
    elim (Bool-cases (k === key)) [
      | inl same ↦
          let e : k ≡ key = (eq_iff k key).0 same in
          elim (Bool-cases (is_dangerous key)) [
            | inl d ↦ ground (arith, same, i, ap is_dangerous e)
            | inr d ↦ ground (arith, same, i, ap is_dangerous e)
          ]
      | inr other ↦ elim (Bool-cases (is_dangerous k)) [
        | inl d ↦ ground (arith, other, i)
        | inr d ↦ ground (arith, other, i)
      ]
    ]
