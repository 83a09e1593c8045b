-- ===== src/Logger/Redaction.antt =====
-- What is left of a logged value.
use package.text.Mathlib.TextLemmas.{nil-append, cons-append}
use af_auth.Base.{
  ◌≤◌, subst, ℕ, suc, ◌+◌, ◌-◌, String, ◌≡◌, refl, ap, true, false, List, [], ◌∷◌, arith, ◌⊎◌, inl,
  inr, Bool-cases, ◌===◌, eq_iff, ◌+++◌, size, substring_from-append, any,
}
use af_auth.Logger.{
  same_lower, last_part, matches_field, sensitive_fields, is_sensitive, Logged, scalar, array,
  object, LoggedItems, end, item, LoggedFields, empty, field, Printed, printed, printed_array,
  printed_object, PrintedItems, printed_end, printed_item, PrintedFields, printed_empty,
  printed_field, redact_sensitive_data, redact_items, redact_fields, visited_has,
}

-- No sensitive field is printed with anything but the mark of a redaction.
unfoldable mutual
  pub IsRedacted : Printed → Type 0
  IsRedacted (printed s) = Unit
  IsRedacted (printed_array l) = ItemsRedacted l
  IsRedacted (printed_object l) = FieldsRedacted l

  pub ItemsRedacted : PrintedItems → Type 0
  ItemsRedacted printed_end = Unit
  ItemsRedacted (printed_item x rest) = IsRedacted x × ItemsRedacted rest

  pub FieldsRedacted : PrintedFields → Type 0
  FieldsRedacted printed_empty = Unit
  FieldsRedacted (printed_field key x rest) =
      ((is_sensitive key ≡ false) ⊎ (x ≡ printed "[REDACTED]"))
      × (IsRedacted x × FieldsRedacted rest)

mutual
  unfolding redact_sensitive_data IsRedacted

  redacted : (x : Logged) (visited : List ℕ) → IsRedacted (redact_sensitive_data x visited).0
  redacted (scalar s) visited = tt
  redacted (array id items) visited = elim (Bool-cases (visited_has id visited)) [
    | inl e ↦ rw e tt
    | inr e ↦ rw e (redacted_items items (id ∷ visited))
  ]
  redacted (object id fields) visited = elim (Bool-cases (visited_has id visited)) [
    | inl e ↦ rw e tt
    | inr e ↦ rw e (redacted_fields fields (id ∷ visited))
  ]

  redacted_items : (l : LoggedItems) (visited : List ℕ) → ItemsRedacted (redact_items l visited).0
  redacted_items end visited = tt
  redacted_items (item x rest) visited =
      (redacted x visited, redacted_items rest (redact_sensitive_data x visited).1)

  redacted_fields :
      (l : LoggedFields) (visited : List ℕ) → FieldsRedacted (redact_fields l visited).0
  redacted_fields empty visited = tt
  redacted_fields (field key x rest) visited = elim (Bool-cases (is_sensitive key)) [
    | inl e ↦ rw e (inr refl, (tt, redacted_fields rest visited))
    | inr e ↦
        rw e (inl e, (redacted x visited, redacted_fields rest (redact_sensitive_data x visited).1))
  ]

-- Wherever it stands in a logged value, a sensitive field is printed as "[REDACTED]", whatever objects
-- were visited before.
pub redact_sensitive_data-IsRedacted :
    (x : Logged) (visited : List ℕ) → IsRedacted (redact_sensitive_data x visited).0
redact_sensitive_data-IsRedacted x visited = redacted x visited

pub size-append : (a b : String) → size (a +++ b) ≡ size a + size b
size-append String.[] b = rw nil-append (omega arith)
size-append (String.◌∷◌ c a) b = rw cons-append (omega (arith, size-append a b))

pub last_part-append : (a b : String) → last_part (size b) (a +++ b) ≡ b
last_part-append a b =
    let e : size (a +++ b) - size b ≡ size a = omega (arith, size-append a b) in
    rw e (substring_from-append a b)

same_lower_self : (s : String) → same_lower s s ≡ true
same_lower_self String.[] = refl
same_lower_self (String.◌∷◌ c s) = ground (arith, same_lower_self s)

-- A key that is a field of the list, or ends in "_" and one, is sensitive.
pub listed_lem :
    (key name : String) (l : List String)
    → any (λ n. n === name) l ≡ true
    → matches_field key name ≡ true
    → any (λ n. matches_field key n) l ≡ true
listed_lem key name [] h m = cc
listed_lem key name (n ∷ l) h m = elim (Bool-cases (n === name)) [
  | inl e ↦
      let same : n ≡ name = (eq_iff n name).0 e in ground (arith, m, ap (matches_field key) same)
  | inr e ↦ ground (arith, listed_lem key name l (ground (arith, e)) m)
]

matches_field_self : (name : String) → matches_field name name ≡ true
unfolding matches_field
matches_field_self name = rw (same_lower_self name) refl

matches_field-suffix : (before name : String) → matches_field (before +++ "_" +++ name) name ≡ true
unfolding matches_field
matches_field-suffix before name =
    let s : size ("_" +++ name) ≡ suc (size name) = omega (arith, size-append "_" name) in
    let p : last_part (suc (size name)) (before +++ "_" +++ name) ≡ "_" +++ name =
      subst (λ k. last_part k (before +++ "_" +++ name) ≡ "_" +++ name) s
        (last_part-append before ("_" +++ name)) in
    let q : suc (size name) ≤ size (before +++ "_" +++ name) =
      omega (arith, size-append before ("_" +++ name), s) in
    ground (arith, p, q, same_lower_self ("_" +++ name))

-- Each field of the list is sensitive as a key, and so is every key that ends in "_" and such a field.
pub is_sensitive-listed :
    (name before : String)
    → any (λ n. n === name) sensitive_fields ≡ true
    → (is_sensitive name ≡ true) × (is_sensitive (before +++ "_" +++ name) ≡ true)
unfolding is_sensitive
is_sensitive-listed name before h = (
  listed_lem name name sensitive_fields h (matches_field_self name),
  listed_lem (before +++ "_" +++ name) name sensitive_fields h (matches_field-suffix before name),
)
