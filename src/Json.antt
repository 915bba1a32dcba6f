-- ===== src/Json.antt =====
-- `serde_json::Value`, as far as the program reads it. Only a number that fits in a `u64` has a value
-- here; any other number keeps its text. An object keeps its fields in order.
pub mod Edit
use hr.Prelude.{
  ℕ, Bool, true, false, Option, none, some, List, [], ◌∷◌, if◌then◌else◌, eq_text, Text,
}

mutual
  pub data Value : Type 0 where
    null : Value
    boolean : Bool → Value
    unsigned : ℕ → Value
    number : Text → Value
    string : Text → Value
    array : Values → Value
    object : Fields → Value

  pub data Values : Type 0 where
    no_values : Values
    value_then : Value → Values → Values

  pub data Fields : Type 0 where
    no_fields : Fields
    field_then : Text → Value → Fields → Fields

unfoldable pub field : Text → Fields → Option Value
field key no_fields = none
field key (field_then name value fields) = if eq_text name key then some value else field key fields

-- `value.get(key)`
unfoldable pub get : Text → Value → Option Value
unfolding field
get key (object fields) = field key fields
get key _ = none

abbrev pub as_str : Value → Option Text
as_str (string text) = some text
as_str _ = none

abbrev pub as_u64 : Value → Option ℕ
as_u64 (unsigned n) = some n
as_u64 _ = none

abbrev pub is_object : Value → Bool
is_object (object _) = true
is_object _ = false

abbrev pub elements : Values → List Value
elements no_values = []
elements (value_then value values) = value ∷ elements values

abbrev pub as_array : Value → Option (List Value)
as_array (array values) = some (elements values)
as_array _ = none

-- `and_then`, `or_else`, `filter`, `is_some_and` and `unwrap_or` of `Option`
abbrev pub and_then {ℓ κ} : {A : Type ℓ} {B : Type κ} → Option A → (A → Option B) → Option B
and_then none f = none
and_then (some a) f = f a

abbrev pub or_else {ℓ} : {A : Type ℓ} → Option A → Option A → Option A
or_else none b = b
or_else (some a) b = some a

abbrev pub filter {ℓ} : {A : Type ℓ} → (A → Bool) → Option A → Option A
filter p none = none
filter p (some a) = if p a then some a else none

abbrev pub is_some_and {ℓ} : {A : Type ℓ} → (A → Bool) → Option A → Bool
is_some_and p none = false
is_some_and p (some a) = p a

abbrev pub unwrap_or {ℓ} : {A : Type ℓ} → A → Option A → A
unwrap_or a none = a
unwrap_or a (some b) = b

-- `value.get(key).and_then(Value::as_str)`
abbrev pub get_str : Text → Value → Option Text
get_str key value = and_then (get key value) as_str
