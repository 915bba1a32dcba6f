-- ===== src/Json/Edit.antt =====
-- `serde_json::Map`, which is a `BTreeMap`: its keys are sorted, and stand once. Objects built by
-- `json!`, the writes `value[key] = …`, and `Map::remove`.
use hr.Prelude.{
  Bool, true, false, ◌≡◌, refl, ap, Option, none, some, List, [], ◌∷◌, ltb, ◌==◌, if◌then◌else◌,
  eq_text, eq_text_iff, eq_text_refl, arith, Text,
}
use mathlib.Core.Path.{subst}
use hr.Json.{
  Value, null, boolean, unsigned, number, string, array, object, Values, no_values, value_then,
  Fields, no_fields, field_then, field, get, elements,
}

-- The order of `String`, by bytes, is that of the scalar values.
unfoldable pub lt_text : Text → Text → Bool
lt_text [] [] = false
lt_text [] (_ ∷ _) = true
lt_text (_ ∷ _) [] = false
lt_text (a ∷ s) (b ∷ t) = if a == b then lt_text s t else ltb a b

-- `Map::insert`
unfoldable pub insert : Text → Value → Fields → Fields
unfolding lt_text eq_text
insert key value no_fields = field_then key value no_fields
insert key value (field_then name old rest) =
    let later = insert key value rest in
    if eq_text name key
    then field_then name value rest
    else if lt_text key name
    then field_then key value (field_then name old rest)
    else field_then name old later

-- `Map::remove`
unfoldable pub remove : Text → Fields → Fields
remove key no_fields = no_fields
remove key (field_then name value rest) =
    let later = remove key rest in if eq_text name key then later else field_then name value later

-- `json!({…})`, the fields in the order they are written
unfoldable pub json_object : List (Text × Value) → Fields
unfolding insert
json_object [] = no_fields
json_object ((key, value) ∷ rest) = insert key value (json_object rest)

-- `value[key] = …`, which makes an object of null and panics on any other value
unfoldable pub index_set : Text → Value → Value → Option Value
unfolding insert
index_set key value (object m) = some (object (insert key value m))
index_set key value null = some (object (insert key value no_fields))
index_set key value _ = none

-- The same on a value that is known to be an object.
unfoldable pub set_key : Text → Value → Value → Value
unfolding insert
set_key key value (object m) = object (insert key value m)
set_key key value v = v

-- `as_object_mut` followed by `remove`
unfoldable pub remove_key : Text → Value → Value
unfolding remove
remove_key key (object m) = object (remove key m)
remove_key key v = v

unfoldable pub values_of : List Value → Values
values_of [] = no_values
values_of (v ∷ vs) = value_then v (values_of vs)

pub elements-values_of : (vs : List Value) → elements (values_of vs) ≡ vs
unfolding values_of
elements-values_of [] = refl
elements-values_of (v ∷ vs) = ap (◌∷◌ v) (elements-values_of vs)

some-injective {ℓ} : {A : Type ℓ} {x y : A} → some x ≡ some y → x ≡ y
some-injective h = cc

field-insert : (key : Text) (v : Value) (m : Fields) → field key (insert key v m) ≡ some v
unfolding field insert
field-insert key v no_fields = ground (arith, eq_text_refl key)
field-insert key v (field_then name old rest) =
    ground (arith, eq_text_refl key, field-insert key v rest)

field-insert_ne :
    (other key : Text) (v : Value) (m : Fields)
    → eq_text key other ≡ false
    → field other (insert key v m) ≡ field other m
unfolding field insert
field-insert_ne other key v no_fields h = ground arith
field-insert_ne other key v (field_then name old rest) h =
    ground (arith, field-insert_ne other key v rest h, eq_text_iff name key)

field-remove : (key : Text) (m : Fields) → field key (remove key m) ≡ none
unfolding field remove
field-remove key no_fields = refl
field-remove key (field_then name old rest) = ground (arith, field-remove key rest)

field-remove_ne :
    (other key : Text) (m : Fields)
    → eq_text key other ≡ false
    → field other (remove key m) ≡ field other m
unfolding field remove
field-remove_ne other key no_fields h = refl
field-remove_ne other key (field_then name old rest) h =
    ground (arith, field-remove_ne other key rest h, eq_text_iff name key)

pub get-set_key :
    (key : Text) (v w u : Value) → get key w ≡ some u → get key (set_key key v w) ≡ some v
unfolding get set_key
get-set_key key v (object m) u h = field-insert key v m
get-set_key key v null u h = cc
get-set_key key v (boolean b) u h = cc
get-set_key key v (unsigned n) u h = cc
get-set_key key v (number n) u h = cc
get-set_key key v (string t) u h = cc
get-set_key key v (array vs) u h = cc

pub get-set_key_ne :
    (other key : Text) (v w : Value)
    → eq_text key other ≡ false
    → get other (set_key key v w) ≡ get other w
unfolding get set_key
get-set_key_ne other key v (object m) h = field-insert_ne other key v m h
get-set_key_ne other key v null h = refl
get-set_key_ne other key v _ h = refl

pub get-remove_key : (key : Text) (w : Value) → get key (remove_key key w) ≡ none
unfolding get remove_key
get-remove_key key (object m) = field-remove key m
get-remove_key key null = refl
get-remove_key key _ = refl

pub get-remove_key_ne :
    (other key : Text) (w : Value)
    → eq_text key other ≡ false
    → get other (remove_key key w) ≡ get other w
unfolding get remove_key
get-remove_key_ne other key (object m) h = field-remove_ne other key m h
get-remove_key_ne other key null h = refl
get-remove_key_ne other key _ h = refl

pub get-index_set :
    (key : Text) (v w w' : Value) → index_set key v w ≡ some w' → get key w' ≡ some v
unfolding get index_set
get-index_set key v (object m) w' h =
    subst (λ u. get key u ≡ some v) (some-injective h) (field-insert key v m)
get-index_set key v null w' h =
    subst (λ u. get key u ≡ some v) (some-injective h) (field-insert key v no_fields)
get-index_set key v (boolean b) w' h = cc
get-index_set key v (unsigned n) w' h = cc
get-index_set key v (number n) w' h = cc
get-index_set key v (string t) w' h = cc
get-index_set key v (array vs) w' h = cc

pub get-index_set_ne :
    (other key : Text) (v w w' : Value)
    → index_set key v w ≡ some w'
    → eq_text key other ≡ false
    → get other w' ≡ get other w
unfolding get index_set field
get-index_set_ne other key v (object m) w' h ne =
    subst (λ u. get other u ≡ field other m) (some-injective h) (field-insert_ne other key v m ne)
get-index_set_ne other key v null w' h ne =
    subst (λ u. get other u ≡ none) (some-injective h) (field-insert_ne other key v no_fields ne)
get-index_set_ne other key v (boolean b) w' h ne = cc
get-index_set_ne other key v (unsigned n) w' h ne = cc
get-index_set_ne other key v (number n) w' h ne = cc
get-index_set_ne other key v (string t) w' h ne = cc
get-index_set_ne other key v (array vs) w' h ne = cc
