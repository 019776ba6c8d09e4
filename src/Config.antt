-- ===== src/Config.antt =====
-- The fields of a writer module's configuration: src/JsonConfig/Field.h and FieldHandler.{h,cpp}.
-- `J` is `nlohmann::json`; the values of all fields are of one type `V`.
pub mod Values
mod Examples
use kafka_to_nexus.Common.{
  ℕ, Bool, true, false, not, List, [], ◌∷◌, Option, none, some, Text, text_eq, if◌then◌else◌, ◌==◌,
  zero, suc, ◌&&◌, ◌||◌,
}

-- `Field<T>`. `convert` is `json.get<T>()`, where nothing stands for its `json::type_error`; for a
-- field of text it falls back on the dump of the value.
pub record Field (J V : Type 0) : Type 0 where
  pub convert : J → Option V
  pub keys : List Text
  pub field_required : Bool
  pub got_default : Bool
  pub value : V
  pub used_key : Text

-- The constructors of `Field` and of `RequiredField`, which makes its field required.
unfoldable pub new_field : {J V : Type 0} → (J → Option V) → List Text → V → Bool → Field J V
new_field convert keys value required = record {
  convert = convert;
  keys = keys;
  field_required = required;
  got_default = true;
  value = value;
  used_key = [];
}

abbrev pub set_value_internal : {J V : Type 0} → Text → V → Field J V → Field J V
set_value_internal key value f = record f { used_key = key; got_default = false; value = value }

abbrev pub converted : {J V : Type 0} → Text → Option V → Field J V → Field J V
converted key none f = f
converted key (some v) f = set_value_internal key v f

-- `setValue`; a type error leaves the field, and the caller logs it.
unfoldable pub set_value : {J V : Type 0} → Text → J → Field J V → Field J V
set_value key value f = converted key (f.convert value) f

-- `FieldMap`, from keys to fields by number.
abbrev pub FieldMap : Type 0
FieldMap = List (Text × ℕ)

unfoldable pub insert : Text → ℕ → FieldMap → FieldMap
insert key i [] = (key, i) ∷ []
insert key i ((k, j) ∷ rest) = if text_eq k key then (key, i) ∷ rest else (k, j) ∷ insert key i rest

unfoldable pub find : Text → FieldMap → Option ℕ
find key [] = none
find key ((k, i) ∷ rest) = if text_eq k key then some i else find key rest

-- `registerField`: a key that is there already goes over to the new field.
unfoldable pub register_field : ℕ → List Text → FieldMap → FieldMap
register_field i [] m = m
register_field i (key ∷ keys) m = register_field i keys (insert key i m)

module _ {J V : Type 0} where
  abbrev pub update : ℕ → (Field J V → Field J V) → List (Field J V) → List (Field J V)
  update i g [] = []
  update zero g (f ∷ fs) = g f ∷ fs
  update (suc i) g (f ∷ fs) = f ∷ update i g fs

  abbrev pub set_found : Option ℕ → Text → J → List (Field J V) → List (Field J V)
  set_found none key value fs = fs
  set_found (some i) key value fs = update i (set_value key value) fs

  -- The loop over the members of the configuration; an unknown key is only logged.
  unfoldable pub set_values : FieldMap → List (Text × J) → List (Field J V) → List (Field J V)
  set_values m [] fs = fs
  set_values m ((key, value) ∷ rest) fs = set_values m rest (set_found (find key m) key value fs)

  abbrev pub is_missing : Field J V → Bool
  is_missing f = f.field_required && f.got_default

  abbrev pub at_missing : ℕ → List (Field J V) → Bool
  at_missing i [] = false
  at_missing zero (f ∷ fs) = is_missing f
  at_missing (suc i) (f ∷ fs) = at_missing i fs

  -- The second loop: is a required field of the map still at its default?
  unfoldable pub has_missing : FieldMap → List (Field J V) → Bool
  has_missing [] fs = false
  has_missing ((key, i) ∷ rest) fs = at_missing i fs || has_missing rest fs

  -- `processConfigData`: the fields that it leaves, and whether it throws.
  unfoldable pub process_config_data :
      FieldMap → List (Text × J) → List (Field J V) → List (Field J V) × Bool
  process_config_data m members fs = let fs' = set_values m members fs in (fs', has_missing m fs')
