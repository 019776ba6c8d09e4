-- ===== src/Config/Examples.antt =====
-- The theorem on the fields of a configuration at a small one.
use kafka_to_nexus.Common.{
  ◌≢◌, if◌then◌else◌, ℕ, ◌≡◌, refl, true, false, List, [], ◌∷◌, Option, some, none, Text, bytes,
  get_elem?, ◌==◌,
}
use kafka_to_nexus.Config.{
  Field, FieldMap, new_field, find, register_field, process_config_data, set_values, set_value,
  has_missing, insert,
}
use kafka_to_nexus.Config.Values.{with_value, last_value, process_config_data-values}

-- Values are numbers, and 9 is of the wrong type.
abbrev number_or_none : ℕ → Option ℕ
number_or_none n = if n == 9 then none else some n

abbrev source_field : Field ℕ ℕ
source_field = record {
  convert = number_or_none;
  keys = bytes "source" ∷ [];
  field_required = true;
  got_default = true;
  value = 0;
  used_key = [];
}

abbrev chunk_field : Field ℕ ℕ
chunk_field = record {
  convert = number_or_none;
  keys = bytes "chunk_size" ∷ bytes "nexus.chunk" ∷ [];
  field_required = false;
  got_default = true;
  value = 4;
  used_key = [];
}

fields_are_new :
    (new_field number_or_none (bytes "source" ∷ []) 0 true ≡ source_field)
    × (new_field number_or_none (bytes "chunk_size" ∷ bytes "nexus.chunk" ∷ []) 4 false
        ≡ chunk_field)
unfolding new_field
fields_are_new = (refl, refl)

abbrev fields : List (Field ℕ ℕ)
fields = source_field ∷ chunk_field ∷ []

abbrev field_map : FieldMap
field_map = register_field 1 chunk_field.keys (register_field 0 source_field.keys [])

abbrev members : List (Text × ℕ)
members =
    (bytes "source", 3)
    ∷ (bytes "chunk_size", 9)
    ∷ (bytes "other", 1)
    ∷ (bytes "nexus.chunk", 6)
    ∷ []

process_config_data-values_example :
    (get_elem? (process_config_data field_map members fields).0 1
      ≡ some (with_value (last_value field_map 1 number_or_none members none) chunk_field))
    × ((process_config_data field_map members fields).1 ≡ false
        → (key : Text) → find key field_map ≡ some 1
        → chunk_field.field_required ≡ true
        → chunk_field.got_default ≡ true
        → last_value field_map 1 number_or_none members none ≢ none)
process_config_data-values_example =
    process_config_data-values field_map members fields 1 chunk_field refl

the_last_counts : last_value field_map 1 number_or_none members none ≡ some (bytes "nexus.chunk", 6)
unfolding find register_field insert
the_last_counts = refl

does_not_throw : (process_config_data field_map members fields).1 ≡ false
unfolding process_config_data set_values set_value has_missing find register_field insert
does_not_throw = refl
