-- ===== src/Writer/Mdat.antt =====
-- The writer of the start and stop time: src/WriterModule/mdat/mdat_Writer.{h,cpp}.
pub mod Defined
use kafka_to_nexus.Common.{
  ℤ, ℕ, Bool, true, false, not, List, [], ◌∷◌, Option, none, some, Text, bytes, text_eq, ◌&&◌, ◌||◌,
  if◌then◌else◌,
}
use kafka_to_nexus.Job.{ModuleHdfInfo, is_mdat, is_empty_text}

pub record Writable : Type 0 where
  pub path : Text
  pub value : Text

abbrev pub is_writable : Writable → Bool
is_writable w = not (is_empty_text w.path) && not (is_empty_text w.value)

-- `nlohmann::json`: parsing, the members of a value, its emptiness, and its conversion to texts;
-- nothing stands for an exception.
pub record Json (J : Type 0) : Type 0 where
  pub parse : Text → Option J
  pub members : J → Option (List (Text × J))
  pub is_empty : J → Bool
  pub texts : J → Option (List Text)

abbrev pub start_time : Text
start_time = bytes "start_time"

abbrev pub end_time : Text
end_time = bytes "end_time"

abbrev pub is_allowed : Text → Bool
is_allowed name = text_eq start_time name || text_eq end_time name

-- `_writables`; the order of an `std::unordered_map` is not defined.
abbrev pub Writables : Type 0
Writables = List (Text × Writable)

unfoldable pub assign_at : Text → Writable → Writables → Writables
assign_at name w [] = (name, w) ∷ []
assign_at name w ((n, v) ∷ rest) =
    let later = assign_at name w rest in if text_eq n name then (n, w) ∷ rest else (n, v) ∷ later

unfoldable pub find : Text → Writables → Option Writable
find name [] = none
find name ((n, v) ∷ rest) = if text_eq n name then some v else find name rest

-- The loop over the names of a module.
unfoldable pub add_names : Text → List Text → Writables → Writables
add_names path [] details = details
add_names path (name ∷ names) details = add_names path names (
    if is_allowed name
    then assign_at name (record { path = path; value = [] }) details
    else details)

module _ {J : Type 0} (json : Json J) where
  abbrev pub items_of : List (Text × J) → Option (List Text)
  items_of [] = some []
  items_of ((key, value) ∷ rest) =
      if text_eq key (bytes "items") && not (json.is_empty value)
      then json.texts value
      else items_of rest

  -- `extract_names`.
  unfoldable pub extract_names : Text → Option (List Text)
  extract_names config = elim (json.parse config) [
    | none ↦ none
    | some value ↦ elim (json.members value) [ none ↦ none | some members ↦ items_of members ]
  ]

  -- `extract_details`, whose loop starts with no details.
  unfoldable pub extract_details : List ModuleHdfInfo → Writables → Option Writables
  extract_details [] details = some details
  extract_details (m ∷ ms) details =
      if is_mdat m
      then elim (extract_names m.config_stream) [
        | none ↦ none
        | some names ↦ extract_details ms (add_names m.hdf_parent_name names details)
      ]
      else extract_details ms details

  unfoldable pub define_metadata : List ModuleHdfInfo → Option Writables
  define_metadata ms = extract_details ms []

-- `set_writable_value_if_defined`, with the text that `toUTCDateTime` makes.
unfoldable pub set_writable_value_if_defined : Text → Text → Writables → Writables
set_writable_value_if_defined name text [] = []
set_writable_value_if_defined name text ((n, v) ∷ rest) =
    let later = set_writable_value_if_defined name text rest in
    if text_eq n name then (n, record v { value = text }) ∷ rest else (n, v) ∷ later

module _ (to_utc_date_time : ℤ → Text) where
  unfoldable pub set_start_time : ℤ → Writables → Writables
  set_start_time t = set_writable_value_if_defined start_time (to_utc_date_time t)

  unfoldable pub set_stop_time : ℤ → Writables → Writables
  set_stop_time t = set_writable_value_if_defined end_time (to_utc_date_time t)

-- `write_metadata`: the datasets that it asks for, by name, path and value.
unfoldable pub write_metadata : Writables → List (Text × Text × Text)
write_metadata [] = []
write_metadata ((name, w) ∷ rest) =
    if is_allowed name && is_writable w
    then (name, w.path, w.value) ∷ write_metadata rest
    else write_metadata rest
