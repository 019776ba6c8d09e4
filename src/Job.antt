-- ===== src/Job.antt =====
-- The making of a job from its structure: src/JobCreator.cpp with src/ModuleHDFInfo.h and
-- src/ModuleSettings.h. The parsing of JSON, the HDF5 file and the writer modules are arguments.
pub mod Streams
pub mod Task
mod Examples
use kafka_to_nexus.Common.{
  ℕ, ◌+◌, Bool, true, false, not, List, [], ◌∷◌, ◌++◌, Option, none, some, Text, text_eq, bytes,
  if◌then◌else◌, zero, suc, map, keep,
}

pub record ModuleHdfInfo : Type 0 where
  pub writer_module : Text
  pub hdf_parent_name : Text
  pub config_stream : Text

-- `W` is a writer module; a null pointer is nothing.
pub record ModuleSettings (W : Type 0) : Type 0 where
  pub module_hdf_info : ModuleHdfInfo
  pub name : Text
  pub topic : Text
  pub module_ : Text
  pub source : Text
  pub config_stream_json : Text
  pub writer_module : Option W
  pub is_link : Bool

abbrev pub get_copy_for_extra_module : {W : Type 0} → ModuleSettings W → ModuleSettings W
get_copy_for_extra_module s = record {
  module_hdf_info = s.module_hdf_info;
  name = s.name;
  topic = s.topic;
  module_ = [];
  source = s.source;
  config_stream_json = bytes "{}";
  writer_module = none;
  is_link = false;
}

-- A text at a key: there, missing, or a value of another type.
pub data Lookup : Type 0 where
  found : Text → Lookup
  missing wrong_type : Lookup

-- `nlohmann::json`: parsing, whose error is nothing, the text of a value, and the text at a key.
pub record Json (J : Type 0) : Type 0 where
  pub parse : Text → Option J
  pub dump : J → Text
  pub text_at : Text → J → Lookup

abbrev pub is_mdat : ModuleHdfInfo → Bool
is_mdat m = text_eq m.writer_module (bytes "mdat")

-- `extractMdatModules`: `std::stable_partition`, the others first.
unfoldable pub extract_mdat_modules : List ModuleHdfInfo → List ModuleHdfInfo × List ModuleHdfInfo
extract_mdat_modules ms = (keep (λ m. not (is_mdat m)) ms, keep is_mdat ms)

abbrev pub is_empty_text : Text → Bool
is_empty_text [] = true
is_empty_text (b ∷ bs) = false

-- What one entry gives: settings, an exception that is caught, or the type error that is not.
pub data Extracted (W : Type 0) : Type 0 where
  extracted : ModuleSettings W → Extracted W
  skipped type_error : Extracted W

module _ {J W : Type 0} (json : Json J) where
  -- The name of a link, or the topic of a stream.
  abbrev pub settings_with : ModuleHdfInfo → J → Text → Bool → Lookup → Extracted W
  settings_with info config source is_link (found text) = extracted (record {
    module_hdf_info = info;
    name = if is_link then text else [];
    topic = if is_link then [] else text;
    module_ = info.writer_module;
    source = source;
    config_stream_json = json.dump config;
    writer_module = none;
    is_link = is_link;
  })
  settings_with info config source is_link missing = skipped
  settings_with info config source is_link wrong_type = type_error

  abbrev pub settings_of : ModuleHdfInfo → J → Lookup → Extracted W
  settings_of info config missing = skipped
  settings_of info config wrong_type = type_error
  settings_of info config (found source) =
      let is_link = text_eq info.writer_module (bytes "link") in
      settings_with info config source is_link
        (json.text_at (if is_link then bytes "name" else bytes "topic") config)

  abbrev pub settings_from : ModuleHdfInfo → Option J → Extracted W
  settings_from info none = skipped
  settings_from info (some config) = settings_of info config (json.text_at (bytes "source") config)

  -- `extractModuleInformationFromJsonForSource`; what it says of attributes is only logged.
  unfoldable pub extract_module_information_for_source : ModuleHdfInfo → Extracted W
  extract_module_information_for_source info =
      if is_empty_text info.writer_module
      then skipped
      else settings_from info (json.parse info.config_stream)

  abbrev pub extend :
      Extracted W → Option (List (ModuleSettings W)) → Option (List (ModuleSettings W))
  extend (extracted s) none = none
  extend (extracted s) (some ss) = some (s ∷ ss)
  extend skipped rest = rest
  extend type_error rest = none

  -- `extractModuleInformationFromJson`; nothing stands for a type error, which ends it.
  unfoldable pub extract_module_information : List ModuleHdfInfo → Option (List (ModuleSettings W))
  extract_module_information [] = some []
  extract_module_information (info ∷ rest) =
      extend (extract_module_information_for_source info) (extract_module_information rest)

-- A writer module: its enabled extra modules, and the calls that may throw or fail.
pub record Modules (W : Type 0) : Type 0 where
  -- `Registry::find` and the factory that it gives; nothing stands for either failing.
  pub make : Text → Option W
  -- `parse_config`, with false for an exception.
  pub parse_config : Text → W → W × Bool
  pub enabled_extra_modules : W → List Text
  -- The attributes and `init_hdf`; nothing stands for an exception.
  pub init_hdf : Text → W → Option W
  pub register_meta_data : Text → W → Option W
  -- The group and `reopen`; nothing stands for a result other than OK or an exception.
  pub reopen : Text → W → Option W
  -- `Registry::find` once more: the id and the name.
  pub identify : Text → Option (Text × Text)

module _ {W : Type 0} (modules : Modules W) where
  -- `generateWriterInstance`; the exception for a failed configuration is made but not thrown.
  unfoldable pub generate_writer_instance : ModuleSettings W → Option W
  generate_writer_instance s = elim (modules.make s.module_) [
    | none ↦ none
    | some w ↦ some (modules.parse_config s.config_stream_json w).0
  ]

  abbrev pub extra_settings : ModuleSettings W → List Text → List (ModuleSettings W)
  extra_settings s = map (λ m. record (get_copy_for_extra_module s) { module_ = m })

  abbrev pub registered :
      ModuleSettings W → List Text → Option W → Option (ModuleSettings W × List (ModuleSettings W))
  registered s extras none = none
  registered s extras (some w) = some (record s { writer_module = some w }, extra_settings s extras)

  abbrev pub initialised :
      ModuleSettings W → List Text → Option W → Option (ModuleSettings W × List (ModuleSettings W))
  initialised s extras none = none
  initialised s extras (some w) =
      registered s extras (modules.register_meta_data s.module_hdf_info.hdf_parent_name w)

  abbrev pub generated :
      ModuleSettings W → Option W → Option (ModuleSettings W × List (ModuleSettings W))
  generated s none = none
  generated s (some w) =
      initialised s (modules.enabled_extra_modules w)
        (modules.init_hdf s.module_hdf_info.hdf_parent_name w)

  -- The body of the loop over the streams: the stream with its module, and those to push at the end.
  unfoldable pub init_stream :
      ModuleSettings W → Option (ModuleSettings W × List (ModuleSettings W))
  init_stream s = generated s (generate_writer_instance s)

pub data Looped (W : Type 0) : Type 0 where
  streams : List (ModuleSettings W) → Looped W
  -- One of the exceptions, which ends the making of the job.
  failed : Looped W
  out_of_fuel : Looped W

abbrev pub put_first : {W : Type 0} → ModuleSettings W → Looped W → Looped W
put_first s (streams ss) = streams (s ∷ ss)
put_first s failed = failed
put_first s out_of_fuel = out_of_fuel

-- A stream that was initialised, before what the rest of the loop makes.
abbrev pub begin_with :
    {W : Type 0} → Option (ModuleSettings W × List (ModuleSettings W)) → Looped W → Looped W
begin_with none rest = failed
begin_with (some (s, extras)) rest = put_first s rest

abbrev pub extras_of :
    {W : Type 0} → Option (ModuleSettings W × List (ModuleSettings W)) → List (ModuleSettings W)
extras_of none = []
extras_of (some (s, extras)) = extras

-- The loop over the streams, which grows the list at its end while it runs.
unfoldable pub init_streams : {W : Type 0} → Modules W → ℕ → List (ModuleSettings W) → Looped W
init_streams modules fuel [] = streams []
init_streams modules zero (s ∷ ss) = out_of_fuel
init_streams modules (suc fuel) (s ∷ ss) =
    let r = init_stream modules s in begin_with r (init_streams modules fuel (ss ++ extras_of r))

-- What `Task.addSource` gets.
pub record SourceOf (W : Type 0) : Type 0 where
  pub source : Text
  pub id : Text
  pub name : Text
  pub topic : Text
  pub writer_module : W

module _ {W : Type 0} (modules : Modules W) where
  abbrev pub reopened : ModuleSettings W → Option W → Option (SourceOf W)
  reopened s none = none
  reopened s (some w) = elim (modules.identify s.module_) [
    | none ↦ none
    | some (id, name) ↦
        some
          (record { source = s.source; id = id; name = name; topic = s.topic; writer_module = w })
  ]

  abbrev pub reopen_module : ModuleSettings W → Option W → Option (SourceOf W)
  reopen_module s none = none
  reopen_module s (some w) = reopened s (modules.reopen s.module_hdf_info.hdf_parent_name w)

  -- `addStreamSourceToWriterModule`: a stream that fails is left out.
  unfoldable pub add_stream_sources : List (ModuleSettings W) → List (SourceOf W)
  add_stream_sources [] = []
  add_stream_sources (s ∷ ss) = elim (reopen_module s s.writer_module) [
    | none ↦ add_stream_sources ss
    | some src ↦ src ∷ add_stream_sources ss
  ]

-- The links and the streams among the settings.
unfoldable pub split_links :
    {W : Type 0} → List (ModuleSettings W) → List (ModuleSettings W) × List (ModuleSettings W)
split_links ss = (keep (λ s. s.is_link) ss, keep (λ s. not s.is_link) ss)
