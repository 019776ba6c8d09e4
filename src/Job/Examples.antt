-- ===== src/Job/Examples.antt =====
-- The theorem on the loop over the streams of a job at a stream with two extra modules.
use kafka_to_nexus.Common.{
  if◌then◌else◌, ◌+◌, ◌≡◌, ◌≤◌, length, refl, true, false, List, [], ◌∷◌, some, none, Text, bytes,
  arith, text_eq, Bool-cases, inl, inr,
}
use kafka_to_nexus.Job.{ModuleSettings, Modules, init_streams}
use kafka_to_nexus.Job.Streams.{IsFlat, pushed_by_all, make_each, init_streams-each}

-- A writer module is its name, and `f144` alone has extra modules.
abbrev extra_modules : Text → List Text
extra_modules name = if text_eq name (bytes "f144") then bytes "ep01" ∷ bytes "al00" ∷ [] else []

abbrev modules : Modules Text
modules = record {
  make = some;
  parse_config = λ json w. (w, true);
  enabled_extra_modules = extra_modules;
  init_hdf = λ name w. some w;
  register_meta_data = λ name w. some w;
  reopen = λ name w. some w;
  identify = λ name. some (name, name);
}

abbrev stream : ModuleSettings Text
stream = record {
  module_hdf_info = record {
    writer_module = bytes "f144";
    hdf_parent_name = bytes "/entry";
    config_stream = bytes "{}";
  };
  name = [];
  topic = bytes "motors";
  module_ = bytes "f144";
  source = bytes "motor1";
  config_stream_json = bytes "{}";
  writer_module = none;
  is_link = false;
}

modules_are_flat : IsFlat modules
modules_are_flat s = elim (Bool-cases (text_eq s.module_ (bytes "f144"))) [
  | inl q ↦ rw q (refl, (refl, tt))
  | inr q ↦ rw q tt
]

three_modules : length (stream ∷ []) + length (pushed_by_all modules (stream ∷ [])) ≤ 3
three_modules = omega arith

init_streams-each_example :
    init_streams modules 3 (stream ∷ [])
    ≡ make_each modules (stream ∷ pushed_by_all modules (stream ∷ []))
init_streams-each_example = init_streams-each modules 3 (stream ∷ []) modules_are_flat three_modules
