-- ===== src/Command/Parser.antt =====
-- src/CommandSystem/Parser.cpp and Commands.h. What the generated flatbuffers code reads from a buffer
-- is the input: an absent field of text is nothing.
pub mod Fields
use kafka_to_nexus.Common.{
  ℤ, pos, ℕ, Bool, true, false, List, [], ◌∷◌, ◌++◌, Option, none, some, Text, if◌then◌else◌, ltb,
  ◌==◌, not, wrap64,
}
use kafka_to_nexus.Time.{time_max, epoch, of_milliseconds}

-- The table `RunStart` of the schema pl72; times are `uint64_t`.
pub record RunStart : Type 0 where
  pub start_time : ℕ
  pub stop_time : ℕ
  pub job_id : Option Text
  pub nexus_structure : Option Text
  pub filename : Option Text
  pub service_id : Option Text
  pub metadata : Option Text
  pub control_topic : Option Text
  pub instrument_name : Option Text

-- The table `RunStop` of the schema 6s4t.
pub record RunStop : Type 0 where
  pub stop_time : ℕ
  pub job_id : Option Text
  pub command_id : Option Text
  pub service_id : Option Text

pub record StartMessage : Type 0 where
  pub job_id : Text
  pub filename : Text
  pub nexus_structure : Text
  pub metadata : Text
  pub start_time : ℤ
  pub stop_time : ℤ
  pub control_topic : Text
  pub instrument_name : Text
  pub service_id : Text

abbrev pub empty_start : StartMessage
empty_start = record {
  job_id = [];
  filename = [];
  nexus_structure = [];
  metadata = [];
  start_time = epoch;
  stop_time = time_max;
  control_topic = [];
  instrument_name = [];
  service_id = [];
}

pub record StopMessage : Type 0 where
  pub job_id : Text
  pub command_id : Text
  pub stop_time : ℤ
  pub service_id : Text

abbrev pub empty_stop : StopMessage
empty_stop = record { job_id = []; command_id = []; stop_time = epoch; service_id = [] }

pub data Field : Type 0 where
  job_id_missing nexus_structure_missing filename_missing : Field

-- The result of a parser: `refused` is the `std::runtime_error` with the fields that it names, and
-- `null_read` the read through a null pointer, which C++ does not define.
pub data Parsed {ℓ} (A : Type ℓ) : Type ℓ where
  parsed : A → Parsed A
  refused : List Field → Parsed A
  null_read : Parsed A

-- A text that is absent or of size 0.
abbrev pub is_missing : Option Text → Bool
is_missing none = true
is_missing (some []) = true
is_missing (some (c ∷ cs)) = false

-- `check_required_fields`: the errors are collected.
unfoldable pub missing_fields : RunStart → List Field
missing_fields r =
    (if is_missing r.job_id then job_id_missing ∷ [] else [])
    ++ ((if is_missing r.nexus_structure then nexus_structure_missing ∷ [] else [])
        ++ (if is_missing r.filename then filename_missing ∷ [] else []))

abbrev pub text_or : Text → Option Text → Text
text_or d none = d
text_or d (some t) = t

-- `time_point(std::chrono::milliseconds{n})` of a `uint64_t`.
unfoldable pub time_of : ℕ → ℤ
time_of n = of_milliseconds (wrap64 (pos n))

-- The fields read once none of the required ones is missing.
unfoldable pub start_message : ℤ → RunStart → StartMessage
start_message default_start_time r = record {
  job_id = text_or [] r.job_id;
  filename = text_or [] r.filename;
  nexus_structure = text_or [] r.nexus_structure;
  metadata = text_or [] r.metadata;
  start_time = if ltb 0 r.start_time then time_of r.start_time else default_start_time;
  stop_time = if not (r.stop_time == 0) then time_of r.stop_time else time_max;
  control_topic = text_or [] r.control_topic;
  instrument_name = text_or [] r.instrument_name;
  service_id = text_or [] r.service_id;
}

unfoldable pub extract_start_message : ℤ → RunStart → Parsed StartMessage
extract_start_message default_start_time r = elim (missing_fields r) [
  | [] ↦ parsed (start_message default_start_time r)
  | f ∷ fs ↦ refused (f ∷ fs)
]

unfoldable pub extract_stop_message : RunStop → Parsed StopMessage
extract_stop_message r =
    if is_missing r.job_id then refused (job_id_missing ∷ []) else (elim r.command_id [
      | none ↦ null_read
      | some command_id ↦ parsed (record {
        job_id = text_or [] r.job_id;
        command_id = command_id;
        stop_time = time_of r.stop_time;
        service_id = text_or [] r.service_id;
      })
    ])
