-- ===== src/Writer/Examples.antt =====
-- The theorems on the writer modules at a few messages, with datasets in memory.
use kafka_to_nexus.Common.{
  text_eq, All, if◌then◌else◌, ltb, ◌^◌, ◌-◌, ◌++◌, ◌+ℤ◌, negsuc, Text, bytes, ℤ, pos, ℕ, ◌+◌, ◌≡◌,
  refl, Bool, true, false, List, [], ◌∷◌, some, none, arith, ltb,
}
use kafka_to_nexus.Dataset.Memory.{
  memory, memory-IsHdf5, memory-IsReliable, empty_dataset, nothing-IsExact,
}
use kafka_to_nexus.Dataset.{throws, Run, append_element, current_size}
use kafka_to_nexus.Dataset.Rows.{append_rows, grow_dimensions}
use kafka_to_nexus.Dataset.Rows.Memory.{Table, table, table-IsHdf5Rows}
use kafka_to_nexus.Job.{ModuleHdfInfo}
use kafka_to_nexus.Writer.Mdat
use kafka_to_nexus.Writer.Mdat.Defined.{with_path, path_of, groups_of, define_metadata-times}
use kafka_to_nexus.Writer.Ad00
use kafka_to_nexus.Writer.Da00
use kafka_to_nexus.Writer.Da00.Variable.{DataType, Buffer, Variable, appends}
use kafka_to_nexus.Writer.Da00.Level.{
  Fits, IsReady, IsShape, IsReliableRows, IsLevel, kind, write_variables-IsLevel,
}
use kafka_to_nexus.Dataset.{completes}
use kafka_to_nexus.Writer.{write_all, wrote}
use kafka_to_nexus.Writer.F144
use kafka_to_nexus.Writer.F144.Config.{int, long, none_, int32}
use kafka_to_nexus.Writer.Ev44
use kafka_to_nexus.Writer.Ev44.Stored as Ev44Stored
use kafka_to_nexus.Writer.Ev44.Events.{HasEvents}
use kafka_to_nexus.Writer.Ev44.Writes.{write_all-HasEvents}
use kafka_to_nexus.Writer.Se00
use kafka_to_nexus.Writer.Se00.Stored as Se00Stored

abbrev naturals : F144.Double ℕ ℕ
naturals = record { of_value = λ x. x; less = ltb; add = λ x y. x + y; divide = λ x n. x }

-- A scalar, a message of another type, and two scalars more; the interval is 2.
abbrev logs : List (F144.LogData ℕ)
logs =
    record { timestamp = 10; value_type = long; value = 7 }
    ∷ record { timestamp = 11; value_type = none_; value = 0 }
    ∷ record { timestamp = 12; value_type = int; value = 8 }
    ∷ record { timestamp = 13; value_type = int; value = 9 }
    ∷ []

-- HDF5 takes the nearest value of the type.
abbrev to_32 : ℕ → ℕ
to_32 n = if ltb n (2 ^ 32) then n else 2 ^ 32 - 1

abbrev log_writer : F144.Writer (List ℕ) (List ℕ) ℕ
log_writer = record {
  element_type = int32;
  values = empty_dataset;
  timestamp = empty_dataset;
  cue_timestamp_zero = empty_dataset;
  cue_index = empty_dataset;
  value_index_interval = 2;
  meta_data = true;
  meta_data_min = 0;
  meta_data_max = 0;
  meta_data_mean = 0;
  min = 0;
  max = 0;
  sum = 0;
  last_index_at_write = 0;
  nr_of_writes = 0;
  total_nr_of_elements_written = 0;
  has_checked_message_type = false;
}

-- Two pulses with events, and a message that is ignored.
abbrev events : List (Ev44.EventMessage × Bool)
events =
    (
      record {
        time_of_flight = pos 1 ∷ pos 2 ∷ [];
        pixel_id = pos 5 ∷ pos 6 ∷ [];
        reference_time = pos 100 ∷ [];
        reference_time_index = pos 0 ∷ [];
      },
      false,
    )
    ∷ (
      record {
        time_of_flight = pos 3 ∷ [];
        pixel_id = pos 7 ∷ [];
        reference_time = pos 200 ∷ [];
        reference_time_index = pos 0 ∷ [];
      },
      true,
    )
    ∷ []

abbrev event_writer : Ev44.Writer (List ℤ)
event_writer = record {
  event_time_offset = empty_dataset;
  event_id = empty_dataset;
  event_time_zero = empty_dataset;
  event_index = empty_dataset;
  cue_index = empty_dataset;
  cue_timestamp_zero = empty_dataset;
  cue_interval = pos 2;
  events_written = pos 0;
  last_cue_index = negsuc 0;
  events_written_metadata_field = pos 0;
}

abbrev no_events : Ev44Stored.Stored
no_events = record {
  offsets = [];
  ids = [];
  zeros = [];
  index = [];
  cues = [];
  cue_times = [];
  covered = 0;
}

abbrev int_32 : ℤ → ℤ
int_32 (pos n) = pos (to_32 n)
int_32 (negsuc n) = pos 0

abbrev time_64 : ℤ → ℤ
time_64 (pos n) = pos n
time_64 (negsuc n) = pos 0

event_writer-HasEvents :
    HasEvents (memory (pos 0)) int_32 time_64 (Ev44Stored.load_all events) 2 no_events event_writer
event_writer-HasEvents = record {
  offsets = nothing-IsExact (pos 0);
  ids = nothing-IsExact (pos 0);
  zeros = nothing-IsExact (pos 0);
  index = nothing-IsExact (pos 0);
  cue_index = nothing-IsExact (pos 0);
  cue_times = nothing-IsExact (pos 0);
  as_many = refl;
  events = refl;
  last_cue = refl;
  covered = omega arith;
  same_interval = refl;
  fits = omega arith;
}

write_all-HasEvents_example :
    (n : ℕ) × (w : Ev44.Writer (List ℤ)) × (write_all
        (Ev44.write_impl (memory (pos 0)) int_32 time_64)
        events
        (0, event_writer)
      ≡ some (n, w))
    × HasEvents (memory (pos 0)) int_32 time_64 0 2 (Ev44Stored.store_all 2 events no_events) w
write_all-HasEvents_example =
    write_all-HasEvents (memory (pos 0)) int_32 time_64 (memory-IsHdf5 (pos 0))
      (memory-IsReliable (pos 0)) 2 0 events no_events event_writer
      ((λ p. omega arith), ((λ p. omega arith), tt)) event_writer-HasEvents

-- A message with time stamps, one without, and one whose values are of no known type.
abbrev samples : List (Se00.SampleData ℕ)
samples =
    record {
      packet_timestamp = pos 10;
      values = some (1 ∷ 2 ∷ []);
      timestamps = some (pos 10 ∷ pos 11 ∷ []);
    }
    ∷ record { packet_timestamp = pos 20; values = some (3 ∷ 4 ∷ 5 ∷ []); timestamps = none }
    ∷ record { packet_timestamp = pos 30; values = none; timestamps = none }
    ∷ []

abbrev sample_writer : Se00.Writer (List ℤ) (List ℕ)
sample_writer = record {
  value = empty_dataset;
  timestamp = empty_dataset;
  cue_timestamp_index = empty_dataset;
  cue_timestamp = empty_dataset;
  has_checked_message_type = false;
}

abbrev no_samples : Se00Stored.Stored ℕ
no_samples = record { values = []; stamps = []; cues = []; cue_times = [] }

-- The time delta is 2.
abbrev offset : Se00.SampleData ℕ → ℕ → ℤ
offset m i = pos (i + i)

-- Two modules of times and one of another kind. A configuration is read as the one name that it is.
abbrev time_modules : List ModuleHdfInfo
time_modules =
    record {
      writer_module = bytes "mdat";
      hdf_parent_name = bytes "/entry";
      config_stream = bytes "start_time";
    }
    ∷ record {
      writer_module = bytes "f144";
      hdf_parent_name = bytes "/entry/motor";
      config_stream = bytes "end_time";
    }
    ∷ record {
      writer_module = bytes "mdat";
      hdf_parent_name = bytes "/entry/run";
      config_stream = bytes "start_time";
    }
    ∷ []

abbrev one_item : Mdat.Json Text
one_item = record {
  parse = some;
  members = λ name. some ((bytes "items", name) ∷ []);
  is_empty = λ name. false;
  texts = λ name. some (name ∷ []);
}

abbrev utc : ℤ → Text
utc (pos n) = bytes "after"
utc (negsuc n) = bytes "before"

abbrev time_groups : List (Text × List Text)
time_groups =
    (bytes "/entry", bytes "start_time" ∷ []) ∷ (bytes "/entry/run", bytes "start_time" ∷ []) ∷ []

time_groups_read : groups_of one_item time_modules ≡ some time_groups
unfolding Mdat.extract_names
time_groups_read = refl

define_metadata-times_example :
    (d : Mdat.Writables) × (Mdat.define_metadata one_item time_modules ≡ some d)
    × (Mdat.find Mdat.start_time
          (Mdat.set_stop_time utc (pos 9) (Mdat.set_start_time utc (pos 5) d))
        ≡ with_path (utc (pos 5)) (path_of Mdat.start_time time_groups none))
    × (Mdat.find Mdat.end_time (Mdat.set_stop_time utc (pos 9) (Mdat.set_start_time utc (pos 5) d))
        ≡ with_path (utc (pos 9)) (path_of Mdat.end_time time_groups none))
define_metadata-times_example =
    define_metadata-times one_item utc time_modules time_groups (pos 5) (pos 9) time_groups_read

-- An image of two by two; the interval of cues is 1.
abbrev image : Ad00.AdArray ℕ
image = record {
  dimensions = 2 ∷ 2 ∷ [];
  timestamp = pos 7;
  data_type = Ad00.uint8;
  data_ = 1 ∷ 2 ∷ 3 ∷ 4 ∷ [];
}

abbrev image_writer : Ad00.Writer (List ℤ) Table
image_writer = record {
  values = (0 ∷ 2 ∷ 2 ∷ [], λ p. 0);
  timestamp = empty_dataset;
  cue_timestamp_index = empty_dataset;
  cue_timestamp = empty_dataset;
  cue_interval = pos 1;
  cue_counter = 0;
  has_checked_message_type = false;
}

image_is_written :
    (w : Ad00.Writer (List ℤ) Table) × (Ad00.write_impl (memory (pos 0)) table image image_writer
      ≡ wrote w)
    × (w.values.0 ≡ 1 ∷ 2 ∷ 2 ∷ [])
    × (w.cue_timestamp_index.dataset ≡ pos 0 ∷ [])
    × (w.cue_timestamp.dataset ≡ pos 7 ∷ [])
unfolding Ad00.write_impl append_rows grow_dimensions append_element current_size ◌+ℤ◌
image_is_written = (_, refl, refl, refl, refl)

-- A variable is the list of its rows, and a missing row is 0.
abbrev row_lists : Da00.Appends ℕ (List ℕ)
row_lists = record {
  variable_append = λ m v. completes (v ++ m ∷ []);
  variable_append_missing = λ v. completes (v ++ 0 ∷ []);
}

abbrev variables : List (Text × List ℕ)
variables = (bytes "errors", 3 ∷ []) ∷ (bytes "signal", 4 ∷ []) ∷ (bytes "time", 5 ∷ []) ∷ []

-- One variable is missing, and a buffer is of no variable.
abbrev buffers : List (Text × ℕ)
buffers = (bytes "time", 6) ∷ (bytes "other", 7) ∷ (bytes "signal", 8) ∷ []

variables_are_written :
    Da00.write_variables row_lists buffers variables
    ≡ completes (
        (bytes "errors", 3 ∷ 0 ∷ [])
        ∷ (bytes "signal", 4 ∷ 8 ∷ [])
        ∷ (bytes "time", 5 ∷ 6 ∷ [])
        ∷ [])
unfolding Da00.write_variables Da00.write_buffers Da00.append_at Da00.append_missing
variables_are_written = refl

-- Three variables of rows of two, with one row each.
abbrev row_of_two : Variable Table
row_of_two = record {
  dtype = some DataType.int32;
  shape = some (2 ∷ []);
  axes = none;
  dataset = (1 ∷ 2 ∷ [], λ p. 3);
}

abbrev tables : List (Text × Variable Table)
tables =
    (bytes "errors", row_of_two) ∷ (bytes "signal", row_of_two) ∷ (bytes "time", row_of_two) ∷ []

abbrev two_elements : Buffer ℕ
two_elements = record {
  data_type = DataType.int32;
  shape = 2 ∷ [];
  axes = bytes "x" ∷ [];
  elements = 5 ∷ 6 ∷ [];
}

abbrev table_buffers : List (Text × Buffer ℕ)
table_buffers =
    (bytes "time", two_elements)
    ∷ (bytes "other", two_elements)
    ∷ (bytes "signal", two_elements)
    ∷ []

abbrev missing_value : DataType → ℕ
missing_value t = 2_147_483_647

abbrev undefined_append : Variable Table → Run (Variable Table)
undefined_append v = throws v

table-IsReliableRows : IsReliableRows table
table-IsReliableRows = record { extents = λ e d. refl; writes = λ xs o s d. refl }

row_of_two-IsShape : IsShape (2 ∷ [])
row_of_two-IsShape = ((omega arith, tt), omega arith)

two_elements-Fits : Fits two_elements (kind table missing_value undefined_append row_of_two)
two_elements-Fits = record {
  known = refl;
  axes = refl;
  shape = refl;
  rank = refl;
  is_shape = row_of_two-IsShape;
  elements = refl;
}

row_of_two-IsReady : IsReady (kind table missing_value undefined_append row_of_two)
row_of_two-IsReady = record {
  type_ = DataType.int32;
  dtype = refl;
  known = refl;
  row = 2 ∷ [];
  shape = refl;
  rank = refl;
  is_shape = row_of_two-IsShape;
}

write_variables-IsLevel_example :
    (vs : List (Text × Variable Table)) × (Da00.write_variables
        (appends table missing_value undefined_append)
        table_buffers
        tables
      ≡ completes vs)
    × (Da00.names vs ≡ Da00.names tables)
    × IsLevel table missing_value undefined_append table-IsHdf5Rows table-IsReliableRows 2 vs
write_variables-IsLevel_example =
    write_variables-IsLevel table missing_value undefined_append table-IsHdf5Rows
      table-IsReliableRows 1 table_buffers tables (omega arith) (refl, (refl, (refl, tt)))
      (refl, (refl, (refl, tt))) (refl, (refl, (refl, tt)))
      (each_fits (bytes "time"), (each_fits (bytes "other"), (each_fits (bytes "signal"), tt)))
      (row_of_two-IsReady, (row_of_two-IsReady, (row_of_two-IsReady, tt)))
  where
    each_fits :
        (name : Text)
        → All
            (λ p.
              text_eq p.0 name ≡ true
              → Fits two_elements (kind table missing_value undefined_append p.1))
            tables
    each_fits name =
        ((λ e. two_elements-Fits), ((λ e. two_elements-Fits), ((λ e. two_elements-Fits), tt)))
