-- ===== src/Writer/F144.antt =====
-- The writer of logged values: src/WriterModule/f144/f144_Writer.{h,cpp}.
pub mod Config
pub mod Cues
pub mod Entries
pub mod Writes
use kafka_to_nexus.Common.{
  ℕ, ◌+◌, ◌-◌, ◌/◌, ◌<◌, ◌≤◌, Bool, true, false, not, List, [], ◌∷◌, Option, none, some, Text, u64,
  bytes, ltb, leb, ◌==◌, if◌then◌else◌, map, text_eq,
}
use kafka_to_nexus.Dataset.{
  Run, completes, throws, within, ◌then◌, Hdf5, Extensible, append_element, Group, open_existing,
  new, open_base,
}
use kafka_to_nexus.Writer.F144.Config.{
  ElementType, ValueType, none_, byte, ubyte, short, ushort, int, uint, long, ulong, float, double,
}
use kafka_to_nexus.Writer.{
  InitResult, Outcome, threw, undefined, outcome, sub64, init_datasets, assign, result_of,
}

-- The cases of the switch that append a scalar.
abbrev pub is_scalar : ValueType → Bool
is_scalar byte = true
is_scalar ubyte = true
is_scalar short = true
is_scalar ushort = true
is_scalar int = true
is_scalar uint = true
is_scalar long = true
is_scalar ulong = true
is_scalar float = true
is_scalar double = true
is_scalar _ = false

-- `f144_LogData`; `value` is that of a scalar.
pub record LogData (V : Type 0) : Type 0 where
  pub timestamp : ℕ
  pub value_type : ValueType
  pub value : V

-- The operations of `double` that the code uses.
pub record Double (V R : Type 0) : Type 0 where
  pub of_value : V → R
  pub less : R → R → Bool
  pub add : R → R → R
  pub divide : R → ℕ → R

pub record Writer (D E R : Type 0) : Type 0 where
  pub element_type : ElementType
  pub values : Extensible E
  pub timestamp : Extensible D
  pub cue_timestamp_zero : Extensible D
  pub cue_index : Extensible D
  pub value_index_interval : ℕ
  pub meta_data : Bool
  pub meta_data_min : R
  pub meta_data_max : R
  pub meta_data_mean : R
  pub min : R
  pub max : R
  pub sum : R
  pub last_index_at_write : ℕ
  pub nr_of_writes : ℕ
  pub total_nr_of_elements_written : ℕ
  pub has_checked_message_type : Bool

-- The chunk size of the values is the default of `ExtensibleDataset`.
unfoldable pub init_hdf : {D : Type 0} → ℕ → Group D → InitResult
init_hdf chunk_size parent = init_datasets parent (
    (bytes "time", chunk_size)
    ∷ (bytes "cue_timestamp_zero", chunk_size)
    ∷ (bytes "cue_index", chunk_size)
    ∷ (bytes "value", 1024)
    ∷ [])

-- `to_uint32` is how HDF5 converts to the type of the dataset, here `uint32_t` for `CueIndex`; the time
-- stamps are not negative, and `uint64_t` in the file.
module _ {D E V R : Type 0} (h : Hdf5 D ℕ) (v : Hdf5 E V) (double_ : Double V R)
    (to_uint32 : ℕ → ℕ) where
  unfoldable pub reopen : Group D → Group E → Writer D E R → InitResult × Writer D E R
  reopen parent values_parent w = result_of (
      assign (new h parent (bytes "time") open_existing 1024) (λ e. record w { timestamp = e }) w
      then (λ w.
          assign (new h parent (bytes "cue_index") open_existing 1024)
            (λ e. record w { cue_index = e }) w)
      then (λ w.
          assign (new h parent (bytes "cue_timestamp_zero") open_existing 1024)
            (λ e. record w { cue_timestamp_zero = e }) w)
      then (λ w.
          assign (open_base values_parent (bytes "value") open_existing)
            (λ e. record w { values = e }) w))

  abbrev pub append_timestamp : LogData V → Writer D E R → Run (Writer D E R)
  append_timestamp m w =
      within (λ e. record w { timestamp = e }) (append_element h m.timestamp w.timestamp)

  -- The switch over the type of the value; the default throws a `WriterException`.
  abbrev pub append_value : LogData V → Writer D E R → Run (Writer D E R)
  append_value m w =
      if is_scalar m.value_type
      then within (λ e. record w { values = e }) (append_element v m.value w.values)
      else throws w

  -- A cue entry, where the interval has passed.
  abbrev pub append_cue : LogData V → Writer D E R → Run (Writer D E R)
  append_cue m w =
      if sub64 w.nr_of_writes w.last_index_at_write / w.value_index_interval == 0
      then completes w
      else within (λ e. record w { last_index_at_write = w.nr_of_writes; cue_index = e })
          (append_element h (to_uint32 (sub64 w.nr_of_writes 1)) w.cue_index)
        then (λ w.
            within (λ e. record w { cue_timestamp_zero = e })
              (append_element h m.timestamp w.cue_timestamp_zero))

  -- `std::min` and `std::max`.
  abbrev pub min_of : R → R → R
  min_of a b = if double_.less b a then b else a

  abbrev pub max_of : R → R → R
  max_of a b = if double_.less a b then b else a

  unfoldable pub update_meta_data : R → Writer D E R → Writer D E R
  update_meta_data x w =
      if w.meta_data
      then (let first = w.total_nr_of_elements_written == 0 in
          let low = min_of (if first then x else w.min) x in
          let high = max_of (if first then x else w.max) x in
          let total = u64 (w.total_nr_of_elements_written + 1) in
          record w {
            min = low;
            max = high;
            sum = double_.add w.sum x;
            total_nr_of_elements_written = total;
            meta_data_min = low;
            meta_data_max = high;
            meta_data_mean = double_.divide (double_.add w.sum x) total;
          })
      else w

  -- What follows the switch, from `++NrOfWrites` on; a division by an interval of 0 is not defined.
  abbrev pub after_value : LogData V → Run (Writer D E R) → Outcome (Writer D E R)
  after_value m (throws w) = threw w
  after_value m (completes w) =
      if w.value_index_interval == 0
      then undefined
      else outcome (
          append_cue m (record w { nr_of_writes = u64 (w.nr_of_writes + 1) })
          then (λ w. completes (update_meta_data (double_.of_value m.value) w)))

  unfoldable pub write_impl : LogData V → Writer D E R → Outcome (Writer D E R)
  write_impl m w = after_value m (
      append_timestamp m w
      then (λ w. append_value m (record w { has_checked_message_type = true })))
