-- ===== src/Writer/Se00.antt =====
-- The writer of fast sample environment data: src/WriterModule/se00/se00_Writer.{h,cpp}.
pub mod Stored
pub mod Values
use kafka_to_nexus.Common.{
  ℤ, pos, ◌+ℤ◌, wrap64, ℕ, ◌+◌, ◌^◌, ◌%◌, Bool, true, false, List, [], ◌∷◌, Option, none, some,
  zero, suc, Text, bytes, ◌==◌, if◌then◌else◌, length, text_eq, u64,
}
use kafka_to_nexus.Dataset.{
  Run, completes, throws, within, ◌then◌, Hdf5, Extensible, append_element, append_adapter,
  append_array, current_size, Group, open_existing, new, open_base,
}
use kafka_to_nexus.Writer.F144.Config.{
  ElementType, int8, uint8, int16, uint16, int32, uint32, int64, uint64, float32, float64,
  lookup_type,
}
use kafka_to_nexus.Writer.{
  InitResult, Outcome, ignored, threw, outcome, init_datasets, assign, result_of,
}

abbrev pub type_map : List (Text × ElementType)
type_map =
    (bytes "int8", int8)
    ∷ (bytes "uint8", uint8)
    ∷ (bytes "int16", int16)
    ∷ (bytes "uint16", uint16)
    ∷ (bytes "int32", int32)
    ∷ (bytes "uint32", uint32)
    ∷ (bytes "int64", int64)
    ∷ (bytes "uint64", uint64)
    ∷ (bytes "float", float32)
    ∷ (bytes "double", float64)
    ∷ []

unfoldable pub config_post_processing : Text → ElementType → ElementType
config_post_processing data_type current = elim (lookup_type data_type type_map) [
  | none ↦ current
  | some type_ ↦ type_
]

-- `se00_SampleEnvironmentData`: the values of an array of a known type, or nothing for any other
-- member of the union; the time stamps may be absent.
pub record SampleData (V : Type 0) : Type 0 where
  pub packet_timestamp : ℤ
  pub values : Option (List V)
  pub timestamps : Option (List ℤ)

pub record Writer (D E : Type 0) : Type 0 where
  pub value : Extensible E
  pub timestamp : Extensible D
  pub cue_timestamp_index : Extensible D
  pub cue_timestamp : Extensible D
  pub has_checked_message_type : Bool

-- `offset i` is `std::llround(i * TimeDelta)`; the loop starts at `i`.
abbrev pub stamps_from : (ℕ → ℤ) → ℤ → ℕ → ℕ → List ℤ
stamps_from offset origin i zero = []
stamps_from offset origin i (suc n) =
    wrap64 (origin +ℤ offset i) ∷ stamps_from offset origin (i + 1) n

unfoldable pub generate_time_stamps : (ℕ → ℤ) → ℤ → ℕ → List ℤ
generate_time_stamps offset origin n = stamps_from offset origin 0 n

unfoldable pub init_hdf : {D : Type 0} → ℕ → Group D → InitResult
init_hdf chunk_size parent = init_datasets parent (
    (bytes "value", chunk_size)
    ∷ (bytes "time", chunk_size)
    ∷ (bytes "cue_index", chunk_size)
    ∷ (bytes "cue_timestamp_zero", chunk_size)
    ∷ [])

abbrev pub number : {V : Type 0} → Option (List V) → ℕ
number none = 0
number (some xs) = length xs

-- `offset` stands for the rounding of the time delta of a message.
module _ {D E V : Type 0} (h : Hdf5 D ℤ) (v : Hdf5 E V) (offset : SampleData V → ℕ → ℤ) where
  unfoldable pub reopen : Group D → Group E → Writer D E → InitResult × Writer D E
  reopen parent values_parent w = result_of (
      assign (open_base values_parent (bytes "value") open_existing) (λ e. record w { value = e }) w
      then (λ w.
          assign (new h parent (bytes "time") open_existing 1024) (λ e. record w { timestamp = e })
            w)
      then (λ w.
          assign (new h parent (bytes "cue_index") open_existing 1024)
            (λ e. record w { cue_timestamp_index = e }) w)
      then (λ w.
          assign (new h parent (bytes "cue_timestamp_zero") open_existing 1024)
            (λ e. record w { cue_timestamp = e }) w))

  -- The size of the values before a message, as a `uint32_t`.
  abbrev pub cue_index_value : Writer D E → ℤ
  cue_index_value w = pos (current_size v w.value % 2 ^ 32)

  abbrev pub append_cue : SampleData V → ℤ → Writer D E → Run (Writer D E)
  append_cue m index w =
      within (λ e. record w { cue_timestamp_index = e })
        (append_element h index w.cue_timestamp_index)
      then (λ w.
          within (λ e. record w { cue_timestamp = e })
            (append_element h m.packet_timestamp w.cue_timestamp))

  abbrev pub append_stamps : SampleData V → ℕ → Option (List ℤ) → Writer D E → Run (Writer D E)
  append_stamps m n (some ts) w =
      within (λ e. record w { timestamp = e }) (append_adapter h ts w.timestamp)
  append_stamps m n none w =
      within (λ e. record w { timestamp = e })
        (append_array h (generate_time_stamps (offset m) m.packet_timestamp n) w.timestamp)

  abbrev pub after_values : SampleData V → ℤ → ℕ → Run (Writer D E) → Outcome (Writer D E)
  after_values m index n (throws w) = threw w
  after_values m index n (completes w) =
      if n == 0
      then ignored w
      else outcome (append_cue m index w then append_stamps m n m.timestamps)

  -- The switch over the type of the values.
  abbrev pub append_values : Option (List V) → Writer D E → Run (Writer D E)
  append_values none w = completes w
  append_values (some xs) w = within (λ e. record w { value = e }) (append_adapter v xs w.value)

  unfoldable pub write_impl : SampleData V → Writer D E → Outcome (Writer D E)
  write_impl m w =
      after_values m (cue_index_value w) (number m.values)
        (append_values m.values (record w { has_checked_message_type = true }))
