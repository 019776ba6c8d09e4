-- ===== src/Writer/Ad00.antt =====
-- The writer of area detector images: src/WriterModule/ad00/ad00_Writer.{h,cpp}.
use kafka_to_nexus.Common.{
  ℤ, pos, negsuc, ◌+ℤ◌, eqb_ℤ, ℕ, ◌+◌, ◌*◌, ◌^◌, Bool, true, false, List, [], ◌∷◌, Option, none,
  some, Text, bytes, leb, ◌==◌, u64, if◌then◌else◌, length, take,
}
use kafka_to_nexus.Dataset.{
  Run, completes, throws, within, ◌then◌, Hdf5, Extensible, append_element, current_size, Group,
  Mode, create, open_existing, new,
}
use kafka_to_nexus.Dataset.Rows.{
  Hdf5Rows, Appended, no_dimension, wrong_rank, ran, append_rows, vector_chunk_size,
}
use kafka_to_nexus.Writer.{
  InitResult, error, Outcome, threw, undefined, outcome, init_datasets, assign, result_of,
}

-- The types of the elements of an image; `unknown` is any other number.
pub data DType : Type 0 where
  int8 uint8 int16 uint16 int32 uint32 int64 uint64 float32 float64 c_string unknown : DType

abbrev pub is_known : DType → Bool
is_known unknown = false
is_known _ = true

-- `ad00_ADArray`, with its data as elements of its type.
pub record AdArray (A : Type 0) : Type 0 where
  pub dimensions : List ℕ
  pub timestamp : ℤ
  pub data_type : DType
  pub data_ : List A

-- `T` is the dataset of the images.
pub record Writer (D T : Type 0) : Type 0 where
  pub values : T
  pub timestamp : Extensible D
  pub cue_timestamp_index : Extensible D
  pub cue_timestamp : Extensible D
  pub cue_interval : ℤ
  pub cue_counter : ℕ
  pub has_checked_message_type : Bool

-- `std::accumulate` over the dimensions, from a `size_t`.
abbrev pub nr_of_elements : ℕ → List ℕ → ℕ
nr_of_elements n [] = n
nr_of_elements n (d ∷ ds) = nr_of_elements (u64 (n * d)) ds

-- What `init_hdf` does: its result, the exception of `at(0)`, or a division by zero.
pub data Initialised : Type 0 where
  result : InitResult → Initialised
  out_of_range divides_by_zero : Initialised

-- The datasets after that of the values, which was made or not; the attribute is left out.
abbrev pub after_values : {D : Type 0} → Bool → ℕ → Group D → InitResult
after_values false chunk_size parent = error
after_values true chunk_size parent = init_datasets parent (
    (bytes "time", chunk_size)
    ∷ (bytes "cue_index", chunk_size)
    ∷ (bytes "cue_timestamp_zero", chunk_size)
    ∷ [])

-- `create_rows` makes the dataset of the values from its dimensions and its chunk size.
unfoldable pub init_hdf :
    {D : Type 0} → (List ℕ → List ℕ → Bool) → List ℕ → List ℕ → Group D → Initialised
init_hdf create_rows array_shape [] parent = out_of_range
init_hdf create_rows array_shape (c ∷ cs) parent = elim (vector_chunk_size array_shape (c ∷ cs)) [
  | none ↦ divides_by_zero
  | some chunk ↦ result (after_values (create_rows (0 ∷ array_shape) chunk) c parent)
]

-- `MultiDimDatasetBase::MultiDimDatasetBase`.
unfoldable pub open_rows : {T : Type 0} → Group T → Text → Mode → Option T
open_rows parent name create = none
open_rows parent name open_existing = parent.get_dataset name

module _ {D T A : Type 0} (h : Hdf5 D ℤ) (v : Hdf5Rows T A) where
  unfoldable pub reopen : Group D → Group T → Writer D T → InitResult × Writer D T
  reopen parent values_parent w = result_of (
      assign (open_rows values_parent (bytes "value") open_existing) (λ d. record w { values = d })
        w
      then (λ w.
          assign (new h parent (bytes "time") open_existing 1024) (λ e. record w { timestamp = e })
            w)
      then (λ w.
          assign (new h parent (bytes "cue_index") open_existing 1024)
            (λ e. record w { cue_timestamp_index = e }) w)
      then (λ w.
          assign (new h parent (bytes "cue_timestamp_zero") open_existing 1024)
            (λ e. record w { cue_timestamp = e }) w))

  -- The cue, where the counter has reached the interval.
  abbrev pub append_cue : ℤ → ℕ → Writer D T → Run (Writer D T)
  append_cue time count w =
      if eqb_ℤ (pos count) w.cue_interval
      then within (λ e. record w { cue_counter = count; cue_timestamp_index = e })
          (append_element h (pos (current_size h w.timestamp) +ℤ negsuc 0) w.cue_timestamp_index)
      then (λ w.
          within (λ e. record w { cue_timestamp = e; cue_counter = 0 })
            (append_element h time w.cue_timestamp))
      else completes (record w { cue_counter = count })

  -- The counter is an `int`, whose overflow C++ does not define.
  abbrev pub after_timestamp : ℤ → Run (Writer D T) → Outcome (Writer D T)
  after_timestamp time (throws w) = threw w
  after_timestamp time (completes w) =
      if w.cue_counter + 1 == 2 ^ 31
      then undefined
      else outcome (append_cue time (w.cue_counter + 1) w)

  abbrev pub after_image : ℤ → Run T → Writer D T → Outcome (Writer D T)
  after_image time (throws d) w = threw (record w { values = d })
  after_image time (completes d) w =
      after_timestamp time
        (within (λ e. record w { values = d; timestamp = e }) (append_element h time w.timestamp))

  abbrev pub appended_image : ℤ → Appended T → Writer D T → Outcome (Writer D T)
  appended_image time no_dimension w = undefined
  appended_image time wrong_rank w = threw w
  appended_image time (ran r) w = after_image time r w

  -- The switch over the type: the elements are read from the buffer, and are not defined beyond it.
  abbrev pub append_image : AdArray A → ℕ → Writer D T → Outcome (Writer D T)
  append_image m n w =
      if is_known m.data_type
      then (if leb n (length m.data_)
          then appended_image m.timestamp (append_rows v (take n m.data_) m.dimensions w.values) w
          else undefined)
      else threw w

  unfoldable pub write_impl : AdArray A → Writer D T → Outcome (Writer D T)
  write_impl m w =
      append_image m (nr_of_elements 1 m.dimensions) (record w { has_checked_message_type = true })
