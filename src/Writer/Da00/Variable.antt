-- ===== src/Writer/Da00/Variable.antt =====
-- The appends to the dataset of a variable: src/WriterModule/da00/da00_Variable.h.
use kafka_to_nexus.Common.{
  ℕ, Bool, true, false, List, Option, none, some, Text, ltb, if◌then◌else◌, length, take, replicate,
}
use kafka_to_nexus.Dataset.{Run, throws, within}
use kafka_to_nexus.Dataset.Rows.{Hdf5Rows, Appended, no_dimension, wrong_rank, ran, append_rows}
use kafka_to_nexus.MultiVector.{int_product}
use kafka_to_nexus.Writer.Da00.{Appends}

pub data DataType : Type 0 where
  none_ int8 uint8 int16 uint16 int32 uint32 int64 uint64 float32 float64 c_string : DataType

-- The keys of the maps of calls.
abbrev pub is_known : DataType → Bool
is_known none_ = false
is_known _ = true

-- `da00_Variable`, the buffer of a message; `elements` is its data as elements of its type.
pub record Buffer (A : Type 0) : Type 0 where
  pub data_type : DataType
  pub shape : List ℕ
  pub axes : List Text
  pub elements : List A

-- `VariableConfig`, with its dataset.
pub record Variable (D : Type 0) : Type 0 where
  pub dtype : Option DataType
  pub shape : Option (List ℕ)
  pub axes : Option (List Text)
  pub dataset : D

-- The loops over the configured shape and over the axes of a message read past the end of the other.
abbrev pub is_shorter : {A : Type 0} → List A → Option (List A) → Bool
is_shorter xs none = false
is_shorter xs (some ys) = ltb (length xs) (length ys)

abbrev pub is_longer : {A : Type 0} → List A → Option (List A) → Bool
is_longer xs none = false
is_longer xs (some ys) = ltb (length ys) (length xs)

-- `missing_value` is the quiet NaN or the maximum of a type; `undefined` is whatever happens where C++
-- does not define the code: where a read passes the end of an array or of the data.
module _ {D A : Type 0} (h : Hdf5Rows D A) (missing_value : DataType → A)
    (undefined : Variable D → Run (Variable D)) where
  abbrev pub appended_to : Variable D → Appended D → Run (Variable D)
  appended_to v no_dimension = undefined v
  appended_to v wrong_rank = throws v
  appended_to v (ran r) = within (λ d. record v { dataset = d }) r

  -- `appendArray` of this file, which appends a row as that of ExtensibleDataset.h does.
  abbrev pub append_array : List A → List ℕ → Variable D → Run (Variable D)
  append_array xs shape v = appended_to v (append_rows h xs shape v.dataset)

  abbrev pub append_variable : List A → List ℕ → Variable D → Run (Variable D)
  append_variable elements shape v =
      if is_shorter shape v.shape
      then undefined v
      else (if ltb (length elements) (int_product 1 shape)
          then undefined v
          else append_array (take (int_product 1 shape) elements) shape v)

  -- A type that is no key of the map has an empty function, whose call throws. The comparisons of the type
  -- and of the axes are only logged.
  unfoldable pub variable_append : Buffer A → Variable D → Run (Variable D)
  variable_append b v =
      if is_longer b.axes v.axes
      then undefined v
      else (if is_known b.data_type then append_variable b.elements b.shape v else throws v)

  -- Without a shape or a type, the optional value throws.
  abbrev pub append_missing_variable : DataType → Option (List ℕ) → Variable D → Run (Variable D)
  append_missing_variable type_ none v = throws v
  append_missing_variable type_ (some shape) v =
      append_array (replicate (int_product 1 shape) (missing_value type_)) shape v

  abbrev pub append_missing_as : Option DataType → Variable D → Run (Variable D)
  append_missing_as none v = throws v
  append_missing_as (some type_) v =
      if is_known type_ then append_missing_variable type_ v.shape v else throws v

  unfoldable pub variable_append_missing : Variable D → Run (Variable D)
  variable_append_missing v = append_missing_as v.dtype v

  abbrev pub appends : Appends (Buffer A) (Variable D)
  appends = record {
    variable_append = variable_append;
    variable_append_missing = variable_append_missing;
  }
