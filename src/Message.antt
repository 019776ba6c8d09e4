-- ===== src/Message.antt =====
-- Kafka messages and the flatbuffers inside them: src/Msg.h, src/FlatbufferMessage.{h,cpp} and the
-- registry of readers in src/FlatbufferReader.{h,cpp}. Buffers and texts are lists of bytes.
use kafka_to_nexus.Common.{
  ℤ, pos, ℕ, Bool, true, false, List, [], ◌∷◌, Option, none, some, Text, text_eq, ltb, take, drop,
  length, if◌then◌else◌, eqb_ℤ, wrap64, ◌++◌, ◌==◌,
}

pub data TimestampType : Type 0 where
  not_available create_time log_append_time : TimestampType

-- `MessageMetaData`; the time stamp counts milliseconds.
pub record MessageMetaData : Type 0 where
  pub timestamp : ℤ
  pub timestamp_type : TimestampType
  pub offset : ℤ
  pub partition : ℤ
  pub topic : Text

pub record Msg : Type 0 where
  pub payload : List ℕ
  pub meta_data : MessageMetaData

-- `Msg()`: no data, and the metadata's defaults.
abbrev pub empty_msg : Msg
empty_msg = record {
  payload = [];
  meta_data = record {
    timestamp = pos 0;
    timestamp_type = not_available;
    offset = pos 0;
    partition = pos 0;
    topic = [];
  };
}

-- `FlatbufferReader`: what the readers of AccessMessageMetadata/ offer. `timestamp` gives the
-- `uint64_t` of the buffer, or nothing where the reader throws a `std::runtime_error`.
pub record FlatbufferReader : Type 0 where
  pub verify : List ℕ → Bool
  pub source_name : List ℕ → Text
  pub timestamp : List ℕ → Option ℕ

-- `FlatbufferReaderRegistry`: readers by flatbuffer id.
abbrev pub Registry : Type 0
Registry = List (Text × FlatbufferReader)

-- `find`; nothing stands for the `std::out_of_range` that it throws.
unfoldable pub find : Text → Registry → Option FlatbufferReader
find key [] = none
find key ((id, reader) ∷ rest) = if text_eq id key then some reader else find key rest

pub data RegistryError : Type 0 where
  bad_id_length exists_already : RegistryError

pub data AddResult : Type 0 where
  added : Registry → AddResult
  refused : RegistryError → AddResult

unfoldable pub add_reader : Text → FlatbufferReader → Registry → AddResult
add_reader id reader readers =
    if length id == 4
    then (elim (find id readers) [
      | none ↦ added ((id, reader) ∷ readers)
      | some _ ↦ refused exists_already
    ])
    else refused bad_id_length

pub record FlatbufferMessage : Type 0 where
  pub payload : List ℕ
  pub source_hash : ℕ
  pub source_name : Text
  pub id : Text
  pub timestamp : ℤ
  pub valid : Bool

-- `FlatbufferMessage()`.
abbrev pub empty_message : FlatbufferMessage
empty_message = record {
  payload = [];
  source_hash = 0;
  source_name = [];
  id = [];
  timestamp = pos 0;
  valid = false;
}

-- The exceptions that the constructor throws; `other` is any `std::exception` of a reader.
pub data FlatbufferError : Type 0 where
  buffer_too_small unknown_flatbuffer_id invalid_flatbuffer_timestamp not_valid_flatbuffer other :
      FlatbufferError

pub data Extracted : Type 0 where
  extracted : FlatbufferMessage → Extracted
  throws : FlatbufferError → Extracted

-- `hash` is `std::hash<std::string>`, which the implementation chooses.
module _ (hash : Text → ℕ) where
  unfoldable pub calc_source_hash : Text → Text → ℕ
  calc_source_hash id name = hash (id ++ name)

  checked_message : List ℕ → Text → Text → ℤ → Extracted
  unfolding calc_source_hash
  checked_message buffer id name stamp =
      if eqb_ℤ stamp (pos 0)
      then throws invalid_flatbuffer_timestamp
      else extracted (record {
        payload = buffer;
        source_hash = calc_source_hash id name;
        source_name = name;
        id = id;
        timestamp = stamp;
        valid = true;
      })

  read_buffer : List ℕ → Text → FlatbufferReader → Extracted
  unfolding checked_message
  read_buffer buffer id reader =
      if reader.verify buffer
      then (elim (reader.timestamp buffer) [
        | none ↦ throws other
        | some stamp ↦ checked_message buffer id (reader.source_name buffer) (wrap64 (pos stamp))
      ])
      else throws not_valid_flatbuffer

  -- The constructor from a buffer with its `extractPacketInfo`.
  unfoldable pub flatbuffer_message : Registry → List ℕ → Extracted
  unfolding read_buffer
  flatbuffer_message readers buffer =
      if ltb (length buffer) 8
      then throws buffer_too_small
      else (let id = take 4 (drop 4 buffer) in
          elim (find id readers) [
            | none ↦ throws unknown_flatbuffer_id
            | some reader ↦ read_buffer buffer id reader
          ])
