-- ===== src/Writer/F144/Config.antt =====
-- The types of values: src/WriterModule/f144/f144_Writer.{h,cpp}.
use kafka_to_nexus.Common.{
  ◌+◌, List, [], ◌∷◌, Option, none, some, Text, bytes, leb, if◌then◌else◌, map, text_eq,
}

pub data ElementType : Type 0 where
  int8 uint8 int16 uint16 int32 uint32 int64 uint64 float32 float64 : ElementType

-- The union of the schema.
pub data ValueType : Type 0 where
  none_ byte ubyte short ushort int uint long ulong float double : ValueType
  array_byte array_ubyte array_short array_ushort array_int array_uint : ValueType
  array_long array_ulong array_float array_double : ValueType

abbrev pub to_lower : Text → Text
to_lower = map (λ c. if leb 65 c then (if leb c 90 then c + 32 else c) else c)

abbrev pub lookup_type : Text → List (Text × ElementType) → Option ElementType
lookup_type key [] = none
lookup_type key ((name, type_) ∷ rest) =
    if text_eq name key then some type_ else lookup_type key rest

abbrev pub type_map : List (Text × ElementType)
type_map =
    (bytes "int8", int8)
    ∷ (bytes "uint8", uint8)
    ∷ (bytes "int16", int16)
    ∷ (bytes "uint16", uint16)
    ∷ (bytes "int32", int32)
    ∷ (bytes "uint32", uint32)
    ∷ (bytes "int64", int64)
    ∷ (bytes "uint64", uint64)
    ∷ (bytes "float32", float32)
    ∷ (bytes "float64", float64)
    ∷ (bytes "float", float32)
    ∷ (bytes "double", float64)
    ∷ (bytes "short", int16)
    ∷ (bytes "int", int32)
    ∷ (bytes "long", int64)
    ∷ []

-- `config_post_processing`, from the configured type: an unknown one leaves the element type.
unfoldable pub config_post_processing : Text → ElementType → ElementType
config_post_processing data_type current = elim (lookup_type (to_lower data_type) type_map) [
  | none ↦ current
  | some type_ ↦ type_
]

-- `TypeComparison` of `msgTypeIsConfigType`: of the two entries for `ArrayByte` the first stays, and
-- `UByte` has none.
unfoldable pub type_comparison : ValueType → Option ElementType
type_comparison array_byte = some int8
type_comparison byte = some int8
type_comparison array_ubyte = some uint8
type_comparison array_short = some int16
type_comparison short = some int16
type_comparison array_ushort = some uint16
type_comparison ushort = some uint16
type_comparison array_int = some int32
type_comparison int = some int32
type_comparison array_uint = some uint32
type_comparison uint = some uint32
type_comparison array_long = some int64
type_comparison long = some int64
type_comparison array_ulong = some uint64
type_comparison ulong = some uint64
type_comparison array_float = some float32
type_comparison float = some float32
type_comparison array_double = some float64
type_comparison double = some float64
type_comparison none_ = none
type_comparison ubyte = none
