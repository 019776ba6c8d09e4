-- ===== src/Writer.antt =====
-- The writer modules: src/WriterModuleBase.{h,cpp} and src/WriterModule/. The accessors of flatbuffers
-- are not modelled: a message is what they read from its buffer.
pub mod F144
pub mod Ev44
pub mod Se00
pub mod Small
pub mod Ad00
pub mod Mdat
pub mod Da00
pub mod Registry
mod Examples
use kafka_to_nexus.Common.{
  ℕ, ◌+◌, ◌^◌, Bool, true, false, List, [], ◌∷◌, Option, none, some, Text, u64, bytes, ◌-◌, ◌≡◌,
  refl, if◌then◌else◌, ◌++◌,
}
use kafka_to_nexus.Dataset.{
  Run, completes, throws, Group, Hdf5, Extensible, Mode, create, open_existing, new,
}

pub data InitResult : Type 0 where
  error ok : InitResult

-- A `uint64_t` difference.
abbrev pub sub64 : ℕ → ℕ → ℕ
sub64 a b = u64 (a + (2 ^ 64 - b))

-- What `writeImpl` does: it returns true or false, throws, or runs into what C++ does not define.
pub data Outcome (W : Type 0) : Type 0 where
  wrote ignored threw : W → Outcome W
  undefined : Outcome W

abbrev pub outcome : {W : Type 0} → Run W → Outcome W
outcome (completes w) = wrote w
outcome (throws w) = threw w

module _ {M W : Type 0} (write_impl : M → W → Outcome W) where
  -- `Base::write`, with the counter of writes; nothing stands for what is not defined.
  abbrev pub count_write : ℕ → Outcome W → Option (ℕ × W)
  count_write n (wrote w) = some (u64 (n + 1), w)
  count_write n (ignored w) = some (n, w)
  count_write n (threw w) = some (n, w)
  count_write n undefined = none

  unfoldable pub write : M → ℕ × W → Option (ℕ × W)
  write m (n, w) = count_write n (write_impl m w)

  -- Messages in order; the thread that writes goes on after an exception.
  unfoldable pub write_all : List M → ℕ × W → Option (ℕ × W)
  write_all [] s = some s
  write_all (m ∷ ms) s = elim (write m s) [ none ↦ none | some s' ↦ write_all ms s' ]

  pub write_all-step :
      (m : M) (ms : List M) (s s' : ℕ × W)
      → write m s ≡ some s'
      → write_all (m ∷ ms) s ≡ write_all ms s'
  unfolding write_all
  write_all-step m ms s s' e = rw (e, write_all) refl

-- The creation of datasets by name and chunk size, up to the first exception, in `init_hdf`.
abbrev pub init_datasets : {D : Type 0} → Group D → List (Text × ℕ) → InitResult
init_datasets parent [] = ok
init_datasets parent ((name, chunk_size) ∷ rest) = elim (parent.chunked_dataset name chunk_size) [
  | none ↦ error
  | some d ↦ init_datasets parent rest
]

-- The assignment of a dataset that was opened, or its exception.
abbrev pub assign : {E W : Type 0} → Option E → (E → W) → W → Run W
assign none put w = throws w
assign (some e) put w = completes (put e)

abbrev pub result_of : {W : Type 0} → Run W → InitResult × W
result_of (completes w) = (ok, w)
result_of (throws w) = (error, w)
