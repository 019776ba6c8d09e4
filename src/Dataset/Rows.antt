-- ===== src/Dataset/Rows.antt =====
-- Datasets of several dimensions that grow by rows, in src/NeXusDataset/ExtensibleDataset.h.
pub mod Blocks
pub mod Memory
pub mod Growth
pub mod Chunks
use kafka_to_nexus.Common.{
  ℕ, ◌+◌, ◌<◌, ◌≡◌, Bool, true, false, List, [], ◌∷◌, ◌++◌, Option, none, some, if◌then◌else◌, ltb,
  ◌==◌, u64, length, replicate, Text, ◌≤◌, ◌/◌, ◌&&◌, drop,
}
use kafka_to_nexus.Dataset.{
  Run, completes, throws, Ends, ◌then◌, Group, Mode, create, open_existing,
}
use kafka_to_nexus.MultiVector.{int_product}
use kafka_to_nexus.MultiVector.Index.{IsWithin}

-- `hdf5::node::Dataset` with any number of dimensions: its size, the element at a position, `extent`
-- to given dimensions, and `write` of a block of elements at an origin.
pub record Hdf5Rows (D A : Type 0) : Type 0 where
  pub dimensions : D → List ℕ
  pub element : D → List ℕ → A
  pub extent : List ℕ → D → Run D
  pub write : List A → List ℕ → List ℕ → D → Run D

-- What `appendArray` does with the shape of the data: the code reads the first dimension of a dataset
-- without any, which C++ does not define, and throws for data of another rank.
pub data Appended (D : Type 0) : Type 0 where
  no_dimension : Appended D
  wrong_rank : Appended D
  ran : Run D → Appended D

-- The loop over the dimensions behind the first.
unfoldable pub grow_dimensions : List ℕ → List ℕ → List ℕ
grow_dimensions (n ∷ shape) (c ∷ extent) = (if ltb c n then n else c) ∷ grow_dimensions shape extent
grow_dimensions _ extent = extent

module _ {D A : Type 0} (h : Hdf5Rows D A) where
  abbrev pub append_row : List A → List ℕ → List ℕ → D → Appended D
  append_row data_ shape [] d = no_dimension
  append_row data_ shape (rows ∷ rest) d =
      if length shape == length rest
      then ran (
          h.extent (u64 (rows + 1) ∷ grow_dimensions shape rest) d
          then h.write data_ (rows ∷ replicate (length rest) 0) (1 ∷ shape))
      else wrong_rank

  -- `MultiDimDatasetBase::appendArray`.
  unfoldable pub append_rows : List A → List ℕ → D → Appended D
  append_rows data_ shape d = append_row data_ shape (h.dimensions d) d

abbrev pub head_or : ℕ → List ℕ → ℕ
head_or d [] = d
head_or d (n ∷ ns) = n

abbrev pub set_front : ℕ → List ℕ → List ℕ
set_front n [] = []
set_front n (m ∷ ms) = n ∷ ms

-- The chunk of a new dataset, from the shape of its rows with 0 put in front; nothing stands for a
-- division by zero, which C++ does not define.
abbrev pub chunk_of_rows : ℕ → ℕ → List ℕ → Option (List ℕ)
chunk_of_rows size elements_per_row shape =
    if elements_per_row == 0
    then none
    else let nr_of_rows = size / elements_per_row in
      some (set_front (if nr_of_rows == 0 then 1 else nr_of_rows) shape)

-- A chunk size that is not empty, beside the shape.
abbrev pub chunk_for : List ℕ → List ℕ → Option (List ℕ)
chunk_for chunksize shape =
    if length chunksize == length shape
    then some chunksize
    else (if length chunksize == 1 && ltb 1 (length shape)
        then chunk_of_rows (head_or 0 chunksize) (int_product 1 (drop 1 shape)) shape
        else some (set_front 1024 shape))

unfoldable pub vector_chunk_size : List ℕ → List ℕ → Option (List ℕ)
vector_chunk_size shape [] = chunk_for (1024 ∷ []) (0 ∷ shape)
vector_chunk_size shape (c ∷ cs) = chunk_for (c ∷ cs) (0 ∷ shape)
