-- ===== src/Dataset/Examples.antt =====
-- The theorems on datasets at small ones in memory.
use kafka_to_nexus.Common.{
  ℕ, ◌≡◌, ◌≢◌, refl, ap, true, List, [], ◌∷◌, ◌++◌, some, length, All, arith, bytes,
}
use kafka_to_nexus.Dataset.{
  Run, left, Ends, Extensible, Append, array, adapter, one, append_all, append_adapter, new,
  open_base, open_existing,
}
use kafka_to_nexus.Dataset.Memory.{
  memory, memory-IsHdf5, memory-IsReliable, group_of, empty_dataset,
}
use kafka_to_nexus.Dataset.Log.{IsLogged, log_all, append_all-IsLogged}
use kafka_to_nexus.Dataset.Reopened.{all_elements, opened_appends, base_append_replaces}
use kafka_to_nexus.Dataset.Rows.{append_rows, ran, wrong_rank, grow_dimensions}
use kafka_to_nexus.Dataset.Rows.Growth.{KeepsElements, HasRow, append_rows-HasRow}
use kafka_to_nexus.Dataset.Rows.Memory.{Table, table, table-IsHdf5Rows}

abbrev calls : List (Append ℕ)
calls = array (5 ∷ 6 ∷ []) ∷ one 7 ∷ adapter (8 ∷ 9 ∷ []) ∷ []

append_all-IsLogged_example :
    let (e', results) = append_all (memory 0) calls empty_dataset in
    IsLogged (memory 0) (log_all calls results []) e'
append_all-IsLogged_example =
    append_all-IsLogged (memory 0) (memory-IsHdf5 0) calls [] empty_dataset (omega arith)
      (record { front = refl; count = refl })

abbrev reopened : Extensible (List ℕ)
reopened = record { dataset = 1 ∷ 2 ∷ 3 ∷ []; nr_of_elements = 3 }

reopened_opens :
    new (memory 0) (group_of (1 ∷ 2 ∷ 3 ∷ [])) (bytes "value") open_existing 1024 ≡ some reopened
unfolding new
reopened_opens = refl

opened_appends_example :
    let (e', results) = append_all (memory 0) calls reopened in
    (e'.dataset ≡ 1 ∷ 2 ∷ 3 ∷ [] ++ all_elements calls) × All (λ r. r ≡ true) results
opened_appends_example =
    opened_appends (memory 0) (memory-IsHdf5 0) (memory-IsReliable 0) (group_of (1 ∷ 2 ∷ 3 ∷ []))
      (bytes "value") 1024 reopened calls reopened_opens (omega arith)

-- The same data, opened by the base class.
abbrev base : Extensible (List ℕ)
base = record { dataset = 1 ∷ 2 ∷ 3 ∷ []; nr_of_elements = 0 }

base_opens : open_base (group_of (1 ∷ 2 ∷ 3 ∷ [])) (bytes "value") open_existing ≡ some base
unfolding open_base
base_opens = refl

abbrev more : List ℕ
more = 8 ∷ 9 ∷ []

more_is_not_empty : more ≢ []
more_is_not_empty e = absurd (omega (arith, ap length e))

base_append_replaces_example : (left (append_adapter (memory 0) more base)).dataset ≡ more
base_append_replaces_example =
    base_append_replaces (memory 0) (memory-IsHdf5 0) (memory-IsReliable 0)
      (group_of (1 ∷ 2 ∷ 3 ∷ [])) (bytes "value") base more base_opens more_is_not_empty
      (omega arith)

-- Two rows of three elements, and a row of two.
abbrev rows_of_three : Table
rows_of_three = (2 ∷ 3 ∷ [], λ p. 4)

abbrev old_row_shape : List ℕ
old_row_shape = 3 ∷ []

abbrev new_row_shape : List ℕ
new_row_shape = 2 ∷ []

append_rows-HasRow_example :
    (length new_row_shape ≡ length old_row_shape
      → (r : Run Table) × (append_rows table (8 ∷ 9 ∷ []) new_row_shape rows_of_three ≡ ran r)
        × Ends
            (λ d.
              (d.0 ≡ 3 ∷ grow_dimensions new_row_shape old_row_shape)
              × KeepsElements table table-IsHdf5Rows rows_of_three d
              × HasRow table table-IsHdf5Rows 2 new_row_shape (8 ∷ 9 ∷ []) d)
            (KeepsElements table table-IsHdf5Rows rows_of_three)
            r)
    × (length new_row_shape ≢ length old_row_shape
        → append_rows table (8 ∷ 9 ∷ []) new_row_shape rows_of_three ≡ wrong_rank)
append_rows-HasRow_example =
    append_rows-HasRow table table-IsHdf5Rows rows_of_three 2 old_row_shape new_row_shape
      (8 ∷ 9 ∷ []) refl (omega arith) refl
