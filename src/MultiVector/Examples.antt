-- ===== src/MultiVector/Examples.antt =====
-- The theorems on arrays of several dimensions at small ones, and at one of too large blocks.
use kafka_to_nexus.Common.{ℕ, ◌<◌, ◌≡◌, ◌≢◌, refl, List, [], ◌∷◌, arith}
use kafka_to_nexus.MultiVector.{
  MultiVector, IndexError, done, failed, get_value, set_value, pos_to_index,
}
use kafka_to_nexus.MultiVector.Index.{IsWithin, pos_to_index-row_major}
use kafka_to_nexus.MultiVector.Values.{IsFilled, get_value_total, set_value-get_value}

-- Two rows of three numbers.
abbrev rows : MultiVector ℕ
rows = record { shape = 2 ∷ 3 ∷ []; elements = 10 ∷ 11 ∷ 12 ∷ 13 ∷ 14 ∷ 15 ∷ [] }

rows-IsFilled : IsFilled rows
rows-IsFilled = record { count = refl; fits = omega arith }

pos_to_index-row_major_example :
    (pos_to_index (2 ∷ 3 ∷ []) (1 ∷ 2 ∷ []) ≡ 5) × (pos_to_index (2 ∷ 3 ∷ []) (1 ∷ 2 ∷ []) < 6)
pos_to_index-row_major_example =
    pos_to_index-row_major (1 ∷ 2 ∷ []) (2 ∷ 3 ∷ []) (omega arith, (omega arith, tt)) (omega arith)

get_value_total_example :
    (IsWithin (1 ∷ 2 ∷ []) rows.shape → (a : ℕ) × (get_value (1 ∷ 2 ∷ []) rows ≡ done a))
    × (¬ IsWithin (1 ∷ 2 ∷ []) rows.shape
        → (e : IndexError) × (get_value (1 ∷ 2 ∷ []) rows ≡ failed e))
get_value_total_example = get_value_total (1 ∷ 2 ∷ []) rows rows-IsFilled

set_value-get_value_example :
    (w : MultiVector ℕ) × (set_value (1 ∷ 0 ∷ []) 99 rows ≡ done w)
    × IsFilled w
    × (w.shape ≡ rows.shape)
    × (get_value (1 ∷ 0 ∷ []) w ≡ done 99)
    × ((j : List ℕ) → IsWithin j rows.shape → j ≢ 1 ∷ 0 ∷ [] → get_value j w ≡ get_value j rows)
set_value-get_value_example =
    set_value-get_value (1 ∷ 0 ∷ []) 99 rows rows-IsFilled (omega arith, (omega arith, tt))
