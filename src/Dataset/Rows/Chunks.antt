-- ===== src/Dataset/Rows/Chunks.antt =====
-- The chunks of a new dataset of several dimensions: src/NeXusDataset/ExtensibleDataset.h.
use kafka_to_nexus.Common.{
  ℕ, ◌+◌, ◌*◌, ◌/◌, ◌<◌, ◌≤◌, ◌≡◌, ◌^◌, ◌⊎◌, ap, inl, inr, Any, u64, ◌∙◌, refl, List, [], ◌∷◌, none,
  some, if◌then◌else◌, ◌==◌, arith,
}
use native.Mathlib.Nat.{div-mul-le_self, lt-div-mul-add}
use kafka_to_nexus.MultiVector.{int_product, as_int}
use kafka_to_nexus.MultiVector.Index.{size, int_product-size, IsPositive, size_pos}
use kafka_to_nexus.Dataset.Rows.{vector_chunk_size, chunk_of_rows}

as_int-zero : (n acc : ℕ) → n ≡ 0 → as_int (u64 (acc * n)) ≡ 0
unfolding as_int
as_int-zero n acc e = rw e (ground arith)

as_int-none : (n : ℕ) → as_int (u64 (0 * n)) ≡ 0
unfolding as_int
as_int-none n = ground arith

int_product-zero : (ns : List ℕ) → int_product 0 ns ≡ 0
unfolding int_product as_int
int_product-zero [] = refl
int_product-zero (n ∷ ns) = ap (λ k. int_product k ns) (as_int-none n) ∙ int_product-zero ns

int_product-vanishes : (acc : ℕ) (ns : List ℕ) → Any (λ n. n ≡ 0) ns → int_product acc ns ≡ 0
unfolding int_product as_int
int_product-vanishes acc [] k = elim k [ ]
int_product-vanishes acc (n ∷ ns) (inl e) =
    ap (λ k. int_product k ns) (as_int-zero n acc e) ∙ int_product-zero ns
int_product-vanishes acc (n ∷ ns) (inr k) = int_product-vanishes (as_int (u64 (acc * n))) ns k

-- As many rows as fit a number of elements, but one at least.
rows_fit :
    (c n : ℕ)
    → 0 < n
    → let rows = if c / n == 0 then 1 else c / n in
      (0 < rows) × (rows * n ≤ c ⊎ rows ≡ 1) × (c < (rows + 1) * n)
rows_fit c n h =
    let low = div-mul-le_self c n in let high = lt-div-mul-add {a = c} h in ground arith

chunk_for-one :
    (c m : ℕ) (shape : List ℕ)
    → vector_chunk_size (m ∷ shape) (c ∷ [])
      ≡ chunk_of_rows c (int_product 1 (m ∷ shape)) (0 ∷ m ∷ shape)
unfolding vector_chunk_size
chunk_for-one c m shape = ground arith

-- A chunk size of one number makes chunks of whole rows: at least one, and as many as fit the number.
-- This holds for rows without a dimension of size 0 and of fewer than 2^31 elements. Without a chunk
-- size the number is 1024.
vector_chunk_size-rows :
    (m c : ℕ) (shape : List ℕ)
    → IsPositive (m ∷ shape)
    → size (m ∷ shape) < 2 ^ 31
    → ((rows : ℕ) × (vector_chunk_size (m ∷ shape) (c ∷ []) ≡ some (rows ∷ m ∷ shape))
        × (0 < rows)
        × (rows * size (m ∷ shape) ≤ c ⊎ rows ≡ 1)
        × (c < (rows + 1) * size (m ∷ shape)))
      × (vector_chunk_size (m ∷ shape) [] ≡ vector_chunk_size (m ∷ shape) (1024 ∷ []))
unfolding vector_chunk_size
vector_chunk_size-rows m c shape p b =
    let e : int_product 1 (m ∷ shape) ≡ size (m ∷ shape) =
      int_product-size 1 (m ∷ shape) p (omega (arith, b)) ∙ omega arith in
    let n = size (m ∷ shape) in
    let (r1, r2, r3) = rows_fit c n (size_pos (m ∷ shape) p) in
    (
      (
        if c / n == 0 then 1 else c / n,
        chunk_for-one c m shape ∙ rw e (ground (arith, size_pos (m ∷ shape) p)),
        r1,
        r2,
        r3,
      ),
      refl,
    )

-- A row with a dimension of size 0 makes the constructor divide by zero, where the chunk size is one
-- number or not given.
vector_chunk_size-division :
    (m c : ℕ) (shape : List ℕ)
    → Any (λ n. n ≡ 0) (m ∷ shape)
    → (vector_chunk_size (m ∷ shape) (c ∷ []) ≡ none) × (vector_chunk_size (m ∷ shape) [] ≡ none)
unfolding vector_chunk_size
vector_chunk_size-division m c shape k =
    let e = int_product-vanishes 1 (m ∷ shape) k in
    (chunk_for-one c m shape ∙ rw e refl, chunk_for-one 1024 m shape ∙ rw e refl)
