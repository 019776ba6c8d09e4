-- ===== src/Dataset/Rows/Growth.antt =====
-- Rows that are added to a dataset of several dimensions: src/NeXusDataset/ExtensibleDataset.h.
use kafka_to_nexus.Common.{
  ℕ, ◌+◌, ◌<◌, ◌≡◌, ◌≢◌, ◌^◌, sym, ap, ◌∙◌, subst, List, [], ◌∷◌, some, if◌then◌else◌, u64, length,
  replicate, get_elem?, arith,
}
use mathlib.Core.Path.{ap₂}
use kafka_to_nexus.MultiVector.Index.{IsWithin, size, row_major}
use kafka_to_nexus.Dataset.{Run, Ends, ◌then◌}
use kafka_to_nexus.Dataset.Log.{then-Ends, Ends-weaken}
use kafka_to_nexus.Dataset.Rows.Blocks.{
  FitsIn, shifted, grown-IsWithin, grown_fits, shifted_zeros, old_apart,
}
use kafka_to_nexus.Dataset.Rows.{Hdf5Rows, wrong_rank, ran, grow_dimensions, append_rows}

-- What HDF5 promises of the two operations; elements lie in row-major order in memory.
pub record IsHdf5Rows {D A : Type 0} (h : Hdf5Rows D A) : Type 0 where
  pub extent_ends :
      (e : List ℕ) (d : D)
      → Ends
          (λ d'.
            (h.dimensions d' ≡ e)
            × ((p : List ℕ)
                → IsWithin p (h.dimensions d)
                → IsWithin p e
                → h.element d' p ≡ h.element d p))
          (λ d'. (p : List ℕ) → IsWithin p (h.dimensions d) → h.element d' p ≡ h.element d p)
          (h.extent e d)
  pub write_ends :
      (xs : List A) (o s : List ℕ) (d : D)
      → FitsIn o s (h.dimensions d)
      → length xs ≡ size s
      → Ends
          (λ d'.
            (h.dimensions d' ≡ h.dimensions d)
            × ((p : List ℕ)
                → IsWithin p (h.dimensions d)
                → ((q : List ℕ) → IsWithin q s → p ≢ shifted o q)
                → h.element d' p ≡ h.element d p)
            × ((q : List ℕ)
                → IsWithin q s
                → get_elem? xs (row_major s q) ≡ some (h.element d' (shifted o q))))
          (λ d'.
            (p : List ℕ)
            → IsWithin p (h.dimensions d)
            → ((q : List ℕ) → IsWithin q s → p ≢ shifted o q)
            → h.element d' p ≡ h.element d p)
          (h.write xs o s d)

module _ {D A : Type 0} (h : Hdf5Rows D A) (laws : IsHdf5Rows h) where
  -- Every element of the one is in the other, at its position.
  abbrev pub KeepsElements : D → D → Type 0
  KeepsElements d d' = (p : List ℕ) → IsWithin p (h.dimensions d) → h.element d' p ≡ h.element d p

  abbrev pub HasRow : ℕ → List ℕ → List A → D → Type 0
  HasRow row shape xs d =
      (q : List ℕ)
      → IsWithin q shape
      → get_elem? xs (row_major shape q) ≡ some (h.element d (row ∷ q))

  record IsGrown (d : D) (rows : ℕ) (rest shape : List ℕ) (d' : D) : Type 0 where
    dims : h.dimensions d' ≡ (rows + 1) ∷ grow_dimensions shape rest
    keeps : KeepsElements d d'

  IsWithin-grown :
      (rows : ℕ) (rest shape p : List ℕ)
      → IsWithin p (rows ∷ rest)
      → IsWithin p ((rows + 1) ∷ grow_dimensions shape rest)
  IsWithin-grown rows rest shape [] k = k
  IsWithin-grown rows rest shape (p ∷ ps) k = (omega (arith, k.0), grown-IsWithin shape rest ps k.1)

  extent-Ends :
      (d : D) (rows : ℕ) (rest shape : List ℕ)
      → h.dimensions d ≡ rows ∷ rest
      → rows + 1 < 2 ^ 64
      → Ends
          (IsGrown d rows rest shape)
          (KeepsElements d)
          (h.extent (u64 (rows + 1) ∷ grow_dimensions shape rest) d)
  extent-Ends d rows rest shape e b =
      let n : u64 (rows + 1) ≡ rows + 1 = omega (arith, b) in
      rw n (
        Ends-weaken _ _ _ _ (h.extent ((rows + 1) ∷ grow_dimensions shape rest) d)
          (laws.extent_ends ((rows + 1) ∷ grow_dimensions shape rest) d)
          (λ d' k. record {
            dims = k.0;
            keeps = λ p w. k.1 p w (IsWithin-grown rows rest shape p (subst (IsWithin p) e w));
          })
          (λ d' k. k))

  write-Ends :
      (d : D) (rows : ℕ) (rest shape : List ℕ) (xs : List A) (d1 : D)
      → h.dimensions d ≡ rows ∷ rest
      → length xs ≡ size shape
      → length shape ≡ length rest
      → IsGrown d rows rest shape d1
      → Ends
          (λ d'.
            (h.dimensions d' ≡ (rows + 1) ∷ grow_dimensions shape rest)
            × KeepsElements d d'
            × HasRow rows shape xs d')
          (KeepsElements d)
          (h.write xs (rows ∷ replicate (length rest) 0) (1 ∷ shape) d1)
  write-Ends d rows rest shape xs d1 e l k g =
      let zeros : List ℕ = replicate (length rest) 0 in
      let old : (p : List ℕ) → IsWithin p (h.dimensions d) → IsWithin p (h.dimensions d1) = λ p w.
        subst (IsWithin p) (sym g.dims)
          (IsWithin-grown rows rest shape p (subst (IsWithin p) e w)) in
      let apart : (p : List ℕ)
          → IsWithin p (h.dimensions d)
          → (q : List ℕ) → IsWithin q (1 ∷ shape)
          → p ≢ shifted (rows ∷ zeros) q =
        λ p w q v. old_apart rows rest zeros shape p q (subst (IsWithin p) e w) v in
      let fits : FitsIn (rows ∷ zeros) (1 ∷ shape) (h.dimensions d1) =
        subst (FitsIn (rows ∷ zeros) (1 ∷ shape)) (sym g.dims)
          (omega arith, grown_fits shape rest k) in
      Ends-weaken _ _ _ _ (h.write xs (rows ∷ zeros) (1 ∷ shape) d1)
        (laws.write_ends xs (rows ∷ zeros) (1 ∷ shape) d1 fits (omega (arith, l)))
        (λ d' r. (
          r.0 ∙ g.dims,
          (λ p w. r.1 p (old p w) (apart p w) ∙ g.keeps p w),
          (λ q v. row q v (r.2 (0 ∷ q) (omega arith, v))),
        ))
        (λ d' r. λ p w. r p (old p w) (apart p w) ∙ g.keeps p w)
    where
      row :
          {d' : D} (q : List ℕ)
          → IsWithin q shape
          → get_elem? xs (row_major (1 ∷ shape) (0 ∷ q))
            ≡ some (h.element d' (shifted (rows ∷ replicate (length rest) 0) (0 ∷ q)))
          → get_elem? xs (row_major shape q) ≡ some (h.element d' (rows ∷ q))
      row {d'} q v r =
          let first : row_major (1 ∷ shape) (0 ∷ q) ≡ row_major shape q = omega arith in
          let place : shifted (rows ∷ replicate (length rest) 0) (0 ∷ q) ≡ rows ∷ q =
            ap₂ ◌∷◌ (omega arith) (shifted_zeros (length rest) q shape v k) in
          ap (get_elem? xs) (sym first) ∙ r ∙ ap (λ p. some (h.element d' p)) place

  -- Data whose rank is that of a row is written: where HDF5 does not fail there is one row more, whose
  -- other dimensions hold the data too, the new row holds the data, and no element before it changed,
  -- also if HDF5 fails. Data of another rank is refused.
  pub append_rows-HasRow :
      (d : D) (rows : ℕ) (rest shape : List ℕ) (xs : List A)
      → h.dimensions d ≡ rows ∷ rest
      → rows + 1 < 2 ^ 64
      → length xs ≡ size shape
      → (length shape ≡ length rest
          → (r : Run D) × (append_rows h xs shape d ≡ ran r)
            × Ends
                (λ d'.
                  (h.dimensions d' ≡ (rows + 1) ∷ grow_dimensions shape rest)
                  × KeepsElements d d'
                  × HasRow rows shape xs d')
                (KeepsElements d)
                r)
        × (length shape ≢ length rest → append_rows h xs shape d ≡ wrong_rank)
  unfolding append_rows
  append_rows-HasRow d rows rest shape xs e b l = (accepted, refused)
    where
      accepted :
          length shape ≡ length rest
          → (r : Run D) × (append_rows h xs shape d ≡ ran r)
            × Ends
                (λ d'.
                  (h.dimensions d' ≡ (rows + 1) ∷ grow_dimensions shape rest)
                  × KeepsElements d d'
                  × HasRow rows shape xs d')
                (KeepsElements d)
                r
      accepted k = (
        h.extent (u64 (rows + 1) ∷ grow_dimensions shape rest) d
            then h.write xs (rows ∷ replicate (length rest) 0) (1 ∷ shape),
        rw e (ground (arith, k)),
        then-Ends (IsGrown d rows rest shape) (KeepsElements d) _
            (h.extent (u64 (rows + 1) ∷ grow_dimensions shape rest) d)
            (h.write xs (rows ∷ replicate (length rest) 0) (1 ∷ shape))
            (extent-Ends d rows rest shape e b)
            (λ d1 g. write-Ends d rows rest shape xs d1 e l k g),
      )

      refused : length shape ≢ length rest → append_rows h xs shape d ≡ wrong_rank
      refused k = rw e (ground (arith, k))
