-- ===== src/Dataset/Rows/Blocks.antt =====
-- Blocks within the dimensions of a dataset: src/NeXusDataset/ExtensibleDataset.h.
use kafka_to_nexus.Common.{
  ℕ, ◌+◌, ◌≤◌, ◌≡◌, ◌≢◌, zero, suc, refl, ap, List, [], ◌∷◌, length, replicate, arith,
}
use mathlib.Core.Path.{ap₂}
use kafka_to_nexus.MultiVector.Index.{IsWithin}
use kafka_to_nexus.Dataset.Rows.{grow_dimensions, head_or}

-- The block of a shape at an origin lies within the dimensions.
abbrev pub FitsIn : List ℕ → List ℕ → List ℕ → Type 0
FitsIn [] [] [] = Unit {0}
FitsIn (o ∷ origin) (n ∷ shape) (d ∷ dimensions) = (o + n ≤ d) × FitsIn origin shape dimensions
FitsIn _ _ _ = ⊥

abbrev pub shifted : List ℕ → List ℕ → List ℕ
shifted (o ∷ origin) (q ∷ position) = (o + q) ∷ shifted origin position
shifted _ _ = []

pub grown-IsWithin :
    (shape extent p : List ℕ) → IsWithin p extent → IsWithin p (grow_dimensions shape extent)
unfolding grow_dimensions
grown-IsWithin [] extent p h = h
grown-IsWithin (n ∷ ns) [] p h = h
grown-IsWithin (n ∷ ns) (c ∷ cs) [] h = h
grown-IsWithin (n ∷ ns) (c ∷ cs) (p ∷ ps) h = (ground (arith, h.0), grown-IsWithin ns cs ps h.1)

pub grown_fits :
    (shape extent : List ℕ)
    → length shape ≡ length extent
    → FitsIn (replicate (length extent) 0) shape (grow_dimensions shape extent)
unfolding grow_dimensions
grown_fits [] [] e = tt
grown_fits [] (c ∷ cs) e = absurd (omega arith)
grown_fits (n ∷ ns) [] e = absurd (omega arith)
grown_fits (n ∷ ns) (c ∷ cs) e = (ground arith, grown_fits ns cs (omega arith))

pub shifted_zeros :
    (n : ℕ) (q shape : List ℕ) → IsWithin q shape → length shape ≡ n → shifted (replicate n 0) q ≡ q
shifted_zeros zero [] [] h e = refl
shifted_zeros zero [] (n ∷ s) h e = absurd h
shifted_zeros zero (p ∷ q) [] h e = absurd h
shifted_zeros zero (p ∷ q) (n ∷ s) h e = absurd (omega arith)
shifted_zeros (suc k) [] s h e = refl
shifted_zeros (suc k) (p ∷ q) [] h e = absurd h
shifted_zeros (suc k) (p ∷ q) (n ∷ s) h e =
    ap₂ ◌∷◌ (omega arith) (shifted_zeros k q s h.1 (omega arith))

pub old_apart :
    (rows : ℕ) (rest zeros shape p q : List ℕ)
    → IsWithin p (rows ∷ rest)
    → IsWithin q (1 ∷ shape)
    → p ≢ shifted (rows ∷ zeros) q
old_apart rows rest zeros shape [] q h k e = h
old_apart rows rest zeros shape (p ∷ ps) [] h k e = k
old_apart rows rest zeros shape (p ∷ ps) (q ∷ qs) h k e =
    absurd (omega (arith, ap (head_or 0) e, h.0))
