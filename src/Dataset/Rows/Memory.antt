-- ===== src/Dataset/Rows/Memory.antt =====
-- A dataset of several dimensions in memory, with the laws of HDF5, on which `appendArray` of
-- src/NeXusDataset/ExtensibleDataset.h is run.
use kafka_to_nexus.Common.{
  ℕ, ◌+◌, ◌-◌, ◌<◌, ◌≤◌, ◌≡◌, ◌≢◌, refl, true, List, [], ◌∷◌, Option, none, some, if◌then◌else◌,
  ltb, leb, ◌&&◌, length, get_elem?, arith, Bool-cases, inl, inr,
}
use mathlib.Core.Path.{ap₂}
use kafka_to_nexus.MultiVector.Index.{IsWithin, size, row_major, row_major-lt-size}
use kafka_to_nexus.MultiVector.Values.{get_elem?-some}
use kafka_to_nexus.Dataset.{completes}
use kafka_to_nexus.Dataset.Rows.{Hdf5Rows}
use kafka_to_nexus.Dataset.Rows.Blocks.{FitsIn, shifted}
use kafka_to_nexus.Dataset.Rows.Growth.{IsHdf5Rows}

-- The dimensions, and the elements by position.
abbrev pub Table : Type 0
Table = List ℕ × (List ℕ → ℕ)

abbrev cons_some : ℕ → Option (List ℕ) → Option (List ℕ)
cons_some q none = none
cons_some q (some qs) = some (q ∷ qs)

-- The place in a block of a position, if it is there.
abbrev place : List ℕ → List ℕ → List ℕ → Option (List ℕ)
place [] [] [] = some []
place (o ∷ os) (n ∷ ns) (p ∷ ps) =
    let rest = place os ns ps in if leb o p && ltb (p - o) n then cons_some (p - o) rest else none
place _ _ _ = none

abbrev value_or : ℕ → Option ℕ → ℕ
value_or d none = d
value_or d (some x) = x

abbrev written : List ℕ → List ℕ → ℕ → Option (List ℕ) → ℕ
written xs s old none = old
written xs s old (some q) = value_or old (get_elem? xs (row_major s q))

abbrev pub table : Hdf5Rows Table ℕ
table = record {
  dimensions = λ d. d.0;
  element = λ d p. d.1 p;
  extent = λ e d. completes (e, d.1);
  write = λ xs o s d. completes (d.0, λ p. written xs s (d.1 p) (place o s p));
}

place-shifted : (o s d q : List ℕ) → FitsIn o s d → IsWithin q s → place o s (shifted o q) ≡ some q
place-shifted [] [] [] [] f w = refl
place-shifted [] [] [] (q ∷ qs) f w = absurd w
place-shifted [] [] (d ∷ ds) q f w = absurd f
place-shifted [] (n ∷ ns) d q f w = absurd f
place-shifted (o ∷ os) [] d q f w = absurd f
place-shifted (o ∷ os) (n ∷ ns) [] q f w = absurd f
place-shifted (o ∷ os) (n ∷ ns) (d ∷ ds) [] f w = absurd w
place-shifted (o ∷ os) (n ∷ ns) (d ∷ ds) (q ∷ qs) f w =
    let inside : (leb o (o + q) && ltb (o + q - o) n) ≡ true = ground (arith, w.0) in
    let back : o + q - o ≡ q = omega arith in
    rw (inside, place-shifted os ns ds qs f.1 w.1, back) refl

abbrev IsPlaced : List ℕ → List ℕ → List ℕ → Option (List ℕ) → Type 0
IsPlaced o s p none = Unit
IsPlaced o s p (some q) = IsWithin q s × (p ≡ shifted o q)

cons-IsPlaced :
    (o n p : ℕ) (os ns ps : List ℕ) (r : Option (List ℕ))
    → o ≤ p
    → p - o < n
    → IsPlaced os ns ps r
    → IsPlaced (o ∷ os) (n ∷ ns) (p ∷ ps) (cons_some (p - o) r)
cons-IsPlaced o n p os ns ps none a b k = tt
cons-IsPlaced o n p os ns ps (some q) a b k =
    let same : p ≡ o + (p - o) = omega (arith, a) in ((b, k.0), ap₂ (λ x xs. x ∷ xs) same k.1)

place-IsPlaced : (o s p : List ℕ) → IsPlaced o s p (place o s p)
place-IsPlaced [] [] [] = (tt, refl)
place-IsPlaced (o ∷ os) (n ∷ ns) (p ∷ ps) = elim (Bool-cases (leb o p && ltb (p - o) n)) [
  | inl t ↦ rw t (
      cons-IsPlaced o n p os ns ps (place os ns ps) (ground (arith, t)) (ground (arith, t))
        (place-IsPlaced os ns ps))
  | inr f ↦ rw f tt
]
place-IsPlaced [] [] (p ∷ ps) = tt
place-IsPlaced [] (n ∷ ns) p = tt
place-IsPlaced (o ∷ os) [] p = tt
place-IsPlaced (o ∷ os) (n ∷ ns) [] = tt

outside :
    (xs s o p : List ℕ) (old : ℕ)
    → ((q : List ℕ) → IsWithin q s → p ≢ shifted o q)
    → written xs s old (place o s p) ≡ old
outside xs s o p old apart = untouched (place o s p) (place-IsPlaced o s p)
  where
    untouched : (r : Option (List ℕ)) → IsPlaced o s p r → written xs s old r ≡ old
    untouched none k = refl
    untouched (some q) k = absurd (apart q k.0 k.1)

inside :
    (xs s o d q : List ℕ) (old : ℕ)
    → FitsIn o s d
    → length xs ≡ size s
    → IsWithin q s
    → get_elem? xs (row_major s q) ≡ some (written xs s old (place o s (shifted o q)))
inside xs s o d q old f l w =
    let (a, e) = get_elem?-some xs (row_major s q) (omega (arith, l, row_major-lt-size q s w)) in
    rw (place-shifted o s d q f w, e) refl

pub table-IsHdf5Rows : IsHdf5Rows table
table-IsHdf5Rows = record {
  extent_ends = λ e d. (refl, λ p a b. refl);
  write_ends = λ xs o s d f l. (
    refl,
    (λ p w apart. outside xs s o p (d.1 p) apart),
    (λ q w. inside xs s o d.0 q (d.1 (shifted o q)) f l w),
  );
}
