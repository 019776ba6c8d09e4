-- ===== src/Writer/Da00/Level.antt =====
-- The rows of the variables after a message: src/WriterModule/da00/da00_Writer.cpp with the appends of
-- da00_Variable.h.
use kafka_to_nexus.Common.{
  ℕ, ◌+◌, ◌<◌, ◌≡◌, ◌^◌, refl, sym, ap, ◌∙◌, subst, true, false, List, [], ◌∷◌, Option, some, Text,
  text_eq, length, take, replicate, All, arith, ltb, u64, ◌==◌,
}
use kafka_to_nexus.Dataset.{Run, Ends, completes, throws, returned}
use kafka_to_nexus.Dataset.Rows.{
  Hdf5Rows, Appended, no_dimension, wrong_rank, ran, append_rows, head_or, grow_dimensions,
}
use kafka_to_nexus.Dataset.Log.{length-replicate}
use kafka_to_nexus.Dataset.Rows.Growth.{IsHdf5Rows, append_rows-HasRow}
use kafka_to_nexus.MultiVector.{int_product}
use kafka_to_nexus.MultiVector.Index.{size, int_product-size, IsPositive}
use kafka_to_nexus.Writer.Da00.{names, write_variables}
use kafka_to_nexus.Writer.Da00.Aligned
use kafka_to_nexus.Writer.Da00.Variable.{
  DataType, Buffer, Variable, is_known, is_longer, is_shorter, append_array, appended_to,
  append_missing_as, append_missing_variable, variable_append, variable_append_missing, appends,
}

-- What an append leaves of a variable: its configuration, and the number of dimensions of its dataset.
pub record Kind : Type 0 where
  pub dtype : Option DataType
  pub shape : Option (List ℕ)
  pub axes : Option (List Text)
  pub rank : ℕ

-- A shape of positive dimensions, whose size the code computes as it is.
abbrev pub IsShape : List ℕ → Type 0
IsShape shape = IsPositive shape × (size shape < 2 ^ 31)

-- A buffer that can be appended to a variable: of a known type, of the rank of its rows, with as many
-- elements as its shape says, and with no more axes, nor fewer dimensions, than are configured.
pub record Fits {A : Type 0} (b : Buffer A) (k : Kind) : Type 0 where
  pub known : is_known b.data_type ≡ true
  pub axes : is_longer b.axes k.axes ≡ false
  pub shape : is_shorter b.shape k.shape ≡ false
  pub rank : k.rank ≡ 1 + length b.shape
  pub is_shape : IsShape b.shape
  pub elements : length b.elements ≡ size b.shape

-- A variable that a missing row can be appended to: its type and the shape of its rows are configured.
pub record IsReady (k : Kind) : Type 0 where
  pub type_ : DataType
  pub dtype : k.dtype ≡ some type_
  pub known : is_known type_ ≡ true
  pub row : List ℕ
  pub shape : k.shape ≡ some row
  pub rank : k.rank ≡ 1 + length row
  pub is_shape : IsShape row

-- No call of HDF5 fails.
pub record IsReliableRows {D A : Type 0} (h : Hdf5Rows D A) : Type 0 where
  pub extents : (e : List ℕ) (d : D) → returned (h.extent e d) ≡ true
  pub writes : (xs : List A) (o s : List ℕ) (d : D) → returned (h.write xs o s d) ≡ true

completed {ℓ} : {S : Type ℓ} (r : Run S) → returned r ≡ true → (s : S) × (r ≡ completes s)
completed (completes s) e = (s, refl)
completed (throws s) e = absurd cc

abbrev ran_inner : {D : Type 0} → Run D → Appended D → Run D
ran_inner r (ran q) = q
ran_inner r no_dimension = r
ran_inner r wrong_rank = r

length-grow : (shape extent : List ℕ) → length (grow_dimensions shape extent) ≡ length extent
unfolding grow_dimensions
length-grow [] [] = refl
length-grow [] (c ∷ cs) = refl
length-grow (n ∷ ns) [] = refl
length-grow (n ∷ ns) (c ∷ cs) = omega (arith, length-grow ns cs)

take-all {ℓ} : {A : Type ℓ} (xs : List A) → take (length xs) xs ≡ xs
take-all [] = refl
take-all (x ∷ xs) = ap (λ ys. x ∷ ys) (take-all xs)

Ends-completes {ℓ κ} :
    {S : Type ℓ} (P Q : S → Type κ) (r : Run S) (s : S) → r ≡ completes s → Ends P Q r → P s
Ends-completes P Q r s e k = subst (Ends P Q) e k

module _ {D A : Type 0} (h : Hdf5Rows D A) (missing_value : DataType → A)
    (undefined : Variable D → Run (Variable D)) where
  abbrev pub rows : Variable D → ℕ
  rows v = head_or 0 (h.dimensions v.dataset)

  abbrev pub kind : Variable D → Kind
  kind v = record {
    dtype = v.dtype;
    shape = v.shape;
    axes = v.axes;
    rank = length (h.dimensions v.dataset);
  }

  module _ (laws : IsHdf5Rows h) (reliable : IsReliableRows h) where
    appended :
        (xs : List A) (shape : List ℕ) (d : D) (k : ℕ) (rest : List ℕ) (d1 d2 : D)
        → h.dimensions d ≡ k ∷ rest
        → length shape ≡ length rest
        → h.extent (u64 (k + 1) ∷ grow_dimensions shape rest) d ≡ completes d1
        → h.write xs (k ∷ replicate (length rest) 0) (1 ∷ shape) d1 ≡ completes d2
        → append_rows h xs shape d ≡ ran (completes d2)
    unfolding append_rows
    appended xs shape d k rest d1 d2 e same s1 s2 =
        let test : (length shape == length rest) ≡ true = ground (arith, same) in
        rw (e, test, s1, s2) refl

    row_appended :
        (xs : List A) (shape : List ℕ) (d : D) (dims : List ℕ)
        → h.dimensions d ≡ dims
        → length dims ≡ 1 + length shape
        → head_or 0 dims + 1 < 2 ^ 64
        → length xs ≡ size shape
        → (d' : D) × (append_rows h xs shape d ≡ ran (completes d'))
          × (head_or 0 (h.dimensions d') ≡ head_or 0 dims + 1)
          × (length (h.dimensions d') ≡ length dims)
    row_appended xs shape d [] e l b n = absurd (omega (arith, l))
    row_appended xs shape d (k ∷ rest) e l b n =
        let same : length shape ≡ length rest = omega (arith, l) in
        let (r, s, ends) = (append_rows-HasRow h laws d k rest shape xs e b n).0 same in
        let (d1, s1) =
          completed (h.extent (u64 (k + 1) ∷ grow_dimensions shape rest) d)
            (reliable.extents (u64 (k + 1) ∷ grow_dimensions shape rest) d) in
        let (d2, s2) =
          completed (h.write xs (k ∷ replicate (length rest) 0) (1 ∷ shape) d1)
            (reliable.writes xs (k ∷ replicate (length rest) 0) (1 ∷ shape) d1) in
        let code : append_rows h xs shape d ≡ ran (completes d2) =
          appended xs shape d k rest d1 d2 e same s1 s2 in
        let made : r ≡ completes d2 = ap (ran_inner r) (sym s ∙ code) in
        let grown = Ends-completes _ _ r d2 made ends in
        (
          d2,
          code,
          ap (head_or 0) grown.0,
          ap length grown.0 ∙ omega (arith, length-grow shape rest),
        )

    -- A row of the right rank and size is appended.
    array_appended :
        (xs : List A) (shape : List ℕ) (v : Variable D) (n : ℕ)
        → n + 1 < 2 ^ 64
        → rows v ≡ n
        → length (h.dimensions v.dataset) ≡ 1 + length shape
        → length xs ≡ size shape
        → (v' : Variable D) × (append_array h missing_value undefined xs shape v ≡ completes v')
          × (rows v' ≡ n + 1)
          × (kind v' ≡ kind v)
    array_appended xs shape v n b e l k =
        let (d', s, more, same) =
          row_appended xs shape v.dataset (h.dimensions v.dataset) refl l (omega (arith, b, e)) k in
        (
          record v { dataset = d' },
          ap (appended_to h missing_value undefined v) s,
          more ∙ omega (arith, e),
          ap (λ r. record (kind v) { rank = r }) same,
        )

    count_of : (shape : List ℕ) → IsShape shape → int_product 1 shape ≡ size shape
    count_of shape (p, b) = int_product-size 1 shape p (omega (arith, b)) ∙ omega arith

    buffer_appended :
        (n : ℕ) (b : Buffer A) (v : Variable D)
        → n + 1 < 2 ^ 64
        → rows v ≡ n
        → Fits b (kind v)
        → (v' : Variable D) × (variable_append h missing_value undefined b v ≡ completes v')
          × (rows v' ≡ n + 1)
          × (kind v' ≡ kind v)
    unfolding variable_append
    buffer_appended n b v l e f =
        let count : int_product 1 b.shape ≡ length b.elements =
          count_of b.shape f.is_shape ∙ sym f.elements in
        let enough : ltb (length b.elements) (int_product 1 b.shape) ≡ false =
          ground (arith, count) in
        let all : take (int_product 1 b.shape) b.elements ≡ b.elements =
          ap (λ k. take k b.elements) count ∙ take-all b.elements in
        let (v', s, r, k) = array_appended b.elements b.shape v n l e f.rank f.elements in
        (v', rw (f.axes, f.known, f.shape, enough, all) s, r, k)

    missing_appended :
        (n : ℕ) (v : Variable D)
        → n + 1 < 2 ^ 64
        → rows v ≡ n
        → IsReady (kind v)
        → (v' : Variable D) × (variable_append_missing h missing_value undefined v ≡ completes v')
          × (rows v' ≡ n + 1)
    unfolding variable_append_missing
    missing_appended n v l e f =
        let xs : List A = replicate (int_product 1 f.row) (missing_value f.type_) in
        let full : length xs ≡ size f.row =
          length-replicate (int_product 1 f.row) (missing_value f.type_)
          ∙ count_of f.row f.is_shape in
        let (v', s, r, k) = array_appended xs f.row v n l e f.rank full in
        let read : append_missing_as h missing_value undefined v.dtype v
            ≡ append_missing_variable h missing_value undefined f.type_ v.shape v =
          ap (λ o. append_missing_as h missing_value undefined o v) f.dtype ∙ rw (f.known) refl in
        (
          v',
          read
              ∙ ap (λ o. append_missing_variable h missing_value undefined f.type_ o v) f.shape
              ∙ s,
          r,
        )

    is_reliable :
        (n : ℕ)
        → n + 1 < 2 ^ 64
        → Aligned.IsReliable (appends h missing_value undefined) rows kind Fits IsReady n
    is_reliable n l = record {
      appends = λ b v e f. buffer_appended n b v l e f;
      pads = λ v e f. missing_appended n v l e f;
    }

    -- All variables have a number of rows.
    abbrev pub IsLevel : ℕ → List (Text × Variable D) → Type 0
    IsLevel n = All (λ p. rows p.1 ≡ n)

    -- A message adds one row to the dataset of every variable, also to those that it has no buffer for, so
    -- variables that have as many rows as each other still do. This holds where HDF5 does not fail, for
    -- variables of distinct names and a message that names no variable twice; if each buffer of the
    -- message that names a variable is of a known type, of the rank of the variable's rows, and as
    -- long as its shape says, with no more axes and no fewer dimensions than are configured; and if each
    -- variable has a known type and the shape of its rows configured.
    pub write_variables-IsLevel :
        (n : ℕ) (bs : List (Text × Buffer A)) (vs : List (Text × Variable D))
        → n + 1 < 2 ^ 64
        → Aligned.Distinct (names vs)
        → Aligned.Distinct (names bs)
        → IsLevel n vs
        → All (λ b. All (λ p. text_eq p.0 b.0 ≡ true → Fits b.1 (kind p.1)) vs) bs
        → All (λ p. IsReady (kind p.1)) vs
        → (vs' : List (Text × Variable D)) × (write_variables
              (appends h missing_value undefined)
              bs
              vs
            ≡ completes vs')
          × (names vs' ≡ names vs)
          × IsLevel (n + 1) vs'
    write_variables-IsLevel n bs vs l d e a f r =
        Aligned.write_variables-IsAligned (appends h missing_value undefined) rows kind Fits IsReady
          n (is_reliable n l) bs vs d e a (fits_all bs vs f) (ready_all vs r)
      where
        ready_all :
            (vs : List (Text × Variable D))
            → All (λ p. IsReady (kind p.1)) vs
            → All
                (λ k. IsReady k.1)
                (Aligned.kinds (appends h missing_value undefined) rows kind Fits IsReady vs)
        ready_all [] r = tt
        ready_all (v ∷ vs) r = (r.0, ready_all vs r.1)

        fits_one :
            (b : Text × Buffer A) (vs : List (Text × Variable D))
            → All (λ p. text_eq p.0 b.0 ≡ true → Fits b.1 (kind p.1)) vs
            → Aligned.FitsAt (appends h missing_value undefined) rows kind Fits IsReady b vs
        fits_one b [] f = tt
        fits_one b (v ∷ vs) f = (f.0, fits_one b vs f.1)

        fits_all :
            (bs : List (Text × Buffer A)) (vs : List (Text × Variable D))
            → All (λ b. All (λ p. text_eq p.0 b.0 ≡ true → Fits b.1 (kind p.1)) vs) bs
            → All
                (λ b.
                  Aligned.FitsAt (appends h missing_value undefined) rows kind Fits IsReady b vs)
                bs
        fits_all [] vs f = tt
        fits_all (b ∷ bs) vs f = (fits_one b vs f.0, fits_all bs vs f.1)
