-- ===== src/Dataset.antt =====
-- The datasets that grow as data is appended: src/NeXusDataset/ExtensibleDataset.{h,cpp}. h5cpp is an
-- interface of operations with their laws; what an operation throws leaves the state that it had made.
pub mod Memory
pub mod Log
pub mod Appends
pub mod Reopened
pub mod Rows
mod Examples
use kafka_to_nexus.Common.{
  ℕ, ◌+◌, ◌-◌, ◌≤◌, ◌≡◌, Bool, true, false, List, [], ◌∷◌, ◌++◌, Option, none, some, u64, length,
  take, drop, replicate, Text,
}

-- A call that changes a state: it returns, or throws an exception on the way.
pub data Run {ℓ} (S : Type ℓ) : Type ℓ where
  completes throws : S → Run S

module _ {ℓ} {S : Type ℓ} where
  abbrev pub left : Run S → S
  left (completes s) = s
  left (throws s) = s

  abbrev pub returned : Run S → Bool
  returned (completes s) = true
  returned (throws s) = false

-- What holds where a call returns, and where it throws.
abbrev pub Ends {ℓ κ} : {S : Type ℓ} → (S → Type κ) → (S → Type κ) → Run S → Type κ
Ends P Q (completes s) = P s
Ends P Q (throws s) = Q s

-- The statement that follows, unless an exception was thrown.
infixl 20 ◌then◌
abbrev pub ◌then◌ {ℓ} : {S : Type ℓ} → Run S → (S → Run S) → Run S
completes s then f = f s
throws s then f = throws s

-- The call of a member's method: the member is put back into the whole.
abbrev pub within {ℓ κ} : {S : Type ℓ} {T : Type κ} → (S → T) → Run S → Run T
within put (completes s) = completes (put s)
within put (throws s) = throws (put s)

-- `hdf5::node::Dataset` with one dimension: what it holds, `extent(0, n)`, `resize({n})`, and `write`
-- of elements at an offset.
pub record Hdf5 (D A : Type 0) : Type 0 where
  pub contents : D → List A
  pub extent : ℕ → D → Run D
  pub resize : ℕ → D → Run D
  pub write : List A → ℕ → D → Run D

-- Elements `i` and following replaced by others.
abbrev pub overwrite {ℓ} : {A : Type ℓ} → List A → ℕ → List A → List A
overwrite xs i old = take i old ++ xs ++ drop (i + length xs) old

-- What HDF5 promises of a dataset. Growing adds elements of the fill value, `resize` also cuts.
pub record IsHdf5 {D A : Type 0} (h : Hdf5 D A) : Type 0 where
  pub fill_value : A
  pub extent_ends :
      (n : ℕ) (d : D)
      → Ends
          (λ d'. h.contents d' ≡ h.contents d ++ replicate n fill_value)
          (λ d'. h.contents d' ≡ h.contents d)
          (h.extent n d)
  pub resize_ends :
      (n : ℕ) (d : D)
      → Ends
          (λ d'.
            h.contents d'
            ≡ take n (h.contents d) ++ replicate (n - length (h.contents d)) fill_value)
          (λ d'. h.contents d' ≡ h.contents d)
          (h.resize n d)
  -- A write that fails may have touched the elements that it was for, and those behind.
  pub write_ends :
      (xs : List A) (i : ℕ) (d : D)
      → i + length xs ≤ length (h.contents d)
      → Ends
          (λ d'. h.contents d' ≡ overwrite xs i (h.contents d))
          (λ d'. take i (h.contents d') ≡ take i (h.contents d))
          (h.write xs i d)

-- Operations that do not fail, as those on a file system with space left.
pub record IsReliable {D A : Type 0} (h : Hdf5 D A) : Type 0 where
  pub extents : (n : ℕ) (d : D) → returned (h.extent n d) ≡ true
  pub resizes : (n : ℕ) (d : D) → returned (h.resize n d) ≡ true
  pub writes :
      (xs : List A) (i : ℕ) (d : D)
      → i + length xs ≤ length (h.contents d)
      → returned (h.write xs i d) ≡ true

pub data Mode : Type 0 where
  create open_existing : Mode

-- `ExtensibleDatasetBase`; the selections and data spaces that it keeps are set anew for each write.
pub record Extensible (D : Type 0) : Type 0 where
  pub dataset : D
  pub nr_of_elements : ℕ

-- `hdf5::node::Group`: the creation of a chunked dataset by name and chunk size, and the opening of
-- one; nothing stands for an exception.
pub record Group (D : Type 0) : Type 0 where
  pub chunked_dataset : Text → ℕ → Option D
  pub get_dataset : Text → Option D

-- The constructor of the base, which throws for `Mode::Create`.
unfoldable pub open_base : {D : Type 0} → Group D → Text → Mode → Option (Extensible D)
open_base parent name create = none
open_base parent name open_existing = elim (parent.get_dataset name) [
  | none ↦ none
  | some d ↦ some (record { dataset = d; nr_of_elements = 0 })
]

module _ {D A : Type 0} (h : Hdf5 D A) where
  -- The constructor of `ExtensibleDataset<T>`.
  unfoldable pub new : Group D → Text → Mode → ℕ → Option (Extensible D)
  new parent name create chunk_size = elim (parent.chunked_dataset name chunk_size) [
    | none ↦ none
    | some d ↦ some (record { dataset = d; nr_of_elements = 0 })
  ]
  new parent name open_existing chunk_size = elim (parent.get_dataset name) [
    | none ↦ none
    | some d ↦ some (record { dataset = d; nr_of_elements = length (h.contents d) })
  ]

  unfoldable pub current_size : Extensible D → ℕ
  current_size e = length (h.contents e.dataset)

  -- What follows the calls of h5cpp: `n` elements more.
  abbrev pub count_elements : ℕ → Extensible D → Run D → Run (Extensible D)
  count_elements n e (completes d) =
      completes (record { dataset = d; nr_of_elements = u64 (e.nr_of_elements + n) })
  count_elements n e (throws d) = throws (record e { dataset = d })

  -- `appendArray` of a container.
  unfoldable pub append_array : List A → Extensible D → Run (Extensible D)
  append_array data_ e =
      count_elements (length data_) e
        (h.extent (length data_) e.dataset then h.write data_ e.nr_of_elements)

  unfoldable pub append_element : A → Extensible D → Run (Extensible D)
  append_element element e =
      count_elements 1 e (h.extent 1 e.dataset then h.write (element ∷ []) e.nr_of_elements)

  -- `appendArray` of an `ArrayAdapter`, which sets the size of the dataset.
  unfoldable pub append_adapter : List A → Extensible D → Run (Extensible D)
  append_adapter [] e = completes e
  append_adapter (x ∷ xs) e = count_elements (length (x ∷ xs)) e (
      h.resize (u64 (e.nr_of_elements + length (x ∷ xs))) e.dataset
      then h.write (x ∷ xs) e.nr_of_elements)

-- The calls of a client.
pub data Append (A : Type 0) : Type 0 where
  array adapter : List A → Append A
  one : A → Append A

module _ {D A : Type 0} (h : Hdf5 D A) where
  unfoldable pub append : Append A → Extensible D → Run (Extensible D)
  append (array xs) e = append_array h xs e
  append (adapter xs) e = append_adapter h xs e
  append (one x) e = append_element h x e

  -- Calls in order, and which of them returned; an exception does not stop the client.
  unfoldable pub append_all : List (Append A) → Extensible D → Extensible D × List Bool
  append_all [] e = (e, [])
  append_all (a ∷ rest) e =
      let r = append a e in
      let (e', results) = append_all rest (left r) in (e', returned r ∷ results)

-- `FixedSizeString`; HDF5 cuts a text that is longer than the type of the dataset.
pub record FixedSizeString (D : Type 0) : Type 0 where
  pub dataset : D
  pub max_string_size : ℕ
  pub nr_of_strings : ℕ

module _ {D : Type 0} (h : Hdf5 D Text) (type_size : D → ℕ) where
  unfoldable pub new_strings : Group D → Text → Mode → ℕ → ℕ → Option (FixedSizeString D)
  new_strings parent name create string_size chunk_size =
      elim (parent.chunked_dataset name chunk_size) [
        | none ↦ none
        | some d ↦ some (record { dataset = d; max_string_size = string_size; nr_of_strings = 0 })
      ]
  new_strings parent name open_existing string_size chunk_size = elim (parent.get_dataset name) [
    | none ↦ none
    | some d ↦ some (record {
      dataset = d;
      max_string_size = type_size d;
      nr_of_strings = length (h.contents d);
    })
  ]

module _ {D : Type 0} (h : Hdf5 D Text) where
  abbrev pub count_string : FixedSizeString D → Run D → Run (FixedSizeString D)
  count_string f (completes d) =
      completes (record f { dataset = d; nr_of_strings = u64 (f.nr_of_strings + 1) })
  count_string f (throws d) = throws (record f { dataset = d })

  unfoldable pub append_string_element : Text → FixedSizeString D → Run (FixedSizeString D)
  append_string_element in_string f =
      count_string f (h.extent 1 f.dataset then h.write (in_string ∷ []) f.nr_of_strings)
