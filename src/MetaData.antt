-- ===== src/MetaData.antt =====
-- The values that are written beside the data: src/MetaData/Tracker.{h,cpp}. The lock of the tracker
-- makes each operation one step.
use kafka_to_nexus.Common.{
  ℕ, ◌+◌, ◌≡◌, refl, sym, ap, ◌∙◌, Bool, true, false, List, [], ◌∷◌, ◌++◌, Option, none, some, Text,
  text_eq, text_eq_sound, if◌then◌else◌, Bool-cases, inl, inr,
}
use kafka_to_nexus.Dataset.{Run, completes, throws}

-- `ValueBaseInternal`: the members of its JSON object, and its writing to a group of the file.
pub record ValueInternal (J G : Type 0) : Type 0 where
  pub get_as_json : List (Text × J)
  pub write_to_hdf5_file : G → Run G

module _ {J : Type 0} where
  abbrev pub lookup : Text → List (Text × J) → Option J
  lookup key [] = none
  lookup key ((k, v) ∷ rest) = if text_eq k key then some v else lookup key rest

  abbrev pub insert_absent : Text → J → Option J → List (Text × J) → List (Text × J)
  insert_absent key value none node = node ++ (key, value) ∷ []
  insert_absent key value (some v) node = node

  -- `nlohmann::json::insert` of a range, which leaves the keys that are there.
  unfoldable pub insert : List (Text × J) → List (Text × J) → List (Text × J)
  insert [] node = node
  insert ((key, value) ∷ rest) node = insert rest (insert_absent key value (lookup key node) node)

  abbrev or_else : Option J → Option J → Option J
  or_else (some v) other = some v
  or_else none other = other

  or_else-none : (o : Option J) → o ≡ or_else o none
  or_else-none none = refl
  or_else-none (some w) = refl

  lookup-append :
      (key : Text) (xs ys : List (Text × J))
      → lookup key (xs ++ ys) ≡ or_else (lookup key xs) (lookup key ys)
  lookup-append key [] ys = refl
  lookup-append key ((k, v) ∷ xs) ys = elim (Bool-cases (text_eq k key)) [
    | inl q ↦ rw q refl
    | inr q ↦ rw q (lookup-append key xs ys)
  ]

  or_else_assoc : (a b c : Option J) → or_else (or_else a b) c ≡ or_else a (or_else b c)
  or_else_assoc none b c = refl
  or_else_assoc (some v) b c = refl

  lookup-insert_absent :
      (key k : Text) (v : J) (node : List (Text × J))
      → lookup key (insert_absent k v (lookup k node) node)
        ≡ or_else (lookup key node) (if text_eq k key then some v else none)
  lookup-insert_absent key k v node = step (lookup k node) (text_eq k key) refl refl
    where
      step :
          (o : Option J) (b : Bool)
          → lookup k node ≡ o
          → text_eq k key ≡ b
          → lookup key (insert_absent k v o node)
            ≡ or_else (lookup key node) (if b then some v else none)
      step none b p q = lookup-append key node ((k, v) ∷ []) ∙ rw q refl
      step (some w) true p q =
          let there : lookup key node ≡ some w =
            ap (λ x. lookup x node) (sym (text_eq_sound k key q)) ∙ p in
          rw there refl
      step (some w) false p q = or_else-none (lookup key node)

  lookup-insert :
      (key : Text) (members node : List (Text × J))
      → lookup key (insert members node) ≡ or_else (lookup key node) (lookup key members)
  unfolding insert
  lookup-insert key [] node = or_else-none (lookup key node)
  lookup-insert key ((k, v) ∷ rest) node =
      lookup-insert key rest (insert_absent k v (lookup k node) node)
      ∙ ap (λ o. or_else o (lookup key rest)) (lookup-insert_absent key k v node)
      ∙ or_else_assoc (lookup key node) (if text_eq k key then some v else none) (lookup key rest)
      ∙ ap (or_else (lookup key node)) (split (text_eq k key))
    where
      split :
          (b : Bool)
          → or_else (if b then some v else none) (lookup key rest)
            ≡ (if b then some v else lookup key rest)
      split true = refl
      split false = refl

module _ {J G : Type 0} where
  -- `registerMetaData`; a null pointer is nothing.
  unfoldable pub register_meta_data :
      Option (ValueInternal J G) → List (ValueInternal J G) → List (ValueInternal J G)
  register_meta_data none known = known
  register_meta_data (some v) known = known ++ v ∷ []

  unfoldable pub clear_meta_data : List (ValueInternal J G) → List (ValueInternal J G)
  clear_meta_data known = []

  unfoldable pub write_to_json_dict : List (ValueInternal J G) → List (Text × J) → List (Text × J)
  write_to_json_dict [] node = node
  write_to_json_dict (v ∷ known) node = write_to_json_dict known (insert v.get_as_json node)

  -- `writeToHDF5File`: the file, and the count of errors, after which it goes on.
  unfoldable pub write_to_hdf5_file : List (ValueInternal J G) → G → G × ℕ
  write_to_hdf5_file [] root = (root, 0)
  write_to_hdf5_file (v ∷ known) root = elim (v.write_to_hdf5_file root) [
    | completes g ↦ write_to_hdf5_file known g
    | throws g ↦ let (g', errors) = write_to_hdf5_file known g in (g', errors + 1)
  ]

  -- The first value of a key among the values in order of their registration.
  abbrev first_of : Text → List (ValueInternal J G) → Option J
  first_of key [] = none
  first_of key (v ∷ known) = or_else (lookup key v.get_as_json) (first_of key known)

  -- The dictionary keeps what it has; any other key gets the value that was registered first.
  write_to_json_dict-first :
      (key : Text) (known : List (ValueInternal J G)) (node : List (Text × J))
      → lookup key (write_to_json_dict known node) ≡ or_else (lookup key node) (first_of key known)
  unfolding write_to_json_dict
  write_to_json_dict-first key [] node = or_else-none (lookup key node)
  write_to_json_dict-first key (v ∷ known) node =
      write_to_json_dict-first key known (insert v.get_as_json node)
      ∙ ap (λ o. or_else o (first_of key known)) (lookup-insert key v.get_as_json node)
      ∙ or_else_assoc (lookup key node) (lookup key v.get_as_json) (first_of key known)
