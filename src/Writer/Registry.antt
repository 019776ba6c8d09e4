-- ===== src/Writer/Registry.antt =====
-- The registry of writer modules: src/WriterRegistrar.{h,cpp}.
use kafka_to_nexus.Common.{
  ℕ, ◌≡◌, ◌≢◌, refl, sym, ap, ◌∙◌, Bool, true, false, List, [], ◌∷◌, ◌++◌, Option, none, some, Text,
  text_eq, text_eq_refl, text_eq_sound, bytes, if◌then◌else◌, ltb, ◌==◌, length, not, arith,
  Bool-cases, Option-cases, inl, inr, subst,
}

-- A factory of modules is a number.
pub record FactoryInfo : Type 0 where
  pub factory : ℕ
  pub id : Text
  pub name : Text

-- The map of `getFactories` by hash, whose order is that of the hashes.
abbrev pub Factories : Type 0
Factories = List (ℕ × FactoryInfo)

abbrev pub find_if : (FactoryInfo → Bool) → Factories → Option FactoryInfo
find_if p [] = none
find_if p ((key, f) ∷ rest) = if p f then some f else find_if p rest

abbrev pub has_name : Text → FactoryInfo → Bool
has_name n f = text_eq f.name n

abbrev pub has_id : Text → FactoryInfo → Bool
has_id n f = text_eq f.id n

abbrev pub or_else {ℓ} : {A : Type ℓ} → Option A → Option A → Option A
or_else none o = o
or_else (some a) o = some a

-- The search by name, or by id if there is no such name; nothing stands for `std::out_of_range`.
unfoldable pub find : Text → Factories → Option FactoryInfo
find n fs = or_else (find_if (has_name n) fs) (find_if (has_id n) fs)

-- The search by hash.
unfoldable pub find_hash : ℕ → Factories → Option FactoryInfo
find_hash hash [] = none
find_hash hash ((key, f) ∷ rest) = if key == hash then some f else find_hash hash rest

abbrev pub insert : ℕ → FactoryInfo → Factories → Factories
insert hash f [] = (hash, f) ∷ []
insert hash f ((key, g) ∷ rest) =
    let later = insert hash f rest in
    if ltb hash key then (hash, f) ∷ (key, g) ∷ rest else (key, g) ∷ later

pub data AddError : Type 0 where
  bad_id_length reserved_name hash_exists name_exists : AddError

pub data AddResult : Type 0 where
  added : Factories → AddResult
  refused : AddError → AddResult

abbrev pub is_some {ℓ} : {A : Type ℓ} → Option A → Bool
is_some none = false
is_some (some a) = true

-- `hash` is `std::hash<std::string>`.
module _ (hash : Text → ℕ) where
  unfoldable pub get_writer_module_hash : Text → Text → ℕ
  get_writer_module_hash id name = hash (id ++ name)

  -- `addWriterModule` and its four exceptions.
  unfoldable pub add_writer_module : FactoryInfo → Factories → AddResult
  add_writer_module f fs =
      if not (length f.id == 4)
      then refused bad_id_length
      else (if text_eq f.name (bytes "dataset")
          then refused reserved_name
          else (if is_some (find_hash (get_writer_module_hash f.id f.name) fs)
              then refused hash_exists
              else (if is_some (find_if (has_name f.name) fs)
                  then refused name_exists
                  else added (insert (get_writer_module_hash f.id f.name) f fs))))

find_if-insert_other :
    (p : FactoryInfo → Bool) (hash : ℕ) (f : FactoryInfo) (fs : Factories)
    → p f ≡ false
    → find_if p (insert hash f fs) ≡ find_if p fs
find_if-insert_other p hash f [] e = rw e refl
find_if-insert_other p hash f ((key, g) ∷ rest) e =
    let ih = find_if-insert_other p hash f rest e in
    elim (Bool-cases (ltb hash key)) [ inl q ↦ rw (q, e) refl | inr q ↦ rw (q, ih) refl ]

find_if-insert_new :
    (p : FactoryInfo → Bool) (hash : ℕ) (f : FactoryInfo) (fs : Factories)
    → p f ≡ true
    → find_if p fs ≡ none
    → find_if p (insert hash f fs) ≡ some f
find_if-insert_new p hash f [] e n = rw e refl
find_if-insert_new p hash f ((key, g) ∷ rest) e n = elim (Bool-cases (ltb hash key)) [
  | inl q ↦ rw (q, e) refl
  | inr q ↦ elim (Bool-cases (p g)) [
    | inl k ↦ let m : some g ≡ none = sym (rw k refl) ∙ n in cc
    | inr k ↦ rw (q, k) (find_if-insert_new p hash f rest e (sym (rw k refl) ∙ n))
  ]
]

is_some-none {ℓ} : {A : Type ℓ} (o : Option A) → is_some o ≡ false → o ≡ none
is_some-none none e = refl
is_some-none (some a) e = cc

-- What an addition that is not refused has passed.
passed :
    (hash : Text → ℕ) (f : FactoryInfo) (fs fs' : Factories)
    → add_writer_module hash f fs ≡ added fs'
    → (fs' ≡ insert (get_writer_module_hash hash f.id f.name) f fs)
      × (length f.id ≡ 4)
      × (text_eq f.name (bytes "dataset") ≡ false)
      × (find_if (has_name f.name) fs ≡ none)
unfolding add_writer_module
passed hash f fs fs' e = let n = is_some-none (find_if (has_name f.name) fs) in ground arith

-- A module that was added is found by its name, and every other name that was found finds the same
-- module as before. It was added exactly if its id has four bytes, its name is not the reserved one,
-- and neither its hash nor its name was there.
pub add_writer_module-find :
    (hash : Text → ℕ) (f : FactoryInfo) (fs fs' : Factories)
    → add_writer_module hash f fs ≡ added fs'
    → (find f.name fs' ≡ some f)
      × ((n : Text)
          → n ≢ f.name
          → is_some (find_if (has_name n) fs) ≡ true
          → find n fs' ≡ find n fs)
      × (length f.id ≡ 4)
      × (f.name ≢ bytes "dataset")
      × (find_if (has_name f.name) fs ≡ none)
unfolding add_writer_module find
add_writer_module-find hash f fs fs' e =
    let (same, four, allowed, fresh) = passed hash f fs fs' e in
    let key = get_writer_module_hash hash f.id f.name in
    (
      rw (same, find_if-insert_new (has_name f.name) key f fs (text_eq_refl f.name) fresh) refl,
      others same,
      four,
      (λ q.
          let t : text_eq f.name f.name ≡ false =
            subst (λ x. text_eq f.name x ≡ false) (sym q) allowed in
          absurd (bool_clash (sym (text_eq_refl f.name) ∙ t))),
      fresh,
    )
  where
    bool_clash : true ≡ false → ⊥
    bool_clash q = cc

    others :
        fs' ≡ insert (get_writer_module_hash hash f.id f.name) f fs
        → (n : Text) → n ≢ f.name
        → is_some (find_if (has_name n) fs) ≡ true
        → find n fs' ≡ find n fs
    others same n ne known =
        let other : text_eq f.name n ≡ false = ground (arith, text_eq_sound f.name n, ne) in
        rw
          (
            same,
            find_if-insert_other (has_name n) (get_writer_module_hash hash f.id f.name) f fs other,
          )
          (elim (Option-cases (find_if (has_name n) fs)) [
            | inl q ↦ absurd (bool_clash (sym known ∙ ap is_some q))
            | inr (g, q) ↦ rw q refl
          ])
