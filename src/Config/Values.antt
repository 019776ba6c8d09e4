-- ===== src/Config/Values.antt =====
-- The values of the fields after a configuration: src/JsonConfig/FieldHandler.cpp.
use kafka_to_nexus.Common.{
  refl, inr, ap, inl, ◌≢◌, Bool-cases, true, Option-cases, ℕ, ◌≡◌, sym, ◌∙◌, Bool, false, List, [],
  ◌∷◌, Option, none, some, Text, if◌then◌else◌, ◌==◌, zero, suc, get_elem?, arith,
}
use kafka_to_nexus.Config.{
  Field, FieldMap, set_value, set_found, set_values, find, update, is_missing, has_missing,
  at_missing, process_config_data,
}

-- The key leads to the field of a number.
abbrev pub leads : Option ℕ → ℕ → Bool
leads none i = false
leads (some j) i = j == i

module _ {V : Type 0} where
  abbrev or_before : Text → Option V → Option (Text × V) → Option (Text × V)
  or_before key none before = before
  or_before key (some v) before = some (key, v)

module _ {J V : Type 0} where
  -- What the members of a configuration do to one field: those whose key leads to it, in order.
  abbrev set_from : FieldMap → ℕ → List (Text × J) → Field J V → Field J V
  set_from m i [] f = f
  set_from m i ((key, value) ∷ rest) f =
      set_from m i rest (if leads (find key m) i then set_value key value f else f)

  update-get_elem? :
      (i j : ℕ) (g : Field J V → Field J V) (fs : List (Field J V)) (f : Field J V)
      → get_elem? fs i ≡ some f
      → get_elem? (update j g fs) i ≡ some (if j == i then g f else f)
  update-get_elem? i j g [] f e = cc
  update-get_elem? zero zero g (x ∷ fs) f e = ground (arith, e)
  update-get_elem? zero (suc j) g (x ∷ fs) f e = ground (arith, e)
  update-get_elem? (suc i) zero g (x ∷ fs) f e = ground (arith, e)
  update-get_elem? (suc i) (suc j) g (x ∷ fs) f e = ground (arith, update-get_elem? i j g fs f e)

  set_found-get_elem? :
      (o : Option ℕ) (i : ℕ) (key : Text) (value : J) (fs : List (Field J V)) (f : Field J V)
      → get_elem? fs i ≡ some f
      → get_elem? (set_found o key value fs) i
        ≡ some (if leads o i then set_value key value f else f)
  set_found-get_elem? none i key value fs f e = e
  set_found-get_elem? (some j) i key value fs f e =
      update-get_elem? i j (set_value key value) fs f e

  set_values-get_elem? :
      (m : FieldMap) (members : List (Text × J)) (fs : List (Field J V)) (i : ℕ) (f : Field J V)
      → get_elem? fs i ≡ some f
      → get_elem? (set_values m members fs) i ≡ some (set_from m i members f)
  unfolding set_values
  set_values-get_elem? m [] fs i f e = e
  set_values-get_elem? m ((key, value) ∷ rest) fs i f e =
      set_values-get_elem? m rest (set_found (find key m) key value fs) i
        (if leads (find key m) i then set_value key value f else f)
        (set_found-get_elem? (find key m) i key value fs f e)

  at_missing-get_elem? :
      (i : ℕ) (fs : List (Field J V)) (f : Field J V)
      → get_elem? fs i ≡ some f
      → at_missing i fs ≡ is_missing f
  at_missing-get_elem? i [] f e = cc
  at_missing-get_elem? zero (x ∷ fs) f e = ground (arith, e)
  at_missing-get_elem? (suc i) (x ∷ fs) f e = at_missing-get_elem? i fs f e

  has_missing-find :
      (m : FieldMap) (key : Text) (fs : List (Field J V)) (i : ℕ)
      → has_missing m fs ≡ false
      → find key m ≡ some i
      → at_missing i fs ≡ false
  unfolding has_missing find
  has_missing-find [] key fs i h e = cc
  has_missing-find ((k, j) ∷ m) key fs i h e = ground (arith, has_missing-find m key fs i)

  -- The last member that leads to a field and has a value of its type: its key and its value.
  abbrev pub last_value :
      FieldMap → ℕ → (J → Option V) → List (Text × J) → Option (Text × V) → Option (Text × V)
  last_value m i convert [] before = before
  last_value m i convert ((key, value) ∷ rest) before =
      last_value m i convert rest
        (if leads (find key m) i then or_before key (convert value) before else before)

  abbrev pub with_value : Option (Text × V) → Field J V → Field J V
  with_value none f = f
  with_value (some (key, v)) f = record f { value = v; used_key = key; got_default = false }

  set_value-with_value :
      (key : Text) (value : J) (f : Field J V) (b : Option (Text × V))
      → set_value key value (with_value b f) ≡ with_value (or_before key (f.convert value) b) f
  unfolding set_value
  set_value-with_value key value f none = elim (Option-cases (f.convert value)) [
    | inl e ↦ rw e refl
    | inr (v, e) ↦ rw e refl
  ]
  set_value-with_value key value f (some (k, w)) = elim (Option-cases (f.convert value)) [
    | inl e ↦ rw e refl
    | inr (v, e) ↦ rw e refl
  ]

  set_from-last_value :
      (m : FieldMap) (i : ℕ) (members : List (Text × J)) (f : Field J V) (b : Option (Text × V))
      → set_from m i members (with_value b f) ≡ with_value (last_value m i f.convert members b) f
  set_from-last_value m i [] f b = refl
  set_from-last_value m i ((key, value) ∷ rest) f b = elim (Bool-cases (leads (find key m) i)) [
    | inl q ↦
        rw (q, set_value-with_value key value f b)
          (set_from-last_value m i rest f (or_before key (f.convert value) b))
    | inr q ↦ rw q (set_from-last_value m i rest f b)
  ]

  -- A configuration gives every field the value of the last member whose key leads to it and whose
  -- value is of its type, with that key, whatever the other members are, and leaves it as it was
  -- without such a member. If it does not throw, every required field that a key leads to and that was
  -- at its default had such a member.
  pub process_config_data-values :
      (m : FieldMap) (members : List (Text × J)) (fs : List (Field J V)) (i : ℕ) (f : Field J V)
      → get_elem? fs i ≡ some f
      → let (fs', throws) = process_config_data m members fs in
        (get_elem? fs' i ≡ some (with_value (last_value m i f.convert members none) f))
        × (throws ≡ false
            → (key : Text) → find key m ≡ some i
            → f.field_required ≡ true
            → f.got_default ≡ true
            → last_value m i f.convert members none ≢ none)
  unfolding process_config_data
  process_config_data-values m members fs i f e =
      let last = last_value m i f.convert members none in
      let there : get_elem? (set_values m members fs) i ≡ some (with_value last f) =
        set_values-get_elem? m members fs i f e
        ∙ ap some (set_from-last_value m i members f none) in
      (
        there,
        λ h key found required default nothing.
            let not_missing : is_missing (with_value last f) ≡ false =
              sym (at_missing-get_elem? i (set_values m members fs) (with_value last f) there)
              ∙ has_missing-find m key (set_values m members fs) i h found in
            let missing : is_missing (with_value last f) ≡ true =
              rw nothing (ground (arith, required, default)) in
            cc,
      )
