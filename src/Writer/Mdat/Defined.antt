-- ===== src/Writer/Mdat/Defined.antt =====
-- Which times are defined, and with which paths: src/WriterModule/mdat/mdat_Writer.cpp.
use kafka_to_nexus.Common.{
  ℤ, ◌≡◌, refl, sym, ap, ◌∙◌, subst, Bool, true, false, List, [], ◌∷◌, Option, none, some, Text,
  text_eq, text_eq_refl, text_eq_sound, if◌then◌else◌, Bool-cases, inl, inr, arith,
}
use kafka_to_nexus.Job.{ModuleHdfInfo, is_mdat}
use kafka_to_nexus.Writer.Mdat.{
  Json, Writable, Writables, is_allowed, start_time, end_time, assign_at, find, add_names,
  extract_names, extract_details, define_metadata, set_writable_value_if_defined, set_start_time,
  set_stop_time,
}

abbrev with_value : Text → Option Writable → Option Writable
with_value text none = none
with_value text (some w) = some (record w { value = text })

abbrev new_writable : Option Text → Option Writable
new_writable none = none
new_writable (some path) = some (record { path = path; value = [] })

abbrev pub with_path : Text → Option Text → Option Writable
with_path text none = none
with_path text (some path) = some (record { path = path; value = text })

-- The path that modules, each a path with its names, give to a name: that of the last that names it.
abbrev path_by : Text → Text → List Text → Option Text → Option Text
path_by name path [] before = before
path_by name path (n ∷ ns) before =
    path_by name path ns (if text_eq n name then some path else before)

abbrev pub path_of : Text → List (Text × List Text) → Option Text → Option Text
path_of name [] before = before
path_of name ((path, names) ∷ rest) before = path_of name rest (path_by name path names before)

find-assign_at :
    (k name : Text) (w : Writable) (d : Writables)
    → find k (assign_at name w d) ≡ (if text_eq name k then some w else find k d)
unfolding find assign_at
find-assign_at k name w [] = refl
find-assign_at k name w ((n, v) ∷ rest) = elim (Bool-cases (text_eq n name)) [
  | inl q ↦ let same : n ≡ name = text_eq_sound n name q in rw (q, same) (ground arith)
  | inr q ↦ rw (q, find-assign_at k name w rest) (apart (text_eq n k) (text_eq name k) refl refl q)
]
  where
    apart :
        (a b : Bool)
        → text_eq n k ≡ a
        → text_eq name k ≡ b
        → text_eq n name ≡ false
        → (if a then some v else (if b then some w else find k rest))
          ≡ (if b then some w else (if a then some v else find k rest))
    apart true true p q r =
        let same : n ≡ name = text_eq_sound n k p ∙ sym (text_eq_sound name k q) in
        let wrong : text_eq n name ≡ true = ap (text_eq n) (sym same) ∙ text_eq_refl n in cc
    apart true false p q r = refl
    apart false true p q r = refl
    apart false false p q r = refl

find-set :
    (k name text : Text) (d : Writables)
    → find k (set_writable_value_if_defined name text d)
      ≡ (if text_eq name k then with_value text (find k d) else find k d)
unfolding find set_writable_value_if_defined
find-set k name text [] = ground arith
find-set k name text ((n, v) ∷ rest) = elim (Bool-cases (text_eq n name)) [
  | inl q ↦ let same : n ≡ name = text_eq_sound n name q in rw (q, same) (ground arith)
  | inr q ↦ rw (q, find-set k name text rest) (apart (text_eq n k) (text_eq name k) refl refl q)
]
  where
    apart :
        (a b : Bool)
        → text_eq n k ≡ a
        → text_eq name k ≡ b
        → text_eq n name ≡ false
        → (if a then some v else (if b then with_value text (find k rest) else find k rest)) ≡ (
            if b
            then with_value text (if a then some v else find k rest)
            else (if a then some v else find k rest))
    apart true true p q r =
        let same : n ≡ name = text_eq_sound n k p ∙ sym (text_eq_sound name k q) in
        let wrong : text_eq n name ≡ true = ap (text_eq n) (sym same) ∙ text_eq_refl n in cc
    apart true false p q r = refl
    apart false true p q r = refl
    apart false false p q r = refl

find-add_names :
    (k path : Text) (names : List Text) (d : Writables) (before : Option Text)
    → is_allowed k ≡ true
    → find k d ≡ new_writable before
    → find k (add_names path names d) ≡ new_writable (path_by k path names before)
unfolding add_names
find-add_names k path [] d before a e = e
find-add_names k path (n ∷ ns) d before a e =
    find-add_names k path ns
      (if is_allowed n then assign_at n (record { path = path; value = [] }) d else d)
      (if text_eq n k then some path else before) a (step (is_allowed n) (text_eq n k) refl refl)
  where
    step :
        (b c : Bool)
        → is_allowed n ≡ b
        → text_eq n k ≡ c
        → find k (if b then assign_at n (record { path = path; value = [] }) d else d)
          ≡ new_writable (if c then some path else before)
    step true true p q = find-assign_at k n (record { path = path; value = [] }) d ∙ rw q refl
    step true false p q = find-assign_at k n (record { path = path; value = [] }) d ∙ rw q e
    step false true p q =
        let same : n ≡ k = text_eq_sound n k q in
        let wrong : is_allowed n ≡ true = ap is_allowed same ∙ a in cc
    step false false p q = e

find_nothing : (k : Text) → find k [] ≡ none
unfolding find
find_nothing k = refl

abbrev both :
    Text → Option (List Text) → Option (List (Text × List Text)) → Option (List (Text × List Text))
both path none rest = none
both path (some names) none = none
both path (some names) (some rest) = some ((path, names) ∷ rest)

module _ {J : Type 0} (json : Json J) where
  -- The paths and the names of the mdat modules, or an exception of the parsing.
  abbrev pub groups_of : List ModuleHdfInfo → Option (List (Text × List Text))
  groups_of [] = some []
  groups_of (m ∷ ms) =
      let rest = groups_of ms in
      if is_mdat m then both m.hdf_parent_name (extract_names json m.config_stream) rest else rest

  -- The details after modules have for each name the path that the last module gave it.
  abbrev Finds : List (Text × List Text) → Writables → Writables → Type 0
  Finds gs d d' =
      (k : Text) (before : Option Text)
      → is_allowed k ≡ true
      → find k d ≡ new_writable before
      → find k d' ≡ new_writable (path_of k gs before)

  extract_details-Finds :
      (ms : List ModuleHdfInfo) (d : Writables) (gs : List (Text × List Text))
      → groups_of ms ≡ some gs
      → (d' : Writables) × (extract_details json ms d ≡ some d') × Finds gs d d'
  unfolding extract_details
  extract_details-Finds [] d gs e =
      let none_left : [] ≡ gs = cc in
      (
        d,
        refl,
        λ k before a f. subst (λ g. find k d ≡ new_writable (path_of k g before)) none_left f,
      )
  extract_details-Finds (m ∷ ms) d gs e =
      step (is_mdat m) (extract_names json m.config_stream) (groups_of ms) refl refl refl e
        (λ d1. extract_details-Finds ms d1)
    where
      step :
          (b : Bool) (o : Option (List Text)) (r : Option (List (Text × List Text)))
          → is_mdat m ≡ b
          → extract_names json m.config_stream ≡ o
          → groups_of ms ≡ r
          → (if b then both m.hdf_parent_name o r else r) ≡ some gs
          → ((d1 : Writables) (g : List (Text × List Text))
              → groups_of ms ≡ some g
              → (d' : Writables) × (extract_details json ms d1 ≡ some d') × Finds g d1 d')
          → (d' : Writables) × (extract_details json (m ∷ ms) d ≡ some d') × Finds gs d d'
      step false o r p q t h ih =
          let (d', s, f) = ih d gs (t ∙ h) in (d', rw (p, extract_details) s, f)
      step true none r p q t h ih = cc
      step true (some names) none p q t h ih = cc
      step true (some names) (some rest) p q t h ih =
          let (d', s, f) = ih (add_names m.hdf_parent_name names d) rest t in
          let same : (m.hdf_parent_name, names) ∷ rest ≡ gs = cc in
          (
            d',
            rw (p, q, extract_details) s,
            subst (λ g. Finds g d d') same
                (λ k before a e.
                  f k (path_by k m.hdf_parent_name names before) a
                    (find-add_names k m.hdf_parent_name names d before a e)),
          )

  -- Where the configurations of all mdat modules can be read, each of the two times that a module
  -- names is defined, with the path of the last module that names it and with the text of its time.
  pub define_metadata-times :
      (utc : ℤ → Text) (ms : List ModuleHdfInfo) (gs : List (Text × List Text)) (start stop : ℤ)
      → groups_of ms ≡ some gs
      → (d : Writables) × (define_metadata json ms ≡ some d)
        × (find start_time (set_stop_time utc stop (set_start_time utc start d))
            ≡ with_path (utc start) (path_of start_time gs none))
        × (find end_time (set_stop_time utc stop (set_start_time utc start d))
            ≡ with_path (utc stop) (path_of end_time gs none))
  unfolding define_metadata set_start_time set_stop_time
  define_metadata-times utc ms gs start stop e =
      let (d, s, f) = extract_details-Finds ms [] gs e in
      (
        d,
        s,
        find-set start_time end_time (utc stop)
              (set_writable_value_if_defined start_time (utc start) d)
            ∙ find-set start_time start_time (utc start) d
            ∙ ap (with_value (utc start)) (f start_time none refl (find_nothing _))
            ∙ valued (utc start) (path_of start_time gs none),
        find-set end_time end_time (utc stop)
              (set_writable_value_if_defined start_time (utc start) d)
            ∙ ap (with_value (utc stop))
                (find-set end_time start_time (utc start) d ∙ f end_time none refl (find_nothing _))
            ∙ valued (utc stop) (path_of end_time gs none),
      )
    where
      valued : (text : Text) (p : Option Text) → with_value text (new_writable p) ≡ with_path text p
      valued text none = refl
      valued text (some p) = refl
