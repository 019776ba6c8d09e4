-- ===== src/Dataset/Reopened.antt =====
-- Datasets that are opened with data in them, by the two classes: src/NeXusDataset/ExtensibleDataset.h.
use kafka_to_nexus.Common.{
  ℕ, ◌+◌, ◌<◌, ◌≡◌, ◌≢◌, ◌^◌, refl, sym, ap, ◌∙◌, true, List, [], ◌∷◌, ◌++◌, some, length, take,
  All, arith, append-nil, append_assoc, length-append, Text, subst,
}
use kafka_to_nexus.Dataset.{
  Ends, Run, completes, throws, left, returned, Hdf5, IsHdf5, IsReliable, Extensible, Group,
  open_existing, new, open_base, append_adapter, Append, adapter, append, append_all,
}
use kafka_to_nexus.Dataset.Log.{IsLogged, elements, total, append-IsLogged, take_all}
use kafka_to_nexus.Dataset.Appends.{IsExact, exact, append-IsExact, adapter-HasSize}

-- The elements of a sequence of appends in order.
abbrev pub all_elements : {A : Type 0} → List (Append A) → List A
all_elements [] = []
all_elements (a ∷ rest) = elements a ++ all_elements rest

module _ {D A : Type 0} (h : Hdf5 D A) (laws : IsHdf5 h) (reliable : IsReliable h) where
  pub append_all-IsExact :
      (as_ : List (Append A)) (log : List A) (e : Extensible D)
      → length log + total as_ < 2 ^ 64
      → IsExact h log e
      → let (e', results) = append_all h as_ e in
        IsExact h (log ++ all_elements as_) e' × All (λ r. r ≡ true) results
  unfolding append_all
  append_all-IsExact [] log e b x = (subst (λ r. IsExact h r e) (sym (append-nil log)) x, tt)
  append_all-IsExact (a ∷ rest) log e b x =
      let (e', same, x') = append-IsExact h laws reliable a log e (omega arith) x in
      let ih =
        append_all-IsExact rest (log ++ elements a) e'
          (omega (arith, length-append log (elements a))) x' in
      rw same (
        subst (λ r. IsExact h r (append_all h rest e').0)
            (append_assoc log (elements a) (all_elements rest)) ih.0,
        (refl, ih.1),
      )

  -- A dataset that `ExtensibleDataset` opens keeps what it holds: all appends return, and their
  -- elements follow in order, where HDF5 does not fail and the size fits 64 bits.
  pub opened_appends :
      (parent : Group D) (name : Text) (chunk_size : ℕ) (e : Extensible D) (as_ : List (Append A))
      → new h parent name open_existing chunk_size ≡ some e
      → length (h.contents e.dataset) + total as_ < 2 ^ 64
      → let (e', results) = append_all h as_ e in
        (h.contents e'.dataset ≡ h.contents e.dataset ++ all_elements as_)
        × All (λ r. r ≡ true) results
  unfolding new
  opened_appends parent name chunk_size e as_ o b =
      let all = take_all (h.contents e.dataset) in
      let n : e.nr_of_elements ≡ length (h.contents e.dataset) = ground arith in
      let x : IsExact h (h.contents e.dataset) e = record {
        logged = record { front = ap (λ i. take i (h.contents e.dataset)) n ∙ all; count = sym n };
        size = refl;
      } in
      let (x', results) = append_all-IsExact as_ (h.contents e.dataset) e b x in
      (exact h (h.contents e.dataset ++ all_elements as_) (append_all h as_ e).0 x', results)

  -- A dataset that `ExtensibleDatasetBase` opens loses what it holds at the first append of an array.
  pub base_append_replaces :
      (parent : Group D) (name : Text) (e : Extensible D) (xs : List A)
      → open_base parent name open_existing ≡ some e
      → xs ≢ []
      → length xs < 2 ^ 64
      → h.contents (left (append_adapter h xs e)).dataset ≡ xs
  unfolding open_base append
  base_append_replaces parent name e xs o p b =
      let zero_ : e.nr_of_elements ≡ 0 = ground arith in
      let l : IsLogged h [] e = record {
        front = ap (λ i. take i (h.contents e.dataset)) zero_;
        count = sym zero_;
      } in
      after (append_adapter h xs e) (adapter-HasSize h laws reliable xs e p (omega (arith, zero_)))
        (append-IsLogged h laws (adapter xs) [] e (omega arith) l)
    where
      after :
          (r : Run (Extensible D))
          → (returned r ≡ true)
            × (length (h.contents (left r).dataset) ≡ e.nr_of_elements + length xs)
          → Ends (IsLogged h xs) (IsLogged h []) r
          → h.contents (left r).dataset ≡ xs
      after (throws e') k l = cc
      after (completes e') k l = exact h xs e' (record { logged = l; size = ground arith })
