-- ===== src/Dataset/Appends.antt =====
-- What a dataset holds where HDF5 does not fail: src/NeXusDataset/ExtensibleDataset.h.
use kafka_to_nexus.Common.{
  ℕ, ◌+◌, ◌-◌, ◌<◌, ◌≡◌, ◌^◌, refl, sym, ap, ◌≢◌, ◌∙◌, true, List, [], ◌∷◌, ◌++◌, u64, length, take,
  drop, replicate, arith, length-append,
}
use kafka_to_nexus.Dataset.{
  Run, completes, throws, left, returned, ◌then◌, Ends, Hdf5, IsHdf5, IsReliable, Extensible,
  count_elements, append_array, append_element, append_adapter, Append, array, adapter, one, append,
}
use kafka_to_nexus.Dataset.Log.{
  IsLogged, elements, append-IsLogged, length-take, length-replicate, take_all, length-drop,
}

-- The dataset holds the log and nothing behind it.
pub record IsExact {D A : Type 0} (h : Hdf5 D A) (log : List A) (e : Extensible D) : Type 0 where
  pub logged : IsLogged h log e
  pub size : length (h.contents e.dataset) ≡ length log

returned-Ends :
    {S : Type 0} (P Q : S → Type 0) (r : Run S) → returned r ≡ true → Ends P Q r → P (left r)
returned-Ends P Q (completes s) e k = k
returned-Ends P Q (throws s) e k = cc

returned-then :
    {S : Type 0} (P : S → Type 0) (r : Run S) (f : S → Run S)
    → returned r ≡ true
    → Ends P (λ _. Unit {0}) r
    → ((s : S) → P s → returned (f s) ≡ true)
    → returned (r then f) ≡ true
returned-then P (completes s) f e k g = g s k
returned-then P (throws s) f e k g = cc

pub exact :
    {D A : Type 0} (h : Hdf5 D A) (log : List A) (e : Extensible D)
    → IsExact h log e
    → h.contents e.dataset ≡ log
exact h log e x =
    let all : take e.nr_of_elements (h.contents e.dataset) ≡ h.contents e.dataset =
      ap (λ n. take n (h.contents e.dataset)) (sym x.logged.count ∙ sym x.size)
      ∙ take_all (h.contents e.dataset) in
    sym all ∙ x.logged.front

module _ {D A : Type 0} (h : Hdf5 D A) (laws : IsHdf5 h) (reliable : IsReliable h) where
  abbrev HasSize : ℕ → D → Type 0
  HasSize n d = length (h.contents d) ≡ n

  write-HasSize :
      (i : ℕ) (xs : List A) (d : D)
      → HasSize (i + length xs) d
      → (returned (h.write xs i d) ≡ true) × HasSize (i + length xs) (left (h.write xs i d))
  write-HasSize i xs d k =
      let old = h.contents d in
      let back = drop (i + length xs) old in
      let done = reliable.writes xs i d (omega (arith, k)) in
      let same =
        returned-Ends _ _ (h.write xs i d) done (laws.write_ends xs i d (omega (arith, k))) in
      (
        done,
        omega (
          arith,
          k,
          ap length same,
          length-append (take i old ++ xs) back,
          length-append (take i old) xs,
          length-append xs back,
          length-append (take i old) (xs ++ back),
          length-take i old,
          length-drop (i + length xs) old,
        ),
      )

  count-HasSize :
      (n m : ℕ) (e : Extensible D) (r : Run D)
      → (returned r ≡ true) × HasSize m (left r)
      → (returned (count_elements h n e r) ≡ true)
        × HasSize m (left (count_elements h n e r)).dataset
  count-HasSize n m e (completes d) k = k
  count-HasSize n m e (throws d) k = cc

  -- A growth by as many elements as are written then.
  grown :
      (n i : ℕ) (xs : List A) (e : Extensible D) (r : Run D)
      → returned r ≡ true
      → HasSize (i + length xs) (left r)
      → (returned (count_elements h n e (r then h.write xs i)) ≡ true)
        × HasSize (i + length xs) (left (count_elements h n e (r then h.write xs i))).dataset
  grown n i xs e (throws d) q k = cc
  grown n i xs e (completes d) q k =
      count-HasSize n (i + length xs) e (h.write xs i d) (write-HasSize i xs d k)

  extent-HasSize :
      (n i : ℕ) (xs : List A) (d : D)
      → HasSize i d
      → n ≡ length xs
      → HasSize (i + length xs) (left (h.extent n d))
  extent-HasSize n i xs d k e =
      let same = returned-Ends _ _ (h.extent n d) (reliable.extents n d) (laws.extent_ends n d) in
      omega (
        arith,
        k,
        ap length same,
        length-append (h.contents d) (replicate n laws.fill_value),
        length-replicate n laws.fill_value,
      )

  resize-HasSize : (n : ℕ) (d : D) → HasSize n (left (h.resize n d))
  resize-HasSize n d =
      let old = h.contents d in
      let same = returned-Ends _ _ (h.resize n d) (reliable.resizes n d) (laws.resize_ends n d) in
      omega (
        arith,
        ap length same,
        length-append (take n old) (replicate (n - length old) laws.fill_value),
        length-take n old,
        length-replicate (n - length old) laws.fill_value,
      )

  pub adapter-HasSize :
      (xs : List A) (e : Extensible D)
      → xs ≢ []
      → e.nr_of_elements + length xs < 2 ^ 64
      → (returned (append_adapter h xs e) ≡ true)
        × HasSize (e.nr_of_elements + length xs) (left (append_adapter h xs e)).dataset
  unfolding append_adapter
  adapter-HasSize [] e p b = absurd (p refl)
  adapter-HasSize (y ∷ ys) e p b =
      let n = u64 (e.nr_of_elements + length (y ∷ ys)) in
      grown (length (y ∷ ys)) e.nr_of_elements (y ∷ ys) e (h.resize n e.dataset)
        (reliable.resizes n e.dataset) (resize-HasSize n e.dataset ∙ omega arith)

  append-HasSize :
      (a : Append A) (log : List A) (e : Extensible D)
      → length log + length (elements a) < 2 ^ 64
      → IsExact h log e
      → (returned (append h a e) ≡ true)
        × HasSize (e.nr_of_elements + length (elements a)) (left (append h a e)).dataset
  unfolding append append_array append_element append_adapter
  append-HasSize (array xs) log e b x =
      grown (length xs) e.nr_of_elements xs e (h.extent (length xs) e.dataset)
        (reliable.extents (length xs) e.dataset)
        (extent-HasSize (length xs) e.nr_of_elements xs e.dataset (x.size ∙ x.logged.count) refl)
  append-HasSize (one y) log e b x =
      grown 1 e.nr_of_elements (y ∷ []) e (h.extent 1 e.dataset) (reliable.extents 1 e.dataset)
        (extent-HasSize 1 e.nr_of_elements (y ∷ []) e.dataset (x.size ∙ x.logged.count) refl)
  append-HasSize (adapter []) log e b x = (refl, omega (arith, x.size, x.logged.count))
  append-HasSize (adapter (y ∷ ys)) log e b x =
      adapter-HasSize (y ∷ ys) e (λ q. absurd (omega (arith, ap length q)))
        (omega (arith, x.logged.count))

  -- An append to an exact dataset returns, and adds its elements at the end.
  pub append-IsExact :
      (a : Append A) (log : List A) (e : Extensible D)
      → length log + length (elements a) < 2 ^ 64
      → IsExact h log e
      → (e' : Extensible D) × (append h a e ≡ completes e') × IsExact h (log ++ elements a) e'
  append-IsExact a log e b x =
      after (append h a e) (append-HasSize a log e b x) (append-IsLogged h laws a log e b x.logged)
    where
      after :
          (r : Run (Extensible D))
          → (returned r ≡ true) × HasSize (e.nr_of_elements + length (elements a)) (left r).dataset
          → Ends (IsLogged h (log ++ elements a)) (IsLogged h log) r
          → (e' : Extensible D) × (r ≡ completes e') × IsExact h (log ++ elements a) e'
      after (throws e') k l = cc
      after (completes e') k l = (
        e',
        refl,
        record {
          logged = l;
          size = omega (arith, k.1, x.logged.count, length-append log (elements a));
        },
      )

  -- The same by the names of the methods.
  pub append_element-IsExact :
      (x : A) (log : List A) (e : Extensible D)
      → length log + 1 < 2 ^ 64
      → IsExact h log e
      → (e' : Extensible D) × (append_element h x e ≡ completes e') × IsExact h (log ++ x ∷ []) e'
  unfolding append
  append_element-IsExact x = append-IsExact (one x)

  pub append_adapter-IsExact :
      (xs log : List A) (e : Extensible D)
      → length log + length xs < 2 ^ 64
      → IsExact h log e
      → (e' : Extensible D) × (append_adapter h xs e ≡ completes e') × IsExact h (log ++ xs) e'
  unfolding append
  append_adapter-IsExact xs = append-IsExact (adapter xs)

  pub append_array-IsExact :
      (xs log : List A) (e : Extensible D)
      → length log + length xs < 2 ^ 64
      → IsExact h log e
      → (e' : Extensible D) × (append_array h xs e ≡ completes e') × IsExact h (log ++ xs) e'
  unfolding append
  append_array-IsExact xs = append-IsExact (array xs)
