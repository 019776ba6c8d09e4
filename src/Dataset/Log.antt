-- ===== src/Dataset/Log.antt =====
-- What a dataset holds at its front, whatever calls of HDF5 fail: src/NeXusDataset/ExtensibleDataset.h.
use kafka_to_nexus.Common.{
  ℕ, ◌+◌, ◌-◌, ◌≤◌, ◌<◌, ◌≡◌, ◌^◌, zero, suc, refl, sym, ap, ◌∙◌, Bool, true, false, List, [], ◌∷◌,
  ◌++◌, u64, length, take, drop, replicate, arith, append-nil, length-append, min, subst,
}
use kafka_to_nexus.Dataset.{
  count_elements, Run, completes, throws, ◌then◌, Hdf5, IsHdf5, overwrite, Extensible, append_array,
  append_element, append_adapter, Ends, Append, append, append_all, left, returned, array, adapter,
  one,
}

module _ {A : Type 0} where
  pub take-append : (n : ℕ) (xs ys : List A) → n ≤ length xs → take n (xs ++ ys) ≡ take n xs
  take-append zero xs ys h = refl
  take-append (suc n) [] ys h = absurd (omega arith)
  take-append (suc n) (x ∷ xs) ys h = ap (λ r. x ∷ r) (take-append n xs ys (omega arith))

  pub take_all : (xs : List A) → take (length xs) xs ≡ xs
  take_all [] = refl
  take_all (x ∷ xs) = ap (λ r. x ∷ r) (take_all xs)

  pub take-take : (n m : ℕ) (xs : List A) → n ≤ m → take n (take m xs) ≡ take n xs
  take-take zero m xs h = refl
  take-take (suc n) zero xs h = absurd (omega arith)
  take-take (suc n) (suc m) [] h = refl
  take-take (suc n) (suc m) (x ∷ xs) h = ap (λ r. x ∷ r) (take-take n m xs (omega arith))

  pub length-take : (n : ℕ) (xs : List A) → length (take n xs) ≡ min n (length xs)
  length-take zero xs = omega arith
  length-take (suc n) [] = omega arith
  length-take (suc n) (x ∷ xs) = omega (arith, length-take n xs)

  pub length-drop : (n : ℕ) (xs : List A) → length (drop n xs) ≡ length xs - n
  length-drop zero xs = omega arith
  length-drop (suc n) [] = omega arith
  length-drop (suc n) (x ∷ xs) = omega (arith, length-drop n xs)

  pub length-replicate : (n : ℕ) (a : A) → length (replicate n a) ≡ n
  length-replicate zero a = refl
  length-replicate (suc n) a = ap suc (length-replicate n a)

  -- The front of a list that was overwritten behind the elements kept.
  take-overwrite :
      (xs : List A) (i : ℕ) (old kept : List A)
      → take i old ≡ kept
      → length kept ≡ i
      → take (i + length xs) (overwrite xs i old) ≡ kept ++ xs
  take-overwrite xs i old kept e l =
      let n : i + length xs ≡ length (kept ++ xs) = omega (arith, length-append kept xs) in
      rw (e, n)
        (take-append (length (kept ++ xs)) (kept ++ xs) (drop (length (kept ++ xs)) old)
            (omega arith)
          ∙ take_all (kept ++ xs))

-- A sequence of appends seen from outside: a log that grows by what the calls that return append.
abbrev pub elements : {A : Type 0} → Append A → List A
elements (array xs) = xs
elements (adapter xs) = xs
elements (one x) = x ∷ []

abbrev pub log_all : {A : Type 0} → List (Append A) → List Bool → List A → List A
log_all (a ∷ rest) (true ∷ results) log = log_all rest results (log ++ elements a)
log_all (a ∷ rest) (false ∷ results) log = log_all rest results log
log_all _ _ log = log

abbrev pub total : {A : Type 0} → List (Append A) → ℕ
total [] = 0
total (a ∷ rest) = length (elements a) + total rest

pub then-Ends {ℓ κ} :
    {S : Type ℓ} (P Q R : S → Type κ) (r : Run S) (f : S → Run S)
    → Ends P Q r
    → ((s : S) → P s → Ends R Q (f s))
    → Ends R Q (r then f)
then-Ends P Q R (completes s) f h k = k s h
then-Ends P Q R (throws s) f h k = h

pub Ends-weaken {ℓ κ} :
    {S : Type ℓ} (P Q P' Q' : S → Type κ) (r : Run S)
    → Ends P Q r
    → ((s : S) → P s → P' s)
    → ((s : S) → Q s → Q' s)
    → Ends P' Q' r
Ends-weaken P Q P' Q' (completes s) h f g = f s h
Ends-weaken P Q P' Q' (throws s) h f g = g s h

-- The elements that a dataset counts are those of the log.
pub record IsLogged {D A : Type 0} (h : Hdf5 D A) (log : List A) (e : Extensible D) : Type 0 where
  pub front : take e.nr_of_elements (h.contents e.dataset) ≡ log
  pub count : length log ≡ e.nr_of_elements

module _ {D A : Type 0} (h : Hdf5 D A) (laws : IsHdf5 h) where
  -- Room for `xs` behind the elements of the log.
  record HasRoom (log xs : List A) (d : D) : Type 0 where
    front : take (length log) (h.contents d) ≡ log
    room : length log + length xs ≤ length (h.contents d)

  abbrev IsKept : List A → D → Type 0
  IsKept log d = take (length log) (h.contents d) ≡ log

  kept : (log : List A) (e : Extensible D) → IsLogged h log e → IsKept log e.dataset
  kept log e l = ap (λ i. take i (h.contents e.dataset)) l.count ∙ l.front

  write-Ends :
      (log xs : List A) (d : D)
      → HasRoom log xs d
      → Ends (IsKept (log ++ xs)) (IsKept log) (h.write xs (length log) d)
  write-Ends log xs d r =
      Ends-weaken _ _ _ _ (h.write xs (length log) d) (laws.write_ends xs (length log) d r.room)
        (λ d' e.
          rw (e, length-append log xs)
            (take-overwrite xs (length log) (h.contents d) log r.front refl))
        (λ d' e. e ∙ r.front)

  extent-Ends :
      (n : ℕ) (log xs : List A) (d : D)
      → n ≡ length xs
      → IsKept log d
      → Ends (HasRoom log xs) (IsKept log) (h.extent n d)
  extent-Ends n log xs d e k =
      let at_least : length log ≤ length (h.contents d) =
        omega (arith, ap length k, length-take (length log) (h.contents d)) in
      Ends-weaken _ _ _ _ (h.extent n d) (laws.extent_ends n d)
        (λ d' q. record {
          front =
              rw q (
                take-append (length log) (h.contents d) (replicate n laws.fill_value) at_least ∙ k);
          room =
              rw (q, length-append (h.contents d) (replicate n laws.fill_value))
                (omega (arith, length-replicate n laws.fill_value));
        })
        (λ d' q. rw q k)

  resize-Ends :
      (n : ℕ) (log xs : List A) (d : D)
      → n ≡ length log + length xs
      → IsKept log d
      → Ends (HasRoom log xs) (IsKept log) (h.resize n d)
  resize-Ends n log xs d e k =
      let old = h.contents d in
      let padding = replicate (n - length old) laws.fill_value in
      let at_least : length log ≤ length old =
        omega (arith, ap length k, length-take (length log) old) in
      let fits : length log ≤ length (take n old) = omega (arith, length-take n old) in
      Ends-weaken _ _ _ _ (h.resize n d) (laws.resize_ends n d)
        (λ d' q. record {
          front = rw q (
              take-append (length log) (take n old) padding fits
              ∙ take-take (length log) n old (omega arith)
              ∙ k);
          room =
              rw (q, length-append (take n old) padding)
                (omega
                  (arith, length-replicate (n - length old) laws.fill_value, length-take n old));
        })
        (λ d' q. rw q k)

  counted :
      (n : ℕ) (log xs : List A) (e : Extensible D) (r : Run D)
      → n ≡ length xs
      → length log ≡ e.nr_of_elements
      → length log + length xs < 2 ^ 64
      → Ends (IsKept (log ++ xs)) (IsKept log) r
      → Ends (IsLogged h (log ++ xs)) (IsLogged h log) (count_elements h n e r)
  counted n log xs e (completes d) m c b k =
      let sum : length (log ++ xs) ≡ u64 (e.nr_of_elements + n) =
        omega (arith, length-append log xs) in
      record { front = ap (λ i. take i (h.contents d)) (sym sum) ∙ k; count = sum }
  counted n log xs e (throws d) m c b k = record {
    front = ap (λ i. take i (h.contents d)) (sym c) ∙ k;
    count = c;
  }

  -- Growing a dataset behind the elements of its log, and writing there.
  grown :
      (n : ℕ) (log xs : List A) (e : Extensible D) (r : Run D)
      → n ≡ length xs
      → length log + length xs < 2 ^ 64
      → IsLogged h log e
      → Ends (HasRoom log xs) (IsKept log) r
      → Ends
          (IsLogged h (log ++ xs))
          (IsLogged h log)
          (count_elements h n e (r then h.write xs e.nr_of_elements))
  grown n log xs e r m b l k =
      subst
        (λ i.
          Ends (IsLogged h (log ++ xs)) (IsLogged h log)
            (count_elements h n e (r then h.write xs i)))
        l.count
        (counted n log xs e (r then h.write xs (length log)) m l.count b (
          then-Ends (HasRoom log xs) (IsKept log) (IsKept (log ++ xs)) r (h.write xs (length log)) k
            (write-Ends log xs)))

  -- An append that returns adds its elements to the log, one that throws leaves the log.
  pub append-IsLogged :
      (a : Append A) (log : List A) (e : Extensible D)
      → length log + length (elements a) < 2 ^ 64
      → IsLogged h log e
      → Ends (IsLogged h (log ++ elements a)) (IsLogged h log) (append h a e)
  unfolding append append_array append_element append_adapter
  append-IsLogged (array xs) log e b l =
      grown (length xs) log xs e (h.extent (length xs) e.dataset) refl b l
        (extent-Ends (length xs) log xs e.dataset refl (kept log e l))
  append-IsLogged (one x) log e b l =
      grown 1 log (x ∷ []) e (h.extent 1 e.dataset) refl b l
        (extent-Ends 1 log (x ∷ []) e.dataset refl (kept log e l))
  append-IsLogged (adapter []) log e b l = subst (λ r. IsLogged h r e) (sym (append-nil log)) l
  append-IsLogged (adapter (x ∷ xs)) log e b l =
      grown (length (x ∷ xs)) log (x ∷ xs) e
        (h.resize (u64 (e.nr_of_elements + length (x ∷ xs))) e.dataset) refl b l
        (resize-Ends (u64 (e.nr_of_elements + length (x ∷ xs))) log (x ∷ xs) e.dataset
          (omega (arith, l.count)) (kept log e l))

  -- The elements that a dataset counts are, whatever calls failed, those of the appends that returned.
  -- This holds of a sequence of appends from any dataset that counts the elements of its log.
  pub append_all-IsLogged :
      (as_ : List (Append A)) (log : List A) (e : Extensible D)
      → length log + total as_ < 2 ^ 64
      → IsLogged h log e
      → let (e', results) = append_all h as_ e in IsLogged h (log_all as_ results log) e'
  unfolding append_all
  append_all-IsLogged [] log e b l = l
  append_all-IsLogged (a ∷ rest) log e b l =
      after (append h a e) (append-IsLogged a log e (omega arith) l)
        (λ log' e' b' l'. append_all-IsLogged rest log' e' b' l')
    where
      after :
          (r : Run (Extensible D))
          → Ends (IsLogged h (log ++ elements a)) (IsLogged h log) r
          → ((log' : List A) (e' : Extensible D)
              → length log' + total rest < 2 ^ 64
              → IsLogged h log' e'
              → IsLogged h (log_all rest (append_all h rest e').1 log') (append_all h rest e').0)
          → IsLogged h
              (log_all (a ∷ rest) (returned r ∷ (append_all h rest (left r)).1) log)
              (append_all h rest (left r)).0
      after (completes e') k next =
          next (log ++ elements a) e' (omega (arith, length-append log (elements a))) k
      after (throws e') k next = next log e' (omega arith) k
