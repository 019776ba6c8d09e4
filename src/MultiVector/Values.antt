-- ===== src/MultiVector/Values.antt =====
-- Reading and writing the values of an array.
use kafka_to_nexus.Common.{
  ℕ, ◌<◌, ◌≡◌, ◌≢◌, refl, sym, ap, ◌∙◌, true, List, [], ◌∷◌, none, some, if◌then◌else◌, ltb, ◌==◌,
  length, suc, zero, arith, ◌↔◌, ◌^◌, inl, inr, Option-cases, ◌*◌, ◌%◌,
}
use kafka_to_nexus.MultiVector.{
  MultiVector, IndexError, done, failed, of_option, get_elem?, set, get_value, set_value,
  check_index, check_range, pos_to_index, int_product, as_int, index_loop, u64,
}
use kafka_to_nexus.MultiVector.Index.{
  IsWithin, size, pos_to_index-row_major, row_major-injective, as_int-small,
}

check_range-IsWithin :
    (index shape : List ℕ)
    → length index ≡ length shape
    → (check_range index shape ≡ none) ↔ IsWithin index shape
unfolding check_range
check_range-IsWithin [] [] e = ((λ _. tt), (λ _. refl))
check_range-IsWithin [] (n ∷ ns) e = absurd (omega arith)
check_range-IsWithin (p ∷ ps) [] e = absurd (omega arith)
check_range-IsWithin (p ∷ ps) (n ∷ ns) e =
    let r = check_range-IsWithin ps ns (omega arith) in ground arith

IsWithin-same : (index shape : List ℕ) → IsWithin index shape → length index ≡ length shape
IsWithin-same [] [] h = refl
IsWithin-same [] (n ∷ ns) h = absurd h
IsWithin-same (p ∷ ps) [] h = absurd h
IsWithin-same (p ∷ ps) (n ∷ ns) h = ap suc (IsWithin-same ps ns h.1)

-- The check of an index passes exactly when it lies within the shape.
check_index-IsWithin :
    (index shape : List ℕ) → (check_index index shape ≡ none) ↔ IsWithin index shape
unfolding check_index
check_index-IsWithin index shape = (to, from)
  where
    to : check_index index shape ≡ none → IsWithin index shape
    to h =
        let same : length index ≡ length shape = ground arith in
        (check_range-IsWithin index shape same).0 (ground arith)

    from : IsWithin index shape → check_index index shape ≡ none
    from h =
        let same = IsWithin-same index shape h in
        let passes = (check_range-IsWithin index shape same).1 h in ground arith

-- The vector has as many elements as the shape says, and few enough for the index's `int`.
pub record IsFilled {ℓ} {A : Type ℓ} (v : MultiVector A) : Type 0 where
  pub count : length v.elements ≡ size v.shape
  pub fits : size v.shape < 2 ^ 31

module _ {ℓ} {A : Type ℓ} where
  length-set : (xs : List A) (i : ℕ) (a : A) → length (set xs i a) ≡ length xs
  length-set [] i a = refl
  length-set (x ∷ xs) zero a = refl
  length-set (x ∷ xs) (suc i) a = ap suc (length-set xs i a)

  get_elem?-set :
      (xs : List A) (i j : ℕ) (a : A)
      → i < length xs
      → get_elem? (set xs i a) j ≡ (if i == j then some a else get_elem? xs j)
  get_elem?-set [] i j a h = elim h [ ]
  get_elem?-set (x ∷ xs) zero zero a h = refl
  get_elem?-set (x ∷ xs) zero (suc j) a h = ground arith
  get_elem?-set (x ∷ xs) (suc i) zero a h = ground arith
  get_elem?-set (x ∷ xs) (suc i) (suc j) a h = ground (arith, get_elem?-set xs i j a)

  pub get_elem?-some : (xs : List A) (i : ℕ) → i < length xs → (a : A) × (get_elem? xs i ≡ some a)
  get_elem?-some [] i h = elim h [ ]
  get_elem?-some (x ∷ xs) zero h = (x, refl)
  get_elem?-some (x ∷ xs) (suc i) h = get_elem?-some xs i (omega arith)

  get_value-within :
      (i : List ℕ) (v : MultiVector A)
      → IsWithin i v.shape
      → get_value i v ≡ of_option (get_elem? v.elements (pos_to_index v.shape i))
  unfolding get_value
  get_value-within i v h = rw ((check_index-IsWithin i v.shape).1 h, get_value)

  -- Reading within the shape of a filled array gives a value, never an access beyond the vector.
  -- Reading outside of it is refused.
  pub get_value_total :
      (i : List ℕ) (v : MultiVector A)
      → IsFilled v
      → (IsWithin i v.shape → (a : A) × (get_value i v ≡ done a))
        × (¬ IsWithin i v.shape → (e : IndexError) × (get_value i v ≡ failed e))
  unfolding get_value
  get_value_total i v f = (reads, refuses)
    where
      reads : IsWithin i v.shape → (a : A) × (get_value i v ≡ done a)
      reads h =
          let small = (pos_to_index-row_major i v.shape h f.fits).1 in
          let (a, e) =
            get_elem?-some v.elements (pos_to_index v.shape i) (omega (arith, f.count, small)) in
          (a, get_value-within i v h ∙ ap of_option e)

      refuses : ¬ IsWithin i v.shape → (e : IndexError) × (get_value i v ≡ failed e)
      refuses h = elim (Option-cases (check_index i v.shape)) [
        | inl e ↦ absurd (h ((check_index-IsWithin i v.shape).0 e))
        | inr (e, eq) ↦ (e, rw (eq, get_value))
      ]

  -- Writing within the shape of a filled array succeeds. The array stays filled and keeps its shape,
  -- the position holds the value written, and every other position what it held before.
  pub set_value-get_value :
      (i : List ℕ) (a : A) (v : MultiVector A)
      → IsFilled v
      → IsWithin i v.shape
      → (w : MultiVector A) × (set_value i a v ≡ done w)
        × IsFilled w
        × (w.shape ≡ v.shape)
        × (get_value i w ≡ done a)
        × ((j : List ℕ) → IsWithin j v.shape → j ≢ i → get_value j w ≡ get_value j v)
  unfolding set_value
  set_value-get_value i a v f h =
      (w, written, record { count = kept; fits = f.fits }, refl, same, others)
    where
      at : ℕ
      at = pos_to_index v.shape i

      inside : at < length v.elements
      inside = omega (arith, f.count, (pos_to_index-row_major i v.shape h f.fits).1)

      w : MultiVector A
      w = record v { elements = set v.elements at a }

      kept : length w.elements ≡ size v.shape
      kept = length-set v.elements at a ∙ f.count

      written : set_value i a v ≡ done w
      written =
          let below : ltb at (length v.elements) ≡ true = ground (arith, inside) in
          rw ((check_index-IsWithin i v.shape).1 h, set_value) (rw below)

      same : get_value i w ≡ done a
      same =
          get_value-within i w h
          ∙ ap of_option (get_elem?-set v.elements at at a inside ∙ written_here)
        where
          written_here : (if at == at then some a else get_elem? v.elements at) ≡ some a
          written_here = ground arith

      others : (j : List ℕ) → IsWithin j v.shape → j ≢ i → get_value j w ≡ get_value j v
      others j k ne =
          get_value-within j w k
          ∙ ap of_option (get_elem?-set v.elements at (pos_to_index v.shape j) a inside ∙ apart)
          ∙ sym (get_value-within j v k)
        where
          distinct : at ≢ pos_to_index v.shape j
          distinct e = ne (
              sym (
                row_major-injective i j v.shape h k (
                  sym (pos_to_index-row_major i v.shape h f.fits).0
                  ∙ e
                  ∙ (pos_to_index-row_major j v.shape k f.fits).0)))

          apart :
              (if at == pos_to_index v.shape j
                then some a
                else get_elem? v.elements (pos_to_index v.shape j))
              ≡ get_elem? v.elements (pos_to_index v.shape j)
          apart = ground (arith, distinct)

as_int-none : (n : ℕ) → n % 2 ^ 32 ≡ 0 → as_int (u64 n) ≡ 0
unfolding as_int
as_int-none n h = ground arith

-- The strides are accumulated in an `int`: where the size of the two inner dimensions is a multiple of
-- 2^32 the outer coordinate does not count, so that positions in different blocks share one index.
inner_blocks_collide :
    (n m k p q x y : ℕ)
    → k < 2 ^ 31
    → m * k % 2 ^ 32 ≡ 0
    → pos_to_index (n ∷ m ∷ k ∷ []) (p ∷ x ∷ y ∷ [])
      ≡ pos_to_index (n ∷ m ∷ k ∷ []) (q ∷ x ∷ y ∷ [])
unfolding pos_to_index index_loop int_product
inner_blocks_collide n m k p q x y h e =
    let small : as_int (u64 (1 * k)) ≡ k = as_int-small (1 * k) (omega arith) ∙ omega arith in
    rw (small, as_int-none (k * m) (omega arith)) (omega arith)
