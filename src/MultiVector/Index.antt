-- ===== src/MultiVector/Index.antt =====
-- The index of a position, against its recursive description.
use kafka_to_nexus.Common.{
  ℕ, ◌+◌, ◌*◌, ◌<◌, ◌≤◌, ◌≡◌, refl, sym, ap, ◌∙◌, List, [], ◌∷◌, ◌++◌, length, take, suc, arith,
  length-append, append_assoc, All, All-append, All-split, subst, ◌^◌,
}
use mathlib.Core.Path.{ap₂}
use mathlib.Core.Logic.{◌⊎◌, inl, inr}
use mathlib.Core.List.{reverse, reverse-cons}
use kafka_to_nexus.MultiVector.{u64, as_int, int_product, index_loop, pos_to_index}

-- Row-major order: the first coordinate counts blocks of the size of all others.
abbrev pub size : List ℕ → ℕ
size [] = 1
size (n ∷ ns) = n * size ns

abbrev pub row_major : List ℕ → List ℕ → ℕ
row_major (n ∷ ns) (p ∷ ps) = p * size ns + row_major ns ps
row_major _ _ = 0

-- A position within a shape.
abbrev pub IsWithin : List ℕ → List ℕ → Type 0
IsWithin [] [] = Unit {0}
IsWithin [] (n ∷ ns) = ⊥
IsWithin (p ∷ ps) [] = ⊥
IsWithin (p ∷ ps) (n ∷ ns) = (p < n) × IsWithin ps ns

abbrev pub IsPositive : List ℕ → Type 0
IsPositive = All (λ n. 0 < n)

pub size_pos : (ns : List ℕ) → IsPositive ns → 0 < size ns
size_pos [] h = omega arith
size_pos (n ∷ ns) h = let r = size_pos ns h.1 in grind arith

le-mul : (a b : ℕ) → 0 < b → a ≤ a * b
le-mul a b h = grind arith

pub as_int-small : (n : ℕ) → n < 2 ^ 31 → as_int (u64 n) ≡ n
unfolding as_int
as_int-small n h = ground arith

pub int_product-size :
    (acc : ℕ) (ns : List ℕ)
    → IsPositive ns
    → acc * size ns < 2 ^ 31
    → int_product acc ns ≡ acc * size ns
unfolding int_product
int_product-size acc [] h b = omega arith
int_product-size acc (n ∷ ns) h b =
    let e : acc * (n * size ns) ≡ acc * n * size ns = omega arith in
    let s : acc * n < 2 ^ 31 = omega (arith, le-mul (acc * n) (size ns) (size_pos ns h.1), e) in
    rw (as_int-small (acc * n) s, e) (int_product-size (acc * n) ns h.1 (omega (arith, e)))

size-append : (ns ms : List ℕ) → size (ns ++ ms) ≡ size ns * size ms
size-append [] ms = omega arith
size-append (n ∷ ns) ms = rw (size-append ns ms) (omega arith)

size-reverse : (ns : List ℕ) → size (reverse ns) ≡ size ns
size-reverse [] = refl
size-reverse (n ∷ ns) =
    rw (reverse-cons n ns) (rw (size-append (reverse ns) (n ∷ []), size-reverse ns) (omega arith))

length-reverse : (ns : List ℕ) → length (reverse ns) ≡ length ns
length-reverse [] = refl
length-reverse (n ∷ ns) =
    rw (reverse-cons n ns) (omega (arith, length-append (reverse ns) (n ∷ []), length-reverse ns))

IsPositive-reverse : (ns : List ℕ) → IsPositive ns → IsPositive (reverse ns)
IsPositive-reverse [] h = tt
IsPositive-reverse (n ∷ ns) h =
    rw (reverse-cons n ns)
      (All-append _ (reverse ns) (n ∷ []) (IsPositive-reverse ns h.1) (h.0, tt))

-- The index with the last coordinate first: mixed radix, least digit first.
abbrev digits : ℕ → List ℕ → List ℕ → ℕ
digits stride (d ∷ ds) (p ∷ ps) = stride * p + digits (stride * d) ds ps
digits _ _ _ = 0

digits-append :
    (s : ℕ) (ds ps : List ℕ) (n p : ℕ)
    → length ds ≡ length ps
    → digits s (ds ++ n ∷ []) (ps ++ p ∷ []) ≡ digits s ds ps + s * size ds * p
digits-append s [] [] n p e = omega arith
digits-append s [] (q ∷ ps) n p e = absurd (omega arith)
digits-append s (d ∷ ds) [] n p e = absurd (omega arith)
digits-append s (d ∷ ds) (q ∷ ps) n p e =
    rw (digits-append (s * d) ds ps n p (omega arith)) (omega arith)

digits-row_major :
    (ns ps : List ℕ) → length ns ≡ length ps → digits 1 (reverse ns) (reverse ps) ≡ row_major ns ps
digits-row_major [] [] e = refl
digits-row_major [] (p ∷ ps) e = absurd (omega arith)
digits-row_major (n ∷ ns) [] e = absurd (omega arith)
digits-row_major (n ∷ ns) (p ∷ ps) e =
    rw (reverse-cons n ns, reverse-cons p ps)
      (rw
        (
          digits-append 1 (reverse ns) (reverse ps) n p
              (omega (arith, length-reverse ns, length-reverse ps)),
          digits-row_major ns ps (omega arith),
          size-reverse ns,
        )
        (omega arith))

take-length : (xs ys : List ℕ) → take (length xs) (xs ++ ys) ≡ xs
take-length [] ys = refl
take-length (x ∷ xs) ys = rw (take-length xs ys)

-- The stride of the next digit.
stride :
    (taken ds : List ℕ) (i : ℕ)
    → length taken ≡ i
    → IsPositive (taken ++ ds)
    → size (taken ++ ds) < 2 ^ 31
    → int_product 1 (take i (taken ++ ds)) ≡ size taken
stride taken ds i e p s =
    let parts = All-split (λ n. 0 < n) taken ds p in
    let least = le-mul (size taken) (size ds) (size_pos ds parts.1) in
    rw (← e, take-length taken ds)
      (int_product-size 1 taken parts.0 (omega (arith, size-append taken ds, least)) ∙ omega arith)

index_loop-digits :
    (taken ds ps : List ℕ) (i index : ℕ)
    → length taken ≡ i
    → length ds ≡ length ps
    → IsPositive (taken ++ ds)
    → size (taken ++ ds) < 2 ^ 31
    → index + digits (size taken) ds ps < 2 ^ 64
    → index_loop (taken ++ ds) i ps index ≡ index + digits (size taken) ds ps
unfolding index_loop
index_loop-digits taken [] [] i index e l p s b = omega arith
index_loop-digits taken [] (q ∷ ps) i index e l p s b = absurd (omega arith)
index_loop-digits taken (d ∷ ds) [] i index e l p s b = absurd (omega arith)
index_loop-digits taken (d ∷ ds) (q ∷ ps) i index e l p s b =
    let assoc = append_assoc taken (d ∷ []) ds in
    let next : ℕ = index + size taken * q in
    let grown : size (taken ++ d ∷ []) ≡ size taken * d =
      size-append taken (d ∷ []) ∙ omega arith in
    let exact : u64 (index + int_product 1 (take i (taken ++ d ∷ ds)) * q) ≡ next =
      rw (stride taken (d ∷ ds) i e p s) (omega arith) in
    let rest =
      index_loop-digits (taken ++ d ∷ []) ds ps (suc i) next
        (omega (arith, length-append taken (d ∷ []))) (omega arith) (subst IsPositive (sym assoc) p)
        (subst (λ l. size l < 2 ^ 31) (sym assoc) s) (rw grown (omega arith)) in
    (λ j. index_loop (sym assoc j) (suc i) ps (exact j)) ∙ rest ∙ rw grown (omega arith)

IsWithin-IsPositive : (index shape : List ℕ) → IsWithin index shape → IsPositive shape
IsWithin-IsPositive [] [] h = tt
IsWithin-IsPositive [] (n ∷ ns) h = absurd h
IsWithin-IsPositive (p ∷ ps) [] h = absurd h
IsWithin-IsPositive (p ∷ ps) (n ∷ ns) h = (omega arith, IsWithin-IsPositive ps ns h.1)

IsWithin-length : (index shape : List ℕ) → IsWithin index shape → length shape ≡ length index
IsWithin-length [] [] h = refl
IsWithin-length [] (n ∷ ns) h = absurd h
IsWithin-length (p ∷ ps) [] h = absurd h
IsWithin-length (p ∷ ps) (n ∷ ns) h = ap suc (IsWithin-length ps ns h.1)

pub row_major-lt-size :
    (index shape : List ℕ) → IsWithin index shape → row_major shape index < size shape
row_major-lt-size [] [] h = omega arith
row_major-lt-size [] (n ∷ ns) h = absurd h
row_major-lt-size (p ∷ ps) [] h = absurd h
row_major-lt-size (p ∷ ps) (n ∷ ns) h = let r = row_major-lt-size ps ns h.1 in grind arith

-- For a position within a shape of fewer than 2^31 elements the index is that of the row-major order,
-- and lies below the number of elements.
pub pos_to_index-row_major :
    (index shape : List ℕ)
    → IsWithin index shape
    → size shape < 2 ^ 31
    → (pos_to_index shape index ≡ row_major shape index) × (pos_to_index shape index < size shape)
unfolding pos_to_index
pos_to_index-row_major index shape h s = (exact, rw exact (row_major-lt-size index shape h))
  where
    same : length shape ≡ length index
    same = IsWithin-length index shape h

    value : digits 1 (reverse shape) (reverse index) ≡ row_major shape index
    value = digits-row_major shape index same

    exact : pos_to_index shape index ≡ row_major shape index
    exact =
        index_loop-digits [] (reverse shape) (reverse index) 0 0 refl
          (omega (arith, same, length-reverse shape, length-reverse index))
          (IsPositive-reverse shape (IsWithin-IsPositive index shape h)) (rw (size-reverse shape) s)
          (omega (arith, value, row_major-lt-size index shape h, s))
        ∙ omega (arith, value)

less_block : (a b m r s : ℕ) → r < m → a < b → a * m + r < b * m + s
less_block a b m r s h l = let k : (a + 1) * m ≤ b * m = grind arith in omega arith

same_block : (a b m r s : ℕ) → r < m → s < m → a * m + r ≡ b * m + s → (a ≡ b) × (r ≡ s)
same_block a b m r s hr hs e = elim (order a b) [
  | inl l ↦ absurd (omega (arith, less_block a b m r s hr l))
  | inr (inl l) ↦ absurd (omega (arith, less_block b a m s r hs l))
  | inr (inr eq) ↦ (eq, omega (arith, ap (λ (t : ℕ). t * m) eq))
]
  where
    order : (a b : ℕ) → (a < b) ⊎ (b < a) ⊎ (a ≡ b)
    order a b = omega arith

pub row_major-injective :
    (p q shape : List ℕ)
    → IsWithin p shape
    → IsWithin q shape
    → row_major shape p ≡ row_major shape q
    → p ≡ q
row_major-injective [] [] shape h k e = refl
row_major-injective [] (b ∷ q) [] h k e = absurd k
row_major-injective [] (b ∷ q) (n ∷ ns) h k e = absurd h
row_major-injective (a ∷ p) [] [] h k e = absurd h
row_major-injective (a ∷ p) [] (n ∷ ns) h k e = absurd k
row_major-injective (a ∷ p) (b ∷ q) [] h k e = absurd h
row_major-injective (a ∷ p) (b ∷ q) (n ∷ ns) h k e =
    let same =
      same_block a b (size ns) (row_major ns p) (row_major ns q) (row_major-lt-size p ns h.1)
        (row_major-lt-size q ns k.1) e in
    ap₂ ◌∷◌ same.0 (row_major-injective p q ns h.1 k.1 same.1)
