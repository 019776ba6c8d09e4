-- ===== src/Writer/Da00/Aligned.antt =====
-- The rows of the variables stay aligned: src/WriterModule/da00/da00_Writer.cpp.
use kafka_to_nexus.Common.{
  ℕ, ◌+◌, ◌≤◌, ◌≡◌, refl, sym, ap, ◌∙◌, subst, true, false, List, [], ◌∷◌, ◌++◌, Text, text_eq,
  text_eq_sound, text_eq_refl, ◌==◌, ◌||◌, if◌then◌else◌, length, length-append, length-map, All,
  Bool-cases, inl, inr, arith, map,
}
use kafka_to_nexus.Dataset.{completes, ◌then◌}
use kafka_to_nexus.Writer.Da00.{
  Appends, names, mem, append_at, write_buffers, append_missing, write_variables,
}

abbrev pub Distinct : List Text → Type 0
Distinct [] = Unit
Distinct (n ∷ ns) = (mem n ns ≡ false) × Distinct ns

text_eq-other : (a b : Text) → text_eq a b ≡ false → text_eq b a ≡ false
text_eq-other a b h = elim (Bool-cases (text_eq b a)) [
  | inl q ↦
      let wrong : text_eq a b ≡ true =
        ap (λ x. text_eq x b) (sym (text_eq_sound b a q)) ∙ text_eq_refl b in
      cc
  | inr q ↦ q
]

mem-append :
    (k name : Text) (order : List Text)
    → mem k (order ++ name ∷ []) ≡ (mem k order || text_eq name k)
mem-append k name [] = ground arith
mem-append k name (n ∷ ns) = ground (arith, mem-append k name ns)

-- How many of some names are in the order.
abbrev marked : List Text → List Text → ℕ
marked order [] = 0
marked order (k ∷ ks) = (if mem k order then 1 else 0) + marked order ks

marked-other :
    (name : Text) (order ks : List Text)
    → mem name ks ≡ false
    → marked (order ++ name ∷ []) ks ≡ marked order ks
marked-other name order [] h = refl
marked-other name order (k ∷ ks) h =
    let apart : text_eq k name ≡ false = ground (arith, h) in
    let later : mem name ks ≡ false = ground (arith, h) in
    rw (mem-append k name order, text_eq-other k name apart, marked-other name order ks later)
      (ground arith)

marked-append :
    (name : Text) (order ks : List Text)
    → Distinct ks
    → mem name ks ≡ true
    → mem name order ≡ false
    → marked (order ++ name ∷ []) ks ≡ marked order ks + 1
marked-append name order [] d h f = cc
marked-append name order (k ∷ ks) d h f = elim (Bool-cases (text_eq k name)) [
  | inl q ↦
      let same : k ≡ name = text_eq_sound k name q in
      let gone : mem name ks ≡ false = ap (λ x. mem x ks) (sym same) ∙ d.0 in
      let new : mem k (order ++ name ∷ []) ≡ true =
        mem-append k name order
        ∙ ap (λ x. mem k order || text_eq x k) (sym same)
        ∙ (rw (text_eq_refl k) (ground arith)) in
      let old : mem k order ≡ false = ap (λ x. mem x order) same ∙ f in
      rw (new, old, marked-other name order ks gone) (omega arith)
  | inr q ↦
      let later : mem name ks ≡ true = ground (arith, h, q) in
      rw (mem-append k name order, text_eq-other k name q, marked-append name order ks d.1 later f)
        (ground arith)
]

marked-le : (order ks : List Text) → marked order ks ≤ length ks
marked-le order [] = omega arith
marked-le order (k ∷ ks) = ground (arith, marked-le order ks)

marked-full :
    (order ks : List Text) → marked order ks ≡ length ks → All (λ k. mem k order ≡ true) ks
marked-full order [] h = tt
marked-full order (k ∷ ks) h = elim (Bool-cases (mem k order)) [
  | inl q ↦ (q, marked-full order ks (ground (arith, h, q)))
  | inr q ↦ absurd (ground (arith, h, q, marked-le order ks))
]

-- `kind` is what an append leaves of a variable; `Fits` says which buffers can be appended to it, and
-- `IsReady` to which a missing row can be.
module _ {M V K : Type 0} (a : Appends M V) (rows : V → ℕ) (kind : V → K) (Fits : M → K → Type 0)
    (IsReady : K → Type 0) where
  -- From a number of rows, what fits is appended, and adds one row.
  pub record IsReliable (n : ℕ) : Type 0 where
    pub appends :
        (m : M) (v : V)
        → rows v ≡ n
        → Fits m (kind v)
        → (v' : V) × (a.variable_append m v ≡ completes v') × (rows v' ≡ n + 1) × (kind v' ≡ kind v)
    pub pads :
        (v : V)
        → rows v ≡ n
        → IsReady (kind v)
        → (v' : V) × (a.variable_append_missing v ≡ completes v') × (rows v' ≡ n + 1)

  abbrev pub kinds : List (Text × V) → List (Text × K)
  kinds = map (λ p. (p.0, kind p.1))

  -- A buffer fits the variable of its name.
  abbrev pub FitsAt : Text × M → List (Text × V) → Type 0
  FitsAt (name, m) vs = All (λ k. text_eq k.0 name ≡ true → Fits m k.1) (kinds vs)

  -- All variables have a number of rows.
  abbrev pub IsAligned : ℕ → List (Text × V) → Type 0
  IsAligned n = All (λ p. rows p.1 ≡ n)

  -- Those in the order have one row more.
  abbrev IsCounted : ℕ → List Text → List (Text × V) → Type 0
  IsCounted n order = All (λ p. rows p.1 ≡ (if mem p.0 order then n + 1 else n))

  IsCounted-other :
      (n : ℕ) (name : Text) (order : List Text) (vs : List (Text × V))
      → mem name (names vs) ≡ false
      → IsCounted n order vs
      → IsCounted n (order ++ name ∷ []) vs
  IsCounted-other n name order [] h c = tt
  IsCounted-other n name order ((k, v) ∷ vs) h c =
      let apart : text_eq k name ≡ false = ground (arith, h) in
      let later : mem name (names vs) ≡ false = ground (arith, h) in
      let same : mem k (order ++ name ∷ []) ≡ mem k order =
        mem-append k name order ∙ rw (text_eq-other k name apart) (ground arith) in
      (c.0 ∙ rw same refl, IsCounted-other n name order vs later c.1)

  module _ (n : ℕ) (reliable : IsReliable n) where
    append_at-IsCounted :
        (m : M) (name : Text) (order : List Text) (vs : List (Text × V))
        → Distinct (names vs)
        → mem name (names vs) ≡ true
        → mem name order ≡ false
        → IsCounted n order vs
        → FitsAt (name, m) vs
        → (vs' : List (Text × V)) × (append_at a m name vs ≡ completes vs')
          × (names vs' ≡ names vs)
          × (kinds vs' ≡ kinds vs)
          × IsCounted n (order ++ name ∷ []) vs'
    unfolding append_at
    append_at-IsCounted m name order [] d h f c g = cc
    append_at-IsCounted m name order ((k, v) ∷ vs) d h f c g = elim (Bool-cases (text_eq k name)) [
      | inl q ↦
          let same : k ≡ name = text_eq_sound k name q in
          let gone : mem name (names vs) ≡ false = ap (λ x. mem x (names vs)) (sym same) ∙ d.0 in
          let old : mem k order ≡ false = ap (λ x. mem x order) same ∙ f in
          let new : mem k (order ++ name ∷ []) ≡ true =
            mem-append k name order
            ∙ ap (λ x. mem k order || text_eq x k) (sym same)
            ∙ (rw (text_eq_refl k) (ground arith)) in
          let before : rows v ≡ n = c.0 ∙ rw old refl in
          let (v', s, r, t) = reliable.appends m v before (g.0 q) in
          (
            (k, v') ∷ vs,
            rw (q, s) refl,
            refl,
            ap (λ x. (k, x) ∷ kinds vs) t,
            (r ∙ rw new refl, IsCounted-other n name order vs gone c.1),
          )
      | inr q ↦
          let later : mem name (names vs) ≡ true = ground (arith, h, q) in
          let (vs', s, e, t, c') = append_at-IsCounted m name order vs d.1 later f c.1 g.1 in
          let same : mem k (order ++ name ∷ []) ≡ mem k order =
            mem-append k name order ∙ rw (text_eq-other k name q) (ground arith) in
          (
            (k, v) ∷ vs',
            rw (q, s) refl,
            ap (λ x. k ∷ x) e,
            ap (λ x. (k, kind v) ∷ x) t,
            (c.0 ∙ rw same refl, c'),
          )
    ]

    append_missing-IsAligned :
        (order : List Text) (vs : List (Text × V))
        → IsCounted n order vs
        → All (λ k. IsReady k.1) (kinds vs)
        → (vs' : List (Text × V)) × (append_missing a order vs ≡ completes vs')
          × (names vs' ≡ names vs)
          × IsAligned (n + 1) vs'
    unfolding append_missing
    append_missing-IsAligned order [] c g = ([], refl, refl, tt)
    append_missing-IsAligned order ((k, v) ∷ vs) c g =
        let (vs', s, e, l) = append_missing-IsAligned order vs c.1 g.1 in
        elim (Bool-cases (mem k order)) [
          | inl q ↦ ((k, v) ∷ vs', rw (q, s) refl, ap (λ x. k ∷ x) e, (c.0 ∙ rw q refl, l))
          | inr q ↦
              let before : rows v ≡ n = c.0 ∙ rw q refl in
              let (v', t, r) = reliable.pads v before g.0 in
              ((k, v') ∷ vs', rw (q, t, s) refl, ap (λ x. k ∷ x) e, (r, l))
        ]

    still_new :
        (name : Text) (order : List Text) (bs : List (Text × M))
        → mem name (names bs) ≡ false
        → All (λ b. mem b.0 order ≡ false) bs
        → All (λ b. mem b.0 (order ++ name ∷ []) ≡ false) bs
    still_new name order [] h f = tt
    still_new name order ((k, m) ∷ bs) h f =
        let apart : text_eq k name ≡ false = ground (arith, h) in
        let later : mem name (names bs) ≡ false = ground (arith, h) in
        (
          mem-append k name order ∙ rw (f.0, text_eq-other k name apart) refl,
          still_new name order bs later f.1,
        )

    still_fits :
        (bs : List (Text × M)) (vs vs1 : List (Text × V))
        → kinds vs ≡ kinds vs1
        → All (λ b. FitsAt b vs) bs
        → All (λ b. FitsAt b vs1) bs
    still_fits [] vs vs1 e g = tt
    still_fits ((name, m) ∷ bs) vs vs1 e g =
        (subst (All (λ k. text_eq k.0 name ≡ true → Fits m k.1)) e g.0, still_fits bs vs vs1 e g.1)

    abbrev Written : List (Text × M) → List (Text × V) → List Text → Type 0
    Written bs vs order =
        (vs' : List (Text × V)) × (order' : List Text) × (write_buffers a bs (vs, order)
          ≡ completes (vs', order'))
        × (names vs' ≡ names vs)
        × (kinds vs' ≡ kinds vs)
        × IsCounted n order' vs'
        × (marked order' (names vs) ≡ length order')

    write_buffers-Written :
        (bs : List (Text × M)) (vs : List (Text × V)) (order : List Text)
        → Distinct (names vs)
        → Distinct (names bs)
        → All (λ b. mem b.0 order ≡ false) bs
        → IsCounted n order vs
        → marked order (names vs) ≡ length order
        → All (λ b. FitsAt b vs) bs
        → Written bs vs order
    unfolding write_buffers
    write_buffers-Written [] vs order d e f c m g = (vs, order, refl, refl, refl, c, m)
    write_buffers-Written ((name, x) ∷ bs) vs order d e f c m g =
        elim (Bool-cases (mem name (names vs))) [
          | inl q ↦
              let (vs1, s, same, kept, c1) = append_at-IsCounted x name order vs d q f.0 c g.0 in
              let m1 : marked (order ++ name ∷ []) (names vs1) ≡ length (order ++ name ∷ []) =
                ap (marked (order ++ name ∷ [])) same
                ∙ marked-append name order (names vs) d q f.0
                ∙ omega (arith, m, length-append order (name ∷ [])) in
              let (vs', order', t, same', kept', c', m') =
                write_buffers-Written bs vs1 (order ++ name ∷ []) (subst Distinct (sym same) d) e.1
                  (still_new name order bs e.0 f.1) c1 m1 (still_fits bs vs vs1 (sym kept) g.1) in
              (
                vs',
                order',
                rw (q, s) t,
                same' ∙ same,
                kept' ∙ kept,
                c',
                ap (marked order') (sym same) ∙ m',
              )
          | inr q ↦
              let (vs', order', t, same', kept', c', m') =
                write_buffers-Written bs vs order d e.1 f.1 c m g.1 in
              (vs', order', rw q t, same', kept', c', m')
        ]

    marked-nothing : (ks : List Text) → marked [] ks ≡ 0
    marked-nothing [] = refl
    marked-nothing (k ∷ ks) = omega (arith, marked-nothing ks)

    nothing_new : (bs : List (Text × M)) → All (λ b. mem b.0 [] ≡ false) bs
    nothing_new [] = tt
    nothing_new (b ∷ bs) = (refl, nothing_new bs)

    nothing-IsCounted : (vs : List (Text × V)) → IsAligned n vs → IsCounted n [] vs
    nothing-IsCounted [] l = tt
    nothing-IsCounted (v ∷ vs) l = (l.0, nothing-IsCounted vs l.1)

    All-IsCounted :
        (order : List Text) (vs : List (Text × V))
        → All (λ k. mem k order ≡ true) (names vs)
        → IsCounted n order vs
        → IsAligned (n + 1) vs
    All-IsCounted order [] k c = tt
    All-IsCounted order (v ∷ vs) k c = (c.0 ∙ rw (k.0) refl, All-IsCounted order vs k.1 c.1)

    -- Every variable has one row more after a message, also those that it has no buffer for.
    pub write_variables-IsAligned :
        (bs : List (Text × M)) (vs : List (Text × V))
        → Distinct (names vs)
        → Distinct (names bs)
        → IsAligned n vs
        → All (λ b. FitsAt b vs) bs
        → All (λ k. IsReady k.1) (kinds vs)
        → (vs' : List (Text × V)) × (write_variables a bs vs ≡ completes vs')
          × (names vs' ≡ names vs)
          × IsAligned (n + 1) vs'
    unfolding write_variables
    write_variables-IsAligned bs vs d e l g y =
        let (vs1, order, s, same, kept, c, m) =
          write_buffers-Written bs vs [] d e (nothing_new bs) (nothing-IsCounted vs l)
            (marked-nothing (names vs)) g in
        elim (Bool-cases (length order == length vs1)) [
          | inl q ↦
              let full : marked order (names vs1) ≡ length (names vs1) =
                ap (marked order) same ∙ m ∙ ground (arith, q) ∙ sym (length-map (λ p. p.0) vs1) in
              (
                vs1,
                rw (s, q) refl,
                same,
                All-IsCounted order vs1 (marked-full order (names vs1) full) c,
              )
          | inr q ↦
              let (vs', t, same', l') =
                append_missing-IsAligned order vs1 c
                  (subst (All (λ k. IsReady k.1)) (sym kept) y) in
              (vs', rw (s, q) t, same' ∙ same, l')
        ]
