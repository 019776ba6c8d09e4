-- ===== src/Controller/Setup/Grouping.antt =====
-- The topics of a job and the sources of each: src/StreamController.cpp.
use kafka_to_nexus.Common.{
  ◌≡◌, refl, subst, true, false, List, [], ◌∷◌, ◌++◌, Text, text_eq, text_eq_sound, if◌then◌else◌,
  if_both, map, keep, All, arith, Bool-cases, inl, inr,
}
use kafka_to_nexus.Stream.Partition.Filters.{SrcDstKey}
use kafka_to_nexus.Controller.Setup.{Source, TopicMap, key_of, text_lt, push_back}

text_lt_irrefl : (s : Text) → text_lt s s ≡ false
text_lt_irrefl [] = refl
text_lt_irrefl (a ∷ s) = ground (arith, text_lt_irrefl s)

text_lt_trans : (r s t : Text) → text_lt r s ≡ true → text_lt s t ≡ true → text_lt r t ≡ true
text_lt_trans [] [] t h k = cc
text_lt_trans [] (b ∷ s) [] h k = cc
text_lt_trans [] (b ∷ s) (c ∷ t) h k = refl
text_lt_trans (a ∷ r) [] t h k = cc
text_lt_trans (a ∷ r) (b ∷ s) [] h k = cc
text_lt_trans (a ∷ r) (b ∷ s) (c ∷ t) h k = ground (arith, text_lt_trans r s t)

text_lt_total : (s t : Text) → text_eq s t ≡ false → text_lt t s ≡ false → text_lt s t ≡ true
text_lt_total [] [] h k = cc
text_lt_total [] (b ∷ t) h k = refl
text_lt_total (a ∷ s) [] h k = cc
text_lt_total (a ∷ s) (b ∷ t) h k = ground (arith, text_lt_total s t)

-- The sources of a topic, and those of all topics in a list.
abbrev pub sources_for : Text → TopicMap → List SrcDstKey
sources_for topic [] = []
sources_for topic ((t, ks) ∷ rest) = if text_eq t topic then ks else sources_for topic rest

abbrev pub keys_for : Text → List Source → List SrcDstKey
keys_for topic ss = map key_of (keep (λ s. text_eq s.topic_name topic) ss)

-- Every topic behind `t` is greater; the topics rise strictly.
abbrev IsAbove : Text → TopicMap → Type 0
IsAbove t = All (λ e. text_lt t e.0 ≡ true)

abbrev pub IsRising : TopicMap → Type 0
IsRising [] = Unit
IsRising ((t, ks) ∷ rest) = All (λ e. text_lt t e.0 ≡ true) rest × IsRising rest

none_above : (t : Text) (m : TopicMap) → IsAbove t m → sources_for t m ≡ []
none_above t [] h = refl
none_above t ((u, ks) ∷ m) h =
    ground (arith, none_above t m, text_eq_sound u t, text_lt_irrefl u, h.0)

IsAbove-trans : (s t : Text) (m : TopicMap) → text_lt s t ≡ true → IsAbove t m → IsAbove s m
IsAbove-trans s t [] h k = tt
IsAbove-trans s t (e ∷ m) h k = (text_lt_trans s t e.0 h k.0, IsAbove-trans s t m h k.1)

push_back-IsAbove :
    (t topic : Text) (k : SrcDstKey) (m : TopicMap)
    → text_lt t topic ≡ true
    → IsAbove t m
    → IsAbove t (push_back topic k m)
unfolding push_back
push_back-IsAbove t topic k [] h a = (h, tt)
push_back-IsAbove t topic k ((u, ks) ∷ m) h a =
    if_both (IsAbove t) (text_eq u topic) _ _ a
      (if_both (IsAbove t) (text_lt topic u) _ _ (h, a) (a.0, push_back-IsAbove t topic k m h a.1))

pub push_back-IsRising :
    (topic : Text) (k : SrcDstKey) (m : TopicMap) → IsRising m → IsRising (push_back topic k m)
unfolding push_back
push_back-IsRising topic k [] r = (tt, tt)
push_back-IsRising topic k ((u, ks) ∷ m) r = elim (Bool-cases (text_eq u topic)) [
  | inl q ↦ rw q r
  | inr q ↦ elim (Bool-cases (text_lt topic u)) [
    | inl l ↦ rw (q, l) ((l, IsAbove-trans topic u m l r.0), r)
    | inr l ↦
        rw (q, l)
          (
            push_back-IsAbove u topic k m (text_lt_total u topic q l) r.0,
            push_back-IsRising topic k m r.1,
          )
  ]
]

before :
    (t topic u : Text) (k : SrcDstKey) (ks : List SrcDstKey) (m : TopicMap)
    → text_eq u topic ≡ false
    → sources_for topic m ≡ []
    → (if text_eq topic t then k ∷ [] else (if text_eq u t then ks else sources_for t m)) ≡ (
        if text_eq topic t
        then (if text_eq u t then ks else sources_for t m) ++ k ∷ []
        else (if text_eq u t then ks else sources_for t m))
before t topic u k ks m q n = elim (Bool-cases (text_eq topic t)) [
  | inl e ↦
      let same : topic ≡ t = text_eq_sound topic t e in
      let q' : text_eq u t ≡ false = subst (λ x. text_eq u x ≡ false) same q in
      let n' : sources_for t m ≡ [] = subst (λ x. sources_for x m ≡ []) same n in
      rw (e, q', n') refl
  | inr e ↦ rw e refl
]

behind :
    (t topic u : Text) (k : SrcDstKey) (ks : List SrcDstKey) (m : TopicMap)
    → text_eq u topic ≡ false
    → sources_for t (push_back topic k m)
      ≡ (if text_eq topic t then sources_for t m ++ k ∷ [] else sources_for t m)
    → (if text_eq u t then ks else sources_for t (push_back topic k m)) ≡ (
        if text_eq topic t
        then (if text_eq u t then ks else sources_for t m) ++ k ∷ []
        else (if text_eq u t then ks else sources_for t m))
behind t topic u k ks m q ih = elim (Bool-cases (text_eq topic t)) [
  | inl e ↦
      let same : topic ≡ t = text_eq_sound topic t e in
      let q' : text_eq u t ≡ false = subst (λ x. text_eq u x ≡ false) same q in rw (ih, e, q') refl
  | inr e ↦ rw (ih, e) refl
]

pub push_back-sources_for :
    (t topic : Text) (k : SrcDstKey) (m : TopicMap)
    → IsRising m
    → sources_for t (push_back topic k m)
      ≡ (if text_eq topic t then sources_for t m ++ k ∷ [] else sources_for t m)
unfolding push_back
push_back-sources_for t topic k [] r = ground arith
push_back-sources_for t topic k ((u, ks) ∷ m) r =
    let ih = push_back-sources_for t topic k m r.1 in
    elim (Bool-cases (text_eq u topic)) [
      | inl q ↦ rw q (let e : u ≡ topic = text_eq_sound u topic q in rw e (ground arith))
      | inr q ↦ elim (Bool-cases (text_lt topic u)) [
        | inl l ↦
            rw (q, l)
              (before t topic u k ks m q (none_above topic m (IsAbove-trans topic u m l r.0)))
        | inr l ↦ rw (q, l) (behind t topic u k ks m q ih)
      ]
    ]
