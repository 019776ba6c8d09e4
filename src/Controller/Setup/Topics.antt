-- ===== src/Controller/Setup/Topics.antt =====
-- What `initStreams` starts, and when it gives up: src/StreamController.cpp.
use kafka_to_nexus.Common.{
  ◌≡◌, refl, sym, ap, ◌∙◌, Bool, true, false, List, [], ◌∷◌, ◌++◌, Text, text_eq, if◌then◌else◌,
  map, keep, All, Any, Bool-cases, inl, inr, append-nil, append_assoc,
}
use kafka_to_nexus.Controller.Setup.{
  Source, Setup, TopicMap, key_of, push_back, mem, group, init_streams, send, missing_topic,
  is_empty_text, check_streams,
}
use kafka_to_nexus.Controller.Setup.Grouping.{
  sources_for, keys_for, IsRising, push_back-IsRising, push_back-sources_for,
}

abbrev pub IsKnown : List Text → Source → Type 0
IsKnown known s = mem s.topic_name known ≡ true

abbrev pub IsUnknown : List Text → Source → Type 0
IsUnknown known s = mem s.topic_name known ≡ false

group-IsRising :
    (known : List Text) (ss : List Source) (m : TopicMap) (errors : Text)
    → IsRising m
    → IsRising (group known ss m errors).0
unfolding group
group-IsRising known [] m errors r = r
group-IsRising known (s ∷ ss) m errors r = elim (Bool-cases (mem s.topic_name known)) [
  | inl q ↦ rw q (
      group-IsRising known ss (push_back s.topic_name (key_of s) m) errors
        (push_back-IsRising s.topic_name (key_of s) m r))
  | inr q ↦ rw q (group-IsRising known ss m (errors ++ missing_topic s) r)
]

group-sources_for :
    (t : Text) (known : List Text) (ss : List Source) (m : TopicMap) (errors : Text)
    → IsRising m
    → All (IsKnown known) ss
    → (sources_for t (group known ss m errors).0 ≡ sources_for t m ++ keys_for t ss)
      × ((group known ss m errors).1 ≡ errors)
unfolding group
group-sources_for t known [] m errors r k = (sym (append-nil (sources_for t m)), refl)
group-sources_for t known (s ∷ ss) m errors r k =
    let next = push_back s.topic_name (key_of s) m in
    let ih =
      group-sources_for t known ss next errors (push_back-IsRising s.topic_name (key_of s) m r)
        k.1 in
    rw (k.0) (
      ih.0
          ∙ ap (λ x. x ++ keys_for t ss) (push_back-sources_for t s.topic_name (key_of s) m r)
          ∙ one_more (text_eq s.topic_name t),
      ih.1,
    )
  where
    one_more :
        (b : Bool)
        → (if b then sources_for t m ++ key_of s ∷ [] else sources_for t m) ++ keys_for t ss
          ≡ sources_for t m
            ++ map key_of (
                if b
                then s ∷ keep (λ x. text_eq x.topic_name t) ss
                else keep (λ x. text_eq x.topic_name t) ss)
    one_more true = append_assoc (sources_for t m) (key_of s ∷ []) (keys_for t ss)
    one_more false = refl

not_empty : (e : Text) (s : Source) → is_empty_text (e ++ missing_topic s) ≡ false
not_empty [] s = refl
not_empty (b ∷ e) s = refl

-- Once there is an error, it stays.
error_stays :
    (known : List Text) (ss : List Source) (m : TopicMap) (errors : Text)
    → is_empty_text errors ≡ false
    → is_empty_text (group known ss m errors).1 ≡ false
unfolding group
error_stays known [] m errors h = h
error_stays known (s ∷ ss) m errors h = elim (Bool-cases (mem s.topic_name known)) [
  | inl q ↦ rw q (error_stays known ss (push_back s.topic_name (key_of s) m) errors h)
  | inr q ↦ rw q (error_stays known ss m (errors ++ missing_topic s) (not_empty errors s))
]

unknown_is_error :
    (known : List Text) (ss : List Source) (m : TopicMap) (errors : Text)
    → Any (IsUnknown known) ss
    → is_empty_text (group known ss m errors).1 ≡ false
unfolding group
unknown_is_error known [] m errors h = elim h [ ]
unknown_is_error known (s ∷ ss) m errors (inl q) =
    rw q (error_stays known ss m (errors ++ missing_topic s) (not_empty errors s))
unknown_is_error known (s ∷ ss) m errors (inr h) = elim (Bool-cases (mem s.topic_name known)) [
  | inl q ↦ rw q (unknown_is_error known ss (push_back s.topic_name (key_of s) m) errors h)
  | inr q ↦ rw q (unknown_is_error known ss m (errors ++ missing_topic s) h)
]

-- If the broker lists the topics of all sources, one topic is started for each of their names, in
-- rising order, with the sources of that name in order, and the streams are checked next. If it lacks
-- the topic of one source, no topic is started and the error state is set.
pub init_streams-sources_for :
    (sources : List Source) (known : List Text) (c : Setup)
    → let c' = init_streams sources known c in
      (All (IsKnown known) sources
        → (m : TopicMap) × (c'.started ≡ c.started ++ m)
          × IsRising m
          × ((t : Text) → sources_for t m ≡ keys_for t sources)
          × (c'.has_error ≡ c.has_error)
          × (c'.tasks ≡ c.tasks ++ check_streams ∷ []))
      × (Any (IsUnknown known) sources
          → (c'.has_error ≡ true) × (c'.started ≡ c.started) × (c'.tasks ≡ c.tasks))
unfolding init_streams send
init_streams-sources_for sources known c = (starts, refuses)
  where
    starts :
        All (IsKnown known) sources
        → (m : TopicMap) × ((init_streams sources known c).started ≡ c.started ++ m)
          × IsRising m
          × ((t : Text) → sources_for t m ≡ keys_for t sources)
          × ((init_streams sources known c).has_error ≡ c.has_error)
          × ((init_streams sources known c).tasks ≡ c.tasks ++ check_streams ∷ [])
    starts k =
        let no_error : (group known sources [] []).1 ≡ [] =
          (group-sources_for [] known sources [] [] tt k).1 in
        (
          (group known sources [] []).0,
          rw no_error refl,
          group-IsRising known sources [] [] tt,
          (λ t. (group-sources_for t known sources [] [] tt k).0),
          rw no_error refl,
          rw no_error refl,
        )

    refuses :
        Any (IsUnknown known) sources
        → ((init_streams sources known c).has_error ≡ true)
          × ((init_streams sources known c).started ≡ c.started)
          × ((init_streams sources known c).tasks ≡ c.tasks)
    refuses k = let e = unknown_is_error known sources [] [] k in (rw e refl, rw e refl, rw e refl)
