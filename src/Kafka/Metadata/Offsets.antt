-- ===== src/Kafka/Metadata/Offsets.antt =====
-- The answers of the broker as the queries pass them on: src/Kafka/MetaDataQuery.cpp.
use kafka_to_nexus.Common.{
  ℤ, ◌≡◌, refl, ap, ◌∙◌, true, false, List, [], ◌∷◌, Option, none, some, map, All, Any, Bool-cases,
  inl, inr,
}
use kafka_to_nexus.Kafka.Metadata.{PartitionAnswer, collect_offsets, collected, get_offset_for_time}

abbrev pub HasNoError : PartitionAnswer → Type 0
HasNoError a = a.has_error ≡ false

abbrev pub HasError : PartitionAnswer → Type 0
HasError a = a.has_error ≡ true

collect_offsets-All :
    (answers : List PartitionAnswer)
    → (All HasNoError answers
        → collect_offsets answers ≡ some (map (λ a. (a.partition, a.offset)) answers))
      × (Any HasError answers → collect_offsets answers ≡ none)
unfolding collect_offsets
collect_offsets-All [] = ((λ h. refl), (λ h. elim h [ ]))
collect_offsets-All (a ∷ answers) =
    let ih = collect_offsets-All answers in ((λ h. rw (h.0, ih.0 h.1) refl), fails ih.1)
  where
    fails :
        (Any HasError answers → collect_offsets answers ≡ none)
        → Any HasError (a ∷ answers)
        → collect_offsets (a ∷ answers) ≡ none
    fails ih (inl e) = rw e refl
    fails ih (inr k) = elim (Bool-cases a.has_error) [
      | inl e ↦ rw e refl
      | inr e ↦ rw (e, ih k) refl
    ]

-- A query for offsets that librdkafka answers gives those of all partitions of the answer, in its
-- order, if none of them has an error, and throws if one has.
pub get_offset_for_time-All :
    (H : Type 0) (handle : H) (call : H → List (ℤ × ℤ) → ℤ → Option (List PartitionAnswer))
    (partitions : List ℤ) (time_ms timeout_ms : ℤ) (answers : List PartitionAnswer)
    → call handle (map (λ p. (p, time_ms)) partitions) timeout_ms ≡ some answers
    → (All HasNoError answers
        → get_offset_for_time (some handle) call partitions time_ms timeout_ms
          ≡ some (map (λ a. (a.partition, a.offset)) answers))
      × (Any HasError answers
          → get_offset_for_time (some handle) call partitions time_ms timeout_ms ≡ none)
unfolding get_offset_for_time
get_offset_for_time-All H handle call partitions time_ms timeout_ms answers e =
    let r = collect_offsets-All answers in
    ((λ h. ap collected e ∙ r.0 h), (λ h. ap collected e ∙ r.1 h))
