-- ===== src/Kafka/Metadata.antt =====
-- The queries of metadata: src/Kafka/MetaDataQuery.cpp, and the assignments of src/Kafka/Consumer.cpp.
-- What librdkafka answers is an argument; nothing stands for the exceptions that are thrown.
pub mod Offsets
use kafka_to_nexus.Common.{
  ℤ, ℕ, Bool, true, false, List, [], ◌∷◌, ◌++◌, Option, none, some, Text, text_eq, bytes, map,
  if◌then◌else◌, ltb, ◌==◌, ◌&&◌, ◌||◌,
}

-- `RdKafka::TopicMetadata`: the name of a topic and the ids of its partitions.
pub record TopicMetadata : Type 0 where
  pub topic : Text
  pub partitions : List ℤ

-- `findTopicMetadata`, and the search at the end of `Consumer::getTopicMetadata`.
unfoldable pub find_topic_metadata : Text → List TopicMetadata → Option TopicMetadata
find_topic_metadata topic [] = none
find_topic_metadata topic (m ∷ ms) =
    if text_eq m.topic topic then some m else find_topic_metadata topic ms

-- The configuration of a handle: `set` is `Conf::set`, with false for another result than OK.
abbrev pub set_all : (Text → Text → Bool) → List (Text × Text) → Bool
set_all set [] = true
set_all set ((key, value) ∷ rest) = set key value && set_all set rest

-- `getKafkaHandle`; `create` is `RdKafka::Consumer::create`.
unfoldable pub get_kafka_handle :
    {H : Type 0} → (Text → Text → Bool) → Option H → Text → List (Text × Text) → Option H
get_kafka_handle set create broker settings =
    if set_all set settings && set (bytes "metadata.broker.list") broker then create else none

-- An answer for one partition, in the object that was sent: whether it has an error, and the offset.
pub record PartitionAnswer : Type 0 where
  pub partition : ℤ
  pub has_error : Bool
  pub offset : ℤ

-- The loop over the answers.
unfoldable pub collect_offsets : List PartitionAnswer → Option (List (ℤ × ℤ))
collect_offsets [] = some []
collect_offsets (a ∷ rest) =
    let later = collect_offsets rest in
    if a.has_error
    then none
    else elim later [ none ↦ none | some os ↦ some ((a.partition, a.offset) ∷ os) ]

abbrev pub collected : Option (List PartitionAnswer) → Option (List (ℤ × ℤ))
collected none = none
collected (some answers) = collect_offsets answers

-- `getOffsetForTime`: `offsets_for_times` fills in the partitions that it is given, or fails as a whole.
unfoldable pub get_offset_for_time :
    {H : Type 0}
    → Option H
    → (H → List (ℤ × ℤ) → ℤ → Option (List PartitionAnswer))
    → List ℤ
    → ℤ
    → ℤ
    → Option (List (ℤ × ℤ))
get_offset_for_time none offsets_for_times partitions time_ms timeout_ms = none
get_offset_for_time (some handle) offsets_for_times partitions time_ms timeout_ms =
    collected (offsets_for_times handle (map (λ p. (p, time_ms)) partitions) timeout_ms)

-- `extractPartitionIDs`.
unfoldable pub extract_partition_ids : TopicMetadata → List ℤ
extract_partition_ids m = m.partitions

-- `getPartitionsForTopic`; `metadata` is the call for one topic.
unfoldable pub get_partitions_for_topic :
    {H : Type 0}
    → Option H
    → (H → Text → ℤ → Option (List TopicMetadata))
    → Text
    → ℤ
    → Option (List ℤ)
get_partitions_for_topic none metadata topic timeout_ms = none
get_partitions_for_topic (some handle) metadata topic timeout_ms =
    elim (metadata handle topic timeout_ms) [
      | none ↦ none
      | some topics ↦ elim (find_topic_metadata topic topics) [
        | none ↦ none
        | some m ↦ some (extract_partition_ids m)
      ]
    ]

-- The names of topics as a `std::set`, whose members are read by `mem`.
abbrev pub mem : Text → List Text → Bool
mem t [] = false
mem t (n ∷ ns) = text_eq n t || mem t ns

abbrev pub emplace : Text → List Text → List Text
emplace t ns = if mem t ns then ns else t ∷ ns

abbrev pub names_of : List TopicMetadata → List Text → List Text
names_of [] names = names
names_of (m ∷ ms) names = names_of ms (emplace m.topic names)

-- `getTopicList`.
unfoldable pub get_topic_list :
    {H : Type 0} → Option H → (H → ℤ → Option (List TopicMetadata)) → ℤ → Option (List Text)
get_topic_list none metadata timeout_ms = none
get_topic_list (some handle) metadata timeout_ms = elim (metadata handle timeout_ms) [
  | none ↦ none
  | some topics ↦ some (names_of topics [])
]

-- `RdKafka::TopicPartition` as `assign` takes it.
pub record TopicPartition : Type 0 where
  pub topic : Text
  pub partition : ℤ
  pub offset : ℤ

-- What the consumer asks of librdkafka, on its state `S`; false stands for another code than
-- `ERR_NO_ERROR`.
pub record RdConsumer (S : Type 0) : Type 0 where
  pub assignment : S → Option (List TopicPartition)
  pub assign : List TopicPartition → S → S × Bool
  pub subscription : S → Option (List Text)
  pub subscribe : List Text → S → S × Bool
  pub topic_metadata : Text → S → Option (List TopicMetadata)
  pub offsets_for_times : List TopicPartition → S → Option (List TopicPartition)

module _ {S : Type 0} (rd : RdConsumer S) where
  -- The state, and whether the call returned.
  unfoldable pub add_partition_at_offset : Text → ℤ → ℤ → S → S × Bool
  add_partition_at_offset topic partition offset s = elim (rd.assignment s) [
    | none ↦ (s, false)
    | some assignments ↦
        rd.assign
          (assignments ++ (record { topic = topic; partition = partition; offset = offset }) ∷ []) s
  ]

  unfoldable pub add_topic : Text → S → S × Bool
  add_topic topic s = elim (rd.subscription s) [
    | none ↦ (s, false)
    | some topics ↦ rd.subscribe (topics ++ topic ∷ []) s
  ]

  abbrev pub assign_found : Text → ℤ → Option TopicMetadata → S → S × Bool
  assign_found topic start_ms none s = (s, false)
  assign_found topic start_ms (some m) s =
      elim (rd.offsets_for_times
        (map (λ p. record { topic = topic; partition = p; offset = start_ms }) m.partitions) s) [
          | none ↦ (s, false)
          | some partitions ↦ rd.assign partitions s
        ]

  -- `assignAllPartitions`, with `getTopicMetadata`.
  unfoldable pub assign_all_partitions : Text → ℤ → S → S × Bool
  assign_all_partitions topic start_ms s = elim (rd.topic_metadata topic s) [
    | none ↦ (s, false)
    | some topics ↦ assign_found topic start_ms (find_topic_metadata topic topics) s
  ]
