-- ===== src/Controller/Setup.antt =====
-- How the streams of a job are made: src/StreamController.cpp from `start` to `initStreams`, with
-- src/Source.{h,cpp}. The broker's list of topics is an input.
pub mod Grouping
pub mod Topics
mod Examples
use kafka_to_nexus.Common.{
  ℤ, ℕ, Bool, true, false, List, [], ◌∷◌, ◌++◌, Option, none, some, Text, text_eq, bytes,
  if◌then◌else◌, ltb, ltb_ℤ, ◌==◌, ◌&&◌, ◌||◌,
}
use kafka_to_nexus.Time.{add_time}
use kafka_to_nexus.Message.{calc_source_hash}
use kafka_to_nexus.Stream.Partition.Filters.{SrcDstKey}

pub record Source : Type 0 where
  pub source_name : Text
  pub schema_id : Text
  pub writer_module_id : Text
  pub topic_name : Text
  pub src_hash : ℕ
  pub module_hash : ℕ
  pub writer_module : ℕ
  pub accepts_repeated_timestamps : Bool

-- The constructor; the last argument is `acceptsRepeatedTimestamps` of the writer module.
unfoldable pub new_source : (Text → ℕ) → Text → Text → Text → Text → ℕ → Bool → Source
new_source hash name flatbuffer_id module_id topic writer repeated = record {
  source_name = name;
  schema_id = flatbuffer_id;
  writer_module_id = module_id;
  topic_name = topic;
  src_hash = calc_source_hash hash flatbuffer_id name;
  module_hash = calc_source_hash hash module_id name;
  writer_module = writer;
  accepts_repeated_timestamps = repeated;
}

abbrev pub key_of : Source → SrcDstKey
key_of s = record {
  src_hash = s.src_hash;
  write_hash = s.module_hash;
  destination = s.writer_module;
  source_name = s.source_name;
  flatbuffer_id = s.schema_id;
  writer_module_id = s.writer_module_id;
  accepts_repeated_timestamps = s.accepts_repeated_timestamps;
}

-- The order of `std::string`, whose bytes count as unsigned.
abbrev pub text_lt : Text → Text → Bool
text_lt [] [] = false
text_lt [] (b ∷ bs) = true
text_lt (a ∷ r) [] = false
text_lt (a ∷ r) (b ∷ bs) = ltb a b || (a == b && text_lt r bs)

-- `topic_src_map`, a `std::map`.
abbrev pub TopicMap : Type 0
TopicMap = List (Text × List SrcDstKey)

-- `topic_src_map[topic].push_back(key)`.
unfoldable pub push_back : Text → SrcDstKey → TopicMap → TopicMap
push_back topic k [] = (topic, k ∷ []) ∷ []
push_back topic k ((t, ks) ∷ rest) =
    let later = push_back topic k rest in
    if text_eq t topic
    then (t, ks ++ k ∷ []) ∷ rest
    else (if text_lt topic t then (topic, k ∷ []) ∷ (t, ks) ∷ rest else (t, ks) ∷ later)

abbrev pub mem : Text → List Text → Bool
mem t [] = false
mem t (n ∷ ns) = text_eq n t || mem t ns

-- The message on a topic that does not exist.
abbrev pub missing_topic : Source → Text
missing_topic s =
    bytes "Unable to set up consumer for source "
    ++ s.source_name
    ++ bytes " on topic "
    ++ s.topic_name
    ++ bytes " as this topic does not exist. "

-- The loop over the sources.
unfoldable pub group : List Text → List Source → TopicMap → Text → TopicMap × Text
group known [] m errors = (m, errors)
group known (s ∷ ss) m errors =
    if mem s.topic_name known
    then group known ss (push_back s.topic_name (key_of s) m) errors
    else group known ss m (errors ++ missing_topic s)

pub data Task : Type 0 where
  get_names check_streams : Task
  init_with : List Text → Task

pub record Setup : Type 0 where
  pub current_metadata_time_out : ℤ
  pub has_error : Bool
  pub error_message : Text
  -- The topics that were started, each with its sources.
  pub started : TopicMap
  pub tasks : List Task

unfoldable pub send : Task → Setup → Setup
send task c = record c { tasks = c.tasks ++ task ∷ [] }

abbrev pub is_empty_text : Text → Bool
is_empty_text [] = true
is_empty_text (b ∷ bs) = false

-- `initStreams`.
unfoldable pub init_streams : List Source → List Text → Setup → Setup
init_streams sources known c =
    let (m, errors) = group known sources [] [] in
    if is_empty_text errors
    then send check_streams (record c { started = c.started ++ m })
    else record c { error_message = errors; has_error = true }

-- `getTopicNames`; nothing stands for a `MetadataException`.
unfoldable pub get_topic_names : ℤ → Option (List Text) → Setup → Setup
get_topic_names max_metadata_timeout (some names) c = send (init_with names) c
get_topic_names max_metadata_timeout none c =
    let doubled = add_time c.current_metadata_time_out c.current_metadata_time_out in
    send get_names (record c {
      current_metadata_time_out =
          if ltb_ℤ max_metadata_timeout doubled then max_metadata_timeout else doubled;
    })

-- The work that `start` hands to the executor.
unfoldable pub first_task : ℤ → ℤ → Option (List Text) → Setup → Setup
first_task min_metadata_timeout max_metadata_timeout answer c =
    get_topic_names max_metadata_timeout answer
      (record c { current_metadata_time_out = min_metadata_timeout })
