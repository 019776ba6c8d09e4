-- ===== src/Stream/Partition.antt =====
-- One partition of a topic: src/Stream/Partition.{h,cpp}. What `_consumer` and the clock give and
-- whether the streamers are paused are the input of each poll; the write queue is passed along.
pub mod Filters
pub mod Threaded
pub mod Counts
pub mod Stopping
pub mod Queue
mod Examples
use kafka_to_nexus.Common.{
  ℤ, pos, ℕ, ◌+◌, Bool, true, false, List, [], ◌∷◌, Text, if◌then◌else◌, ltb_ℤ, eqb_ℤ, ◌&&◌, ◌||◌,
  not, map,
}
use kafka_to_nexus.Time.{add_time, of_milliseconds}
use kafka_to_nexus.Message.{
  Msg, FlatbufferMessage, FlatbufferError, buffer_too_small, unknown_flatbuffer_id,
  invalid_flatbuffer_timestamp, not_valid_flatbuffer, other, Extracted, extracted, throws,
  flatbuffer_message, Registry,
}
use kafka_to_nexus.Kafka.{PollStatus, message, error, end_of_partition, timed_out}
use kafka_to_nexus.Stream.SourceFilter.{
  SourceFilter, WriteJob, filter_message, forward_buffered_message, has_finished,
}
use kafka_to_nexus.Stream.SourceFilter
use kafka_to_nexus.Stream.PartitionFilter.{
  PartitionFilter, sanitise, should_stop_partition, has_topic_timed_out,
}
use kafka_to_nexus.Stream.PartitionFilter

pub record Partition : Type 0 where
  pub partition_time_out_logged : Bool
  pub has_finished : Bool
  pub force_stop : Bool
  pub current_offset : ℤ
  pub stop_time : ℤ
  pub stop_time_leeway : ℤ
  pub partition_filter : PartitionFilter
  pub source_filters : List SourceFilter
  pub kafka_timeouts : ℕ
  pub kafka_errors : ℕ
  pub messages_received : ℕ
  pub messages_processed : ℕ
  pub bad_offsets : ℕ
  pub ends_of_partition : ℕ
  pub flatbuffer_errors : ℕ
  pub buffer_too_small_errors : ℕ
  pub not_valid_flatbuffer_errors : ℕ
  pub unknown_flatbuffer_id_errors : ℕ
  pub bad_flatbuffer_timestamp_errors : ℕ

-- The constructor: the filter of the partition is given the sanitised stop time.
unfoldable pub new : List SourceFilter → PartitionFilter → ℤ → ℤ → Partition
new source_filters partition_filter stop_time stop_leeway =
    let stop = sanitise stop_leeway stop_time in
    record {
      partition_time_out_logged = false;
      has_finished = false;
      force_stop = false;
      current_offset = pos 0;
      stop_time = stop;
      stop_time_leeway = stop_leeway;
      partition_filter = PartitionFilter.set_stop_time stop partition_filter;
      source_filters = source_filters;
      kafka_timeouts = 0;
      kafka_errors = 0;
      messages_received = 0;
      messages_processed = 0;
      bad_offsets = 0;
      ends_of_partition = 0;
      flatbuffer_errors = 0;
      buffer_too_small_errors = 0;
      not_valid_flatbuffer_errors = 0;
      unknown_flatbuffer_id_errors = 0;
      bad_flatbuffer_timestamp_errors = 0;
    }

-- `stop` with `forceStop`.
unfoldable pub stop : Partition → Partition
stop p = record p { force_stop = true }

unfoldable pub set_stop_time : ℤ → Partition → Partition
set_stop_time t p =
    let stop = sanitise p.stop_time_leeway t in
    record p {
      stop_time = stop;
      partition_filter = PartitionFilter.set_stop_time stop p.partition_filter;
      source_filters = map (SourceFilter.set_stop_time stop) p.source_filters;
    }

-- The log message itself is left out.
unfoldable pub check_and_log_partition_time_out : ℤ → Partition → Partition
check_and_log_partition_time_out now p =
    if has_topic_timed_out p.partition_filter now
    then record p { partition_time_out_logged = true }
    else record p { partition_time_out_logged = false }

-- One poll: whether the streamers are paused, what the consumer returned, and the readings of the
-- clock in `hasTopicTimedOut` and in `shouldStopPartition`.
pub record Turn : Type 0 where
  pub paused : Bool
  pub status : PollStatus
  pub polled : Msg
  pub checked : ℤ
  pub now : ℤ
  pub later : ℤ

unfoldable pub should_stop_based_on_poll_status : Turn → Partition → Partition × Bool
unfolding check_and_log_partition_time_out
should_stop_based_on_poll_status t p =
    let p' = check_and_log_partition_time_out t.checked p in
    let (filter, stops) = should_stop_partition t.status p'.partition_filter t.now t.later in
    (record p' { partition_filter = filter }, stops)

-- The catch clauses of `processMessage`.
unfoldable pub count_error : FlatbufferError → Partition → Partition
count_error buffer_too_small p = record p {
  buffer_too_small_errors = p.buffer_too_small_errors + 1;
  flatbuffer_errors = p.flatbuffer_errors + 1;
}
count_error invalid_flatbuffer_timestamp p = record p {
  bad_flatbuffer_timestamp_errors = p.bad_flatbuffer_timestamp_errors + 1;
  flatbuffer_errors = p.flatbuffer_errors + 1;
}
count_error unknown_flatbuffer_id p = record p {
  unknown_flatbuffer_id_errors = p.unknown_flatbuffer_id_errors + 1;
  flatbuffer_errors = p.flatbuffer_errors + 1;
}
count_error not_valid_flatbuffer p = record p {
  not_valid_flatbuffer_errors = p.not_valid_flatbuffer_errors + 1;
  flatbuffer_errors = p.flatbuffer_errors + 1;
}
count_error other p = record p { flatbuffer_errors = p.flatbuffer_errors + 1 }

-- The loop over the filters; the last part is `processed`.
unfoldable pub filter_each :
    FlatbufferMessage → List SourceFilter → List WriteJob → List SourceFilter × List WriteJob × Bool
filter_each m [] queue = ([], queue, false)
filter_each m (f ∷ fs) queue =
    let (f', queue', sent) = filter_message m f queue in
    let (fs', queue'', any) = filter_each m fs queue' in (f' ∷ fs', queue'', sent || any)

-- The erasure of the finished filters, whose destructors empty their buffers.
unfoldable pub erase_finished :
    List SourceFilter → List WriteJob → List SourceFilter × List WriteJob
erase_finished [] queue = ([], queue)
erase_finished (f ∷ fs) queue =
    let (fs', queue') =
      erase_finished fs (if f.is_finished then (forward_buffered_message f queue).1 else queue) in
    ((if f.is_finished then fs' else f ∷ fs'), queue')

unfoldable pub check_offset : ℤ → Partition → Partition
check_offset offset p =
    if not (eqb_ℤ p.current_offset (pos 0))
      && not (eqb_ℤ (add_time p.current_offset (pos 1)) offset)
    then record p { bad_offsets = p.bad_offsets + 1; current_offset = offset }
    else record p { current_offset = offset }

unfoldable pub filter_extracted : Extracted → Partition → List WriteJob → Partition × List WriteJob
filter_extracted (throws e) p queue = (count_error e p, queue)
filter_extracted (extracted m) p queue =
    let (fs, queue', processed) = filter_each m p.source_filters queue in
    let (remaining, queue'') = erase_finished fs queue' in
    (
      record p {
        source_filters = remaining;
        messages_processed = if processed then p.messages_processed + 1 else p.messages_processed;
      },
      queue'',
    )

abbrev pub is_empty {ℓ} : {A : Type ℓ} → List A → Bool
is_empty [] = true
is_empty (x ∷ xs) = false

-- The switch of `pollForMessage` on the status, which counts.
unfoldable pub count_status : PollStatus → Partition → Partition
count_status message p = record p { messages_received = p.messages_received + 1 }
count_status end_of_partition p = record p { ends_of_partition = p.ends_of_partition + 1 }
count_status timed_out p = record p { kafka_timeouts = p.kafka_timeouts + 1 }
count_status error p = record p { kafka_errors = p.kafka_errors + 1 }

-- `hash` is `std::hash<std::string>`; the readers are those of the registry.
module _ (hash : Text → ℕ) (readers : Registry) where
  unfoldable pub process_message : Msg → Partition → List WriteJob → Partition × List WriteJob
  process_message m p queue =
      filter_extracted (flatbuffer_message hash readers m.payload)
        (check_offset m.meta_data.offset p) queue

  -- `pollForMessage` after a message was received.
  unfoldable pub take_message : Msg → Partition → List WriteJob → Partition × List WriteJob
  take_message m p queue =
      let (p', queue') = process_message m p queue in
      if is_empty p'.source_filters
        || ltb_ℤ (add_time p'.stop_time p'.stop_time_leeway) (of_milliseconds m.meta_data.timestamp)
      then (record p' { has_finished = true }, queue')
      else (p', queue')

  unfoldable pub after_poll :
      Turn → PollStatus → Partition → List WriteJob → Partition × List WriteJob
  after_poll t message p queue = take_message t.polled p queue
  after_poll t end_of_partition p queue = (p, queue)
  after_poll t timed_out p queue = (p, queue)
  after_poll t error p queue = (p, queue)

  unfoldable pub poll_for_message : Turn → Partition → List WriteJob → Partition × List WriteJob
  poll_for_message t p queue =
      if p.force_stop
      then (record p { has_finished = true }, queue)
      else (if t.paused
          then (p, queue)
          else (let (p', stops) = should_stop_based_on_poll_status t (count_status t.status p) in
              if stops
              then (record p' { has_finished = true }, queue)
              else after_poll t t.status p' queue))

  -- A partition that is polled again and again.
  unfoldable pub poll_all : List Turn → Partition → List WriteJob → Partition × List WriteJob
  poll_all [] p queue = (p, queue)
  poll_all (t ∷ ts) p queue = let (p', queue') = poll_for_message t p queue in poll_all ts p' queue'
