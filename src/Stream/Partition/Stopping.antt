-- ===== src/Stream/Partition/Stopping.antt =====
-- When a partition finishes.
use kafka_to_nexus.Common.{ℕ, ◌≡◌, List, [], Text, arith, true, false, ℤ, ◌<ℤ◌, ◌⊎◌, ◌↔◌}
use kafka_to_nexus.Time.{add_time, of_milliseconds}
use kafka_to_nexus.Message.{Msg, Registry, Extracted, extracted, throws, flatbuffer_message}
use kafka_to_nexus.Kafka.{PollStatus, message}
use kafka_to_nexus.Stream.SourceFilter.{WriteJob}
use kafka_to_nexus.Stream.PartitionFilter.{PartitionFilter, should_stop_partition}
use kafka_to_nexus.Stream.Partition.{
  Partition, Turn, poll_for_message, filter_extracted, process_message, check_offset, take_message,
  after_poll, count_status, should_stop_based_on_poll_status, count_error,
}

-- What the test of the stop time reads.
pub record SameStop (p q : Partition) : Type 0 where
  pub finished : q.has_finished ≡ p.has_finished
  pub stop_time : q.stop_time ≡ p.stop_time
  pub leeway : q.stop_time_leeway ≡ p.stop_time_leeway
  pub forced : q.force_stop ≡ p.force_stop

filter_extracted-SameStop :
    (e : Extracted) (p : Partition) (queue : List WriteJob)
    → SameStop p (filter_extracted e p queue).0
unfolding filter_extracted count_error
filter_extracted-SameStop (throws e) p queue = ground arith
filter_extracted-SameStop (extracted m) p queue = ground arith

-- The message lies beyond the stop time and its leeway.
abbrev pub IsBeyond : Partition → Msg → Type 0
IsBeyond p m = add_time p.stop_time p.stop_time_leeway <ℤ of_milliseconds m.meta_data.timestamp

message_never_stops :
    (st : PollStatus) (f : PartitionFilter) (now later : ℤ)
    → st ≡ message
    → (should_stop_partition st f now later).1 ≡ false
unfolding should_stop_partition
message_never_stops st f now later h = ground arith

module _ (hash : Text → ℕ) (readers : Registry) where
  process_message-SameStop :
      (m : Msg) (p : Partition) (queue : List WriteJob)
      → SameStop p (process_message hash readers m p queue).0
  unfolding process_message check_offset
  process_message-SameStop m p queue = ground (
    arith,
    filter_extracted-SameStop (flatbuffer_message hash readers m.payload)
        (check_offset m.meta_data.offset p) queue,
  )

  take_message-finishes :
      (m : Msg) (p : Partition) (queue : List WriteJob)
      → p.has_finished ≡ false
      → let p' = (take_message hash readers m p queue).0 in
        ((p'.has_finished ≡ true) ↔ ((p'.source_filters ≡ []) ⊎ IsBeyond p m))
        × (p'.force_stop ≡ p.force_stop)
  unfolding take_message
  take_message-finishes m p queue h = ground (arith, process_message-SameStop m p queue)

  should_stop-answer :
      (t : Turn) (p : Partition)
      → let r = should_stop_based_on_poll_status t (count_status t.status p) in
        (r.1 ≡ (should_stop_partition t.status p.partition_filter t.now t.later).1) × SameStop p r.0
  unfolding should_stop_based_on_poll_status count_status
  should_stop-answer t p = ground arith

  after_poll-finishes :
      (t : Turn) (st : PollStatus) (p : Partition) (queue : List WriteJob)
      → p.has_finished ≡ false
      → let p' = (after_poll hash readers t st p queue).0 in
        (p'.has_finished ≡ true)
        ↔ ((st ≡ message) × ((p'.source_filters ≡ []) ⊎ IsBeyond p t.polled))
  unfolding after_poll
  after_poll-finishes t message p queue h = ground (arith, take_message-finishes t.polled p queue)
  after_poll-finishes t _ p queue h = ground arith

  after_poll-forced :
      (t : Turn) (st : PollStatus) (p : Partition) (queue : List WriteJob)
      → let p' = (after_poll hash readers t st p queue).0 in
        (p'.force_stop ≡ p.force_stop) × (p.has_finished ≡ true → p'.has_finished ≡ true)
  unfolding after_poll take_message
  after_poll-forced t message p queue = ground (arith, process_message-SameStop t.polled p queue)
  after_poll-forced t _ p queue = ground arith

  -- A poll makes an unfinished partition finish exactly when a stop was forced, or when it is not
  -- paused and either the partition filter says so, or it received a message and then either no source
  -- filter is left or the message's own time stamp is past the stop time and its leeway.
  pub poll_finishes_iff :
      (t : Turn) (p : Partition) (queue : List WriteJob)
      → p.has_finished ≡ false
      → let p' = (poll_for_message hash readers t p queue).0 in
        (p'.has_finished ≡ true) ↔ (
          (p.force_stop ≡ true)
          ⊎ ((p.force_stop ≡ false)
              × (t.paused ≡ false)
              × (((should_stop_partition t.status p.partition_filter t.now t.later).1 ≡ true)
                  ⊎ ((t.status ≡ message) × ((p'.source_filters ≡ []) ⊎ IsBeyond p t.polled)))))
  unfolding poll_for_message
  poll_finishes_iff t p queue h = ground (
    arith,
    should_stop-answer t p,
    message_never_stops t.status p.partition_filter t.now t.later,
    after_poll-finishes t t.status (should_stop_based_on_poll_status t (count_status t.status p)).0
        queue,
  )

  -- A poll does not revoke a forced stop or the end of the partition, and a forced stop ends it.
  pub poll_for_message-forced :
      (t : Turn) (p : Partition) (queue : List WriteJob)
      → let p' = (poll_for_message hash readers t p queue).0 in
        (p'.force_stop ≡ p.force_stop)
        × (p.force_stop ≡ true → p'.has_finished ≡ true)
        × (p.has_finished ≡ true → p'.has_finished ≡ true)
  unfolding poll_for_message
  poll_for_message-forced t p queue = ground (
    arith,
    should_stop-answer t p,
    after_poll-forced t t.status (should_stop_based_on_poll_status t (count_status t.status p)).0
        queue,
  )
