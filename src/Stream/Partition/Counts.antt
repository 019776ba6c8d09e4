-- ===== src/Stream/Partition/Counts.antt =====
-- The counters of a partition.
use kafka_to_nexus.Common.{ℕ, ◌+◌, ◌≤◌, ◌≡◌, List, [], ◌∷◌, Text, arith}
use kafka_to_nexus.Message.{Msg, Registry, Extracted, extracted, throws, flatbuffer_message}
use kafka_to_nexus.Kafka.{PollStatus, message}
use kafka_to_nexus.Stream.SourceFilter.{WriteJob}
use kafka_to_nexus.Stream.Partition.{
  Partition, Turn, poll_for_message, poll_all, filter_extracted, process_message, check_offset,
  count_error, take_message, after_poll, count_status, should_stop_based_on_poll_status,
}

-- Each message received was processed, or failed with one error, or was of no interest; the kinds of
-- errors add up to at most all errors, which also count other exceptions.
pub record IsCounted (p : Partition) : Type 0 where
  pub outcomes : p.messages_processed + p.flatbuffer_errors ≤ p.messages_received
  pub kinds :
      p.buffer_too_small_errors + p.not_valid_flatbuffer_errors + p.unknown_flatbuffer_id_errors
        + p.bad_flatbuffer_timestamp_errors
      ≤ p.flatbuffer_errors

-- An error or a processed message more.
pub record MovesOn (p q : Partition) : Type 0 where
  pub received : q.messages_received ≡ p.messages_received
  pub outcomes :
      q.messages_processed + q.flatbuffer_errors ≤ p.messages_processed + p.flatbuffer_errors + 1
  pub kinds :
      q.buffer_too_small_errors + q.not_valid_flatbuffer_errors + q.unknown_flatbuffer_id_errors
        + q.bad_flatbuffer_timestamp_errors + p.flatbuffer_errors
      ≤ q.flatbuffer_errors
        + (p.buffer_too_small_errors + p.not_valid_flatbuffer_errors
            + p.unknown_flatbuffer_id_errors + p.bad_flatbuffer_timestamp_errors)

-- The counters of errors and messages are the same.
pub record SameCounts (p q : Partition) : Type 0 where
  pub received : q.messages_received ≡ p.messages_received
  pub processed : q.messages_processed ≡ p.messages_processed
  pub errors : q.flatbuffer_errors ≡ p.flatbuffer_errors
  pub small : q.buffer_too_small_errors ≡ p.buffer_too_small_errors
  pub not_valid : q.not_valid_flatbuffer_errors ≡ p.not_valid_flatbuffer_errors
  pub unknown : q.unknown_flatbuffer_id_errors ≡ p.unknown_flatbuffer_id_errors
  pub stamps : q.bad_flatbuffer_timestamp_errors ≡ p.bad_flatbuffer_timestamp_errors

should_stop-SameCounts :
    (t : Turn) (p : Partition) → SameCounts p (should_stop_based_on_poll_status t p).0
unfolding should_stop_based_on_poll_status
should_stop-SameCounts t p = ground arith

count_status-IsCounted :
    (st : PollStatus) (p : Partition) → IsCounted p → IsCounted (count_status st p)
unfolding count_status
count_status-IsCounted message p h = ground arith
count_status-IsCounted _ p h = ground arith

filter_extracted-MovesOn :
    (e : Extracted) (p : Partition) (queue : List WriteJob)
    → MovesOn p (filter_extracted e p queue).0
unfolding filter_extracted count_error
filter_extracted-MovesOn (throws e) p queue = ground arith
filter_extracted-MovesOn (extracted m) p queue = ground arith

module _ (hash : Text → ℕ) (readers : Registry) where
  process_message-MovesOn :
      (m : Msg) (p : Partition) (queue : List WriteJob)
      → MovesOn p (process_message hash readers m p queue).0
  unfolding process_message check_offset
  process_message-MovesOn m p queue = ground (
    arith,
    filter_extracted-MovesOn (flatbuffer_message hash readers m.payload)
        (check_offset m.meta_data.offset p) queue,
  )

  take_message-MovesOn :
      (m : Msg) (p : Partition) (queue : List WriteJob)
      → MovesOn p (take_message hash readers m p queue).0
  unfolding take_message
  take_message-MovesOn m p queue = ground (arith, process_message-MovesOn m p queue)

  after_poll-IsCounted :
      (t : Turn) (st : PollStatus) (p q : Partition) (queue : List WriteJob)
      → IsCounted p
      → SameCounts (count_status st p) q
      → IsCounted (after_poll hash readers t st q queue).0
  unfolding after_poll count_status
  after_poll-IsCounted t message p q queue h s =
      ground (arith, take_message-MovesOn t.polled q queue)
  after_poll-IsCounted t _ p q queue h s = ground arith

  poll_for_message-IsCounted :
      (t : Turn) (p : Partition) (queue : List WriteJob)
      → IsCounted p
      → IsCounted (poll_for_message hash readers t p queue).0
  unfolding poll_for_message
  poll_for_message-IsCounted t p queue h = ground (
    arith,
    count_status-IsCounted t.status p,
    should_stop-SameCounts t (count_status t.status p),
    after_poll-IsCounted t t.status p
        (should_stop_based_on_poll_status t (count_status t.status p)).0 queue h,
  )

  -- After any polls, whatever came: the messages that were processed and those whose flatbuffer had an
  -- error together are at most the messages received, and the four kinds of flatbuffer errors add up
  -- to at most the number of all.
  poll_all-IsCounted :
      (ts : List Turn) (p : Partition) (queue : List WriteJob)
      → IsCounted p
      → IsCounted (poll_all hash readers ts p queue).0
  unfolding poll_all
  poll_all-IsCounted [] p queue h = h
  poll_all-IsCounted (t ∷ ts) p queue h =
      poll_all-IsCounted ts (poll_for_message hash readers t p queue).0
        (poll_for_message hash readers t p queue).1 (poll_for_message-IsCounted t p queue h)
