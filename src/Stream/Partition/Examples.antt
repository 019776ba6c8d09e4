-- ===== src/Stream/Partition/Examples.antt =====
-- Tests of a partition, and its theorems at a small one.
use kafka_to_nexus.Common.{
  ◌≢◌, length, ℤ, map, wrap64, ◌+ℤ◌, ◌-ℤ◌, pos, ap, pos_part, ℕ, ◌+◌, ◌*◌, ◌≡◌, ◌↔◌, ◌⊎◌, refl,
  Bool, true, false, List, [], ◌∷◌, arith, All, some, Text,
}
use kafka_to_nexus.Time.{time_max, add_time, sub_time, of_milliseconds, to_timepoint}
use kafka_to_nexus.Message.{
  Msg, empty_msg, FlatbufferReader, Registry, flatbuffer_message, find, calc_source_hash,
}
use kafka_to_nexus.Kafka.{message, timed_out}
use kafka_to_nexus.Stream.SourceFilter.{SourceFilter, WriteJob}
use kafka_to_nexus.Stream.SourceFilter
use kafka_to_nexus.Stream.PartitionFilter.{should_stop_partition}
use kafka_to_nexus.Stream.PartitionFilter
use kafka_to_nexus.Stream.Partition.{
  Partition, Turn, new, poll_for_message, poll_all, after_poll, erase_finished, filter_each,
  check_and_log_partition_time_out, take_message, process_message, filter_extracted, count_status,
  check_offset, should_stop_based_on_poll_status,
}
use kafka_to_nexus.Stream.Partition.Stopping.{IsBeyond, poll_finishes_iff}
use kafka_to_nexus.Stream.Partition.Queue.{IsAllowedByAny, poll_all-allowed}
use kafka_to_nexus.Stream.Partition.Filters.{
  SrcDstKey, create_filters, write_hashes, filter_at, destinations_of, source_of,
  filters_by_write_hash,
}
use kafka_to_nexus.Stream.Partition.Threaded.{
  time_call, Worker, Place, stop_reset, polling, loop_test, ended, Action, works, requests_stop,
  requests_stop_time, act_all, start,
}
use kafka_to_nexus.Stream.Partition.Threaded.Requests.{
  StopsAt, two_requests, stop_time_taken_up, stop_time_lost,
}
use kafka_to_nexus.Stream.Partition.Threaded.Stops.{stop_is_honoured}

-- A hash that is the sum of the bytes.
abbrev sum : Text → ℕ
sum [] = 0
sum (c ∷ cs) = c + sum cs

-- The time stamp of a buffer, in nanoseconds, is its ninth byte times a million.
abbrev ninth : List ℕ → ℕ
ninth (a ∷ b ∷ c ∷ d ∷ e ∷ f ∷ g ∷ h ∷ i ∷ rest) = i * 1_000_000
ninth bytes = 0

abbrev reader : FlatbufferReader
reader = record {
  verify = λ b. true;
  source_name = λ b. 3 ∷ 4 ∷ [];
  timestamp = λ b. some (ninth b);
}

abbrev readers : Registry
readers = (102 ∷ 49 ∷ 52 ∷ 52 ∷ [], reader) ∷ []

-- A message of the source with the hash 262 at a time in milliseconds.
abbrev sent_at : ℕ → ℕ → Msg
sent_at offset ms = record {
  payload = 0 ∷ 0 ∷ 0 ∷ 0 ∷ 102 ∷ 49 ∷ 52 ∷ 52 ∷ ms ∷ [];
  meta_data = record (empty_msg.meta_data) { timestamp = pos ms; offset = pos offset };
}

abbrev gets : Msg → Turn
gets m = record {
  paused = false;
  status = message;
  polled = m;
  checked = pos 0;
  now = pos 0;
  later = pos 0;
}

abbrev idles : Turn
idles = record (gets empty_msg) { status = timed_out }

abbrev filter : SourceFilter
filter = record (SourceFilter.new (pos 10_000_000) (pos 20_000_000) false) {
  destination_writer_modules = 1 ∷ [];
  source_hash = 262;
}

abbrev partition : Partition
partition =
    new (filter ∷ []) (PartitionFilter.new (pos 20_000_000) (pos 5_000_000) (pos 10_000_000))
      (pos 20_000_000) (pos 5_000_000)

-- An early message, two wanted ones with a gap in the offsets, one for each time limit.
abbrev turns : List Turn
turns =
    gets (sent_at 1 4)
    ∷ gets (sent_at 2 12)
    ∷ idles
    ∷ gets (sent_at 4 15)
    ∷ gets (sent_at 5 26)
    ∷ []

poll_all-allowed_example :
    All (IsAllowedByAny partition.source_filters) (poll_all sum readers turns partition []).1
unfolding new SourceFilter.new PartitionFilter.set_stop_time
poll_all-allowed_example = poll_all-allowed sum readers turns partition [] ((λ e. cc), tt) tt

poll_finishes_iff_example :
    let t = gets (sent_at 5 26) in
    let p' = (poll_for_message sum readers t partition []).0 in
    (p'.has_finished ≡ true) ↔ (
      (partition.force_stop ≡ true)
      ⊎ ((partition.force_stop ≡ false)
          × (t.paused ≡ false)
          × (((should_stop_partition t.status partition.partition_filter t.now t.later).1 ≡ true)
              ⊎ ((t.status ≡ message) × ((p'.source_filters ≡ []) ⊎ IsBeyond partition t.polled)))))
unfolding new
poll_finishes_iff_example = poll_finishes_iff sum readers (gets (sent_at 5 26)) partition [] refl

abbrev stamp : WriteJob → ℤ × Bool
stamp j = (j.message.timestamp, j.is_buffered_message)

after_turns :
    let (p, queue) = poll_all sum readers turns partition [] in
    (p.messages_received ≡ 4)
    × (p.messages_processed ≡ 2)
    × (p.bad_offsets ≡ 1)
    × (p.kafka_timeouts ≡ 1)
    × (p.has_finished ≡ true)
    × (p.source_filters ≡ [])
    × (map stamp queue
        ≡ (pos 4_000_000, true) ∷ (pos 12_000_000, false) ∷ (pos 15_000_000, false) ∷ [])
unfolding poll_all poll_for_message after_poll take_message process_message filter_extracted
    count_status check_offset should_stop_based_on_poll_status new should_stop_partition
    flatbuffer_message find wrap64 erase_finished filter_each PartitionFilter.has_topic_timed_out
    add_time ◌+ℤ◌ PartitionFilter.set_stop_time PartitionFilter.new SourceFilter.filter_message
    SourceFilter.new sub_time ◌-ℤ◌ of_milliseconds calc_source_hash check_and_log_partition_time_out
    PartitionFilter.sanitise SourceFilter.forward_buffered_message SourceFilter.forward_message
    to_timepoint
after_turns = (refl, refl, refl, refl, refl, refl, refl)

-- A partition with a filter, whose worker is idle at a place.
abbrev worker_at : Place → Worker
worker_at place = record (start partition []) {
  place = place;
  requested_stop_time = pos 12_000_000;
}

stop_time_taken_up_example :
    let w' =
      act_all sum readers
        (requests_stop_time (pos 12_000_000)
          ∷ works idles
          ∷ works idles
          ∷ works idles
          ∷ works idles
          ∷ works idles
          ∷ [])
        (start partition []) in
    (w'.place ≡ polling)
    × (w'.requested_stop_time ≡ time_max)
    × StopsAt (PartitionFilter.sanitise partition.stop_time_leeway (pos 12_000_000)) w'.partition
unfolding start new
stop_time_taken_up_example =
    stop_time_taken_up sum readers (start partition []) (pos 12_000_000) idles idles idles idles
      idles refl refl refl refl (λ e. omega (arith, ap pos_part e))

stop_time_lost_example :
    let w =
      act_all sum readers
        (two_requests sum readers (pos 12_000_000) (pos 15_000_000) idles idles idles idles idles)
        (start partition []) in
    let w' = act_all sum readers (map works (idles ∷ idles ∷ [])) w in
    StopsAt (PartitionFilter.sanitise partition.stop_time_leeway (pos 12_000_000)) w.partition
    × (w.requested_stop_time ≡ time_max)
    × (w'.requested_stop_time ≡ time_max)
    × (w'.place ≢ time_call)
unfolding new
stop_time_lost_example =
    stop_time_lost sum readers partition [] (pos 12_000_000) (pos 15_000_000) idles idles idles
      idles idles (idles ∷ idles ∷ []) refl (λ e. omega (arith, ap pos_part e))

-- Thirteen steps of the worker, one more request among them.
abbrev thirteen : List Action
thirteen =
    works idles
    ∷ works idles
    ∷ works idles
    ∷ requests_stop
    ∷ works idles
    ∷ works idles
    ∷ works idles
    ∷ works idles
    ∷ works idles
    ∷ works idles
    ∷ works idles
    ∷ works idles
    ∷ works idles
    ∷ works idles
    ∷ []

stop_is_honoured_example :
    (act_all sum readers (requests_stop ∷ thirteen) (start partition [])).place ≡ ended
unfolding start
stop_is_honoured_example =
    stop_is_honoured sum readers thirteen (start partition []) (λ (e : loop_test ≡ stop_reset). cc)
      (omega arith)

-- Two sources share the write hash 5 and differ in the hash of the source.
abbrev keyed : ℕ → ℕ → ℕ → SrcDstKey
keyed source write destination = record {
  src_hash = source;
  write_hash = write;
  destination = destination;
  source_name = [];
  flatbuffer_id = [];
  writer_module_id = [];
  accepts_repeated_timestamps = false;
}

abbrev sources : List SrcDstKey
sources = keyed 7 5 1 ∷ keyed 8 3 2 ∷ keyed 9 5 3 ∷ []

filters_by_write_hash_example :
    let fs = create_filters (pos 10_000) (pos 20_000) sources in
    let f = filter_at 5 (write_hashes sources) fs in
    (length fs ≡ length (write_hashes sources))
    × (destinations_of f ≡ 1 ∷ 3 ∷ [])
    × (source_of f ≡ some 9)
filters_by_write_hash_example = filters_by_write_hash (pos 10_000) (pos 20_000) 5 sources
