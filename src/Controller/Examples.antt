-- ===== src/Controller/Examples.antt =====
-- The theorems on the streams of a job, for three topics.
use kafka_to_nexus.Common.{pos, ◌≡◌, refl, Bool, true, false, List, [], ◌∷◌, some}
use kafka_to_nexus.Stream.Topic.{Topic}
use kafka_to_nexus.Stream.MessageWriter.{loop_test}
use kafka_to_nexus.Controller.{Controller, leaves, null_call, check_if_streams_are_done}
use kafka_to_nexus.Controller.Streams.{some_of, check-unfinished, stream_error_null_call}

abbrev topic : Bool → Bool → Topic
topic has_error is_done = record {
  has_error = has_error;
  is_done = is_done;
  start_meta_data_time = pos 0;
  meta_data_give_up = pos 1_000;
  min_metadata_timeout = pos 100;
  max_metadata_timeout = pos 250;
  start_consume_time = pos 50;
  start_leeway = pos 20;
  stop_consume_time = pos 900;
  current_metadata_time_out = pos 100;
  consumer_threads = [];
  caller_queue = [];
  task_queue = [];
  low_priority_task_queue = [];
}

abbrev done_topic : Topic
done_topic = topic false true

abbrev running_topic : Topic
running_topic = topic false false

abbrev failed_topic : Topic
failed_topic = topic true false

abbrev controller : List Topic → Controller
controller ts = record {
  stop_now = false;
  streamers_remaining = true;
  has_error = false;
  streamers = some_of ts;
  writer_thread = record {
    place = loop_test;
    write_jobs = [];
    run_thread = true;
    writes_done = 0;
    write_errors = 0;
    approx_queued_writes = 0;
    module_error_counters = [];
    flush_interval = 5_000;
    next_flush_time = pos 1_000;
  };
  stop_timestamp = pos 900;
  stop_time_tasks = [];
}

abbrev two_done : List Topic
two_done = done_topic ∷ running_topic ∷ done_topic ∷ []

check-unfinished_example :
    check_if_streams_are_done (controller two_done)
    ≡ leaves (record (controller two_done) { streamers = some running_topic ∷ [] })
check-unfinished_example =
    check-unfinished two_done (controller two_done) (refl, (refl, (refl, tt))) refl

abbrev one_failed : List Topic
one_failed = running_topic ∷ failed_topic ∷ done_topic ∷ []

stream_error_null_call_example :
    check_if_streams_are_done (controller (done_topic ∷ running_topic ∷ failed_topic ∷ []))
    ≡ null_call
stream_error_null_call_example =
    stream_error_null_call done_topic running_topic failed_topic []
      (controller (done_topic ∷ running_topic ∷ failed_topic ∷ [])) refl refl ((refl, refl), tt)
      refl refl
