-- ===== src/Master/Examples.antt =====
-- The theorems on the service, for a job that is started and one that ends.
use kafka_to_nexus.Common.{pos, ◌≡◌, refl, true, false, [], ◌∷◌, none, some, Text, inl}
use kafka_to_nexus.Time.{time_max}
use kafka_to_nexus.Kafka.{PollStatus, message, timed_out}
use kafka_to_nexus.Command.Parser.{empty_start, parsed}
use kafka_to_nexus.Command.Listener.{connects, subscribed}
use kafka_to_nexus.Command.Handler.{Uuids, Handler, Command, a_start, another, stopped, success}
use kafka_to_nexus.Command.Handler.Topics.{IsHome}
use kafka_to_nexus.Stream.MessageWriter.{loop_test}
use kafka_to_nexus.Controller
use kafka_to_nexus.Controller.{Controller, leaves, is_done_writing}
use kafka_to_nexus.Master.{Master, World, writing, no_job, run}
use kafka_to_nexus.Master.Jobs.{IsSound, IsIdleAgain, run-IsSound, ended_job_reported}

abbrev any_uuid : Uuids
any_uuid = record {
  from_string = λ t. some (record { is_nil = false; has_version = true; is_rfc = true });
  indeterminate = record { is_nil = true; has_version = false; is_rfc = false };
}

abbrev commands : Text
commands = 1 ∷ []

abbrev not_writing : Text
not_writing = 0 ∷ []

abbrev handler : Handler
handler = record {
  command_topic_address = commands;
  job_pool = record {
    command_topic = 3 ∷ [];
    start_timestamp = time_max;
    consumer = subscribed (3 ∷ []);
  };
  command_source = record {
    command_topic = commands;
    start_timestamp = time_max;
    consumer = subscribed commands;
  };
  command_response = some commands;
  alt_command_response = none;
  using_alt_topic = false;
}

-- Streams that were told to stop.
abbrev over : Controller
over = record {
  stop_now = true;
  streamers_remaining = false;
  has_error = false;
  streamers = [];
  writer_thread = record {
    place = loop_test;
    write_jobs = [];
    run_thread = true;
    writes_done = 0;
    write_errors = 0;
    approx_queued_writes = 0;
    module_error_counters = [];
    flush_interval = 5_000;
    next_flush_time = pos 1_000;
  };
  stop_timestamp = pos 900;
  stop_time_tasks = [];
}

abbrev waiting : Master
waiting = record {
  status = no_job not_writing;
  stream_controller = none;
  metadata_from_start = [];
  status_topic = 5 ∷ [];
  alt_status_topic = [];
  using_alt_status_topic = false;
}

abbrev busy : Master
busy = record waiting {
  status = record {
    state = writing;
    job_id = 7 ∷ [];
    filename = 8 ∷ [];
    start_time = pos 10;
    stop_time = pos 900;
  };
  stream_controller = some over;
}

abbrev world : PollStatus → Command → World
world status command = record {
  create_job = λ m. some over;
  producer_fails = false;
  now = pos 950;
  chances = record { switching = connects; producer_made = true; reverting = connects };
  polled = status;
  command = command;
}

abbrev start : Command
start = a_start (parsed (record empty_start { job_id = 7 ∷ []; control_topic = 2 ∷ [] }))

run-IsSound_example :
    IsSound (run not_writing any_uuid (world message start) handler (leaves waiting)).1
run-IsSound_example =
    run-IsSound not_writing any_uuid (world message start) handler (leaves waiting) refl refl

ended_job_reported_example :
    let (h', s', thrown, sent) =
      run not_writing any_uuid (world timed_out another) handler (leaves busy) in
    (sent ≡ stopped (some commands) success (7 ∷ []) ∷ [])
    × (thrown ≡ false)
    × IsHome h'
    × IsIdleAgain not_writing busy (Controller.stop over) s'
unfolding is_done_writing
ended_job_reported_example =
    ended_job_reported not_writing any_uuid (world timed_out another) [] over handler busy refl refl
      (inl
        (record { own = refl; source = record { topic_is = refl; reads = refl }; answers = refl }))
      refl refl
