-- ===== src/Stream/Topic/Examples.antt =====
-- The theorems on topics at a small one, whose first call of the broker fails.
use kafka_to_nexus.Common.{
  if◌then◌else◌, pos, ◌≡◌, refl, List, [], ◌∷◌, All, none, some, false, ltb_ℤ,
}
use kafka_to_nexus.Stream.Topic.{
  Topic, Answers, Event, runs, sets_stop_time, finishes, stops, start, happen_all,
}
use kafka_to_nexus.Stream.Topic.Once.{IsOnce, start-IsOnce}
use kafka_to_nexus.Stream.Topic.StopTimes.{asked, to_come, latest_stop_time}

abbrev fresh : Topic
fresh = record {
  has_error = false;
  is_done = false;
  start_meta_data_time = pos 0;
  meta_data_give_up = pos 1_000;
  min_metadata_timeout = pos 100;
  max_metadata_timeout = pos 250;
  start_consume_time = pos 50;
  start_leeway = pos 20;
  stop_consume_time = pos 900;
  current_metadata_time_out = pos 100;
  consumer_threads = [];
  caller_queue = [];
  task_queue = [];
  low_priority_task_queue = [];
}

-- The broker answers within 200 units of time.
abbrev broker : Answers
broker = record {
  caller_first = false;
  current_time = pos 10;
  partitions_for_topic = λ limit. if ltb_ℤ limit (pos 200) then none else some (pos 0 ∷ pos 1 ∷ []);
  offset_for_time = λ ps at limit.
      if ltb_ℤ limit (pos 200) then none else some ((pos 0, pos 7) ∷ (pos 1, pos 9) ∷ []);
}

-- A new stop time arrives between the calls.
abbrev events : List Event
events =
    runs broker
    ∷ runs broker
    ∷ sets_stop_time (pos 700)
    ∷ runs broker
    ∷ runs broker
    ∷ runs broker
    ∷ runs broker
    ∷ runs broker
    ∷ runs broker
    ∷ finishes (pos 0)
    ∷ finishes (pos 1)
    ∷ runs broker
    ∷ stops
    ∷ []

start-IsOnce_example : IsOnce (happen_all events (start fresh))
start-IsOnce_example = start-IsOnce events fresh refl refl refl refl refl refl

latest_stop_time_example :
    let t' = happen_all events (start fresh) in
    All
      (λ c. (c.start_time ≡ t'.start_consume_time) × (asked c ≡ t'.stop_consume_time))
      t'.consumer_threads
    × (to_come t' ≡ pos 700)
latest_stop_time_example = latest_stop_time events fresh refl refl refl refl
