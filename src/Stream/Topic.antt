-- ===== src/Stream/Topic.antt =====
-- src/Stream/Topic.{h,cpp}, with the executor of src/ThreadedExecutor.h that runs its work: a queue of
-- tasks that goes first and one of low priority. The queue that goes first keeps the order of each thread
-- that fills it and no other, so it is one list for the caller's thread and one for the executor's own.
-- The broker's answers, the clock and the choice between those lists are inputs.
pub mod Rounds
pub mod Timeouts
pub mod Once
pub mod StopTimes
mod Examples
use kafka_to_nexus.Common.{
  ℤ, pos, Bool, true, false, List, [], ◌∷◌, ◌++◌, Option, none, some, if◌then◌else◌, ltb_ℤ, eqb_ℤ,
  ◌+ℤ◌, wrap64, map, ◌&&◌,
}
use kafka_to_nexus.Time.{add_time, sub_time}

-- What the topic knows of a `PartitionThreaded`: what it was made with, and what was asked of it since.
-- Whether its own thread takes up the stop time that it was asked for is told in Partition.Threaded.
pub record Consumer : Type 0 where
  pub partition : ℤ
  pub offset : ℤ
  pub start_time : ℤ
  pub stop_time : ℤ
  pub requested_stop_time : Option ℤ
  pub stop_requested : Bool
  pub finished : Bool

-- `stop` and `set_stop_time` of `PartitionThreaded`.
abbrev pub request_stop : Consumer → Consumer
request_stop c = record c { stop_requested = true }

abbrev pub give_stop_time : ℤ → Consumer → Consumer
give_stop_time s c = record c { requested_stop_time = some s }

-- The tasks that are handed to the executor.
pub data Task : Type 0 where
  -- The two lambdas of `start` and `initMetadataCalls`.
  init_metadata_calls first_partitions : Task
  -- `getPartitionsForTopic` once more after a failure.
  partitions_again : Task
  -- The lambda that follows found partitions, and `getOffsetsForPartitions` once more.
  first_offsets offsets_again : List ℤ → Task
  -- The lambda that follows found offsets.
  streams : List (ℤ × ℤ) → Task
  check_if_done : Task
  new_stop_time : ℤ → Task

pub record Topic : Type 0 where
  pub has_error : Bool
  pub is_done : Bool
  pub start_meta_data_time : ℤ
  pub meta_data_give_up : ℤ
  pub min_metadata_timeout : ℤ
  pub max_metadata_timeout : ℤ
  pub start_consume_time : ℤ
  pub start_leeway : ℤ
  pub stop_consume_time : ℤ
  pub current_metadata_time_out : ℤ
  pub consumer_threads : List Consumer
  pub caller_queue : List Task
  pub task_queue : List Task
  pub low_priority_task_queue : List Task

-- What a task may ask for: the clock, the partitions of the topic, and the offsets of partitions at a
-- time; nothing stands for a `MetadataException`. `caller_first` is the choice of the queue.
pub record Answers : Type 0 where
  pub caller_first : Bool
  pub current_time : ℤ
  pub partitions_for_topic : ℤ → Option (List ℤ)
  pub offset_for_time : List ℤ → ℤ → ℤ → Option (List (ℤ × ℤ))

-- `sendWork` from a task of the topic itself.
unfoldable pub send_work : Task → Topic → Topic
send_work task t = record t { task_queue = t.task_queue ++ task ∷ [] }

-- `sendWork` from the thread that calls `start` and `setStopTime`.
unfoldable pub send_caller_work : Task → Topic → Topic
send_caller_work task t = record t { caller_queue = t.caller_queue ++ task ∷ [] }

unfoldable pub send_low_priority_work : Task → Topic → Topic
send_low_priority_work task t = record t {
  low_priority_task_queue = t.low_priority_task_queue ++ task ∷ [];
}

unfoldable pub start : Topic → Topic
start = send_caller_work init_metadata_calls

-- `setStopTime` hands the work on.
unfoldable pub set_stop_time : ℤ → Topic → Topic
set_stop_time stop_time = send_caller_work (new_stop_time stop_time)

unfoldable pub stop : Topic → Topic
stop t = record t { consumer_threads = map request_stop t.consumer_threads }

unfoldable pub should_give_up : ℤ → Topic → Bool
should_give_up now t = ltb_ℤ (add_time t.start_meta_data_time t.meta_data_give_up) now

-- `CurrentMetadataTimeOut *= 2`, cut at the maximum.
unfoldable pub double_timeout : Topic → Topic
double_timeout t =
    let doubled = add_time t.current_metadata_time_out t.current_metadata_time_out in
    record t {
      current_metadata_time_out =
          if ltb_ℤ t.max_metadata_timeout doubled then t.max_metadata_timeout else doubled;
    }

-- The catch clause that the two metadata calls share.
unfoldable pub after_failure : Task → ℤ → Topic → Topic
after_failure again now t =
    if should_give_up now t
    then record t { has_error = true }
    else send_low_priority_work again (double_timeout t)

unfoldable pub get_partitions_for_topic : Answers → Topic → Topic
get_partitions_for_topic a t = elim (a.partitions_for_topic t.current_metadata_time_out) [
  | none ↦ after_failure partitions_again a.current_time t
  | some found ↦ send_work (first_offsets found) t
]

unfoldable pub get_offsets_for_partitions : Answers → List ℤ → Topic → Topic
get_offsets_for_partitions a partitions t =
    elim (a.offset_for_time partitions (sub_time t.start_consume_time t.start_leeway)
      t.current_metadata_time_out) [
        | none ↦ after_failure (offsets_again partitions) a.current_time t
        | some offsets ↦ send_work (streams offsets) t
      ]

abbrev pub make_consumer : ℤ → ℤ → ℤ × ℤ → Consumer
make_consumer start_time stop_time (partition, offset) = record {
  partition = partition;
  offset = offset;
  start_time = start_time;
  stop_time = stop_time;
  requested_stop_time = none;
  stop_requested = false;
  finished = false;
}

unfoldable pub create_streams : List (ℤ × ℤ) → Topic → Topic
create_streams offsets t = send_low_priority_work check_if_done (record t {
  consumer_threads =
      t.consumer_threads ++ map (make_consumer t.start_consume_time t.stop_consume_time) offsets;
})

abbrev pub all_finished : List Consumer → Bool
all_finished [] = true
all_finished (c ∷ cs) = c.finished && all_finished cs

unfoldable pub check_done : Topic → Topic
check_done t =
    send_low_priority_work check_if_done
      (record t { is_done = if all_finished t.consumer_threads then true else t.is_done })

abbrev pub reset_timeout : Topic → Topic
reset_timeout t = record t { current_metadata_time_out = t.min_metadata_timeout }

unfoldable pub run_task : Answers → Task → Topic → Topic
run_task a init_metadata_calls t = send_work first_partitions t
run_task a first_partitions t = get_partitions_for_topic a (reset_timeout t)
run_task a partitions_again t = get_partitions_for_topic a t
run_task a (first_offsets found) t = get_offsets_for_partitions a found (reset_timeout t)
run_task a (offsets_again found) t = get_offsets_for_partitions a found t
run_task a (streams offsets) t = create_streams offsets (reset_timeout t)
run_task a check_if_done t = check_done t
run_task a (new_stop_time s) t = record t {
  stop_consume_time = s;
  consumer_threads = map (give_stop_time s) t.consumer_threads;
}

-- One round of the executor's thread: the first task that either thread sent, or else the first one of
-- low priority.
unfoldable pub round_low : Answers → List Task → Topic → Topic
round_low a [] t = t
round_low a (task ∷ rest) t = run_task a task (record t { low_priority_task_queue = rest })

unfoldable pub round_of : Answers → List Task → List Task → Topic → Topic
round_of a [] [] t = round_low a t.low_priority_task_queue t
round_of a (task ∷ rest) [] t = run_task a task (record t { caller_queue = rest })
round_of a [] (task ∷ rest) t = run_task a task (record t { task_queue = rest })
round_of a (task ∷ rest) (own ∷ own_rest) t =
    if a.caller_first
    then run_task a task (record t { caller_queue = rest })
    else run_task a own (record t { task_queue = own_rest })

-- What happens to a topic: a round of its executor, a call from the controller's thread, or a consumer
-- that finishes.
pub data Event : Type 0 where
  runs : Answers → Event
  stops : Event
  sets_stop_time : ℤ → Event
  finishes : ℤ → Event

abbrev pub finish : ℤ → List Consumer → List Consumer
finish p [] = []
finish p (c ∷ cs) = (if eqb_ℤ c.partition p then record c { finished = true } else c) ∷ finish p cs

unfoldable pub happen : Event → Topic → Topic
happen (runs a) t = round_of a t.caller_queue t.task_queue t
happen stops t = stop t
happen (sets_stop_time s) t = set_stop_time s t
happen (finishes p) t = record t { consumer_threads = finish p t.consumer_threads }

unfoldable pub happen_all : List Event → Topic → Topic
happen_all [] t = t
happen_all (e ∷ es) t = happen_all es (happen e t)
