-- ===== src/Stream/Topic/Timeouts.antt =====
-- The time-outs of the metadata calls.
use kafka_to_nexus.Common.{ℤ, ◌≤ℤ◌, ◌+ℤ◌, ◌≡◌, List, [], ◌∷◌, arith, +ℤ_parts}
use kafka_to_nexus.Time.{time_max, epoch, add_time, add_time-length, time_laws}
use kafka_to_nexus.Stream.Topic.Rounds.{round-keeps}
use kafka_to_nexus.Stream.Topic.{
  Topic, Task, Answers, Event, runs, stops, sets_stop_time, finishes, double_timeout, after_failure,
  get_partitions_for_topic, get_offsets_for_partitions, create_streams, check_done, run_task,
  happen, happen_all, send_work, send_caller_work, send_low_priority_work, stop, set_stop_time,
  init_metadata_calls, first_partitions, partitions_again, first_offsets, offsets_again, streams,
  check_if_done, new_stop_time, reset_timeout,
}

-- The time-out lies between the two that are set, and twice the longest is a time that the clock holds.
pub record IsTimed (lo hi : ℤ) (t : Topic) : Type 0 where
  pub shortest : t.min_metadata_timeout ≡ lo
  pub longest : t.max_metadata_timeout ≡ hi
  pub least : lo ≤ℤ t.current_metadata_time_out
  pub most : t.current_metadata_time_out ≤ℤ hi

module _ (lo hi : ℤ) (l : epoch ≤ℤ lo) (r : lo ≤ℤ hi) (b : hi +ℤ hi ≤ℤ time_max) where
  double_exact : (now : ℤ) → lo ≤ℤ now → now ≤ℤ hi → add_time now now ≡ now +ℤ now
  double_exact now m n =
      add_time-length now now (omega (time_laws, l, r, b)) (omega (time_laws, l, r, b))
        (omega (time_laws, l, r, b))

  double_timeout-IsTimed : (t : Topic) → IsTimed lo hi t → IsTimed lo hi (double_timeout t)
  unfolding double_timeout
  double_timeout-IsTimed t h = ground (
    arith,
    double_exact t.current_metadata_time_out h.least h.most,
    +ℤ_parts t.current_metadata_time_out t.current_metadata_time_out,
  )

  after_failure-IsTimed :
      (task : Task) (now : ℤ) (t : Topic)
      → IsTimed lo hi t
      → IsTimed lo hi (after_failure task now t)
  unfolding after_failure send_low_priority_work
  after_failure-IsTimed task now t h = ground (arith, double_timeout-IsTimed t h)

  get_partitions-IsTimed :
      (a : Answers) (t : Topic) → IsTimed lo hi t → IsTimed lo hi (get_partitions_for_topic a t)
  unfolding get_partitions_for_topic send_work
  get_partitions-IsTimed a t h =
      ground (arith, after_failure-IsTimed partitions_again a.current_time t h)

  get_offsets-IsTimed :
      (a : Answers) (ps : List ℤ) (t : Topic)
      → IsTimed lo hi t
      → IsTimed lo hi (get_offsets_for_partitions a ps t)
  unfolding get_offsets_for_partitions send_work
  get_offsets-IsTimed a ps t h =
      ground (arith, after_failure-IsTimed (offsets_again ps) a.current_time t h)

  reset-IsTimed : (t : Topic) → IsTimed lo hi t → IsTimed lo hi (reset_timeout t)
  reset-IsTimed t h = let w = r in ground arith

  run_task-IsTimed :
      (a : Answers) (task : Task) (t : Topic) → IsTimed lo hi t → IsTimed lo hi (run_task a task t)
  unfolding run_task send_work create_streams check_done send_low_priority_work
  run_task-IsTimed a init_metadata_calls t h = ground arith
  run_task-IsTimed a first_partitions t h =
      get_partitions-IsTimed a (reset_timeout t) (reset-IsTimed t h)
  run_task-IsTimed a partitions_again t h = get_partitions-IsTimed a t h
  run_task-IsTimed a (first_offsets ps) t h =
      get_offsets-IsTimed a ps (reset_timeout t) (reset-IsTimed t h)
  run_task-IsTimed a (offsets_again ps) t h = get_offsets-IsTimed a ps t h
  run_task-IsTimed a (streams os) t h = let w = reset-IsTimed t h in ground arith
  run_task-IsTimed a check_if_done t h = ground arith
  run_task-IsTimed a (new_stop_time s) t h = ground arith

  happen-IsTimed : (e : Event) (t : Topic) → IsTimed lo hi t → IsTimed lo hi (happen e t)
  unfolding happen stop set_stop_time send_caller_work
  happen-IsTimed (runs a) t h =
      round-keeps (IsTimed lo hi) a t h
        (λ task rest e. run_task-IsTimed a task (record t { caller_queue = rest }) (ground arith))
        (λ task rest e. run_task-IsTimed a task (record t { task_queue = rest }) (ground arith))
        (λ task rest e.
          run_task-IsTimed a task (record t { low_priority_task_queue = rest }) (ground arith))
  happen-IsTimed stops t h = ground arith
  happen-IsTimed (sets_stop_time s) t h = ground arith
  happen-IsTimed (finishes p) t h = ground arith

  -- Whatever the broker answers and in whatever order things happen, the time-out of the metadata calls
  -- stays between the shortest and the longest of the settings, and its doubling never overflows.
  happen_all-IsTimed :
      (es : List Event) (t : Topic) → IsTimed lo hi t → IsTimed lo hi (happen_all es t)
  unfolding happen_all
  happen_all-IsTimed [] t h = h
  happen_all-IsTimed (e ∷ es) t h = happen_all-IsTimed es (happen e t) (happen-IsTimed e t h)
