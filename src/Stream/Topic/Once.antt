-- ===== src/Stream/Topic/Once.antt =====
-- The streams of a topic are created at most once.
use kafka_to_nexus.Common.{
  ℤ, ℕ, ◌+◌, ◌≡◌, List, [], ◌∷◌, ◌++◌, arith, true, false, refl, inl, inr, if◌then◌else◌, map,
  Option-cases, Bool-cases, ap,
}
use kafka_to_nexus.Time.{sub_time}
use kafka_to_nexus.Stream.Topic.Rounds.{round-keeps}
use kafka_to_nexus.Stream.Topic.{
  Topic, Consumer, Task, Answers, Event, runs, stops, sets_stop_time, finishes, double_timeout,
  after_failure, get_partitions_for_topic, get_offsets_for_partitions, create_streams, check_done,
  run_task, happen, happen_all, send_work, send_caller_work, send_low_priority_work, stop,
  set_stop_time, start, init_metadata_calls, first_partitions, partitions_again, first_offsets,
  offsets_again, streams, check_if_done, new_stop_time, reset_timeout, all_finished, request_stop,
  give_stop_time, finish,
}

-- A step of the chain of metadata calls that ends in the creation of the streams.
abbrev is_metadata : Task → ℕ
is_metadata check_if_done = 0
is_metadata (new_stop_time s) = 0
is_metadata init_metadata_calls = 1
is_metadata first_partitions = 1
is_metadata partitions_again = 1
is_metadata (first_offsets ps) = 1
is_metadata (offsets_again ps) = 1
is_metadata (streams os) = 1

abbrev is_check : Task → ℕ
is_check check_if_done = 1
is_check (new_stop_time s) = 0
is_check init_metadata_calls = 0
is_check first_partitions = 0
is_check partitions_again = 0
is_check (first_offsets ps) = 0
is_check (offsets_again ps) = 0
is_check (streams os) = 0

abbrev count_by : (Task → ℕ) → List Task → ℕ
count_by f [] = 0
count_by f (x ∷ xs) = f x + count_by f xs

count_by-append :
    (f : Task → ℕ) (xs : List Task) (x : Task) → count_by f (xs ++ x ∷ []) ≡ count_by f xs + f x
count_by-append f [] x = omega arith
count_by-append f (y ∷ xs) x = omega (arith, count_by-append f xs x)

abbrev pub metadata_tasks : Topic → ℕ
metadata_tasks t =
    count_by is_metadata t.caller_queue
    + count_by is_metadata t.task_queue
    + count_by is_metadata t.low_priority_task_queue

abbrev pub check_tasks : Topic → ℕ
check_tasks t =
    count_by is_check t.caller_queue
    + count_by is_check t.task_queue
    + count_by is_check t.low_priority_task_queue

abbrev pub failed : Topic → ℕ
failed t = if t.has_error then 1 else 0

pub record IsOnce (t : Topic) : Type 0 where
  pub one : metadata_tasks t + check_tasks t + failed t ≡ 1
  pub none_yet : check_tasks t ≡ 0 → t.consumer_threads ≡ []
  pub done_finished :
      t.is_done ≡ true → (check_tasks t ≡ 1) × (all_finished t.consumer_threads ≡ true)

-- The state while a task of the chain runs, which was taken off its queue.
record IsOpen (t : Topic) : Type 0 where
  idle : metadata_tasks t + check_tasks t + failed t ≡ 0
  empty : t.consumer_threads ≡ []
  waiting : t.is_done ≡ false

after_failure-IsOnce :
    (task : Task) (now : ℤ) (t : Topic)
    → is_metadata task ≡ 1
    → is_check task ≡ 0
    → IsOpen t
    → IsOnce (after_failure task now t)
unfolding after_failure send_low_priority_work double_timeout
after_failure-IsOnce task now t m c h = ground (
  arith,
  count_by-append is_metadata t.low_priority_task_queue task,
  count_by-append is_check t.low_priority_task_queue task,
)

send_work-IsOnce :
    (task : Task) (t : Topic)
    → is_metadata task ≡ 1
    → is_check task ≡ 0
    → IsOpen t
    → IsOnce (send_work task t)
unfolding send_work
send_work-IsOnce task t m c h = ground (
  arith,
  count_by-append is_metadata t.task_queue task,
  count_by-append is_check t.task_queue task,
)

get_partitions-IsOnce : (a : Answers) (t : Topic) → IsOpen t → IsOnce (get_partitions_for_topic a t)
unfolding get_partitions_for_topic
get_partitions-IsOnce a t h =
    elim (Option-cases (a.partitions_for_topic t.current_metadata_time_out)) [
      | inl e ↦
          rw (e, get_partitions_for_topic)
            (after_failure-IsOnce partitions_again a.current_time t refl refl h)
      | inr (ps, e) ↦
          rw (e, get_partitions_for_topic) (send_work-IsOnce (first_offsets ps) t refl refl h)
    ]

get_offsets-IsOnce :
    (a : Answers) (ps : List ℤ) (t : Topic) → IsOpen t → IsOnce (get_offsets_for_partitions a ps t)
unfolding get_offsets_for_partitions
get_offsets-IsOnce a ps t h =
    elim (Option-cases (
      a.offset_for_time ps (sub_time t.start_consume_time t.start_leeway)
        t.current_metadata_time_out)) [
          | inl e ↦
              rw (e, get_offsets_for_partitions)
                (after_failure-IsOnce (offsets_again ps) a.current_time t refl refl h)
          | inr (os, e) ↦
              rw (e, get_offsets_for_partitions) (send_work-IsOnce (streams os) t refl refl h)
        ]

-- The state while any task runs.
record IsBusy (task : Task) (t : Topic) : Type 0 where
  one : metadata_tasks t + check_tasks t + failed t + is_metadata task + is_check task ≡ 1
  none_yet : check_tasks t + is_check task ≡ 0 → t.consumer_threads ≡ []
  done_finished :
      t.is_done ≡ true
      → (check_tasks t + is_check task ≡ 1) × (all_finished t.consumer_threads ≡ true)

IsBusy-IsOpen : (task : Task) (t : Topic) → is_metadata task ≡ 1 → IsBusy task t → IsOpen t
IsBusy-IsOpen task t m h = record {
  idle = omega (arith, h.one);
  empty = h.none_yet (omega (arith, h.one));
  waiting = not_done;
}
  where
    not_done : t.is_done ≡ false
    not_done = elim (Bool-cases t.is_done) [
      | inl e ↦ absurd (omega (arith, (h.done_finished e).0, h.one))
      | inr e ↦ e
    ]

all_finished-stop :
    (s : ℤ) (cs : List Consumer) → all_finished (map (give_stop_time s) cs) ≡ all_finished cs
all_finished-stop s [] = refl
all_finished-stop s (c ∷ cs) = ground (arith, all_finished-stop s cs)

all_finished-request : (cs : List Consumer) → all_finished (map request_stop cs) ≡ all_finished cs
all_finished-request [] = refl
all_finished-request (c ∷ cs) = ground (arith, all_finished-request cs)

all_finished-finish :
    (p : ℤ) (cs : List Consumer) → all_finished cs ≡ true → all_finished (finish p cs) ≡ true
all_finished-finish p [] h = refl
all_finished-finish p (c ∷ cs) h = ground (arith, all_finished-finish p cs)

create_streams-IsOnce : (os : List (ℤ × ℤ)) (t : Topic) → IsOpen t → IsOnce (create_streams os t)
unfolding create_streams send_low_priority_work
create_streams-IsOnce os t h = ground (
  arith,
  count_by-append is_metadata t.low_priority_task_queue check_if_done,
  count_by-append is_check t.low_priority_task_queue check_if_done,
)

check_done-IsOnce : (t : Topic) → IsBusy check_if_done t → IsOnce (check_done t)
unfolding check_done send_low_priority_work
check_done-IsOnce t h = ground (
  arith,
  count_by-append is_metadata t.low_priority_task_queue check_if_done,
  count_by-append is_check t.low_priority_task_queue check_if_done,
)

map-nil {ℓ} : {A : Type ℓ} (f : A → A) (xs : List A) → xs ≡ [] → map f xs ≡ []
map-nil f xs e = ap (map f) e

run_task-IsOnce :
    (a : Answers) (task : Task) (t : Topic) → IsBusy task t → IsOnce (run_task a task t)
unfolding run_task
run_task-IsOnce a init_metadata_calls t h =
    send_work-IsOnce first_partitions t refl refl (IsBusy-IsOpen init_metadata_calls t refl h)
run_task-IsOnce a first_partitions t h =
    let o = IsBusy-IsOpen first_partitions t refl h in
    get_partitions-IsOnce a (reset_timeout t) (ground arith)
run_task-IsOnce a partitions_again t h =
    get_partitions-IsOnce a t (IsBusy-IsOpen partitions_again t refl h)
run_task-IsOnce a (first_offsets ps) t h =
    let o = IsBusy-IsOpen (first_offsets ps) t refl h in
    get_offsets-IsOnce a ps (reset_timeout t) (ground arith)
run_task-IsOnce a (offsets_again ps) t h =
    get_offsets-IsOnce a ps t (IsBusy-IsOpen (offsets_again ps) t refl h)
run_task-IsOnce a (streams os) t h =
    let o = IsBusy-IsOpen (streams os) t refl h in
    create_streams-IsOnce os (reset_timeout t) (ground arith)
run_task-IsOnce a check_if_done t h = check_done-IsOnce t h
run_task-IsOnce a (new_stop_time s) t h =
    ground
      (arith, all_finished-stop s t.consumer_threads, map-nil (give_stop_time s) t.consumer_threads)

finish-nil : (p : ℤ) (cs : List Consumer) → cs ≡ [] → finish p cs ≡ []
finish-nil p cs e = ap (finish p) e

happen-IsOnce : (e : Event) (t : Topic) → IsOnce t → IsOnce (happen e t)
unfolding happen stop set_stop_time send_caller_work
happen-IsOnce (runs a) t h =
    round-keeps IsOnce a t h
      (λ task rest e.
        run_task-IsOnce a task (record t { caller_queue = rest }) (taken_caller task rest e))
      (λ task rest e. run_task-IsOnce a task (record t { task_queue = rest }) (taken task rest e))
      (λ task rest e.
        run_task-IsOnce a task (record t { low_priority_task_queue = rest })
          (taken_low task rest e))
  where
    taken_caller :
        (task : Task) (rest : List Task)
        → t.caller_queue ≡ task ∷ rest
        → IsBusy task (record t { caller_queue = rest })
    taken_caller task rest e = ground arith

    taken :
        (task : Task) (rest : List Task)
        → t.task_queue ≡ task ∷ rest
        → IsBusy task (record t { task_queue = rest })
    taken task rest e = ground arith

    taken_low :
        (task : Task) (rest : List Task)
        → t.low_priority_task_queue ≡ task ∷ rest
        → IsBusy task (record t { low_priority_task_queue = rest })
    taken_low task rest e = ground arith
happen-IsOnce stops t h =
    ground (arith, all_finished-request t.consumer_threads, map-nil request_stop t.consumer_threads)
happen-IsOnce (sets_stop_time s) t h = ground (
  arith,
  count_by-append is_metadata t.caller_queue (new_stop_time s),
  count_by-append is_check t.caller_queue (new_stop_time s),
)
happen-IsOnce (finishes p) t h =
    ground (arith, all_finished-finish p t.consumer_threads, finish-nil p t.consumer_threads)

happen_all-IsOnce : (es : List Event) (t : Topic) → IsOnce t → IsOnce (happen_all es t)
unfolding happen_all
happen_all-IsOnce [] t h = h
happen_all-IsOnce (e ∷ es) t h = happen_all-IsOnce es (happen e t) (happen-IsOnce e t h)

-- A topic that was started, in whatever order things happen: there is either one step of the metadata
-- calls left, or an error, or the check for the end goes on; so the streams are created at most once,
-- never after an error, and with an error there are none. The topic is done only after they were
-- created and when every one of them has finished.
pub start-IsOnce :
    (es : List Event) (t : Topic)
    → t.caller_queue ≡ []
    → t.task_queue ≡ []
    → t.low_priority_task_queue ≡ []
    → t.consumer_threads ≡ []
    → t.has_error ≡ false
    → t.is_done ≡ false
    → IsOnce (happen_all es (start t))
unfolding start send_caller_work
start-IsOnce es t k q l c e d = happen_all-IsOnce es (start t) (ground arith)
