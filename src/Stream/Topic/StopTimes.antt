-- ===== src/Stream/Topic/StopTimes.antt =====
-- Every consumer of a topic was asked for the stop time that was requested last.
use kafka_to_nexus.Common.{
  ℤ, ◌≡◌, List, [], ◌∷◌, ◌++◌, arith, refl, ◌∙◌, map, Option-cases, ap, All, All-append, sym, subst,
  inl, inr, none, some,
}
use kafka_to_nexus.Time.{sub_time}
use kafka_to_nexus.Stream.Topic.Rounds.{round-keeps}
use kafka_to_nexus.Stream.Topic.{
  Topic, Consumer, Task, Answers, Event, runs, stops, sets_stop_time, finishes, double_timeout,
  after_failure, get_partitions_for_topic, get_offsets_for_partitions, create_streams, check_done,
  run_task, happen, happen_all, send_work, send_caller_work, send_low_priority_work, stop,
  set_stop_time, start, init_metadata_calls, first_partitions, partitions_again, first_offsets,
  offsets_again, streams, check_if_done, new_stop_time, reset_timeout, request_stop, give_stop_time,
  finish, make_consumer,
}

-- The stop time that a task leaves, and that all tasks of a queue leave.
abbrev left_by : ℤ → Task → ℤ
left_by d (new_stop_time s) = s
left_by d check_if_done = d
left_by d init_metadata_calls = d
left_by d first_partitions = d
left_by d partitions_again = d
left_by d (first_offsets ps) = d
left_by d (offsets_again ps) = d
left_by d (streams os) = d

abbrev left_by_all : ℤ → List Task → ℤ
left_by_all d [] = d
left_by_all d (x ∷ xs) = left_by_all (left_by d x) xs

-- The topic's stop time once all tasks of the caller have run.
abbrev pub to_come : Topic → ℤ
to_come t = left_by_all t.stop_consume_time t.caller_queue

-- The last request among some events.
abbrev pub requested : ℤ → List Event → ℤ
requested d [] = d
requested d (sets_stop_time s ∷ es) = requested s es
requested d (runs a ∷ es) = requested d es
requested d (stops ∷ es) = requested d es
requested d (finishes p ∷ es) = requested d es

-- The stop time that a consumer was last asked for, or else made with.
abbrev pub asked : Consumer → ℤ
asked c = elim c.requested_stop_time [ none ↦ c.stop_time | some s ↦ s ]

abbrev HasTimes : ℤ → ℤ → List Consumer → Type 0
HasTimes start stop = All (λ c. (c.start_time ≡ start) × (asked c ≡ stop))

abbrev IsPlain : List Task → Type 0
IsPlain = All (λ x. (d : ℤ) → left_by d x ≡ d)

pub record IsTimely (last : ℤ) (t : Topic) : Type 0 where
  pub times : HasTimes t.start_consume_time t.stop_consume_time t.consumer_threads
  pub own : IsPlain t.task_queue
  pub plain : IsPlain t.low_priority_task_queue
  pub latest : to_come t ≡ last

left_by_all-append :
    (d : ℤ) (xs : List Task) (x : Task)
    → left_by_all d (xs ++ x ∷ []) ≡ left_by (left_by_all d xs) x
left_by_all-append d [] x = refl
left_by_all-append d (y ∷ xs) x = left_by_all-append (left_by d y) xs x

after_failure-IsTimely :
    (last : ℤ) (task : Task) (now : ℤ) (t : Topic)
    → ((d : ℤ) → left_by d task ≡ d)
    → IsTimely last t
    → IsTimely last (after_failure task now t)
unfolding after_failure send_low_priority_work double_timeout
after_failure-IsTimely last task now t p h =
    let q =
      All-append (λ x. (d : ℤ) → left_by d x ≡ d) t.low_priority_task_queue (task ∷ []) h.plain
        (p, tt) in
    ground arith

send_work-IsTimely :
    (last : ℤ) (task : Task) (t : Topic)
    → ((d : ℤ) → left_by d task ≡ d)
    → IsTimely last t
    → IsTimely last (send_work task t)
unfolding send_work
send_work-IsTimely last task t p h = record {
  times = h.times;
  own = All-append (λ x. (d : ℤ) → left_by d x ≡ d) t.task_queue (task ∷ []) h.own (p, tt);
  plain = h.plain;
  latest = h.latest;
}

get_partitions-IsTimely :
    (last : ℤ) (a : Answers) (t : Topic)
    → IsTimely last t
    → IsTimely last (get_partitions_for_topic a t)
unfolding get_partitions_for_topic
get_partitions-IsTimely last a t h =
    elim (Option-cases (a.partitions_for_topic t.current_metadata_time_out)) [
      | inl e ↦
          rw (e, get_partitions_for_topic)
            (after_failure-IsTimely last partitions_again a.current_time t (λ d. refl) h)
      | inr (ps, e) ↦
          rw (e, get_partitions_for_topic)
            (send_work-IsTimely last (first_offsets ps) t (λ d. refl) h)
    ]

get_offsets-IsTimely :
    (last : ℤ) (a : Answers) (ps : List ℤ) (t : Topic)
    → IsTimely last t
    → IsTimely last (get_offsets_for_partitions a ps t)
unfolding get_offsets_for_partitions
get_offsets-IsTimely last a ps t h =
    elim (Option-cases (
      a.offset_for_time ps (sub_time t.start_consume_time t.start_leeway)
        t.current_metadata_time_out)) [
          | inl e ↦
              rw (e, get_offsets_for_partitions)
                (after_failure-IsTimely last (offsets_again ps) a.current_time t (λ d. refl) h)
          | inr (os, e) ↦
              rw (e, get_offsets_for_partitions)
                (send_work-IsTimely last (streams os) t (λ d. refl) h)
        ]

HasTimes-make :
    (start stop : ℤ) (os : List (ℤ × ℤ)) → HasTimes start stop (map (make_consumer start stop) os)
HasTimes-make start stop [] = tt
HasTimes-make start stop ((p, o) ∷ os) = ((refl, refl), HasTimes-make start stop os)

HasTimes-give :
    (start stop s : ℤ) (cs : List Consumer)
    → HasTimes start stop cs
    → HasTimes start s (map (give_stop_time s) cs)
HasTimes-give start stop s [] h = tt
HasTimes-give start stop s (c ∷ cs) h = ((h.0.0, refl), HasTimes-give start stop s cs h.1)

HasTimes-request :
    (start stop : ℤ) (cs : List Consumer)
    → HasTimes start stop cs
    → HasTimes start stop (map request_stop cs)
HasTimes-request start stop [] h = tt
HasTimes-request start stop (c ∷ cs) h = (h.0, HasTimes-request start stop cs h.1)

HasTimes-finish :
    (start stop p : ℤ) (cs : List Consumer)
    → HasTimes start stop cs
    → HasTimes start stop (finish p cs)
HasTimes-finish start stop p [] h = tt
HasTimes-finish start stop p (c ∷ cs) h =
    let r = HasTimes-finish start stop p cs h.1 in ground arith

create_streams-IsTimely :
    (last : ℤ) (os : List (ℤ × ℤ)) (t : Topic)
    → IsTimely last t
    → IsTimely last (create_streams os t)
unfolding create_streams send_low_priority_work
create_streams-IsTimely last os t h = record {
  times =
      All-append _ t.consumer_threads _ h.times
        (HasTimes-make t.start_consume_time t.stop_consume_time os);
  own = h.own;
  plain = All-append _ t.low_priority_task_queue (check_if_done ∷ []) h.plain ((λ d. refl), tt);
  latest = h.latest;
}

run_task-IsTimely :
    (last : ℤ) (a : Answers) (task : Task) (t : Topic)
    → HasTimes t.start_consume_time t.stop_consume_time t.consumer_threads
    → IsPlain t.task_queue
    → IsPlain t.low_priority_task_queue
    → left_by_all (left_by t.stop_consume_time task) t.caller_queue ≡ last
    → IsTimely last (run_task a task t)
unfolding run_task
run_task-IsTimely last a init_metadata_calls t h o p e =
    send_work-IsTimely last first_partitions t (λ d. refl)
      (record { times = h; own = o; plain = p; latest = e })
run_task-IsTimely last a first_partitions t h o p e =
    get_partitions-IsTimely last a (reset_timeout t)
      (record { times = h; own = o; plain = p; latest = e })
run_task-IsTimely last a partitions_again t h o p e =
    get_partitions-IsTimely last a t (record { times = h; own = o; plain = p; latest = e })
run_task-IsTimely last a (first_offsets ps) t h o p e =
    get_offsets-IsTimely last a ps (reset_timeout t)
      (record { times = h; own = o; plain = p; latest = e })
run_task-IsTimely last a (offsets_again ps) t h o p e =
    get_offsets-IsTimely last a ps t (record { times = h; own = o; plain = p; latest = e })
run_task-IsTimely last a (streams os) t h o p e =
    create_streams-IsTimely last os (reset_timeout t)
      (record { times = h; own = o; plain = p; latest = e })
run_task-IsTimely last a check_if_done t h o p e =
    unfold check_done send_low_priority_work in
    record {
      times = h;
      own = o;
      plain = All-append _ t.low_priority_task_queue (check_if_done ∷ []) p ((λ d. refl), tt);
      latest = e;
    }
run_task-IsTimely last a (new_stop_time s) t h o p e = record {
  times = HasTimes-give t.start_consume_time t.stop_consume_time s t.consumer_threads h;
  own = o;
  plain = p;
  latest = e;
}

happen-IsTimely :
    (last : ℤ) (e : Event) (t : Topic)
    → IsTimely last t
    → IsTimely (requested last (e ∷ [])) (happen e t)
unfolding happen stop set_stop_time send_caller_work
happen-IsTimely last (runs a) t h =
    round-keeps (IsTimely last) a t h
      (λ task rest e.
        run_task-IsTimely last a task (record t { caller_queue = rest }) h.times h.own h.plain
          (ap (left_by_all t.stop_consume_time) (sym e) ∙ h.latest))
      (λ task rest e.
        let q = subst IsPlain e h.own in
        run_task-IsTimely last a task (record t { task_queue = rest }) h.times q.1 h.plain
          (ap (λ d. left_by_all d t.caller_queue) (q.0 t.stop_consume_time) ∙ h.latest))
      (λ task rest e.
        let q = subst IsPlain e h.plain in
        run_task-IsTimely last a task (record t { low_priority_task_queue = rest }) h.times h.own
          q.1 (ap (λ d. left_by_all d t.caller_queue) (q.0 t.stop_consume_time) ∙ h.latest))
happen-IsTimely last stops t h = record {
  times = HasTimes-request t.start_consume_time t.stop_consume_time t.consumer_threads h.times;
  own = h.own;
  plain = h.plain;
  latest = h.latest;
}
happen-IsTimely last (sets_stop_time s) t h = record {
  times = h.times;
  own = h.own;
  plain = h.plain;
  latest = left_by_all-append t.stop_consume_time t.caller_queue (new_stop_time s);
}
happen-IsTimely last (finishes p) t h = record {
  times = HasTimes-finish t.start_consume_time t.stop_consume_time p t.consumer_threads h.times;
  own = h.own;
  plain = h.plain;
  latest = h.latest;
}

happen_all-IsTimely :
    (last : ℤ) (es : List Event) (t : Topic)
    → IsTimely last t
    → IsTimely (requested last es) (happen_all es t)
unfolding happen_all
happen_all-IsTimely last [] t h = h
happen_all-IsTimely last (sets_stop_time s ∷ es) t h =
    happen_all-IsTimely s es (happen (sets_stop_time s) t)
      (happen-IsTimely last (sets_stop_time s) t h)
happen_all-IsTimely last (runs a ∷ es) t h =
    happen_all-IsTimely last es (happen (runs a) t) (happen-IsTimely last (runs a) t h)
happen_all-IsTimely last (stops ∷ es) t h =
    happen_all-IsTimely last es (happen stops t) (happen-IsTimely last stops t h)
happen_all-IsTimely last (finishes p ∷ es) t h =
    happen_all-IsTimely last es (happen (finishes p) t) (happen-IsTimely last (finishes p) t h)

-- A topic that was started, in whatever order things happen: every consumer has the topic's start time,
-- and was last asked for the topic's present stop time, or made with it and not asked since, whether it
-- was created before or after a request; and once the tasks that the caller sent have run, the topic's
-- stop time is the one that was requested last, or else the first one. Whether a consumer's own thread
-- takes up what it is asked for is not part of this.
pub latest_stop_time :
    (es : List Event) (t : Topic)
    → t.caller_queue ≡ []
    → t.task_queue ≡ []
    → t.low_priority_task_queue ≡ []
    → t.consumer_threads ≡ []
    → let t' = happen_all es (start t) in
      All
        (λ c. (c.start_time ≡ t'.start_consume_time) × (asked c ≡ t'.stop_consume_time))
        t'.consumer_threads
      × (to_come t' ≡ requested t.stop_consume_time es)
unfolding start send_caller_work
latest_stop_time es t k q l c =
    let r = happen_all-IsTimely t.stop_consume_time es (start t) fresh in (r.times, r.latest)
  where
    fresh : IsTimely t.stop_consume_time (start t)
    fresh = record {
      times = subst (HasTimes t.start_consume_time t.stop_consume_time) (sym c) tt;
      own = subst IsPlain (sym q) tt;
      plain = subst IsPlain (sym l) tt;
      latest =
          left_by_all-append t.stop_consume_time t.caller_queue init_metadata_calls
          ∙ ap (left_by_all t.stop_consume_time) k;
    }
