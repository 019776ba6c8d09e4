-- ===== src/Stream/Partition/Threaded/Requests.antt =====
-- Requests for a new stop time: when they are honoured, and when they are lost.
use kafka_to_nexus.Common.{
  ℤ, ℕ, ◌≡◌, ◌≢◌, Text, false, List, [], ◌∷◌, arith, eq_of_parts, refl, map, All,
}
use kafka_to_nexus.Time.{time_max}
use kafka_to_nexus.Message.{Registry}
use kafka_to_nexus.Stream.SourceFilter.{SourceFilter, WriteJob}
use kafka_to_nexus.Stream.SourceFilter
use kafka_to_nexus.Stream.PartitionFilter.{sanitise}
use kafka_to_nexus.Stream.PartitionFilter
use kafka_to_nexus.Stream.Partition.{Partition, Turn, set_stop_time}
use kafka_to_nexus.Stream.Partition.Threaded.{
  Worker, Place, Action, works, requests_stop_time, loop_test, stop_test, stop_call, stop_reset,
  time_test, time_call, time_reset, polling, ended, act, work, act_all, start,
}

-- A partition and all of its filters stop at a time.
pub record StopsAt (stop : ℤ) (p : Partition) : Type 0 where
  pub own : p.stop_time ≡ stop
  pub partition_filter : p.partition_filter.stop_time ≡ stop
  pub source_filters : All (λ f. f.stop_time ≡ stop) p.source_filters

set_each :
    (stop : ℤ) (fs : List SourceFilter)
    → All (λ f. f.stop_time ≡ stop) (map (SourceFilter.set_stop_time stop) fs)
unfolding SourceFilter.set_stop_time
set_each stop [] = tt
set_each stop (f ∷ fs) = (refl, set_each stop fs)

set_stop_time-StopsAt :
    (s : ℤ) (p : Partition) → StopsAt (sanitise p.stop_time_leeway s) (set_stop_time s p)
unfolding set_stop_time PartitionFilter.set_stop_time
set_stop_time-StopsAt s p = record {
  own = refl;
  partition_filter = refl;
  source_filters = set_each (sanitise p.stop_time_leeway s) p.source_filters;
}

module _ (hash : Text → ℕ) (readers : Registry) where
  -- A stop time that is requested while the worker is at the start of a turn, and not followed by another
  -- request before its poll: at that poll, five steps on, the partition, its partition filter and every
  -- source filter stop at that time, cut so that the leeway can be added; and the request is cleared.
  -- This is for a partition that has not finished, a worker that is not told to stop or to exit, and any
  -- time but the latest one, which means that there is no request.
  pub stop_time_taken_up :
      (w : Worker) (s : ℤ) (t1 t2 t3 t4 t5 : Turn)
      → w.place ≡ loop_test
      → w.partition.has_finished ≡ false
      → w.exit ≡ false
      → w.immediate_stop_requested ≡ false
      → s ≢ time_max
      → let w' =
          act_all hash readers
            (requests_stop_time s ∷ works t1 ∷ works t2 ∷ works t3 ∷ works t4 ∷ works t5 ∷ [])
            w in
        (w'.place ≡ polling)
        × (w'.requested_stop_time ≡ time_max)
        × StopsAt (sanitise w.partition.stop_time_leeway s) w'.partition
  unfolding act_all act work
  stop_time_taken_up w s t1 t2 t3 t4 t5 e f x i h =
      ground (arith, eq_of_parts s time_max, set_stop_time-StopsAt s w.partition)

  -- No request is left, and none is being passed on.
  record IsQuiet (w : Worker) : Type 0 where
    no_request : w.requested_stop_time ≡ time_max
    not_called : w.place ≢ time_call

  work-IsQuiet :
      (p : Place) (t : Turn) (w : Worker)
      → w.place ≡ p
      → IsQuiet w
      → IsQuiet (work hash readers p t w)
  unfolding work
  work-IsQuiet loop_test t w e h = ground arith
  work-IsQuiet stop_test t w e h = ground arith
  work-IsQuiet stop_call t w e h = ground arith
  work-IsQuiet stop_reset t w e h = ground arith
  work-IsQuiet time_test t w e h = ground arith
  work-IsQuiet time_call t w e h = ground arith
  work-IsQuiet time_reset t w e h = ground arith
  work-IsQuiet polling t w e h = ground arith
  work-IsQuiet ended t w e h = ground arith

  works_all-IsQuiet :
      (ts : List Turn) (w : Worker) → IsQuiet w → IsQuiet (act_all hash readers (map works ts) w)
  unfolding act_all act
  works_all-IsQuiet [] w h = h
  works_all-IsQuiet (t ∷ ts) w h =
      works_all-IsQuiet ts (work hash readers w.place t w) (work-IsQuiet w.place t w refl h)

  abbrev pub two_requests : ℤ → ℤ → Turn → Turn → Turn → Turn → Turn → List Action
  two_requests first second t1 t2 t3 t4 t5 =
      works t1
      ∷ works t2
      ∷ requests_stop_time first
      ∷ works t3
      ∷ works t4
      ∷ requests_stop_time second
      ∷ works t5
      ∷ []

  abbrev with_first : ℤ → Partition → List WriteJob → Worker
  with_first first partition queue = record (start partition queue) {
    place = polling;
    partition = set_stop_time first partition;
  }

  two_requests-first :
      (partition : Partition) (queue : List WriteJob) (first second : ℤ) (t1 t2 t3 t4 t5 : Turn)
      → partition.has_finished ≡ false
      → first ≢ time_max
      → act_all hash readers (two_requests first second t1 t2 t3 t4 t5) (start partition queue)
        ≡ with_first first partition queue
  unfolding act_all act work start
  two_requests-first partition queue first second t1 t2 t3 t4 t5 f h =
      ground (arith, eq_of_parts first time_max)

  with_first-IsQuiet :
      (first : ℤ) (partition : Partition) (queue : List WriteJob)
      → IsQuiet (with_first first partition queue)
  unfolding start
  with_first-IsQuiet first partition queue = record {
    no_request = refl;
    not_called = λ (e : polling ≡ time_call). cc;
  }

  -- A worker that was just started and is asked for one stop time, and for another one after it has passed
  -- the first on and before it has cleared that request: the partition and its filters stop at the
  -- first time, no request is left, and however many steps the worker takes from there, it never passes
  -- on a stop time again. The second request is lost.
  pub stop_time_lost :
      (partition : Partition) (queue : List WriteJob) (first second : ℤ) (t1 t2 t3 t4 t5 : Turn)
      (ts : List Turn)
      → partition.has_finished ≡ false
      → first ≢ time_max
      → let w =
          act_all hash readers (two_requests first second t1 t2 t3 t4 t5) (start partition queue) in
        let w' = act_all hash readers (map works ts) w in
        StopsAt (sanitise partition.stop_time_leeway first) w.partition
        × (w.requested_stop_time ≡ time_max)
        × (w'.requested_stop_time ≡ time_max)
        × (w'.place ≢ time_call)
  stop_time_lost partition queue first second t1 t2 t3 t4 t5 ts f h =
      let e = two_requests-first partition queue first second t1 t2 t3 t4 t5 f h in
      let q =
        works_all-IsQuiet ts (with_first first partition queue)
          (with_first-IsQuiet first partition queue) in
      rw e (
        set_stop_time-StopsAt first partition,
        (with_first-IsQuiet first partition queue).no_request,
        q.no_request,
        q.not_called,
      )
