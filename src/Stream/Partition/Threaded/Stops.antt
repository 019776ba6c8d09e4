-- ===== src/Stream/Partition/Threaded/Stops.antt =====
-- A stop request reaches the partition under every interleaving, within a bounded number of steps of
-- the worker.
use kafka_to_nexus.Common.{
  ℕ, ◌≡◌, ◌≤◌, ◌+◌, ◌-◌, ◌⊎◌, Text, List, [], ◌∷◌, arith, refl, true, suc, if◌then◌else◌,
}
use kafka_to_nexus.Message.{Registry}
use kafka_to_nexus.Stream.Partition.{Turn, stop, set_stop_time}
use kafka_to_nexus.Stream.Partition.Stopping.{poll_for_message-forced}
use kafka_to_nexus.Stream.Partition.Threaded.{
  Worker, Place, Action, works, requests_stop, requests_stop_time, requests_exit, loop_test,
  stop_test, stop_call, stop_reset, time_test, time_call, time_reset, polling, ended, act, work,
  act_all,
}

-- A stop was requested: the request stands, or it has reached the partition, as it has when the worker
-- is about to clear it.
pub record IsStopping (w : Worker) : Type 0 where
  pub asked : (w.immediate_stop_requested ≡ true) ⊎ (w.partition.force_stop ≡ true)
  pub called : w.place ≡ stop_reset → w.partition.force_stop ≡ true

-- Steps of the worker from a place to the test of the loop.
abbrev to_test : Place → ℕ
to_test loop_test = 0
to_test stop_test = 7
to_test stop_call = 6
to_test stop_reset = 5
to_test time_test = 4
to_test time_call = 3
to_test time_reset = 2
to_test polling = 1
to_test ended = 0

abbrev left_finished : Place → ℕ
left_finished ended = 0
left_finished p = to_test p + 1

abbrev left_forced : Place → ℕ
left_forced ended = 0
left_forced loop_test = 9
left_forced p = to_test p + 1

abbrev left_asked : Place → ℕ
left_asked ended = 0
left_asked stop_test = 8
left_asked stop_call = 7
left_asked loop_test = 9
left_asked p = to_test p + 9

-- Steps that are left until the worker has ended.
abbrev steps_left : Worker → ℕ
steps_left w =
    if w.partition.has_finished
    then left_finished w.place
    else (if w.partition.force_stop then left_forced w.place else left_asked w.place)

-- The steps of the worker among some actions.
abbrev pub worked : List Action → ℕ
worked [] = 0
worked (works t ∷ rest) = suc (worked rest)
worked (_ ∷ rest) = worked rest

module _ (hash : Text → ℕ) (readers : Registry) where
  work-IsStopping :
      (p : Place) (t : Turn) (w : Worker)
      → w.place ≡ p
      → IsStopping w
      → IsStopping (work hash readers p t w)
        × (steps_left (work hash readers p t w) ≤ steps_left w - 1)
  unfolding work stop set_stop_time
  work-IsStopping loop_test t w e h = ground arith
  work-IsStopping polling t w e h =
      ground (arith, poll_for_message-forced hash readers t w.partition w.queue)
  work-IsStopping _ t w e h = ground arith

  act-IsStopping :
      (a : Action) (w : Worker)
      → IsStopping w
      → IsStopping (act hash readers a w)
        × (steps_left (act hash readers a w) ≤ steps_left w - worked (a ∷ []))
  unfolding act
  act-IsStopping (works t) w h = work-IsStopping w.place t w refl h
  act-IsStopping _ w h = ground arith

  act_all-steps_left :
      (rest : List Action) (w : Worker)
      → IsStopping w
      → steps_left (act_all hash readers rest w) ≤ steps_left w - worked rest
  unfolding act_all
  act_all-steps_left [] w h = omega arith
  act_all-steps_left (works t ∷ rest) w h =
      let s = act-IsStopping (works t) w h in
      omega (arith, act_all-steps_left rest (act hash readers (works t) w) s.0, s.1)
  act_all-steps_left (requests_stop ∷ rest) w h =
      let s = act-IsStopping requests_stop w h in
      omega (arith, act_all-steps_left rest (act hash readers requests_stop w) s.0, s.1)
  act_all-steps_left (requests_stop_time t ∷ rest) w h =
      let s = act-IsStopping (requests_stop_time t) w h in
      omega (arith, act_all-steps_left rest (act hash readers (requests_stop_time t) w) s.0, s.1)
  act_all-steps_left (requests_exit ∷ rest) w h =
      let s = act-IsStopping requests_exit w h in
      omega (arith, act_all-steps_left rest (act hash readers requests_exit w) s.0, s.1)

  steps_left-le : (p : Place) (w : Worker) → w.place ≡ p → IsStopping w → steps_left w ≤ 13
  steps_left-le loop_test w e h = ground arith
  steps_left-le _ w e h = ground arith

  ended_of_none : (p : Place) (w : Worker) → w.place ≡ p → steps_left w ≡ 0 → w.place ≡ ended
  ended_of_none loop_test w e h = ground arith
  ended_of_none _ w e h = ground arith

  requests_stop-IsStopping :
      (w : Worker)
      → (w.place ≡ stop_reset → w.partition.force_stop ≡ true)
      → IsStopping (act hash readers requests_stop w)
  unfolding act
  requests_stop-IsStopping w c = ground arith

  -- Once a stop was requested, and whatever else is requested meanwhile and whatever the polls give,
  -- the worker has left its loop after 13 of its own steps.
  pub stop_is_honoured :
      (rest : List Action) (w : Worker)
      → (w.place ≡ stop_reset → w.partition.force_stop ≡ true)
      → 13 ≤ worked rest
      → (act_all hash readers (requests_stop ∷ rest) w).place ≡ ended
  unfolding act_all
  stop_is_honoured rest w c h =
      let w' : Worker = act hash readers requests_stop w in
      let s : IsStopping w' = requests_stop-IsStopping w c in
      ended_of_none _ (act_all hash readers rest w') refl
        (omega (arith, act_all-steps_left rest w' s, steps_left-le w'.place w' refl s))
