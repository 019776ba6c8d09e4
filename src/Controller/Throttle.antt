-- ===== src/Controller/Throttle.antt =====
-- The pause of the streams while too many writes are queued: `throttleIfWriteQueueIsFull` and
-- `performPeriodicChecks` of src/StreamController.cpp.
use kafka_to_nexus.Common.{
  ℕ, ◌≤◌, ◌≡◌, refl, Bool, true, false, not, List, [], ◌∷◌, ltb, ◌&&◌, if◌then◌else◌, arith,
}
use kafka_to_nexus.Controller.{Controller, Outcome, leaves, null_call, check_if_streams_are_done}

-- `below n m` stands for the comparison of `n` with 0.8 times `m` as numbers of type `float`.
module _ (below : ℕ → ℕ → Bool) where
  -- `StreamersPaused` after the call.
  unfoldable pub throttle_if_write_queue_is_full : ℕ → ℕ → Bool → Bool
  throttle_if_write_queue_is_full max_queued_writes queued paused =
      if ltb max_queued_writes queued && not paused
      then true
      else (if below queued max_queued_writes && paused then false else paused)

  -- `performPeriodicChecks`: the check of the streams, and then the pause.
  abbrev after_check : ℕ → ℕ → Bool → Outcome Controller → Outcome (Controller × Bool)
  after_check max_queued_writes queued paused null_call = null_call
  after_check max_queued_writes queued paused (leaves c) =
      leaves (c, throttle_if_write_queue_is_full max_queued_writes queued paused)

  unfoldable perform_periodic_checks : ℕ → ℕ → Controller × Bool → Outcome (Controller × Bool)
  perform_periodic_checks max_queued_writes queued (c, paused) =
      after_check max_queued_writes queued paused (check_if_streams_are_done c)

  -- The calls at the queue lengths of a list, in order.
  unfoldable throttle_all : ℕ → List ℕ → Bool → Bool
  throttle_all max_queued_writes [] paused = paused
  throttle_all max_queued_writes (n ∷ ns) paused =
      throttle_all max_queued_writes ns (throttle_if_write_queue_is_full max_queued_writes n paused)

  -- What a history of queue lengths calls for: the last length above the limit or below the threshold
  -- decides.
  abbrev wanted : ℕ → List ℕ → Bool → Bool
  wanted max_queued_writes [] before = before
  wanted max_queued_writes (n ∷ ns) before = wanted max_queued_writes ns (
      if ltb max_queued_writes n
      then true
      else (if below n max_queued_writes then false else before))

  one_call :
      (max_queued_writes n : ℕ) (paused : Bool)
      → (below n max_queued_writes ≡ true → n ≤ max_queued_writes)
      → throttle_if_write_queue_is_full max_queued_writes n paused ≡ (
          if ltb max_queued_writes n
          then true
          else (if below n max_queued_writes then false else paused))
  unfolding throttle_if_write_queue_is_full
  one_call max_queued_writes n true h = ground (arith, h)
  one_call max_queued_writes n false h = ground (arith, h)

  -- The streams are paused if the last queue length that was above the limit or below the threshold was
  -- above the limit; lengths between them change nothing. This holds where numbers that are below the
  -- threshold are not above the limit.
  throttle_all-wanted :
      (max_queued_writes : ℕ) (ns : List ℕ) (paused : Bool)
      → ((n : ℕ) → below n max_queued_writes ≡ true → n ≤ max_queued_writes)
      → throttle_all max_queued_writes ns paused ≡ wanted max_queued_writes ns paused
  unfolding throttle_all
  throttle_all-wanted max_queued_writes [] paused h = refl
  throttle_all-wanted max_queued_writes (n ∷ ns) paused h =
      rw (one_call max_queued_writes n paused (h n)) (throttle_all-wanted max_queued_writes ns _ h)
