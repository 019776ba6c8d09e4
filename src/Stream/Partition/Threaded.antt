-- ===== src/Stream/Partition/Threaded.antt =====
-- `PartitionThreaded` of src/Stream/Partition.h: the worker thread, and the requests that another
-- thread makes through its atomic members. Each action below is one atomic access or one call.
pub mod Requests
pub mod Stops
use kafka_to_nexus.Common.{
  ℤ, ℕ, Bool, true, false, List, [], ◌∷◌, Text, if◌then◌else◌, eqb_ℤ, ◌||◌, not,
}
use kafka_to_nexus.Time.{time_max}
use kafka_to_nexus.Message.{Registry}
use kafka_to_nexus.Stream.SourceFilter.{WriteJob}
use kafka_to_nexus.Stream.Partition.{Partition, Turn, poll_for_message}
use kafka_to_nexus.Stream.Partition

-- Where `process` stands: at the test of the loop, at one of its two requests (its test, its call, its
-- reset), at the poll, or past the loop.
pub data Place : Type 0 where
  loop_test stop_test stop_call stop_reset time_test time_call time_reset polling ended : Place

pub record Worker : Type 0 where
  pub place : Place
  pub exit : Bool
  pub requested_stop_time : ℤ
  pub immediate_stop_requested : Bool
  pub partition : Partition
  pub queue : List WriteJob

-- The constructor.
unfoldable pub start : Partition → List WriteJob → Worker
start partition queue = record {
  place = loop_test;
  exit = false;
  requested_stop_time = time_max;
  immediate_stop_requested = false;
  partition = partition;
  queue = queue;
}

-- What the other thread does, and a step of the worker, with what a poll would be given.
pub data Action : Type 0 where
  works : Turn → Action
  requests_stop : Action
  requests_stop_time : ℤ → Action
  requests_exit : Action

module _ (hash : Text → ℕ) (readers : Registry) where
  unfoldable pub work : Place → Turn → Worker → Worker
  work loop_test t w = record w {
    place = if w.partition.has_finished || w.exit then ended else stop_test;
  }
  work stop_test t w = record w {
    place = if w.immediate_stop_requested then stop_call else time_test;
  }
  work stop_call t w = record w { place = stop_reset; partition = Partition.stop w.partition }
  work stop_reset t w = record w { place = time_test; immediate_stop_requested = false }
  work time_test t w = record w {
    place = if eqb_ℤ w.requested_stop_time time_max then polling else time_call;
  }
  work time_call t w = record w {
    place = time_reset;
    partition = Partition.set_stop_time w.requested_stop_time w.partition;
  }
  work time_reset t w = record w { place = polling; requested_stop_time = time_max }
  work polling t w =
      let (p, queue) = poll_for_message hash readers t w.partition w.queue in
      record w { place = loop_test; partition = p; queue = queue }
  work ended t w = w

  unfoldable pub act : Action → Worker → Worker
  act (works t) w = work w.place t w
  act requests_stop w = record w { immediate_stop_requested = true }
  act (requests_stop_time s) w = record w { requested_stop_time = s }
  act requests_exit w = record w { exit = true }

  unfoldable pub act_all : List Action → Worker → Worker
  act_all [] w = w
  act_all (a ∷ rest) w = act_all rest (act a w)
