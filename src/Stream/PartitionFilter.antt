-- ===== src/Stream/PartitionFilter.antt =====
-- When to stop reading a partition: src/Stream/PartitionFilter.{h,cpp}. Each reading of `_clock` is
-- an argument: the first is the one of `updateStatusOccurrenceTime`, the second that of the test.
pub mod Times
pub mod History
mod Examples
use kafka_to_nexus.Common.{ℤ, pos, Bool, true, false, if◌then◌else◌, ltb_ℤ, leb_ℤ, ◌&&◌, not}
use kafka_to_nexus.Time.{time_max, seconds, add_time, sub_time}
use kafka_to_nexus.Kafka.{PollStatus, message, error, end_of_partition, timed_out}

pub data PartitionState : Type 0 where
  default at_end in_error in_timeout : PartitionState

unfoldable pub same_state : PartitionState → PartitionState → Bool
same_state default default = true
same_state at_end at_end = true
same_state in_error in_error = true
same_state in_timeout in_timeout = true
same_state _ _ = false

pub record PartitionFilter : Type 0 where
  pub state : PartitionState
  pub status_occurrence_time : ℤ
  pub stop_time : ℤ
  pub stop_leeway : ℤ
  pub time_limit : ℤ
  pub at_end_of_partition : Bool

-- The stop time, reduced where adding the leeway to it would overflow: the constructor's guard, and
-- that of `Partition::sanitise_stop_time`.
unfoldable pub sanitise : ℤ → ℤ → ℤ
sanitise leeway stop_time =
    if leb_ℤ (sub_time time_max stop_time) leeway then sub_time stop_time leeway else stop_time

-- The constructor with arguments.
unfoldable pub new : ℤ → ℤ → ℤ → PartitionFilter
unfolding sanitise
new stop_time stop_time_leeway time_limit = record {
  state = default;
  status_occurrence_time = time_max;
  stop_time = sanitise stop_time_leeway stop_time;
  stop_leeway = stop_time_leeway;
  time_limit = time_limit;
  at_end_of_partition = false;
}

unfoldable pub set_stop_time : ℤ → PartitionFilter → PartitionFilter
set_stop_time stop p = record p { stop_time = stop }

unfoldable pub has_exceeded_time_limit : PartitionFilter → ℤ → Bool
has_exceeded_time_limit p now = ltb_ℤ (add_time p.status_occurrence_time p.time_limit) now

unfoldable pub has_error_state : PartitionFilter → Bool
unfolding same_state
has_error_state p = same_state p.state in_error

unfoldable pub has_topic_timed_out : PartitionFilter → ℤ → Bool
unfolding has_exceeded_time_limit same_state
has_topic_timed_out p now = has_exceeded_time_limit p now && same_state p.state in_timeout

unfoldable pub update_status_occurrence_time :
    PartitionState → PartitionFilter → ℤ → PartitionFilter
unfolding same_state
update_status_occurrence_time comparison p now =
    if not (same_state p.state comparison)
    then record p { state = comparison; status_occurrence_time = now }
    else p

unfoldable pub should_stop_partition : PollStatus → PartitionFilter → ℤ → ℤ → PartitionFilter × Bool
unfolding update_status_occurrence_time has_exceeded_time_limit
should_stop_partition message p now later =
    (record p { at_end_of_partition = false; state = default }, false)
should_stop_partition end_of_partition p now later =
    (record p { at_end_of_partition = true; state = at_end }, false)
should_stop_partition timed_out p now later =
    let p' = update_status_occurrence_time in_timeout p now in
    if not p'.at_end_of_partition
    then (p', false)
    else (p', ltb_ℤ (add_time p'.stop_time p'.stop_leeway) later)
should_stop_partition error p now later =
    let p' = update_status_occurrence_time in_error p now in (p', has_exceeded_time_limit p' later)
