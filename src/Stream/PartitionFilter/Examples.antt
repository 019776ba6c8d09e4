-- ===== src/Stream/PartitionFilter/Examples.antt =====
-- Tests of the partition filter, and its theorems at concrete times.
use kafka_to_nexus.Common.{ℤ, pos, ◌≡◌, true, false, List, [], ◌∷◌, wrap64, ◌+ℤ◌, ◌-ℤ◌, ◌≤ℤ◌, ◌<ℤ◌}
use kafka_to_nexus.Time.{time_max, add_time, sub_time, time_laws}
use kafka_to_nexus.Kafka.{message, error, end_of_partition, timed_out}
use kafka_to_nexus.Stream.PartitionFilter.{new, sanitise}
use kafka_to_nexus.Stream.PartitionFilter.Times.{sanitise_no_overflow}
use kafka_to_nexus.Stream.PartitionFilter.History.{Poll, answer, after, follows_history}

abbrev poll_at : ℤ → ℤ → Poll
poll_at now later = record { status = error; now = now; later = later }

abbrev timed_out_at : ℤ → ℤ → Poll
timed_out_at now later = record { status = timed_out; now = now; later = later }

-- Errors from 5 and from 30 nanoseconds, with a message between them.
abbrev two_errors : List Poll
two_errors =
    poll_at (pos 5) (pos 6)
    ∷ record { status = message; now = pos 20; later = pos 20 }
    ∷ poll_at (pos 30) (pos 31)
    ∷ []

-- A limit of 10 nanoseconds counts from the second error.
follows_history_example :
    (answer (poll_at (pos 41) (pos 41)) (after two_errors (new (pos 1000) (pos 5) (pos 10)))).1
    ≡ true
unfolding add_time wrap64 ◌+ℤ◌
follows_history_example =
    follows_history (pos 1000) (pos 5) (pos 10) two_errors (poll_at (pos 41) (pos 41))

not_yet :
    (answer (poll_at (pos 40) (pos 40)) (after two_errors (new (pos 1000) (pos 5) (pos 10)))).1
    ≡ false
unfolding add_time wrap64 ◌+ℤ◌
not_yet = follows_history (pos 1000) (pos 5) (pos 10) two_errors (poll_at (pos 40) (pos 40))

end_of_stop :
    (answer (timed_out_at (pos 1006) (pos 1006)) (
      after
        (record { status = end_of_partition; now = pos 1; later = pos 1 } ∷ [])
        (new (pos 1000) (pos 5) (pos 10)))).1
    ≡ true
unfolding add_time wrap64 ◌+ℤ◌ sanitise sub_time ◌-ℤ◌
end_of_stop =
    follows_history (pos 1000) (pos 5) (pos 10)
      (record { status = end_of_partition; now = pos 1; later = pos 1 } ∷ [])
      (timed_out_at (pos 1006) (pos 1006))

-- The stop time at the end of the clock, with a leeway of 5 seconds.
sanitise_no_overflow_example :
    (sanitise (pos 5_000_000) time_max +ℤ pos 5_000_000 ≤ℤ time_max)
    × (sanitise (pos 5_000_000) time_max ≤ℤ time_max)
    × (time_max -ℤ pos 5_000_000 ≤ℤ sanitise (pos 5_000_000) time_max)
    × (time_max +ℤ pos 5_000_000 <ℤ time_max → sanitise (pos 5_000_000) time_max ≡ time_max)
sanitise_no_overflow_example =
    sanitise_no_overflow (pos 5_000_000) time_max (omega time_laws) (omega time_laws)
