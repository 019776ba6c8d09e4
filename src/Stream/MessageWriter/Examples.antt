-- ===== src/Stream/MessageWriter/Examples.antt =====
-- The theorems on the writer, for modules that write down their jobs and fail on one destination.
use kafka_to_nexus.Common.{
  if◌then◌else◌, ℤ, pos, ℕ, ◌+◌, ◌≡◌, refl, List, [], ◌∷◌, ◌++◌, Text, arith, map, true, false,
  ◌==◌, ◌≤ℤ◌, ◌<ℤ◌, ◌+ℤ◌, wrap64, ◌-ℤ◌,
}
use kafka_to_nexus.Time.{time_laws, sub_time}
use kafka_to_nexus.Message.{empty_message}
use kafka_to_nexus.Stream.SourceFilter.{WriteJob}
use kafka_to_nexus.Stream.MessageWriter.{
  MessageWriter, Queued, Written, writes, writer_exception, loop_test, ended, Action, works, adds,
  stops, act_all, flush_operation,
}
use kafka_to_nexus.Stream.MessageWriter.Queue.{
  Accounts, jobs, jobs_of, stop_drains, written_in_order,
}
use kafka_to_nexus.Stream.MessageWriter.Flush.{flush_keeps_ahead}

abbrev job : ℕ → WriteJob
job d = record { destination = d; message = empty_message; is_buffered_message = false }

abbrev writer : MessageWriter
writer = record {
  place = loop_test;
  write_jobs = (1, job 1) ∷ (2, job 2) ∷ [];
  run_thread = true;
  writes_done = 0;
  write_errors = 0;
  approx_queued_writes = 0;
  module_error_counters = (0, 0) ∷ [];
  flush_interval = 5_000;
  next_flush_time = pos 1_000;
}

abbrev total : Text → ℕ
total [] = 0
total (c ∷ cs) = c + total cs

-- The second module fails.
abbrev write : WriteJob → List WriteJob → List WriteJob × Written
write j s = (s ++ j ∷ [], if j.destination == 2 then writer_exception else writes)

abbrev flush : List WriteJob → List WriteJob
flush s = s

abbrev log : List WriteJob → List WriteJob
log s = s

-- The queue gives the jobs of the second thread first.
abbrev clocks : List (ℤ × ℕ)
clocks =
    (pos 900, 2)
    ∷ (pos 950, 2)
    ∷ (pos 1_000, 2)
    ∷ (pos 1_100, 2)
    ∷ (pos 1_200, 1)
    ∷ (pos 1_300, 1)
    ∷ []

stop_drains_example :
    let (w', s') = act_all total 0 write flush (stops ∷ map works clocks) writer [] in
    (w'.place ≡ ended)
    × (w'.write_jobs ≡ [])
    × ((ws : List Queued) × (s' ≡ jobs ws)
        × ((p : ℕ) → jobs_of p ws ≡ jobs_of p ((1, job 1) ∷ (2, job 2) ∷ [])))
stop_drains_example =
    stop_drains total 0 write flush log (λ j s. refl) (λ s. refl) clocks writer []
      (λ (e : loop_test ≡ ended). cc) (omega arith)

-- A job is added while the thread writes.
abbrev mixed : List Action
mixed =
    works (pos 900, 2)
    ∷ works (pos 901, 2)
    ∷ adds 1 (job 3)
    ∷ works (pos 902, 2)
    ∷ works (pos 903, 2)
    ∷ []

written_in_order_example :
    let (w', s') = act_all total 0 write flush mixed writer [] in
    (ws : List Queued) × Accounts total 0 write flush log
      (λ j s. refl)
      (λ s. refl)
      []
      ((1, job 1) ∷ (2, job 2) ∷ (1, job 3) ∷ [])
      3
      w'
      s'
      ws
written_in_order_example =
    written_in_order total 0 write flush log (λ j s. refl) (λ s. refl) mixed writer []

flush_keeps_ahead_example :
    let (w', s') = flush_operation total 0 write flush (pos 21_500) writer [] in
    (pos 1_000 ≤ℤ pos 21_500
      → (s' ≡ [])
        × (pos 21_500 <ℤ w'.next_flush_time)
        × (w'.next_flush_time ≤ℤ pos 21_500 +ℤ pos 5_000))
    × (pos 21_500 <ℤ pos 1_000 → (w' ≡ writer) × (s' ≡ []))
unfolding sub_time wrap64 ◌-ℤ◌ ◌+ℤ◌
flush_keeps_ahead_example =
    flush_keeps_ahead total 0 write flush (pos 21_500) writer [] (omega arith) (omega time_laws)
      (omega time_laws) (omega arith)
