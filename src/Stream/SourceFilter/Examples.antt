-- ===== src/Stream/SourceFilter/Examples.antt =====
-- Tests of the source filter, and its theorems at a small stream.
use kafka_to_nexus.Common.{
  pos, ℕ, ◌≡◌, refl, true, false, List, [], ◌∷◌, ◌++◌, arith, All, ◌⊎◌, ◌↔◌, ◌≢◌,
}
use kafka_to_nexus.Time.{to_timepoint}
use kafka_to_nexus.Message.{FlatbufferMessage}
use kafka_to_nexus.Stream.SourceFilter.{
  SourceFilter, new, set_source_hash, add_writer_module_for_message, filter_message, filter_all,
  forward_buffered_message, jobs_for,
}
use kafka_to_nexus.Stream.SourceFilter.Safety.{IsAllowed, IsWanted, queue-IsAllowed, forwarded_iff}
use kafka_to_nexus.Stream.SourceFilter.Window.{forwards_window, IsStream}

abbrev at : ℕ → FlatbufferMessage
at t = record {
  payload = [];
  source_hash = 7;
  source_name = [];
  id = [];
  timestamp = pos t;
  valid = true;
}

-- From 10 to 20 microseconds, for two writer modules.
abbrev ten_to_twenty : SourceFilter
ten_to_twenty = record (new (pos 10_000) (pos 20_000) false) {
  destination_writer_modules = 1 ∷ 2 ∷ [];
  source_hash = 7;
}

abbrev stream : List FlatbufferMessage
stream = at 3_000 ∷ at 5_000 ∷ at 12_000 ∷ at 20_500 ∷ at 21_000 ∷ at 22_000 ∷ []

-- The filter that the constructor and its two setters make.
set_up :
    set_source_hash 7 (
      add_writer_module_for_message 2
        (add_writer_module_for_message 1 (new (pos 10_000) (pos 20_000) false)))
    ≡ ten_to_twenty
unfolding set_source_hash add_writer_module_for_message new
set_up = refl

forwards_window_example :
    let (g, queue') = filter_all stream ten_to_twenty [] in
    (forward_buffered_message g queue').1
    ≡ jobs_for (1 ∷ 2 ∷ []) true (at 5_000)
      ++ jobs_for (1 ∷ 2 ∷ []) false (at 12_000)
      ++ jobs_for (1 ∷ 2 ∷ []) false (at 20_500)
unfolding new to_timepoint
forwards_window_example = forwards_window stream ten_to_twenty [] refl refl in_order
  where
    in_order : IsStream ten_to_twenty (pos 0) stream
    in_order = ground arith

-- Messages that are out of order, repeated and not valid.
abbrev mixed : List FlatbufferMessage
mixed =
    at 12_000
    ∷ at 12_000
    ∷ at 5_000
    ∷ record (at 6_000) { valid = false }
    ∷ at 30_000
    ∷ at 11_000
    ∷ []

mixed_counts :
    let f = (filter_all mixed ten_to_twenty []).0 in
    (f.messages_received ≡ 6)
    × (f.messages_transmitted ≡ 2)
    × (f.messages_discarded ≡ 3)
    × (f.repeated_timestamp ≡ 1)
    × (f.unordered_timestamp ≡ 1)
    × (f.flatbuffer_invalid ≡ 1)
    × (f.is_finished ≡ true)
unfolding filter_all filter_message to_timepoint new
mixed_counts = (refl, refl, refl, refl, refl, refl, refl)

queue-IsAllowed_example :
    let (g, queue') = filter_all mixed ten_to_twenty [] in
    All (IsAllowed ten_to_twenty) (forward_buffered_message g queue').1
unfolding new
queue-IsAllowed_example = queue-IsAllowed mixed ten_to_twenty [] (λ e. cc) tt

forwarded_iff_example : ((filter_message (at 12_000) ten_to_twenty []).2 ≡ true) ↔ (
    (ten_to_twenty.is_finished ≡ false)
    × IsWanted ten_to_twenty (at 12_000)
    × ((pos 12_000 ≢ ten_to_twenty.last_seen_timestamp)
        ⊎ (ten_to_twenty.allow_repeated_timestamps ≡ true)))
forwarded_iff_example = forwarded_iff (at 12_000) ten_to_twenty []
