-- ===== src/Writer/Ev44/Stored.antt =====
-- The events and pulses of messages in order: src/WriterModule/ev44/ev44_Writer.cpp.
use kafka_to_nexus.Common.{
  ℤ, pos, ◌+ℤ◌, wrap64, ℕ, ◌+◌, Bool, true, false, List, [], ◌∷◌, ◌++◌, ltb, leb, ◌-◌,
  if◌then◌else◌, map, length,
}
use kafka_to_nexus.Dataset.{◌then◌}
use kafka_to_nexus.Writer.Ev44.{EventMessage}

-- What a message adds: pulses only where it has events, and their indices from the number of events
-- that were stored before.
abbrev pub pulses : EventMessage → List ℤ
pulses m = if ltb 0 (length m.time_of_flight) then m.reference_time else []

abbrev pub indices : ℕ → EventMessage → List ℤ
indices n m =
    if ltb 0 (length m.time_of_flight)
    then map (λ i. wrap64 (i +ℤ pos n)) m.reference_time_index
    else []

abbrev pub last_in : ℤ → List ℤ → ℤ
last_in d [] = d
last_in d (x ∷ xs) = last_in x xs

-- The time of the last event of a message.
abbrev pub last_time : EventMessage → ℤ
last_time m = wrap64 (last_in (pos 0) m.reference_time +ℤ last_in (pos 0) m.time_of_flight)

-- What messages leave, before the conversion to the types of the datasets: events, pulses, and cues
-- with the index of an event and its time. `covered` is the number of events up to the last cue.
pub record Stored : Type 0 where
  pub offsets : List ℤ
  pub ids : List ℤ
  pub zeros : List ℤ
  pub index : List ℤ
  pub cues : List ℤ
  pub cue_times : List ℤ
  pub covered : ℕ

-- A message makes a cue at its last event, if `interval` events have come since the last cue.
abbrev pub is_cued : ℕ → EventMessage → Stored → Bool
is_cued interval m s =
    if ltb 0 (length m.time_of_flight)
    then leb (s.covered + interval) (length s.offsets + length m.time_of_flight)
    else false

-- The events and pulses of a message, and then its cue.
abbrev pub store_events : EventMessage → Stored → Stored
store_events m s = record s {
  offsets = s.offsets ++ m.time_of_flight;
  ids = s.ids ++ m.pixel_id;
  zeros = s.zeros ++ pulses m;
  index = s.index ++ indices (length s.offsets) m;
}

abbrev pub store_cue : EventMessage → Stored → Stored
store_cue m s = record s {
  cues = s.cues ++ pos (length s.offsets - 1) ∷ [];
  cue_times = s.cue_times ++ last_time m ∷ [];
  covered = length s.offsets;
}

abbrev pub store : ℕ → EventMessage × Bool → Stored → Stored
store interval (m, true) s = s
store interval (m, false) s =
    if is_cued interval m s then store_cue m (store_events m s) else store_events m s

abbrev pub store_all : ℕ → List (EventMessage × Bool) → Stored → Stored
store_all interval [] s = s
store_all interval (m ∷ ms) s = store_all interval ms (store interval m s)

-- The room that messages need, so that no size passes 2^63.
abbrev pub load : EventMessage × Bool → ℕ
load (m, true) = 0
load (m, false) =
    length m.time_of_flight
    + length m.pixel_id
    + length m.reference_time
    + length m.reference_time_index
    + 1

abbrev pub load_all : List (EventMessage × Bool) → ℕ
load_all [] = 0
load_all (m ∷ ms) = load m + load_all ms
