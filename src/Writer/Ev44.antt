-- ===== src/Writer/Ev44.antt =====
-- The writer of neutron events: src/WriterModule/ev44/ev44_Writer.{h,cpp}.
pub mod Stored
pub mod Steps
pub mod Events
pub mod Writes
use kafka_to_nexus.Common.{
  ℤ, pos, negsuc, ◌+ℤ◌, wrap64, ltb_ℤ, ℕ, ◌+◌, ◌-◌, Bool, true, false, List, [], ◌∷◌, Option, none,
  some, Text, bytes, ltb, if◌then◌else◌, map, length, last_or,
}
use kafka_to_nexus.Dataset.{
  Run, completes, throws, within, ◌then◌, Hdf5, Extensible, append_element, append_adapter,
  append_array, Group, open_existing, new,
}
use kafka_to_nexus.Writer.{
  InitResult, Outcome, wrote, ignored, threw, undefined, outcome, init_datasets, assign, result_of,
}

-- `Event44Message`: 32-bit times of flight, pixel ids and indices, and 64-bit reference times.
pub record EventMessage : Type 0 where
  pub time_of_flight : List ℤ
  pub pixel_id : List ℤ
  pub reference_time : List ℤ
  pub reference_time_index : List ℤ

-- The counters are `int64_t`; `ShiftedReferenceTimeIndex` is set anew for each message.
pub record Writer (D : Type 0) : Type 0 where
  pub event_time_offset : Extensible D
  pub event_id : Extensible D
  pub event_time_zero : Extensible D
  pub event_index : Extensible D
  pub cue_index : Extensible D
  pub cue_timestamp_zero : Extensible D
  pub cue_interval : ℤ
  pub events_written : ℤ
  pub last_cue_index : ℤ
  pub events_written_metadata_field : ℤ

unfoldable pub init_hdf : {D : Type 0} → ℕ → Group D → InitResult
init_hdf chunk_size parent = init_datasets parent (
    (bytes "event_time_offset", chunk_size)
    ∷ (bytes "event_id", chunk_size)
    ∷ (bytes "event_time_zero", chunk_size)
    ∷ (bytes "event_index", chunk_size)
    ∷ (bytes "cue_index", chunk_size)
    ∷ (bytes "cue_timestamp_zero", chunk_size)
    ∷ [])

-- How HDF5 converts integers to the types of the datasets: `uint64_t` for the reference times and the
-- times of the cues, and `uint32_t` for the others.
module _ {D : Type 0} (h : Hdf5 D ℤ) (to_uint32 to_uint64 : ℤ → ℤ) where
  abbrev pub opened : Group D → Text → Option (Extensible D)
  opened parent name = new h parent name open_existing 1024

  unfoldable pub reopen : Group D → Writer D → InitResult × Writer D
  reopen parent w = result_of (
      assign (opened parent (bytes "event_time_offset")) (λ e. record w { event_time_offset = e }) w
      then (λ w. assign (opened parent (bytes "event_id")) (λ e. record w { event_id = e }) w)
      then (λ w.
          assign (opened parent (bytes "event_time_zero")) (λ e. record w { event_time_zero = e })
            w)
      then (λ w. assign (opened parent (bytes "event_index")) (λ e. record w { event_index = e }) w)
      then (λ w. assign (opened parent (bytes "cue_index")) (λ e. record w { cue_index = e }) w)
      then (λ w.
          assign (opened parent (bytes "cue_timestamp_zero"))
            (λ e. record w { cue_timestamp_zero = e }) w))

  abbrev pub append_events : EventMessage → Writer D → Run (Writer D)
  append_events m w =
      within (λ e. record w { event_time_offset = e })
        (append_adapter h (map to_uint32 m.time_of_flight) w.event_time_offset)
      then (λ w.
          within (λ e. record w { event_id = e })
            (append_adapter h (map to_uint32 m.pixel_id) w.event_id))

  abbrev pub shifted : EventMessage → Writer D → List ℤ
  shifted m w = map (λ i. wrap64 (i +ℤ w.events_written)) m.reference_time_index

  -- The pulses of a message with events, and their count.
  abbrev pub append_pulses : EventMessage → Writer D → Run (Writer D)
  append_pulses m w =
      within (λ e. record w { event_time_zero = e })
        (append_adapter h (map to_uint64 m.reference_time) w.event_time_zero)
      then (λ w.
          within (λ e. record w { event_index = e })
            (append_array h (map to_uint32 (shifted m w)) w.event_index))
      then (λ w. completes (record w {
        events_written = wrap64 (w.events_written +ℤ pos (length m.time_of_flight));
      }))

  -- `setValue` of the metadata after the cue.
  abbrev pub set_events : Writer D → Writer D
  set_events w = record w { events_written_metadata_field = w.events_written }

  abbrev pub write_cue : ℤ → Writer D → Run (Writer D)
  write_cue time w =
      within (λ e. record w { cue_timestamp_zero = e })
        (append_element h (to_uint64 time) w.cue_timestamp_zero)
      then (λ w.
          within (λ e. record w { cue_index = e })
            (append_element h (to_uint32 (wrap64 (w.events_written +ℤ negsuc 0))) w.cue_index))
      then (λ w. completes (record w { last_cue_index = wrap64 (w.events_written +ℤ negsuc 0) }))

  abbrev pub finish : Run (Writer D) → Outcome (Writer D)
  finish (completes w) = wrote (set_events w)
  finish (throws w) = threw w

  -- The last reference time is read through `end() - 1`, which C++ does not define without any.
  abbrev pub cue_of : Option ℤ → Option ℤ → Writer D → Outcome (Writer D)
  cue_of (some time) (some offset) w = finish (write_cue (wrap64 (time +ℤ offset)) w)
  cue_of _ _ w = undefined

  abbrev pub after_pulses : EventMessage → Run (Writer D) → Outcome (Writer D)
  after_pulses m (throws w) = threw w
  after_pulses m (completes w) =
      if ltb_ℤ (wrap64 (w.last_cue_index +ℤ w.cue_interval)) w.events_written
      then cue_of (last_or none m.reference_time) (last_or none m.time_of_flight) w
      else wrote (set_events w)

  abbrev pub after_events : EventMessage → Run (Writer D) → Outcome (Writer D)
  after_events m (throws w) = threw w
  after_events m (completes w) =
      if ltb 0 (length m.time_of_flight) then after_pulses m (append_pulses m w) else wrote w

  unfoldable pub write_impl : EventMessage × Bool → Writer D → Outcome (Writer D)
  write_impl (m, true) w = ignored w
  write_impl (m, false) w = after_events m (append_events m w)
