-- ===== src/Writer/Ev44/Events.antt =====
-- What the writer of events leaves in the file: src/WriterModule/ev44/ev44_Writer.cpp.
use kafka_to_nexus.Common.{
  ℤ, pos, negsuc, ◌+ℤ◌, wrap64, ℕ, ◌+◌, ◌-◌, ◌<◌, ◌≤◌, ◌≡◌, ◌^◌, refl, sym, ap, ◌∙◌, true, false,
  List, [], ◌∷◌, ◌++◌, ltb, map, length, length-append, length-map, arith, map-append,
}
use kafka_to_nexus.Dataset.{Extensible, completes, Hdf5, IsHdf5, IsReliable, append_element}
use kafka_to_nexus.Dataset.Appends.{
  IsExact, append_element-IsExact, append_adapter-IsExact, append_array-IsExact,
}
use kafka_to_nexus.Writer.Ev44.{EventMessage, Writer, shifted, append_pulses, write_cue}
use kafka_to_nexus.Writer.Ev44.Stored.{
  Stored, store_cue, store_events, last_time, load, pulses, indices,
}
use kafka_to_nexus.Writer.Ev44.Steps.{cue_written, pulses_appended, minus_one, plus, last_index}

module _ {D : Type 0} (h : Hdf5 D ℤ) (to_uint32 to_uint64 : ℤ → ℤ) where
  -- The datasets hold what was stored, converted to their types, and the counters agree.
  pub record HasEvents (room interval : ℕ) (s : Stored) (w : Writer D) : Type 0 where
    pub offsets : IsExact h (map to_uint32 s.offsets) w.event_time_offset
    pub ids : IsExact h (map to_uint32 s.ids) w.event_id
    pub zeros : IsExact h (map to_uint64 s.zeros) w.event_time_zero
    pub index : IsExact h (map to_uint32 s.index) w.event_index
    pub cue_index : IsExact h (map to_uint32 s.cues) w.cue_index
    pub cue_times : IsExact h (map to_uint64 s.cue_times) w.cue_timestamp_zero
    pub as_many : length s.cues ≡ length s.cue_times
    pub events : w.events_written ≡ pos (length s.offsets)
    pub last_cue : w.last_cue_index ≡ last_index s.covered
    pub covered : s.covered ≤ length s.offsets
    pub same_interval : w.cue_interval ≡ pos interval
    pub fits :
        length s.offsets
          + length s.ids
          + length s.zeros
          + length s.index
          + length s.cues
          + interval
          + room
        < 2 ^ 63

  module _ (laws : IsHdf5 h) (reliable : IsReliable h) where
    more :
        (f : ℤ → ℤ) (xs ys : List ℤ) (e : Extensible D)
        → IsExact h (map f xs ++ map f ys) e
        → IsExact h (map f (xs ++ ys)) e
    more f xs ys e x = rw (map-append f xs ys) x

    pub cue-HasEvents :
        (room interval : ℕ) (m : EventMessage) (s : Stored) (w : Writer D)
        → 0 < length s.offsets
        → HasEvents (1 + room) interval s w
        → (w' : Writer D) × (write_cue h to_uint32 to_uint64 (last_time m) w ≡ completes w')
          × HasEvents room interval (store_cue m s) w'
    cue-HasEvents room interval m s w p e =
        let n = length s.offsets in
        let time = last_time m in
        let last : wrap64 (w.events_written +ℤ negsuc 0) ≡ pos (n - 1) =
          ap (λ k. wrap64 (k +ℤ negsuc 0)) e.events ∙ minus_one n p (omega (arith, e.fits)) in
        let (t', s1, x1) =
          append_element-IsExact h laws reliable (to_uint64 time) (map to_uint64 s.cue_times)
            w.cue_timestamp_zero
            (omega (arith, length-map to_uint64 s.cue_times, e.as_many, e.fits)) e.cue_times in
        let (i', s2, x2) =
          append_element-IsExact h laws reliable (to_uint32 (pos (n - 1))) (map to_uint32 s.cues)
            w.cue_index (omega (arith, length-map to_uint32 s.cues, e.fits)) e.cue_index in
        (
          record w {
            cue_timestamp_zero = t';
            cue_index = i';
            last_cue_index = wrap64 (w.events_written +ℤ negsuc 0);
          },
          cue_written h to_uint32 to_uint64 time w t' i' s1
              (ap (λ k. append_element h (to_uint32 k) w.cue_index) last ∙ s2),
          record {
            offsets = e.offsets;
            ids = e.ids;
            zeros = e.zeros;
            index = e.index;
            cue_index = more to_uint32 s.cues (pos (n - 1) ∷ []) i' x2;
            cue_times = more to_uint64 s.cue_times (time ∷ []) t' x1;
            as_many = omega (
              arith,
              e.as_many,
              length-append s.cues (pos (n - 1) ∷ []),
              length-append s.cue_times (time ∷ []),
            );
            events = e.events;
            last_cue = last ∙ ground (arith, p);
            covered = omega arith;
            same_interval = e.same_interval;
            fits = omega (arith, e.fits, length-append s.cues (pos (n - 1) ∷ []));
          },
        )

    -- The two arrays of a message, before its pulses.
    pub record HasArrays (room interval : ℕ) (s : Stored) (m : EventMessage) (w : Writer D)
        : Type 0 where
      pub offsets : IsExact h (map to_uint32 (s.offsets ++ m.time_of_flight)) w.event_time_offset
      pub ids : IsExact h (map to_uint32 (s.ids ++ m.pixel_id)) w.event_id
      pub zeros : IsExact h (map to_uint64 s.zeros) w.event_time_zero
      pub index : IsExact h (map to_uint32 s.index) w.event_index
      pub cue_index : IsExact h (map to_uint32 s.cues) w.cue_index
      pub cue_times : IsExact h (map to_uint64 s.cue_times) w.cue_timestamp_zero
      pub as_many : length s.cues ≡ length s.cue_times
      pub events : w.events_written ≡ pos (length s.offsets)
      pub last_cue : w.last_cue_index ≡ last_index s.covered
      pub covered : s.covered ≤ length s.offsets
      pub same_interval : w.cue_interval ≡ pos interval
      pub fits :
          length s.offsets
            + length s.ids
            + length s.zeros
            + length s.index
            + length s.cues
            + interval
            + load (m, false)
            + room
          < 2 ^ 63

    pub pulses-HasEvents :
        (room interval : ℕ) (s : Stored) (m : EventMessage) (w : Writer D)
        → ltb 0 (length m.time_of_flight) ≡ true
        → HasArrays room interval s m w
        → (w' : Writer D) × (append_pulses h to_uint32 to_uint64 m w ≡ completes w')
          × HasEvents (1 + room) interval (store_events m s) w'
    pulses-HasEvents room interval s m w q e =
        let n = length s.offsets in
        let k = length m.time_of_flight in
        let moved : List ℤ = shifted h to_uint32 to_uint64 m w in
        let ts : pulses m ≡ m.reference_time = rw q refl in
        let is : indices n m ≡ moved =
          rw q (ap (λ c. map (λ i. wrap64 (i +ℤ c)) m.reference_time_index) (sym e.events)) in
        let few : length moved ≡ length m.reference_time_index =
          length-map (λ i. wrap64 (i +ℤ w.events_written)) m.reference_time_index in
        let (z, s1, x1) =
          append_adapter-IsExact h laws reliable (map to_uint64 m.reference_time)
            (map to_uint64 s.zeros) w.event_time_zero
            (omega
              (arith, e.fits, length-map to_uint64 m.reference_time, length-map to_uint64 s.zeros))
            e.zeros in
        let (i, s2, x2) =
          append_array-IsExact h laws reliable (map to_uint32 moved) (map to_uint32 s.index)
            w.event_index
            (omega (arith, few, e.fits, length-map to_uint32 moved, length-map to_uint32 s.index))
            e.index in
        let sum : wrap64 (w.events_written +ℤ pos k)
            ≡ pos (length (s.offsets ++ m.time_of_flight)) =
          ap (λ c. wrap64 (c +ℤ pos k)) e.events
          ∙ plus n k (omega (arith, e.fits))
          ∙ ap pos (sym (length-append s.offsets m.time_of_flight)) in
        (
          record w {
            event_time_zero = z;
            event_index = i;
            events_written = wrap64 (w.events_written +ℤ pos k);
          },
          pulses_appended h to_uint32 to_uint64 m w z i s1 s2,
          record {
            offsets = e.offsets;
            ids = e.ids;
            zeros = rw ts (more to_uint64 s.zeros m.reference_time z x1);
            index = rw is (more to_uint32 s.index moved i x2);
            cue_index = e.cue_index;
            cue_times = e.cue_times;
            as_many = e.as_many;
            events = sum;
            last_cue = e.last_cue;
            covered = omega (arith, e.covered, length-append s.offsets m.time_of_flight);
            same_interval = e.same_interval;
            fits =
                rw (ts, is)
                  (omega (
                    arith,
                    e.fits,
                    few,
                    length-append s.offsets m.time_of_flight,
                    length-append s.ids m.pixel_id,
                    length-append s.zeros m.reference_time,
                    length-append s.index moved,
                  ));
          },
        )
