-- ===== src/Writer/Ev44/Writes.antt =====
-- What messages of events leave in the file: src/WriterModule/ev44/ev44_Writer.cpp.
use kafka_to_nexus.Common.{
  ℤ, pos, ◌+ℤ◌, wrap64, ltb_ℤ, ℕ, ◌+◌, ◌<◌, ◌≤◌, ◌≡◌, refl, sym, ap, ◌∙◌, subst, Bool, true, false,
  List, [], ◌∷◌, ◌++◌, none, some, ltb, length, length-append, last_or, u64, append-nil, arith, All,
  Bool-cases, inl, inr, map, map-append, length-map, leb,
}
use kafka_to_nexus.Dataset.{Extensible, completes, Hdf5, IsHdf5, IsReliable, append_adapter}
use kafka_to_nexus.Dataset.Appends.{IsExact, append_adapter-IsExact}
use kafka_to_nexus.Writer.{wrote, write, write_all, count_write, write_all-step}
use kafka_to_nexus.Writer.Ev44.{
  EventMessage, Writer, set_events, write_cue, after_pulses, write_impl,
}
use kafka_to_nexus.Writer.Ev44.Events.{HasEvents, cue-HasEvents, pulses-HasEvents}
use kafka_to_nexus.Writer.Ev44.Stored.{
  Stored, store, store_events, store_cue, store_all, load, load_all, last_in, is_cued,
}
use kafka_to_nexus.Writer.Ev44.Steps.{no_events, with_events, last_index, cue_due}

last_some : (d x : ℤ) (xs : List ℤ) → last_or (some x) xs ≡ some (last_in x xs)
last_some d x [] = refl
last_some d x (y ∷ ys) = last_some d y ys

last_of : (xs : List ℤ) → 0 < length xs → last_or none xs ≡ some (last_in (pos 0) xs)
last_of [] p = absurd (omega arith)
last_of (x ∷ xs) p = last_some (pos 0) x xs

-- A message with events has a reference time.
abbrev pub HasPulse : EventMessage × Bool → Type 0
HasPulse (m, b) = 0 < length m.time_of_flight → 0 < length m.reference_time

module _ {D : Type 0} (h : Hdf5 D ℤ) (to_uint32 to_uint64 : ℤ → ℤ) where
  set_events-HasEvents :
      (room more interval : ℕ) (s : Stored) (w : Writer D)
      → room ≤ more
      → HasEvents h to_uint32 to_uint64 more interval s w
      → HasEvents h to_uint32 to_uint64 room interval s (set_events h to_uint32 to_uint64 w)
  set_events-HasEvents room more interval s w l e = record {
    offsets = e.offsets;
    ids = e.ids;
    zeros = e.zeros;
    index = e.index;
    cue_index = e.cue_index;
    cue_times = e.cue_times;
    as_many = e.as_many;
    events = e.events;
    last_cue = e.last_cue;
    covered = e.covered;
    same_interval = e.same_interval;
    fits = omega (arith, e.fits, l);
  }

  cue_skipped :
      (m : EventMessage) (w : Writer D)
      → ltb_ℤ (wrap64 (w.last_cue_index +ℤ w.cue_interval)) w.events_written ≡ false
      → after_pulses h to_uint32 to_uint64 m (completes w)
        ≡ wrote (set_events h to_uint32 to_uint64 w)
  cue_skipped m w q = rw q refl

  cue_made :
      (m : EventMessage) (w w' : Writer D) (time offset : ℤ)
      → ltb_ℤ (wrap64 (w.last_cue_index +ℤ w.cue_interval)) w.events_written ≡ true
      → last_or none m.reference_time ≡ some time
      → last_or none m.time_of_flight ≡ some offset
      → write_cue h to_uint32 to_uint64 (wrap64 (time +ℤ offset)) w ≡ completes w'
      → after_pulses h to_uint32 to_uint64 m (completes w)
        ≡ wrote (set_events h to_uint32 to_uint64 w')
  cue_made m w w' time offset q s1 s2 s3 = rw (q, s1, s2, s3) refl

  module _ (laws : IsHdf5 h) (reliable : IsReliable h) where
    abbrev pub Writes : ℕ → ℕ → Stored → EventMessage × Bool → Writer D → Type 0
    Writes room interval s m w =
        (w' : Writer D) × (write_impl h to_uint32 to_uint64 m w ≡ wrote w')
        × HasEvents h to_uint32 to_uint64 room interval (store interval m s) w'

    -- The test of the code, after the pulses, is that of the cue that is to be stored.
    due :
        (room interval : ℕ) (s : Stored) (m : EventMessage) (w : Writer D)
        → ltb 0 (length m.time_of_flight) ≡ true
        → HasEvents h to_uint32 to_uint64 room interval (store_events m s) w
        → ltb_ℤ (wrap64 (w.last_cue_index +ℤ w.cue_interval)) w.events_written
          ≡ is_cued interval m s
    due room interval s m w q e =
        let n = length (s.offsets ++ m.time_of_flight) in
        let read : ltb_ℤ (wrap64 (w.last_cue_index +ℤ w.cue_interval)) w.events_written
            ≡ ltb_ℤ (wrap64 (last_index s.covered +ℤ pos interval)) (pos n) =
          rw (e.last_cue, e.same_interval, e.events) refl in
        read
        ∙ cue_due s.covered interval n (omega (arith, e.covered, e.fits))
        ∙ ap (leb (s.covered + interval)) (length-append s.offsets m.time_of_flight)
        ∙ rw q refl

    after_pulses-HasEvents :
        (room interval : ℕ) (s : Stored) (m : EventMessage) (w : Writer D)
        → ltb 0 (length m.time_of_flight) ≡ true
        → 0 < length m.reference_time
        → HasEvents h to_uint32 to_uint64 (1 + room) interval (store_events m s) w
        → (w' : Writer D) × (after_pulses h to_uint32 to_uint64 m (completes w) ≡ wrote w')
          × HasEvents h to_uint32 to_uint64 room interval (store interval (m, false) s) w'
    after_pulses-HasEvents room interval s m w there r e =
        let p : 0 < length m.time_of_flight = ground (arith, there) in
        let test = due (1 + room) interval s m w there e in
        elim (Bool-cases (is_cued interval m s)) [
          | inl q ↦
              let (w', s3, e') =
                cue-HasEvents h to_uint32 to_uint64 laws reliable room interval m (store_events m s)
                  w (omega (arith, p, length-append s.offsets m.time_of_flight)) e in
              (
                set_events h to_uint32 to_uint64 w',
                cue_made m w w' (last_in (pos 0) m.reference_time)
                    (last_in (pos 0) m.time_of_flight) (test ∙ q) (last_of m.reference_time r)
                    (last_of m.time_of_flight p) s3,
                subst
                    (λ k.
                      HasEvents h to_uint32 to_uint64 room interval k
                        (set_events h to_uint32 to_uint64 w'))
                    (rw q refl)
                    (set_events-HasEvents room room interval (store_cue m (store_events m s)) w'
                      (omega arith) e'),
              )
          | inr q ↦ (
            set_events h to_uint32 to_uint64 w,
            cue_skipped m w (test ∙ q),
            subst
                (λ k.
                  HasEvents h to_uint32 to_uint64 room interval k
                    (set_events h to_uint32 to_uint64 w))
                (rw q refl)
                (set_events-HasEvents room (1 + room) interval (store_events m s) w (omega arith)
                  e),
          )
        ]

    write_impl-HasEvents :
        (room interval : ℕ) (s : Stored) (m : EventMessage) (w : Writer D)
        → HasPulse (m, false)
        → HasEvents h to_uint32 to_uint64 (load (m, false) + room) interval s w
        → Writes room interval s (m, false) w
    write_impl-HasEvents room interval s m w p e =
        elim (Bool-cases (ltb 0 (length m.time_of_flight))) [
          | inl q ↦ some_events q
          | inr q ↦ none_ q
        ]
      where
        one :
            (e1 : Extensible D) × (append_adapter h
                (map to_uint32 m.time_of_flight)
                w.event_time_offset
              ≡ completes e1)
            × IsExact h (map to_uint32 (s.offsets ++ m.time_of_flight)) e1
        one =
            let (e1, s1, x1) =
              append_adapter-IsExact h laws reliable (map to_uint32 m.time_of_flight)
                (map to_uint32 s.offsets) w.event_time_offset
                (omega (
                  arith,
                  e.fits,
                  length-map to_uint32 m.time_of_flight,
                  length-map to_uint32 s.offsets,
                ))
                e.offsets in
            (e1, s1, rw (map-append to_uint32 s.offsets m.time_of_flight) x1)

        two :
            (e2 : Extensible D) × (append_adapter h (map to_uint32 m.pixel_id) w.event_id
              ≡ completes e2)
            × IsExact h (map to_uint32 (s.ids ++ m.pixel_id)) e2
        two =
            let (e2, s2, x2) =
              append_adapter-IsExact h laws reliable (map to_uint32 m.pixel_id)
                (map to_uint32 s.ids) w.event_id
                (omega (arith, e.fits, length-map to_uint32 m.pixel_id, length-map to_uint32 s.ids))
                e.ids in
            (e2, s2, rw (map-append to_uint32 s.ids m.pixel_id) x2)

        none_ : ltb 0 (length m.time_of_flight) ≡ false → Writes room interval s (m, false) w
        none_ q =
            let (e1, s1, x1) = one in
            let (e2, s2, x2) = two in
            let no_time : length (s.offsets ++ m.time_of_flight) ≡ length s.offsets =
              length-append s.offsets m.time_of_flight ∙ ground (arith, q) in
            (
              record w { event_time_offset = e1; event_id = e2 },
              no_events h to_uint32 to_uint64 m w e1 e2 q s1 s2,
              rw (q, append-nil s.zeros, append-nil s.index)
                  (record {
                    offsets = x1;
                    ids = x2;
                    zeros = e.zeros;
                    index = e.index;
                    cue_index = e.cue_index;
                    cue_times = e.cue_times;
                    as_many = e.as_many;
                    events = e.events ∙ ap pos (sym no_time);
                    last_cue = e.last_cue;
                    covered = omega (arith, e.covered, no_time);
                    same_interval = e.same_interval;
                    fits = omega (arith, e.fits, no_time, length-append s.ids m.pixel_id);
                  }),
            )

        some_events : ltb 0 (length m.time_of_flight) ≡ true → Writes room interval s (m, false) w
        some_events q =
            let (e1, s1, x1) = one in
            let (e2, s2, x2) = two in
            let (w1, s3, g) =
              pulses-HasEvents h to_uint32 to_uint64 laws reliable room interval s m
                (record w { event_time_offset = e1; event_id = e2 }) q
                (record {
                  offsets = x1;
                  ids = x2;
                  zeros = e.zeros;
                  index = e.index;
                  cue_index = e.cue_index;
                  cue_times = e.cue_times;
                  as_many = e.as_many;
                  events = e.events;
                  last_cue = e.last_cue;
                  covered = e.covered;
                  same_interval = e.same_interval;
                  fits = omega (arith, e.fits);
                }) in
            let (w', s4, g') =
              after_pulses-HasEvents room interval s m w1 q (p (ground (arith, q))) g in
            (w', with_events h to_uint32 to_uint64 m w w1 e1 e2 q s1 s2 s3 ∙ s4, g')

    ignores :
        (n : ℕ) (m : EventMessage) (w : Writer D)
        → write (write_impl h to_uint32 to_uint64) (m, true) (n, w) ≡ some (n, w)
    unfolding write write_impl
    ignores n m w = refl

    -- Messages in order leave in the file the times of flight and pixel ids of all that are not buffered,
    -- the reference times of those with events, and their reference time indices moved up by the
    -- number of events that came before; and where `interval` events have come since the last cue, or
    -- since the start, a message makes a cue: the index of its last event, and that event's time. All
    -- values are as HDF5 converts them to the types of the datasets. This holds where HDF5 does not
    -- fail, if every message with events has a reference time and all sizes and the interval together
    -- stay below 2^63, for a writer that has stored earlier messages.
    pub write_all-HasEvents :
        (interval n : ℕ) (ms : List (EventMessage × Bool)) (s : Stored) (w : Writer D)
        → All HasPulse ms
        → HasEvents h to_uint32 to_uint64 (load_all ms) interval s w
        → (n' : ℕ) × (w' : Writer D) × (write_all (write_impl h to_uint32 to_uint64) ms (n, w)
            ≡ some (n', w'))
          × HasEvents h to_uint32 to_uint64 0 interval (store_all interval ms s) w'
    unfolding write_all write
    write_all-HasEvents interval n [] s w p e = (n, w, refl, e)
    write_all-HasEvents interval n ((m, true) ∷ ms) s w p e =
        let (n', w', s1, e') =
          write_all-HasEvents interval n ms s w p.1
            (subst (λ r. HasEvents h to_uint32 to_uint64 r interval s w) (omega arith) e) in
        (
          n',
          w',
          write_all-step (write_impl h to_uint32 to_uint64) (m, true) ms (n, w) (n, w)
                (ignores n m w)
              ∙ s1,
          e',
        )
    write_all-HasEvents interval n ((m, false) ∷ ms) s w p e =
        let (w1, s1, e1) = write_impl-HasEvents (load_all ms) interval s m w p.0 e in
        let (n', w', s2, e2) =
          write_all-HasEvents interval (u64 (n + 1)) ms (store interval (m, false) s) w1 p.1 e1 in
        (
          n',
          w',
          write_all-step (write_impl h to_uint32 to_uint64) (m, false) ms (n, w) (u64 (n + 1), w1)
                (ap (λ o. count_write (write_impl h to_uint32 to_uint64) n o) s1)
              ∙ s2,
          e2,
        )
