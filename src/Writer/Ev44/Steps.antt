-- ===== src/Writer/Ev44/Steps.antt =====
-- The writer of events step by step: src/WriterModule/ev44/ev44_Writer.cpp.
use kafka_to_nexus.Common.{
  ℤ, pos, negsuc, ◌+ℤ◌, wrap64, wrap64-exact, ℕ, ◌+◌, ◌-◌, ◌<◌, ◌≡◌, ◌^◌, refl, ap, ◌∙◌, true,
  false, ltb, leb, ltb_ℤ, ◌==◌, if◌then◌else◌, map, length, arith,
}
use kafka_to_nexus.Dataset.{
  Extensible, completes, Hdf5, append_element, append_adapter, append_array,
}
use kafka_to_nexus.Writer.{wrote}
use kafka_to_nexus.Writer.Ev44.{
  EventMessage, Writer, shifted, append_pulses, write_cue, after_pulses, write_impl,
}

pub minus_one : (n : ℕ) → 0 < n → n < 2 ^ 63 → wrap64 (pos n +ℤ negsuc 0) ≡ pos (n - 1)
unfolding ◌+ℤ◌
minus_one n p b =
    let e : pos n +ℤ negsuc 0 ≡ pos (n - 1) = ground (arith, p) in
    ap wrap64 e ∙ wrap64-exact (pos (n - 1)) (omega arith)

-- The index of the last of a number of events, which is -1 for none.
abbrev pub last_index : ℕ → ℤ
last_index n = if n == 0 then negsuc 0 else pos (n - 1)

-- The test for a cue asks whether `interval` events have come since those up to the last cue.
pub cue_due :
    (covered interval n : ℕ)
    → covered + interval < 2 ^ 63
    → ltb_ℤ (wrap64 (last_index covered +ℤ pos interval)) (pos n) ≡ leb (covered + interval) n
unfolding ◌+ℤ◌
cue_due covered interval n b =
    let sum : last_index covered +ℤ pos interval ≡ last_index (covered + interval) = ground arith in
    let exact : wrap64 (last_index (covered + interval)) ≡ last_index (covered + interval) =
      wrap64-exact (last_index (covered + interval)) (ground arith) in
    let less : ltb_ℤ (last_index (covered + interval)) (pos n) ≡ leb (covered + interval) n =
      ground arith in
    ap (λ k. ltb_ℤ (wrap64 k) (pos n)) sum ∙ ap (λ k. ltb_ℤ k (pos n)) exact ∙ less

pub plus : (n k : ℕ) → n + k < 2 ^ 63 → wrap64 (pos n +ℤ pos k) ≡ pos (n + k)
unfolding ◌+ℤ◌
plus n k b =
    let e : pos n +ℤ pos k ≡ pos (n + k) = ground arith in
    ap wrap64 e ∙ wrap64-exact (pos (n + k)) (omega arith)

module _ {D : Type 0} (h : Hdf5 D ℤ) (to_uint32 to_uint64 : ℤ → ℤ) where
  pub no_events :
      (m : EventMessage) (w : Writer D) (e1 e2 : Extensible D)
      → ltb 0 (length m.time_of_flight) ≡ false
      → append_adapter h (map to_uint32 m.time_of_flight) w.event_time_offset ≡ completes e1
      → append_adapter h (map to_uint32 m.pixel_id) w.event_id ≡ completes e2
      → write_impl h to_uint32 to_uint64 (m, false) w
        ≡ wrote (record w { event_time_offset = e1; event_id = e2 })
  unfolding write_impl
  no_events m w e1 e2 q s1 s2 = rw (s1, s2, q) refl

  pub with_events :
      (m : EventMessage) (w w' : Writer D) (e1 e2 : Extensible D)
      → ltb 0 (length m.time_of_flight) ≡ true
      → append_adapter h (map to_uint32 m.time_of_flight) w.event_time_offset ≡ completes e1
      → append_adapter h (map to_uint32 m.pixel_id) w.event_id ≡ completes e2
      → append_pulses h to_uint32 to_uint64 m (record w { event_time_offset = e1; event_id = e2 })
        ≡ completes w'
      → write_impl h to_uint32 to_uint64 (m, false) w
        ≡ after_pulses h to_uint32 to_uint64 m (completes w')
  unfolding write_impl
  with_events m w w' e1 e2 q s1 s2 s3 = rw (s1, s2, q, s3) refl

  pub pulses_appended :
      (m : EventMessage) (w : Writer D) (z i : Extensible D)
      → append_adapter h (map to_uint64 m.reference_time) w.event_time_zero ≡ completes z
      → append_array h (map to_uint32 (shifted h to_uint32 to_uint64 m w)) w.event_index
        ≡ completes i
      → append_pulses h to_uint32 to_uint64 m w
        ≡ completes (record w {
          event_time_zero = z;
          event_index = i;
          events_written = wrap64 (w.events_written +ℤ pos (length m.time_of_flight));
        })
  pulses_appended m w z i s1 s2 = rw (s1, s2) refl

  pub cue_written :
      (time : ℤ) (w : Writer D) (t i : Extensible D)
      → append_element h (to_uint64 time) w.cue_timestamp_zero ≡ completes t
      → append_element h (to_uint32 (wrap64 (w.events_written +ℤ negsuc 0))) w.cue_index
        ≡ completes i
      → write_cue h to_uint32 to_uint64 time w
        ≡ completes (record w {
          cue_timestamp_zero = t;
          cue_index = i;
          last_cue_index = wrap64 (w.events_written +ℤ negsuc 0);
        })
  cue_written time w t i s1 s2 = rw (s1, s2) refl
