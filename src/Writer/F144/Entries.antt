-- ===== src/Writer/F144/Entries.antt =====
-- What the writer of logged values leaves in the file: src/WriterModule/f144/f144_Writer.cpp.
use kafka_to_nexus.Common.{
  ℕ, ◌+◌, ◌/◌, ◌%◌, ◌<◌, ◌≤◌, ◌≡◌, ◌^◌, refl, ap, ◌∙◌, true, false, not, List, [], ◌∷◌, ◌++◌, map,
  map-append, append-nil, u64, ◌==◌, length, length-append, length-map, arith, Bool-cases, if_both,
  inl, inr,
}
use kafka_to_nexus.Dataset.{Extensible, completes, Hdf5, IsHdf5, IsReliable, append_element}
use kafka_to_nexus.Dataset.Appends.{IsExact, append_element-IsExact}
use kafka_to_nexus.Writer.{wrote, threw, sub64}
use kafka_to_nexus.Writer.F144.{
  LogData, Double, Writer, is_scalar, append_cue, update_meta_data, write_impl,
}
use kafka_to_nexus.Writer.F144.Cues.{
  scalars, cues, cue_of, cues-append, length-cues, keep-append, length-keep, mod-suc, passed,
}

module _ {D E V R : Type 0} (h : Hdf5 D ℕ) (v : Hdf5 E V) (double_ : Double V R)
    (to_uint32 : ℕ → ℕ) where
  -- What the datasets hold after messages in order.
  pub record HasEntries (interval : ℕ) (seen : List (LogData V)) (w : Writer D E R) : Type 0 where
    pub timestamps : IsExact h (map (λ m. m.timestamp) seen) w.timestamp
    pub values : IsExact v (map (λ m. m.value) (scalars seen)) w.values
    pub cue_indices :
        IsExact h (map (λ c. to_uint32 c.0) (cues interval 0 (scalars seen))) w.cue_index
    pub cue_times : IsExact h (map (λ c. c.1) (cues interval 0 (scalars seen))) w.cue_timestamp_zero
    pub writes : w.nr_of_writes ≡ length (scalars seen)
    pub since : w.last_index_at_write + w.nr_of_writes % interval ≡ w.nr_of_writes
    pub same_interval : w.value_index_interval ≡ interval

  pub update_meta_data-HasEntries :
      (interval : ℕ) (seen : List (LogData V)) (x : R) (w : Writer D E R)
      → HasEntries interval seen w
      → HasEntries interval seen (update_meta_data h v double_ to_uint32 x w)
  unfolding update_meta_data
  update_meta_data-HasEntries interval seen x w e =
      if_both (HasEntries interval seen) w.meta_data _ w
        (record {
          timestamps = e.timestamps;
          values = e.values;
          cue_indices = e.cue_indices;
          cue_times = e.cue_times;
          writes = e.writes;
          since = e.since;
          same_interval = e.same_interval;
        })
        e

  -- The state between the value of a scalar message and its cue.
  pub record HasValue (interval : ℕ) (seen : List (LogData V)) (m : LogData V) (w : Writer D E R)
      : Type 0 where
    pub timestamps : IsExact h (map (λ n. n.timestamp) (seen ++ m ∷ [])) w.timestamp
    pub values : IsExact v (map (λ n. n.value) (scalars (seen ++ m ∷ []))) w.values
    pub cue_indices :
        IsExact h (map (λ c. to_uint32 c.0) (cues interval 0 (scalars seen))) w.cue_index
    pub cue_times : IsExact h (map (λ c. c.1) (cues interval 0 (scalars seen))) w.cue_timestamp_zero
    pub writes : w.nr_of_writes ≡ u64 (length (scalars seen) + 1)
    pub since : w.last_index_at_write + length (scalars seen) % interval ≡ length (scalars seen)
    pub same_interval : w.value_index_interval ≡ interval
    pub scalar : is_scalar m.value_type ≡ true

  cue_entered :
      (m : LogData V) (w : Writer D E R) (i' t' : Extensible D)
      → (sub64 w.nr_of_writes w.last_index_at_write / w.value_index_interval == 0) ≡ false
      → append_element h (to_uint32 (sub64 w.nr_of_writes 1)) w.cue_index ≡ completes i'
      → append_element h m.timestamp w.cue_timestamp_zero ≡ completes t'
      → append_cue h v double_ to_uint32 m w
        ≡ completes (record w {
          last_index_at_write = w.nr_of_writes;
          cue_index = i';
          cue_timestamp_zero = t';
        })
  cue_entered m w i' t' q s1 s2 = rw (q, s1, s2) refl

  pub value_written :
      (m : LogData V) (w : Writer D E R) (t' : Extensible D) (x' : Extensible E) (w' : Writer D E R)
      → is_scalar m.value_type ≡ true
      → 0 < w.value_index_interval
      → append_element h m.timestamp w.timestamp ≡ completes t'
      → append_element v m.value w.values ≡ completes x'
      → append_cue h v double_ to_uint32 m (record w {
        timestamp = t';
        values = x';
        has_checked_message_type = true;
        nr_of_writes = u64 (w.nr_of_writes + 1);
      })
        ≡ completes w'
      → write_impl h v double_ to_uint32 m w
        ≡ wrote (update_meta_data h v double_ to_uint32 (double_.of_value m.value) w')
  unfolding write_impl
  value_written m w t' x' w' q p s1 s2 s3 =
      let nonzero : (w.value_index_interval == 0) ≡ false = ground (arith, p) in
      rw (s1, q, s2, nonzero, s3) refl

  pub value_refused :
      (m : LogData V) (w : Writer D E R) (t' : Extensible D)
      → is_scalar m.value_type ≡ false
      → append_element h m.timestamp w.timestamp ≡ completes t'
      → write_impl h v double_ to_uint32 m w
        ≡ threw (record w { timestamp = t'; has_checked_message_type = true })
  unfolding write_impl
  value_refused m w t' q s1 = rw (s1, q) refl

  module _ (h_laws : IsHdf5 h) (v_laws : IsHdf5 v) (h_reliable : IsReliable h)
      (v_reliable : IsReliable v) where
    pub append_cue-HasEntries :
        (interval : ℕ) (seen : List (LogData V)) (m : LogData V) (w : Writer D E R)
        → 0 < interval
        → length seen + 1 < 2 ^ 64
        → HasValue interval seen m w
        → (w' : Writer D E R) × (append_cue h v double_ to_uint32 m w ≡ completes w')
          × HasEntries interval (seen ++ m ∷ []) w'
    append_cue-HasEntries interval seen m w p b e = elim (Bool-cases ((n + 1) % interval == 0)) [
      | inl q ↦ enters q
      | inr q ↦ skips q
    ]
      where
        n : ℕ
        n = length (scalars seen)

        few : n ≤ length seen
        few = length-keep (λ m. is_scalar m.value_type) seen

        grows : scalars (seen ++ m ∷ []) ≡ scalars seen ++ m ∷ []
        grows = keep-append (λ m. is_scalar m.value_type) seen m ∙ rw (e.scalar) refl

        count : length (scalars (seen ++ m ∷ [])) ≡ n + 1
        count = ap length grows ∙ length-append (scalars seen) (m ∷ [])

        next :
            cues interval 0 (scalars (seen ++ m ∷ []))
            ≡ cues interval 0 (scalars seen) ++ cue_of interval n m
        next =
            ap (cues interval 0) grows
            ∙ cues-append interval 0 (scalars seen) m
            ∙ ap (λ k. cues interval 0 (scalars seen) ++ cue_of interval k m) (omega arith)

        test :
            (sub64 w.nr_of_writes w.last_index_at_write / w.value_index_interval == 0)
            ≡ not ((n + 1) % interval == 0)
        test =
            rw (e.writes, e.same_interval)
              (passed n w.last_index_at_write interval p (omega (arith, b, few)) e.since)

        skips :
            ((n + 1) % interval == 0) ≡ false
            → (w' : Writer D E R) × (append_cue h v double_ to_uint32 m w ≡ completes w')
              × HasEntries interval (seen ++ m ∷ []) w'
        skips q =
            let same : cues interval 0 (scalars (seen ++ m ∷ [])) ≡ cues interval 0 (scalars seen) =
              next ∙ rw q (append-nil (cues interval 0 (scalars seen))) in
            (
              w,
              rw (test ∙ ap not q) refl,
              record {
                timestamps = e.timestamps;
                values = e.values;
                cue_indices = rw same e.cue_indices;
                cue_times = rw same e.cue_times;
                writes = ground (arith, e.writes, count, few);
                since = ground (arith, e.since, e.writes, mod-suc n interval p, few);
                same_interval = e.same_interval;
              },
            )

        enters :
            ((n + 1) % interval == 0) ≡ true
            → (w' : Writer D E R) × (append_cue h v double_ to_uint32 m w ≡ completes w')
              × HasEntries interval (seen ++ m ∷ []) w'
        enters q =
            let same : cues interval 0 (scalars (seen ++ m ∷ []))
                ≡ cues interval 0 (scalars seen) ++ (n, m.timestamp) ∷ [] =
              next ∙ rw q refl in
            let old = cues interval 0 (scalars seen) in
            let short : length old ≤ n = length-cues interval 0 (scalars seen) in
            let index : sub64 w.nr_of_writes 1 ≡ n = omega (arith, b, few, e.writes) in
            let (i', s1, x1) =
              append_element-IsExact h h_laws h_reliable (to_uint32 n)
                (map (λ c. to_uint32 c.0) old) w.cue_index
                (omega (arith, length-map (λ c. to_uint32 c.0) old, short, few, b)) e.cue_indices in
            let (t', s2, x2) =
              append_element-IsExact h h_laws h_reliable m.timestamp (map (λ c. c.1) old)
                w.cue_timestamp_zero (omega (arith, length-map (λ c. c.1) old, short, few, b))
                e.cue_times in
            (
              record w {
                last_index_at_write = w.nr_of_writes;
                cue_index = i';
                cue_timestamp_zero = t';
              },
              cue_entered m w i' t' (test ∙ ap not q)
                  (ap (λ k. append_element h (to_uint32 k) w.cue_index) index ∙ s1) s2,
              record {
                timestamps = e.timestamps;
                values = e.values;
                cue_indices =
                    rw (same, map-append (λ c. to_uint32 c.0) old ((n, m.timestamp) ∷ [])) x1;
                cue_times = rw (same, map-append (λ c. c.1) old ((n, m.timestamp) ∷ [])) x2;
                writes = ground (arith, e.writes, count, few);
                since = ground (arith, e.writes, mod-suc n interval p, few);
                same_interval = e.same_interval;
              },
            )
