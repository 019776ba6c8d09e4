-- ===== src/Writer/Se00/Stored.antt =====
-- The data of messages in order, and the writer step by step:
-- src/WriterModule/se00/se00_Writer.cpp.
use kafka_to_nexus.Common.{
  ◌+ℤ◌, wrap64, zero, suc, ap, ℤ, pos, ℕ, ◌+◌, ◌<◌, ◌≡◌, ◌^◌, refl, true, false, List, [], ◌∷◌,
  ◌++◌, Option, none, some, ◌==◌, if◌then◌else◌, length,
}
use kafka_to_nexus.Dataset.{Extensible, completes, ◌then◌, Hdf5, append_element}
use kafka_to_nexus.Dataset.Appends.{IsExact}
use kafka_to_nexus.Writer.{wrote, ignored}
use kafka_to_nexus.Writer.Se00.{
  stamps_from, SampleData, Writer, generate_time_stamps, append_stamps, append_values, number,
  cue_index_value, write_impl,
}

-- The contents of the datasets.
pub record Stored (V : Type 0) : Type 0 where
  pub values : List V
  pub stamps : List ℤ
  pub cues : List ℤ
  pub cue_times : List ℤ

abbrev pub up_to : ℕ → ℕ → List ℕ
up_to i zero = []
up_to i (suc n) = i ∷ up_to (i + 1) n

module _ {V : Type 0} (offset : SampleData V → ℕ → ℤ) where
  abbrev pub list_of : Option (List V) → List V
  list_of none = []
  list_of (some xs) = xs

  -- Time stamps for a number of values: the time of the packet, and the offset of each value's index.
  abbrev pub spaced : SampleData V → List ℕ → List ℤ
  spaced m [] = []
  spaced m (i ∷ is) = wrap64 (m.packet_timestamp +ℤ offset m i) ∷ spaced m is

  abbrev pub stamps_of : SampleData V → Option (List ℤ) → List ℤ
  stamps_of m none = spaced m (up_to 0 (number m.values))
  stamps_of m (some ts) = ts

  -- A message with values adds them, its time stamps, and a cue: the position of its first value.
  abbrev pub store : SampleData V → Stored V → Stored V
  store m s = if number m.values == 0 then s else record {
    values = s.values ++ list_of m.values;
    stamps = s.stamps ++ stamps_of m m.timestamps;
    cues = s.cues ++ pos (length s.values) ∷ [];
    cue_times = s.cue_times ++ m.packet_timestamp ∷ [];
  }

  abbrev pub store_all : List (SampleData V) → Stored V → Stored V
  store_all [] s = s
  store_all (m ∷ ms) s = store_all ms (store m s)

  pub generated-spaced :
      (m : SampleData V) (n : ℕ)
      → generate_time_stamps (offset m) m.packet_timestamp n ≡ spaced m (up_to 0 n)
  unfolding generate_time_stamps
  generated-spaced m n = from 0 n
    where
      from : (i n : ℕ) → stamps_from (offset m) m.packet_timestamp i n ≡ spaced m (up_to i n)
      from i zero = refl
      from i (suc n) = ap (λ x. wrap64 (m.packet_timestamp +ℤ offset m i) ∷ x) (from (i + 1) n)

  abbrev pub load : SampleData V → ℕ
  load m = number m.values + length (stamps_of m m.timestamps) + 1

  abbrev pub load_all : List (SampleData V) → ℕ
  load_all [] = 0
  load_all (m ∷ ms) = load m + load_all ms

module _ {D E V : Type 0} (h : Hdf5 D ℤ) (v : Hdf5 E V) (offset : SampleData V → ℕ → ℤ) where
  pub record HasValues (room : ℕ) (s : Stored V) (w : Writer D E) : Type 0 where
    pub values : IsExact v s.values w.value
    pub stamps : IsExact h s.stamps w.timestamp
    pub cues : IsExact h s.cues w.cue_timestamp_index
    pub cue_times : IsExact h s.cue_times w.cue_timestamp
    pub as_many : length s.cues ≡ length s.cue_times
    pub fits : length s.values + length s.stamps + length s.cues + room < 2 ^ 32

  pub nothing_new :
      (m : SampleData V) (w : Writer D E) (e : Extensible E)
      → (number m.values == 0) ≡ true
      → append_values h v offset m.values (record w { has_checked_message_type = true })
        ≡ completes (record w { has_checked_message_type = true; value = e })
      → write_impl h v offset m w
        ≡ ignored (record w { has_checked_message_type = true; value = e })
  unfolding write_impl
  nothing_new m w e q s1 = rw (s1, q) refl

  pub values_stored :
      (m : SampleData V) (w : Writer D E) (e : Extensible E) (i c t : Extensible D)
      → (number m.values == 0) ≡ false
      → append_values h v offset m.values (record w { has_checked_message_type = true })
        ≡ completes (record w { has_checked_message_type = true; value = e })
      → append_element h (cue_index_value h v offset w) w.cue_timestamp_index ≡ completes i
      → append_element h m.packet_timestamp w.cue_timestamp ≡ completes c
      → append_stamps h v offset m (number m.values) m.timestamps (record w {
        has_checked_message_type = true;
        value = e;
        cue_timestamp_index = i;
        cue_timestamp = c;
      })
        ≡ completes (record w {
          has_checked_message_type = true;
          value = e;
          cue_timestamp_index = i;
          cue_timestamp = c;
          timestamp = t;
        })
      → write_impl h v offset m w
        ≡ wrote (record w {
          has_checked_message_type = true;
          value = e;
          cue_timestamp_index = i;
          cue_timestamp = c;
          timestamp = t;
        })
  unfolding write_impl
  values_stored m w e i c t q s1 s2 s3 s4 = rw (s1, q, s2, s3, s4) refl
