-- ===== src/Writer/Small.antt =====
-- The writers of chopper time stamps, of EPICS alarms and of EPICS connections:
-- src/WriterModule/tdct/tdct_Writer.cpp, al00/al00_Writer.cpp and ep01/ep01_Writer.cpp.
use kafka_to_nexus.Common.{ℤ, pos, ℕ, ◌%◌, ◌^◌, List, [], ◌∷◌, Text, bytes, if◌then◌else◌}
use kafka_to_nexus.Dataset.{
  within, ◌then◌, Hdf5, Extensible, append_element, append_adapter, current_size, Group,
  open_existing, new, FixedSizeString, append_string_element, new_strings,
}
use kafka_to_nexus.Writer.{InitResult, Outcome, ignored, outcome, init_datasets, assign, result_of}

pub record TdctWriter (D : Type 0) : Type 0 where
  pub timestamp : Extensible D
  pub cue_timestamp_index : Extensible D
  pub cue_timestamp : Extensible D

pub record AlarmWriter (D S : Type 0) : Type 0 where
  pub alarm_time : Extensible D
  pub alarm_severity : Extensible D
  pub alarm_msg : FixedSizeString S

pub record AlarmMessage : Type 0 where
  pub timestamp : ℤ
  pub severity : ℤ
  pub message : Text

pub record ConnectionWriter (D : Type 0) : Type 0 where
  pub timestamp_dataset : Extensible D
  pub status_dataset : Extensible D

pub record ConnectionInfo : Type 0 where
  pub timestamp : ℤ
  pub status : ℤ

module _ {D : Type 0} (h : Hdf5 D ℤ) where
  -- `tdct_Writer::writeImpl`; the cue is the number of time stamps before, as a `uint32_t`.
  unfoldable pub write_tdct : List ℤ → TdctWriter D → Outcome (TdctWriter D)
  write_tdct [] w = ignored w
  write_tdct (t ∷ ts) w = outcome (
      within (λ e. record w { cue_timestamp_index = e })
        (append_element h (pos (current_size h w.timestamp % 2 ^ 32)) w.cue_timestamp_index)
      then (λ w. within (λ e. record w { cue_timestamp = e }) (append_element h t w.cue_timestamp))
      then (λ w. within (λ e. record w { timestamp = e }) (append_adapter h (t ∷ ts) w.timestamp)))

  unfoldable pub reopen_tdct : Group D → TdctWriter D → InitResult × TdctWriter D
  reopen_tdct parent w = result_of (
      assign (new h parent (bytes "time") open_existing 1024) (λ e. record w { timestamp = e }) w
      then (λ w.
          assign (new h parent (bytes "cue_index") open_existing 1024)
            (λ e. record w { cue_timestamp_index = e }) w)
      then (λ w.
          assign (new h parent (bytes "cue_timestamp_zero") open_existing 1024)
            (λ e. record w { cue_timestamp = e }) w))

  -- `ep01_Writer::writeImpl`.
  unfoldable pub write_connection :
      ConnectionInfo → ConnectionWriter D → Outcome (ConnectionWriter D)
  write_connection m w = outcome (
      within (λ e. record w { status_dataset = e }) (append_element h m.status w.status_dataset)
      then (λ w.
          within (λ e. record w { timestamp_dataset = e })
            (append_element h m.timestamp w.timestamp_dataset)))

  module _ {S : Type 0} (strings : Hdf5 S Text) where
    abbrev pub alarm_text : Text → Text
    alarm_text [] = bytes "NO ALARM MESSAGE"
    alarm_text (c ∷ s) = c ∷ s

    -- `al00_Writer::writeImpl`.
    unfoldable pub write_alarm : AlarmMessage → AlarmWriter D S → Outcome (AlarmWriter D S)
    write_alarm m w = outcome (
        within (λ e. record w { alarm_time = e }) (append_element h m.timestamp w.alarm_time)
        then (λ w.
            within (λ e. record w { alarm_severity = e })
              (append_element h m.severity w.alarm_severity))
        then (λ w.
            within (λ e. record w { alarm_msg = e })
              (append_string_element strings (alarm_text m.message) w.alarm_msg)))

unfoldable pub init_tdct : {D : Type 0} → ℕ → Group D → InitResult
init_tdct chunk_size parent = init_datasets parent (
    (bytes "time", chunk_size)
    ∷ (bytes "cue_index", chunk_size)
    ∷ (bytes "cue_timestamp_zero", chunk_size)
    ∷ [])

unfoldable pub init_alarm : {D : Type 0} → Group D → InitResult
init_alarm parent = init_datasets parent (
    (bytes "alarm_message", 1024)
    ∷ (bytes "alarm_time", 1024)
    ∷ (bytes "alarm_severity", 1024)
    ∷ [])

unfoldable pub init_connection : {D : Type 0} → Group D → InitResult
init_connection parent =
    init_datasets parent
      ((bytes "connection_status_time", 1024) ∷ (bytes "connection_status", 1024) ∷ [])

module _ {D S : Type 0} (h : Hdf5 D ℤ) (strings : Hdf5 S Text) (type_size : S → ℕ) where
  unfoldable pub reopen_alarm : Group D → Group S → AlarmWriter D S → InitResult × AlarmWriter D S
  reopen_alarm parent texts w = result_of (
      assign (new h parent (bytes "alarm_time") open_existing 1024)
        (λ e. record w { alarm_time = e }) w
      then (λ w.
          assign (new h parent (bytes "alarm_severity") open_existing 1024)
            (λ e. record w { alarm_severity = e }) w)
      then (λ w.
          assign
            (new_strings strings type_size texts (bytes "alarm_message") open_existing 200 1024)
            (λ e. record w { alarm_msg = e }) w))

  unfoldable pub reopen_connection : Group D → ConnectionWriter D → InitResult × ConnectionWriter D
  reopen_connection parent w = result_of (
      assign (new h parent (bytes "connection_status_time") open_existing 1024)
        (λ e. record w { timestamp_dataset = e }) w
      then (λ w.
          assign (new h parent (bytes "connection_status") open_existing 1024)
            (λ e. record w { status_dataset = e }) w))
