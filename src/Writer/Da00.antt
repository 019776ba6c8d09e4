-- ===== src/Writer/Da00.antt =====
-- The writing of data arrays: src/WriterModule/da00/da00_Writer.cpp from the buffers of a message on. What
-- appends to a variable is an interface, which Variable fills from da00_Variable.h; the first message
-- and the constants are left out.
pub mod Aligned
pub mod Variable
pub mod Level
use kafka_to_nexus.Common.{
  ℤ, pos, negsuc, ◌+ℤ◌, ℕ, ◌+◌, Bool, true, false, List, [], ◌∷◌, ◌++◌, Text, text_eq, u64, ◌==◌,
  ◌||◌, if◌then◌else◌, length, map,
}
use kafka_to_nexus.Dataset.{
  Run, completes, throws, within, ◌then◌, Hdf5, Extensible, append_element,
}
use kafka_to_nexus.Writer.{Outcome, outcome}

-- `da00_DataArray`, the buffers by the names of their variables.
pub record DataArray (M : Type 0) : Type 0 where
  pub data_ : List (Text × M)
  pub timestamp : ℤ

-- `variables` is `VariablePtrs`, a map.
pub record Writer (D V : Type 0) : Type 0 where
  pub variables : List (Text × V)
  pub timestamp : Extensible D
  pub cue_index : Extensible D
  pub cue_timestamp_zero : Extensible D
  pub cue_interval : ℕ
  pub cue_counter : ℕ
  pub nr_of_writes : ℕ

-- `variable_append` and `variable_append_missing`.
pub record Appends (M V : Type 0) : Type 0 where
  pub variable_append : M → V → Run V
  pub variable_append_missing : V → Run V

abbrev pub names : {A : Type 0} → List (Text × A) → List Text
names = map (λ p. p.0)

abbrev pub mem : Text → List Text → Bool
mem name [] = false
mem name (n ∷ ns) = text_eq n name || mem name ns

module _ {M V : Type 0} (a : Appends M V) where
  -- One append to the variable of a name.
  unfoldable pub append_at : M → Text → List (Text × V) → Run (List (Text × V))
  append_at m name [] = completes []
  append_at m name ((n, v) ∷ rest) =
      let later = append_at m name rest in
      if text_eq n name
      then within (λ v'. (n, v') ∷ rest) (a.variable_append m v)
      else within (λ rest'. (n, v) ∷ rest') later

  -- The body of the loop over the buffers, with the variables and `variable_order`.
  abbrev pub write_buffer :
      Text × M → List (Text × V) × List Text → Run (List (Text × V) × List Text)
  write_buffer (name, m) (vs, order) =
      if mem name (names vs)
      then within (λ vs'. (vs', order ++ name ∷ [])) (append_at m name vs)
      else completes (vs, order)

  unfoldable pub write_buffers :
      List (Text × M) → List (Text × V) × List Text → Run (List (Text × V) × List Text)
  write_buffers [] s = completes s
  write_buffers (b ∷ bs) s = write_buffer b s then write_buffers bs

  abbrev pub padded : Text → List (Text × V) → Run V → Run (List (Text × V)) → Run (List (Text × V))
  padded n rest (throws v) later = throws ((n, v) ∷ rest)
  padded n rest (completes v) later = within (λ rest'. (n, v) ∷ rest') later

  -- The loop over the variables that were not in the message.
  unfoldable pub append_missing : List Text → List (Text × V) → Run (List (Text × V))
  append_missing order [] = completes []
  append_missing order ((n, v) ∷ rest) =
      let later = append_missing order rest in
      if mem n order
      then within (λ rest'. (n, v) ∷ rest') later
      else padded n rest (a.variable_append_missing v) later

  -- The test on the sizes before that loop.
  abbrev pub complete : Run (List (Text × V) × List Text) → Run (List (Text × V))
  complete (throws (vs, order)) = throws vs
  complete (completes (vs, order)) =
      if length order == length vs then completes vs else append_missing order vs

  unfoldable pub write_variables : List (Text × M) → List (Text × V) → Run (List (Text × V))
  write_variables bs vs = complete (write_buffers bs (vs, []))

  module _ {D : Type 0} (h : Hdf5 D ℤ) where
    abbrev pub append_cue : ℤ → ℕ → Writer D V → Run (Writer D V)
    append_cue time count w =
        if count == w.cue_interval
        then within (λ e. record w { cue_counter = count; cue_index = e })
            (append_element h (pos w.nr_of_writes +ℤ negsuc 0) w.cue_index)
        then (λ w.
            within (λ e. record w { cue_timestamp_zero = e; cue_counter = 0 })
              (append_element h time w.cue_timestamp_zero))
        else completes (record w { cue_counter = count })

    -- `writeImpl` from the loop over the buffers on; the counters are `uint64_t`.
    unfoldable pub write_data : DataArray M → Writer D V → Outcome (Writer D V)
    write_data m w = outcome (
        within (λ vs. record w { variables = vs }) (write_variables m.data_ w.variables)
        then (λ w.
            within (λ e. record w { timestamp = e }) (append_element h m.timestamp w.timestamp))
        then (λ w.
            append_cue m.timestamp (u64 (w.cue_counter + 1))
              (record w { nr_of_writes = u64 (w.nr_of_writes + 1) })))
