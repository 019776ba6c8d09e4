-- ===== src/Writer/F144/Writes.antt =====
-- What the writer of logged values leaves in the file: src/WriterModule/f144/f144_Writer.cpp.
use kafka_to_nexus.Common.{ℕ, ◌≡◌, List, [], ◌∷◌, ◌++◌, if◌then◌else◌}
use kafka_to_nexus.Dataset.{◌then◌, Hdf5, IsHdf5, IsReliable}
use kafka_to_nexus.Writer.{wrote, threw}
use kafka_to_nexus.Writer.F144.{LogData, Double, Writer, is_scalar, write_impl}
use kafka_to_nexus.Writer.F144.Entries.{HasEntries}

module _ {D E V R : Type 0} (h : Hdf5 D ℕ) (v : Hdf5 E V) (double_ : Double V R) (to_uint32 : ℕ → ℕ)
    (h_laws : IsHdf5 h) (v_laws : IsHdf5 v) (h_reliable : IsReliable h)
    (v_reliable : IsReliable v) where
  -- What a message does: the write returns for a scalar and throws for anything else.
  abbrev pub Writes : ℕ → List (LogData V) → LogData V → Writer D E R → Type 0
  Writes interval seen m w =
      (w' : Writer D E R) × (write_impl h v double_ to_uint32 m w
        ≡ (if is_scalar m.value_type then wrote w' else threw w'))
      × HasEntries h v double_ to_uint32 interval (seen ++ m ∷ []) w'
