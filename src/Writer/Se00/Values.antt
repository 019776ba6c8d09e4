-- ===== src/Writer/Se00/Values.antt =====
-- What the writer of fast sample environment data leaves in the file:
-- src/WriterModule/se00/se00_Writer.cpp.
use kafka_to_nexus.Common.{ℤ, ℕ, ◌≡◌, ◌==◌, if◌then◌else◌}
use kafka_to_nexus.Dataset.{◌then◌, Hdf5, IsHdf5, IsReliable}
use kafka_to_nexus.Writer.{wrote, ignored}
use kafka_to_nexus.Writer.Se00.{SampleData, Writer, number, write_impl}
use kafka_to_nexus.Writer.Se00.Stored.{Stored, store, HasValues}

module _ {D E V : Type 0} (h : Hdf5 D ℤ) (v : Hdf5 E V) (offset : SampleData V → ℕ → ℤ) where
  module _ (laws : IsHdf5 h) (v_laws : IsHdf5 v) (reliable : IsReliable h)
      (v_reliable : IsReliable v) where
    abbrev pub Writes : ℕ → Stored V → SampleData V → Writer D E → Type 0
    Writes room s m w =
        (w' : Writer D E) × (write_impl h v offset m w
          ≡ (if number m.values == 0 then ignored w' else wrote w'))
        × HasValues h v offset room (store offset m s) w'
