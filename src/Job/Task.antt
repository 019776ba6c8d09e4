-- ===== src/Job/Task.antt =====
-- The file of a job: src/FileWriterTask.{h,cpp}.
use kafka_to_nexus.Common.{
  ℕ, ◌+◌, ◌*◌, ◌/◌, ◌<◌, ◌≤◌, ◌≡◌, Bool, not, List, [], ◌∷◌, ◌++◌, Option, none, some, Text,
  if◌then◌else◌, ◌&&◌, arith,
}

-- `S` is a source, and `F` the HDF5 file.
pub record FileWriterTask (S F : Type 0) : Type 0 where
  pub job_id : Text
  pub filepath : Text
  pub source_to_module_map : List S
  pub file : Option F
  pub file_size_mb : ℕ

-- What the code asks of `std::filesystem`.
pub record Filesystem : Type 0 where
  pub exists : Text → Bool
  pub has_filename : Text → Bool
  pub has_parent_path : Text → Bool
  pub parent_path : Text → Text
  -- Nothing stands for an error.
  pub file_size : Text → Option ℕ

pub data InitialiseError : Type 0 where
  file_exists no_filename no_parent not_created : InitialiseError

module _ {S F : Type 0} where
  unfoldable pub set_full_file_path : Text → FileWriterTask S F → FileWriterTask S F
  set_full_file_path filepath t = record t { filepath = filepath }

  unfoldable pub add_source : S → FileWriterTask S F → FileWriterTask S F
  add_source s t = record t { source_to_module_map = t.source_to_module_map ++ s ∷ [] }

  -- The file that was made, or an exception of its constructor.
  abbrev pub with_file : Option F → FileWriterTask S F → FileWriterTask S F × Option InitialiseError
  with_file none t = (t, some not_created)
  with_file (some f) t = (record t { file = some f }, none)

  -- `InitialiseHdf`; `made` is what the constructor of `HDFFile` does.
  unfoldable pub initialise_hdf :
      Filesystem → Option F → FileWriterTask S F → FileWriterTask S F × Option InitialiseError
  initialise_hdf fs made t =
      if fs.exists t.filepath
      then (t, some file_exists)
      else (if not (fs.has_filename t.filepath)
          then (t, some no_filename)
          else (if fs.has_parent_path t.filepath && not (fs.exists (fs.parent_path t.filepath))
              then (t, some no_parent)
              else with_file made t))

  -- `hdfGroup`; nothing stands for its exception.
  unfoldable pub hdf_group : {G : Type 0} → (F → G) → FileWriterTask S F → Option G
  hdf_group group_of t = elim t.file [ none ↦ none | some f ↦ some (group_of f) ]

  -- `switchToWriteMode`, where nothing stands for the call through a null pointer.
  unfoldable pub switch_to_write_mode :
      (F → Bool) → (F → F) → FileWriterTask S F → Option (FileWriterTask S F)
  switch_to_write_mode is_regular_mode open_in_swmr_mode t = elim t.file [
    | none ↦ none
    | some f ↦
        some (if is_regular_mode f then record t { file = some (open_in_swmr_mode f) } else t)
  ]

  unfoldable pub flush_data_to_file : (F → F) → FileWriterTask S F → FileWriterTask S F
  flush_data_to_file flush t = elim t.file [
    | none ↦ t
    | some f ↦ record t { file = some (flush f) }
  ]

  abbrev pub sized : Option ℕ → FileWriterTask S F → FileWriterTask S F
  sized none t = t
  sized (some size) t = record t { file_size_mb = size / (1024 * 1024) }

  -- `updateApproximateFileSize`; `std::ceil` gets the quotient of integers.
  unfoldable pub update_approximate_file_size : Filesystem → FileWriterTask S F → FileWriterTask S F
  update_approximate_file_size fs t = sized (fs.file_size t.filepath) t

  -- The size in megabytes is rounded down.
  update_approximate_file_size-floor :
      (fs : Filesystem) (t : FileWriterTask S F) (size : ℕ)
      → fs.file_size t.filepath ≡ some size
      → ((update_approximate_file_size fs t).file_size_mb * 1_048_576 ≤ size)
        × (size < ((update_approximate_file_size fs t).file_size_mb + 1) * 1_048_576)
  unfolding update_approximate_file_size
  update_approximate_file_size-floor fs t size e = rw e (omega arith, omega arith)
