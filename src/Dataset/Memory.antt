-- ===== src/Dataset/Memory.antt =====
-- A dataset in memory, which has the laws of HDF5: src/NeXusDataset/ExtensibleDataset.h is run on it.
use kafka_to_nexus.Common.{◌-◌, refl, List, [], ◌++◌, some, length, take, replicate}
use kafka_to_nexus.Dataset.Appends.{IsExact}
use kafka_to_nexus.Dataset.{completes, Hdf5, IsHdf5, IsReliable, overwrite, Group, Extensible}

module _ {A : Type 0} (fill : A) where
  abbrev pub memory : Hdf5 (List A) A
  memory = record {
    contents = λ d. d;
    extent = λ n d. completes (d ++ replicate n fill);
    resize = λ n d. completes (take n d ++ replicate (n - length d) fill);
    write = λ xs i d. completes (overwrite xs i d);
  }

  pub memory-IsHdf5 : IsHdf5 memory
  memory-IsHdf5 = record {
    fill_value = fill;
    extent_ends = λ n d. refl;
    resize_ends = λ n d. refl;
    write_ends = λ xs i d h. refl;
  }

  pub memory-IsReliable : IsReliable memory
  memory-IsReliable = record {
    extents = λ n d. refl;
    resizes = λ n d. refl;
    writes = λ xs i d h. refl;
  }

-- A group whose datasets all hold the same.
abbrev pub group_of : {A : Type 0} → List A → Group (List A)
group_of xs = record { chunked_dataset = λ name chunk_size. some []; get_dataset = λ name. some xs }

abbrev pub empty_dataset : {A : Type 0} → Extensible (List A)
empty_dataset = record { dataset = []; nr_of_elements = 0 }

pub nothing-IsExact : {A : Type 0} (fill : A) → IsExact (memory fill) [] empty_dataset
nothing-IsExact fill = record { logged = record { front = refl; count = refl }; size = refl }
