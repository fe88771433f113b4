-- ===== src/Mmap/Calls.antt =====
-- The handle of src/mmap.rs: how it is made, and the calls that it passes on to its file.
use fastio.Prelude.{ℕ, ◌⊎◌, List}
use fastio.Io.{Error, Result}
use fastio.StdFile.{Files, wrapped}
use fastio.Mmap.{MmapRegion, as_slice}

pub record File : Type 0 where
  pub inner : ℕ

-- The options are empty.
pub record OpenOptions : Type 0 where

abbrev pub new_options : OpenOptions
new_options = record {}

abbrev pub options : OpenOptions
options = new_options

abbrev pub default_options : OpenOptions
default_options = new_options

abbrev pub len : MmapRegion → ℕ
len r = r.len

-- `AsRef<[u8]>` and `Deref` of a region.
abbrev pub region_as_ref : MmapRegion → Result (List ℕ)
region_as_ref r = as_slice r

abbrev pub region_deref : MmapRegion → Result (List ℕ)
region_deref r = as_slice r

abbrev pub get_ref : File → ℕ
get_ref file = file.inner

abbrev pub into_inner : File → ℕ
into_inner file = file.inner

abbrev pub as_ref : File → ℕ
as_ref file = file.inner

module _ (files : Files) where
  open files use {World, FilePath}

  unfoldable pub open_with : OpenOptions → FilePath → World → (Error ⊎ File) × World
  open_with o path w = wrapped (λ fd. record { inner = fd }) (files.open_path path w)

  unfoldable pub open_file : FilePath → World → (Error ⊎ File) × World
  unfolding open_with
  open_file = open_with new_options

  unfoldable pub try_clone : File → World → (Error ⊎ File) × World
  try_clone file w = wrapped (λ fd. record { inner = fd }) (files.try_clone file.inner w)

  unfoldable pub metadata : File → World → (Error ⊎ files.Metadata) × World
  metadata file = files.metadata file.inner
