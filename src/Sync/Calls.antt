-- ===== src/Sync/Calls.antt =====
-- The calls of src/sync/linux.rs that a handle passes on to its file.
use fastio.Prelude.{ℕ, ◌⊎◌, List}
use fastio.Io.{Error, Result}
use fastio.Positioned.{Positioned}
use fastio.Open.{Std}
use fastio.StdFile.{Files, SeekFrom, wrapped}
use fastio.Sync.Options.{File, OpenOptions, new}

module _ (std : Std) (files : Files) where
  open files use {World}

  -- `get_ref`, `as_ref` and `into_inner`: the file of the handle.
  abbrev pub get_ref : File std → ℕ
  get_ref file = file.inner

  abbrev pub into_inner : File std → ℕ
  into_inner file = file.inner

  abbrev pub as_ref : File std → ℕ
  as_ref file = file.inner

  -- `File::options`, and the default of the options.
  abbrev pub options : OpenOptions std
  options = new std

  abbrev pub default_options : OpenOptions std
  default_options = new std

  unfoldable pub try_clone : File std → World → (Error ⊎ File std) × World
  try_clone file w = wrapped (λ fd. record { inner = fd }) (files.try_clone file.inner w)

  unfoldable pub metadata : File std → World → (Error ⊎ files.Metadata) × World
  metadata file = files.metadata file.inner

  unfoldable pub set_len : File std → ℕ → World → (Error ⊎ Unit {0}) × World
  set_len file size = files.set_len file.inner size

  unfoldable pub sync_all : File std → World → (Error ⊎ Unit {0}) × World
  sync_all file = files.sync_all file.inner

  unfoldable pub sync_data : File std → World → (Error ⊎ Unit {0}) × World
  sync_data file = files.sync_data file.inner

  unfoldable pub set_permissions : File std → files.Permissions → World → (Error ⊎ Unit {0}) × World
  set_permissions file perm = files.set_permissions file.inner perm

  unfoldable pub read : File std → ℕ → World → (Error ⊎ List ℕ) × World
  read file size = files.read file.inner size

  unfoldable pub write : File std → List ℕ → World → (Error ⊎ ℕ) × World
  write file buf = files.write file.inner buf

  unfoldable pub flush : File std → World → (Error ⊎ Unit {0}) × World
  flush file = files.flush file.inner

  unfoldable pub seek : File std → SeekFrom → World → (Error ⊎ ℕ) × World
  seek file pos = files.seek file.inner pos

module _ (f : Positioned) where
  unfoldable pub read_exact_at : ℕ → ℕ → f.World → Result (List ℕ) × f.World
  read_exact_at offset len = f.read_exact_at offset len

  unfoldable pub write_all_at : ℕ → List ℕ → f.World → Result (Unit {0}) × f.World
  write_all_at offset buf = f.write_all_at offset buf
