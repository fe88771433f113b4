-- ===== src/Tokio/Calls.antt =====
-- The calls of src/tokio/mod.rs that a handle passes on to its file.
use fastio.Prelude.{ℕ, ◌⊎◌}
use fastio.Io.{Error}
use fastio.StdFile.{Files, wrapped}
use fastio.Tokio.Options.{File, OpenOptions, new}

module _ (files : Files) where
  open files use {World}

  -- `get_ref`, `as_ref` and `into_inner`: the file of the handle.
  abbrev pub get_ref : File → ℕ
  get_ref file = file.inner

  abbrev pub as_ref : File → ℕ
  as_ref file = file.inner

  -- `File::options`, and the default of the options.
  abbrev pub options : OpenOptions
  options = new

  abbrev pub default_options : OpenOptions
  default_options = new

  unfoldable pub try_clone : File → World → (Error ⊎ File) × World
  try_clone file w = wrapped (λ fd. record { inner = fd }) (files.try_clone file.inner w)

  unfoldable pub metadata : File → World → (Error ⊎ files.Metadata) × World
  metadata file = files.metadata file.inner

  unfoldable pub set_len : File → ℕ → World → (Error ⊎ Unit {0}) × World
  set_len file size = files.set_len file.inner size

  unfoldable pub sync_all : File → World → (Error ⊎ Unit {0}) × World
  sync_all file = files.sync_all file.inner

  unfoldable pub sync_data : File → World → (Error ⊎ Unit {0}) × World
  sync_data file = files.sync_data file.inner

  unfoldable pub set_permissions : File → files.Permissions → World → (Error ⊎ Unit {0}) × World
  set_permissions file perm = files.set_permissions file.inner perm
