-- ===== src/Uring/Calls.antt =====
-- The calls of src/uring.rs that a handle passes on to its file.
use fastio.Prelude.{ℕ, ◌⊎◌}
use fastio.Io.{Error}
use fastio.Open.{Std}
use fastio.StdFile.{Files}
use fastio.Uring.Options.{Handle, OpenOptions, new}

module _ (std : Std) (files : Files) where
  open files use {World}

  -- `get_ref`, `as_ref` and `into_inner`: the file of the handle.
  abbrev pub get_ref : Handle → ℕ
  get_ref file = file.file.fd

  abbrev pub into_inner : Handle → ℕ
  into_inner file = file.file.fd

  abbrev pub as_ref : Handle → ℕ
  as_ref file = file.file.fd

  -- `File::options`, and the default of the options.
  abbrev pub options : OpenOptions std
  options = new std

  abbrev pub default_options : OpenOptions std
  default_options = new std

  unfoldable pub metadata : Handle → World → (Error ⊎ files.Metadata) × World
  metadata file = files.metadata file.file.fd

  unfoldable pub set_len : Handle → ℕ → World → (Error ⊎ Unit {0}) × World
  set_len file size = files.set_len file.file.fd size

  unfoldable pub sync_all : Handle → World → (Error ⊎ Unit {0}) × World
  sync_all file = files.sync_all file.file.fd

  unfoldable pub sync_data : Handle → World → (Error ⊎ Unit {0}) × World
  sync_data file = files.sync_data file.file.fd

  unfoldable pub set_permissions : Handle → files.Permissions → World → (Error ⊎ Unit {0}) × World
  set_permissions file perm = files.set_permissions file.file.fd perm

  unfoldable pub flush : Handle → World → (Error ⊎ Unit {0}) × World
  flush file = files.flush file.file.fd
