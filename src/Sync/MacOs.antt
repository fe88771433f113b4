-- ===== src/Sync/MacOs.antt =====
-- The blocking backend on macOS: src/sync/macos.rs has the text of src/sync/linux.rs.
use fastio.Prelude.{ℕ, ◌⊎◌, Bool, List}
use fastio.Io.{Error, Result}
use fastio.Open.{Std, Flag}
use fastio.StdFile.{Files, SeekFrom}
use fastio.Sync.Options
use fastio.Sync.Calls as Passed
use fastio.Write.{WriteSlices}
use fastio.Buffer.{Pool}
use fastio.Positioned.{Positioned}
use fastio.Sync.Whole

module _ (std : Std) where
  abbrev pub File : Type 0
  File = Options.File std

  abbrev pub OpenOptions : Type 0
  OpenOptions = Options.OpenOptions std

  abbrev pub new : OpenOptions
  new = Options.new std

  -- The six setters.
  abbrev pub set_option : Flag → Bool → OpenOptions → OpenOptions
  set_option f b o = Options.set_option std f b o

  unfoldable pub open_with : OpenOptions → std.FilePath → std.World → (Error ⊎ File) × std.World
  open_with = Options.open_with std

  unfoldable pub open_file : std.FilePath → std.World → (Error ⊎ File) × std.World
  open_file = Options.open_file std

  unfoldable pub create : std.FilePath → std.World → (Error ⊎ File) × std.World
  create = Options.create std

  unfoldable pub create_new : std.FilePath → std.World → (Error ⊎ File) × std.World
  create_new = Options.create_new std

  module _ (files : Files) where
    open files use {World}

    abbrev pub get_ref : File → ℕ
    get_ref file = Passed.get_ref std files file

    abbrev pub into_inner : File → ℕ
    into_inner file = Passed.into_inner std files file

    abbrev pub as_ref : File → ℕ
    as_ref file = Passed.as_ref std files file

    abbrev pub options : OpenOptions
    options = Passed.options std files

    abbrev pub default_options : OpenOptions
    default_options = Passed.default_options std files

    unfoldable pub try_clone : File → World → (Error ⊎ File) × World
    try_clone = Passed.try_clone std files

    unfoldable pub metadata : File → World → (Error ⊎ files.Metadata) × World
    metadata = Passed.metadata std files

    unfoldable pub set_len : File → ℕ → World → (Error ⊎ Unit {0}) × World
    set_len = Passed.set_len std files

    unfoldable pub sync_all : File → World → (Error ⊎ Unit {0}) × World
    sync_all = Passed.sync_all std files

    unfoldable pub sync_data : File → World → (Error ⊎ Unit {0}) × World
    sync_data = Passed.sync_data std files

    unfoldable pub set_permissions : File → files.Permissions → World → (Error ⊎ Unit {0}) × World
    set_permissions = Passed.set_permissions std files

    unfoldable pub read : File → ℕ → World → (Error ⊎ List ℕ) × World
    read = Passed.read std files

    unfoldable pub write : File → List ℕ → World → (Error ⊎ ℕ) × World
    write = Passed.write std files

    unfoldable pub flush : File → World → (Error ⊎ Unit {0}) × World
    flush = Passed.flush std files

    unfoldable pub seek : File → SeekFrom → World → (Error ⊎ ℕ) × World
    seek = Passed.seek std files

module _ (f : Positioned) where
  module _ (pool : Pool) where
    unfoldable pub read_all : Whole.Fetch f pool
    read_all = Whole.read_all f pool

    unfoldable pub read_at : ℕ → ℕ → Whole.Fetch f pool
    read_at = Whole.read_at f pool

  unfoldable pub read_exact_at : ℕ → ℕ → f.World → Result (List ℕ) × f.World
  read_exact_at = Passed.read_exact_at f

  unfoldable pub write_all_at : ℕ → List ℕ → f.World → Result (Unit {0}) × f.World
  write_all_at = Passed.write_all_at f

  unfoldable pub write_slices_at : WriteSlices → f.World → Result (Unit {0}) × f.World
  write_slices_at = Whole.write_slices_at f
