-- ===== src/Uring/Options.antt =====
-- `OpenOptions` of src/uring.rs, and the constructors of `File`.
pub mod Build
use fastio.Prelude.{ℕ, ◌*◌, ◌==◌, ◌⊎◌, inl, inr, Bool, true, false, if◌then◌else◌, List, [], ◌∷◌}
use fastio.Io.{
  Error, invalid_input, unsupported, ring_depth_zero, chunk_size_zero, append_unsupported,
}
use fastio.Open.{
  Std, Flag, read_flag, write_flag, append_flag, truncate_flag, create_flag, create_new_flag,
}
use fastio.Uring.Cache.{File}
use fastio.Uring.Cursor.{Position}

abbrev pub default_ring_depth : ℕ
default_ring_depth = 256

abbrev pub default_chunk_size : ℕ
default_chunk_size = 4 * 1024 * 1024

abbrev pub depth_error : Error
depth_error = record { kind = invalid_input; message = ring_depth_zero }

abbrev pub chunk_error : Error
chunk_error = record { kind = invalid_input; message = chunk_size_zero }

abbrev pub append_error : Error
append_error = record { kind = unsupported; message = append_unsupported }

-- A handle: its descriptor and settings, and the cell of its position in the store of positions.
pub record Handle : Type 0 where
  pub file : File
  pub position : ℕ

-- `Arc::new(Mutex::new(0))`.
abbrev pub new_position : Position
new_position = record { poisoned = false; at = 0 }

-- `try_clone`: `clone_fd` is what the operating system answers.
abbrev pub try_clone : Handle → Error ⊎ ℕ → Error ⊎ Handle
try_clone h (inl e) = inl e
try_clone h (inr fd) = inr (record h { file = record h.file { fd = fd } })

module _ (std : Std) where
  pub record OpenOptions : Type 0 where
    pub inner : std.Options
    pub ring_depth : ℕ
    pub chunk_size : ℕ
    pub append : Bool

  abbrev pub new : OpenOptions
  new = record {
    inner = std.blank;
    ring_depth = default_ring_depth;
    chunk_size = default_chunk_size;
    append = false;
  }

  abbrev pub set_inner : Flag → Bool → OpenOptions → OpenOptions
  set_inner f b o = record o { inner = std.set_flag f b o.inner }

  -- The six setters of flags; the one of append mode also keeps the flag.
  abbrev pub set_option : Flag → Bool → OpenOptions → OpenOptions
  set_option read_flag b o = set_inner read_flag b o
  set_option write_flag b o = set_inner write_flag b o
  set_option append_flag b o = record (set_inner append_flag b o) { append = b }
  set_option truncate_flag b o = set_inner truncate_flag b o
  set_option create_flag b o = set_inner create_flag b o
  set_option create_new_flag b o = set_inner create_new_flag b o

  abbrev pub set_ring_depth : ℕ → OpenOptions → OpenOptions
  set_ring_depth n o = record o { ring_depth = n }

  abbrev pub set_chunk_size : ℕ → OpenOptions → OpenOptions
  set_chunk_size n o = record o { chunk_size = n }

  -- The handle for the descriptor; `cell` is the new cell of its position, which comes with it.
  abbrev pub handle_of :
      OpenOptions → ℕ → (Error ⊎ ℕ) × std.World → (Error ⊎ (Handle × Position)) × std.World
  handle_of o cell (inl e, w) = (inl e, w)
  handle_of o cell (inr fd, w) = (
    inr (
      record {
        file = record { fd = fd; ring_depth = o.ring_depth; chunk_size = o.chunk_size };
        position = cell;
      },
      new_position,
    ),
    w,
  )

  unfoldable pub open_with :
      OpenOptions → ℕ → std.FilePath → std.World → (Error ⊎ (Handle × Position)) × std.World
  open_with o cell path w =
      if o.ring_depth == 0
      then (inl depth_error, w)
      else if o.chunk_size == 0
      then (inl chunk_error, w)
      else if o.append
      then (inl append_error, w)
      else handle_of o cell (std.open_path o.inner path w)

  unfoldable pub open_file :
      ℕ → std.FilePath → std.World → (Error ⊎ (Handle × Position)) × std.World
  unfolding open_with
  open_file = open_with (set_option read_flag true new)

  unfoldable pub create : ℕ → std.FilePath → std.World → (Error ⊎ (Handle × Position)) × std.World
  unfolding open_with
  create =
      open_with (
        set_option truncate_flag true
          (set_option create_flag true (set_option write_flag true new)))

  unfoldable pub create_new :
      ℕ → std.FilePath → std.World → (Error ⊎ (Handle × Position)) × std.World
  unfolding open_with
  create_new = open_with (set_option create_new_flag true (set_option write_flag true new))
