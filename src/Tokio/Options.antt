-- ===== src/Tokio/Options.antt =====
-- `OpenOptions` of src/tokio/mod.rs, which keeps the flags and sets them when it opens a file.
use fastio.Prelude.{ℕ, ◌⊎◌, inl, inr, Bool, true, false}
use fastio.Io.{Error}
use fastio.Open.{
  Std, Flag, read_flag, write_flag, append_flag, truncate_flag, create_flag, create_new_flag,
}

pub record OpenOptions : Type 0 where
  pub read : Bool
  pub write : Bool
  pub append : Bool
  pub truncate : Bool
  pub create : Bool
  pub create_new : Bool

-- The descriptor of `inner`.
pub record File : Type 0 where
  pub inner : ℕ

abbrev pub new : OpenOptions
new = record {
  read = false;
  write = false;
  append = false;
  truncate = false;
  create = false;
  create_new = false;
}

-- The six setters.
abbrev pub set_option : Flag → Bool → OpenOptions → OpenOptions
set_option read_flag b o = record o { read = b }
set_option write_flag b o = record o { write = b }
set_option append_flag b o = record o { append = b }
set_option truncate_flag b o = record o { truncate = b }
set_option create_flag b o = record o { create = b }
set_option create_new_flag b o = record o { create_new = b }

module _ (std : Std) where
  -- The options that `open` hands to `tokio::fs`.
  unfoldable pub configure : OpenOptions → std.Options
  configure o = std.set_flag create_new_flag o.create_new (
      std.set_flag create_flag o.create (
        std.set_flag truncate_flag o.truncate (
          std.set_flag append_flag o.append
            (std.set_flag write_flag o.write (std.set_flag read_flag o.read std.blank)))))

  abbrev pub file_of : (Error ⊎ ℕ) × std.World → (Error ⊎ File) × std.World
  file_of (inl e, w) = (inl e, w)
  file_of (inr fd, w) = (inr (record { inner = fd }), w)

  unfoldable pub open_with : OpenOptions → std.FilePath → std.World → (Error ⊎ File) × std.World
  unfolding configure
  open_with o path w = file_of (std.open_path (configure o) path w)

  unfoldable pub open_file : std.FilePath → std.World → (Error ⊎ File) × std.World
  unfolding open_with
  open_file = open_with (set_option read_flag true new)

  unfoldable pub create : std.FilePath → std.World → (Error ⊎ File) × std.World
  unfolding open_with
  create =
      open_with (
        set_option truncate_flag true
          (set_option create_flag true (set_option write_flag true new)))

  unfoldable pub create_new : std.FilePath → std.World → (Error ⊎ File) × std.World
  unfolding open_with
  create_new = open_with (set_option create_new_flag true (set_option write_flag true new))
