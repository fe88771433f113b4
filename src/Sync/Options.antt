-- ===== src/Sync/Options.antt =====
-- `OpenOptions` of src/sync/linux.rs, and the constructors of `File`.
use fastio.Prelude.{ℕ, ◌⊎◌, inl, inr, Bool, true}
use fastio.Io.{Error}
use fastio.Open.{Std, Flag, read_flag, write_flag, truncate_flag, create_flag, create_new_flag}

module _ (std : Std) where
  pub record OpenOptions : Type 0 where
    pub inner : std.Options

  -- The descriptor of `inner`.
  pub record File : Type 0 where
    pub inner : ℕ

  abbrev pub new : OpenOptions
  new = record { inner = std.blank }

  -- The six setters.
  abbrev pub set_option : Flag → Bool → OpenOptions → OpenOptions
  set_option f b o = record { inner = std.set_flag f b o.inner }

  abbrev pub file_of : (Error ⊎ ℕ) × std.World → (Error ⊎ File) × std.World
  file_of (inl e, w) = (inl e, w)
  file_of (inr fd, w) = (inr (record { inner = fd }), w)

  unfoldable pub open_with : OpenOptions → std.FilePath → std.World → (Error ⊎ File) × std.World
  open_with o path w = file_of (std.open_path o.inner path w)

  unfoldable pub open_file : std.FilePath → std.World → (Error ⊎ File) × std.World
  unfolding open_with
  open_file = open_with (set_option read_flag true new)

  unfoldable pub create : std.FilePath → std.World → (Error ⊎ File) × std.World
  unfolding open_with
  create =
      open_with (
        set_option truncate_flag true
          (set_option create_flag true (set_option write_flag true new)))

  unfoldable pub create_new : std.FilePath → std.World → (Error ⊎ File) × std.World
  unfolding open_with
  create_new = open_with (set_option create_new_flag true (set_option write_flag true new))
