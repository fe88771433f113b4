-- ===== src/Tokio/Same.antt =====
-- The options of src/tokio/mod.rs against those of src/sync/linux.rs.
use fastio.Prelude.{ℕ, ◌≡◌, ◌≢◌, ◌⊎◌, inl, inr, refl, ◌∙◌, ap, sym, Bool, false, List, [], ◌∷◌}
use fastio.Io.{Error}
use fastio.Open.{
  Std, Laws, Flag, read_flag, write_flag, append_flag, truncate_flag, create_flag, create_new_flag,
  chain,
}
use fastio.Tokio.Options
use fastio.Sync.Options as SyncOptions

module _ (std : Std) where
  -- The descriptor, or the error, of either backend.
  abbrev pub tokio_fd : (Error ⊎ Options.File) × std.World → (Error ⊎ ℕ) × std.World
  tokio_fd (inl e, w) = (inl e, w)
  tokio_fd (inr f, w) = (inr f.inner, w)

  abbrev pub sync_fd : (Error ⊎ SyncOptions.File std) × std.World → (Error ⊎ ℕ) × std.World
  sync_fd (inl e, w) = (inl e, w)
  sync_fd (inr f, w) = (inr f.inner, w)

module _ (std : Std) (laws : Laws std) where
  past :
      (f g : Flag) (b a : Bool) {o o' : std.Options}
      → f ≢ g
      → std.set_flag f b o ≡ o'
      → std.set_flag f b (std.set_flag g a o) ≡ std.set_flag g a o'
  past f g b a {o} apart e = laws.set_apart f g b a o apart ∙ ap (std.set_flag g a) e

  -- A setter before `open` is that setter on what `open` hands over.
  configure-set_option :
      (f : Flag) (b : Bool) (o : Options.OpenOptions)
      → std.set_flag f b (Options.configure std o)
        ≡ Options.configure std (Options.set_option f b o)
  unfolding Options.configure
  configure-set_option read_flag b o =
      past read_flag create_new_flag b o.create_new (λ h. cc)
        (past read_flag create_flag b o.create (λ h. cc)
          (past read_flag truncate_flag b o.truncate (λ h. cc)
            (past read_flag append_flag b o.append (λ h. cc)
              (past read_flag write_flag b o.write (λ h. cc)
                (laws.set_again read_flag b o.read _)))))
  configure-set_option write_flag b o =
      past write_flag create_new_flag b o.create_new (λ h. cc)
        (past write_flag create_flag b o.create (λ h. cc)
          (past write_flag truncate_flag b o.truncate (λ h. cc)
            (past write_flag append_flag b o.append (λ h. cc)
              (laws.set_again write_flag b o.write _))))
  configure-set_option append_flag b o =
      past append_flag create_new_flag b o.create_new (λ h. cc)
        (past append_flag create_flag b o.create (λ h. cc)
          (past append_flag truncate_flag b o.truncate (λ h. cc)
            (laws.set_again append_flag b o.append _)))
  configure-set_option truncate_flag b o =
      past truncate_flag create_new_flag b o.create_new (λ h. cc)
        (past truncate_flag create_flag b o.create (λ h. cc)
          (laws.set_again truncate_flag b o.truncate _))
  configure-set_option create_flag b o =
      past create_flag create_new_flag b o.create_new (λ h. cc)
        (laws.set_again create_flag b o.create _)
  configure-set_option create_new_flag b o = laws.set_again create_new_flag b o.create_new _

  over_blank : (f : Flag) {o : std.Options} → o ≡ std.blank → std.set_flag f false o ≡ std.blank
  over_blank f e = ap (std.set_flag f false) e ∙ laws.set_blank f

  configure-new : Options.configure std Options.new ≡ std.blank
  unfolding Options.configure
  configure-new = over_blank create_new_flag (
      over_blank create_flag (
        over_blank truncate_flag
          (over_blank append_flag (over_blank write_flag (over_blank read_flag refl)))))

  configure-chain :
      (cs : List (Flag × Bool)) (o : Options.OpenOptions) (s : SyncOptions.OpenOptions std)
      → Options.configure std o ≡ s.inner
      → Options.configure std (chain Options.set_option cs o)
        ≡ (chain (SyncOptions.set_option std) cs s).inner
  configure-chain [] o s e = e
  configure-chain (c ∷ cs) o s e =
      configure-chain cs (Options.set_option c.0 c.1 o) (SyncOptions.set_option std c.0 c.1 s)
        (sym (configure-set_option c.0 c.1 o) ∙ ap (std.set_flag c.0 c.1) e)

  tokio_fd-file_of : (res : (Error ⊎ ℕ) × std.World) → tokio_fd std (Options.file_of std res) ≡ res
  tokio_fd-file_of (inl e, w) = refl
  tokio_fd-file_of (inr fd, w) = refl

  sync_fd-file_of :
      (res : (Error ⊎ ℕ) × std.World) → sync_fd std (SyncOptions.file_of std res) ≡ res
  sync_fd-file_of (inl e, w) = refl
  sync_fd-file_of (inr fd, w) = refl

  -- For builders with the documented setters: after any chain of setters on new options, the Tokio
  -- backend opens the same file, or fails with the same error, as the blocking one.
  pub open_with-chain :
      (cs : List (Flag × Bool)) (path : std.FilePath) (w : std.World)
      → tokio_fd std (Options.open_with std (chain Options.set_option cs Options.new) path w)
        ≡ sync_fd std (
            SyncOptions.open_with std
              (chain (SyncOptions.set_option std) cs (SyncOptions.new std))
              path
              w)
  unfolding Options.open_with SyncOptions.open_with
  open_with-chain cs path w =
      tokio_fd-file_of _
      ∙ ap (λ o. std.open_path o path w)
          (configure-chain cs Options.new (SyncOptions.new std) configure-new)
      ∙ sym (sync_fd-file_of _)
