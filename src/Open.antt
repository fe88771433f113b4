-- ===== src/Open.antt =====
-- What the crate uses of `std::fs::OpenOptions` and of `tokio::fs::OpenOptions`, which have the same
-- setters (they are not part of the repository), and chains of setter calls on a builder.
mod Tests
use fastio.Prelude.{ℕ, ◌≡◌, ◌≢◌, ◌⊎◌, Bool, true, false, List, [], ◌∷◌}
use fastio.Io.{Error}

-- The six setters.
pub data Flag : Type 0 where
  read_flag write_flag append_flag truncate_flag create_flag create_new_flag : Flag

-- `open_path` gives a descriptor, or an error.
pub record Std : Type 1 where
  pub Options : Type 0
  pub FilePath : Type 0
  pub World : Type 0
  pub blank : Options
  pub set_flag : Flag → Bool → Options → Options
  pub open_path : Options → FilePath → World → (Error ⊎ ℕ) × World

-- The last call of a setter counts, the order of different setters does not, and all flags are
-- false at first.
pub record Laws (std : Std) : Type 1 where
  pub set_again :
      (f : Flag) (a b : Bool) (o : std.Options)
      → std.set_flag f a (std.set_flag f b o) ≡ std.set_flag f a o
  pub set_apart :
      (f g : Flag) (a b : Bool) (o : std.Options)
      → f ≢ g
      → std.set_flag f a (std.set_flag g b o) ≡ std.set_flag g b (std.set_flag f a o)
  pub set_blank : (f : Flag) → std.set_flag f false std.blank ≡ std.blank

-- A chain of setter calls, the first call first.
abbrev pub chain {ℓ} : {O : Type ℓ} → (Flag → Bool → O → O) → List (Flag × Bool) → O → O
chain set_one [] o = o
chain set_one (c ∷ cs) o = chain set_one cs (set_one c.0 c.1 o)
