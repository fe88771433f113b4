-- ===== src/StdFile.antt =====
-- What the crate uses of `std::fs::File` and of `tokio::fs::File`, which have the same calls (they
-- are not part of the repository), besides the positioned ones: a file is its descriptor.
use fastio.Prelude.{ℕ, ◌⊎◌, inl, inr, List}
use fastio.Prelude.Int.{ℤ}
use fastio.Io.{Error}

-- `SeekFrom`.
pub data SeekFrom : Type 0 where
  start : ℕ → SeekFrom
  current from_end : ℤ → SeekFrom

-- `read` gives the bytes that it puts into a buffer of the given size, and `write` the number of
-- bytes that it takes. `open_path` opens a file for reading.
pub record Files : Type 1 where
  pub World : Type 0
  pub FilePath : Type 0
  pub Metadata : Type 0
  pub Permissions : Type 0
  pub open_path : FilePath → World → (Error ⊎ ℕ) × World
  pub try_clone : ℕ → World → (Error ⊎ ℕ) × World
  pub metadata : ℕ → World → (Error ⊎ Metadata) × World
  pub set_len : ℕ → ℕ → World → (Error ⊎ Unit {0}) × World
  pub sync_all : ℕ → World → (Error ⊎ Unit {0}) × World
  pub sync_data : ℕ → World → (Error ⊎ Unit {0}) × World
  pub set_permissions : ℕ → Permissions → World → (Error ⊎ Unit {0}) × World
  pub read : ℕ → ℕ → World → (Error ⊎ List ℕ) × World
  pub write : ℕ → List ℕ → World → (Error ⊎ ℕ) × World
  pub flush : ℕ → World → (Error ⊎ Unit {0}) × World
  pub seek : ℕ → SeekFrom → World → (Error ⊎ ℕ) × World

-- `Ok(Self { inner: answer? })`.
abbrev pub wrapped {ℓ κ} : {A : Type ℓ} {W : Type κ} → (ℕ → A) → (Error ⊎ ℕ) × W → (Error ⊎ A) × W
wrapped make (inl e, w) = (inl e, w)
wrapped make (inr fd, w) = (inr (make fd), w)
