-- ===== src/Tokio/Task.antt =====
-- The other positioned operations of src/tokio/mod.rs: the file is cloned, and the blocking call runs
-- in a task of `spawn_blocking`.
pub mod Contract
use fastio.Prelude.{ℕ, ◌==◌, ◌⊎◌, inl, inr, Bool, if◌then◌else◌, List, [], length}
use fastio.Io.{Error, other, task_failed, Result, ok, err, panic, stuck}
use fastio.Buffer.{Pool, Bytes, allocate}
use fastio.Positioned.{Positioned}
use fastio.Sync.Whole.{fill_at, read_all}

-- What the backend uses of Tokio: `clone_handle` is `try_clone` and `into_std`, and `is_lost` says that
-- the runtime drops the task instead of running it.
pub record Runtime (World : Type 0) : Type 0 where
  pub clone_handle : World → Error ⊎ Unit {0}
  pub is_lost : World → Bool

abbrev pub task_error : Error
task_error = record { kind = other; message = task_failed }

-- `.await.map_err(io::Error::other)?`: a panic of the task is an error of its caller.
abbrev pub awaited {ℓ κ} : {A : Type ℓ} {S : Type κ} → Result A × S → Result A × S
awaited (ok a, s) = (ok a, s)
awaited (err e, s) = (err e, s)
awaited (panic, s) = (err task_error, s)
awaited (stuck, s) = (stuck, s)

module _ (f : Positioned) (rt : Runtime f.World) where
  -- `spawn_blocking(..).await`, after the file is cloned. `view` finds the world in the state.
  abbrev pub in_task {ℓ} :
      {A : Type ℓ} {S : Type 0}
      → (S → f.World)
      → (S → Result A × S)
      → Error ⊎ Unit {0}
      → S
      → Result A × S
  in_task view task (inl e) s = (err e, s)
  in_task view task (inr u) s =
      if rt.is_lost (view s) then (err task_error, s) else awaited (task s)

  module _ (pool : Pool) where
    -- The free buffers and the file.
    pub record State : Type 0 where
      pub free : pool.Store
      pub file : f.World

    abbrev pub pack : Result (Bytes pool) × pool.Store × f.World → Result (Bytes pool) × State
    pack (res, s, w) = (res, record { free = s; file = w })

    -- `Bytes::allocate` with `read_at_positioned`.
    abbrev pub fetch : ℕ → ℕ → State → Result (Bytes pool) × State
    fetch offset len v = pack (allocate pool len (fill_at f pool offset) v.free v.file)

    abbrev pub fetch_all : State → Result (Bytes pool) × State
    fetch_all v = pack (read_all f pool v.free v.file)

    unfoldable pub read_all_task : State → Result (Bytes pool) × State
    read_all_task v = in_task (λ u. u.file) fetch_all (rt.clone_handle v.file) v

    unfoldable pub read_at : ℕ → ℕ → State → Result (Bytes pool) × State
    read_at offset len v = in_task (λ u. u.file) (fetch offset len) (rt.clone_handle v.file) v

  -- The bytes that are copied into the caller's buffer of `len` bytes.
  unfoldable pub read_exact_at : ℕ → ℕ → f.World → Result (List ℕ) × f.World
  read_exact_at offset len w =
      if len == 0
      then (ok [], w)
      else in_task (λ v. v) (f.read_exact_at offset len) (rt.clone_handle w) w

  unfoldable pub write_all_at : ℕ → List ℕ → f.World → Result (Unit {0}) × f.World
  write_all_at offset buf w =
      if length buf == 0
      then (ok tt, w)
      else in_task (λ v. v) (f.write_all_at offset buf) (rt.clone_handle w) w

  -- The operations as a positioned file again.
  abbrev pub positioned : Positioned
  positioned = record {
    World = f.World;
    metadata_len = f.metadata_len;
    read_exact_at = read_exact_at;
    write_all_at = write_all_at;
  }
