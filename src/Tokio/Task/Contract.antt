-- ===== src/Tokio/Task/Contract.antt =====
-- The tasks of Tokio keep the contract of the blocking calls that they run (src/tokio/mod.rs).
use fastio.Prelude.{ℕ, ◌⊎◌, inl, inr, refl, ◌==◌, ==→≡, Bool-cases, List, [], length, sym, arith}
use fastio.Io.{Error, Result, err}
use fastio.Buffer.{Pool, PoolLaws, Bytes}
use fastio.Positioned.{
  Positioned, Laws, Reads, Writes, read_all as read_whole, read_failed, wrote_all, write_failed,
}
use fastio.Sync.Whole
use fastio.Sync.Whole.Fetch.{Fetched, fetched, failed, read_at-Fetched, read_all-Fetched}
use fastio.Tokio.Task.{
  Runtime, task_error, awaited, in_task, State, pack, fetch, fetch_all, read_at, read_all_task,
  read_exact_at, write_all_at, positioned,
}

module _ (f : Positioned) (laws : Laws f) (rt : Runtime f.World) where
  open laws use {byte_at}

  -- A property of results that holds of errors which leave the state, and of what the task returns.
  in_task-rule {ℓ} :
      {A : Type ℓ} {S : Type 0} (P : Result A × S → Type 0) (view : S → f.World)
      (task : S → Result A × S) (c : Error ⊎ Unit {0}) (s : S)
      → ((e : Error) → P (err e, s))
      → P (awaited (task s))
      → P (in_task f rt view task c s)
  in_task-rule P view task (inl e) s refused runs = refused e
  in_task-rule P view task (inr u) s refused runs = elim (Bool-cases (rt.is_lost (view s))) [
    | inl lost ↦ rw (lost, in_task) (refused task_error)
    | inr kept ↦ rw (kept, in_task) runs
  ]

  awaited-Reads :
      (w : f.World) (offset len : ℕ) (res : Result (List ℕ) × f.World)
      → Reads byte_at w offset len res
      → Reads byte_at w offset len (awaited res)
  awaited-Reads w offset len _ (read_whole bytes w' full good same) =
      read_whole bytes w' full good same
  awaited-Reads w offset len _ (read_failed e w' same) = read_failed e w' same

  awaited-Writes :
      (w : f.World) (offset : ℕ) (bytes : List ℕ) (res : Result (Unit {0}) × f.World)
      → Writes byte_at w offset bytes res
      → Writes byte_at w offset bytes (awaited res)
  awaited-Writes w offset bytes _ (wrote_all w' good far) = wrote_all w' good far
  awaited-Writes w offset bytes _ (write_failed e w' far) = write_failed e w' far

  pub read_exact_at-Reads :
      (w : f.World) (offset len : ℕ) → Reads byte_at w offset len (read_exact_at f rt offset len w)
  unfolding read_exact_at
  read_exact_at-Reads w offset len = elim (Bool-cases (len == 0)) [
    | inl e ↦ rw e (read_whole [] w (sym (==→≡ len 0 e)) (λ k lt. elim lt [ ]) (λ p. refl))
    | inr e ↦ rw e (
        in_task-rule (Reads byte_at w offset len) (λ v. v) (f.read_exact_at offset len)
          (rt.clone_handle w) w (λ x. read_failed x w (λ p. refl))
          (awaited-Reads w offset len _ (laws.read_law w offset len)))
  ]

  pub write_all_at-Writes :
      (w : f.World) (offset : ℕ) (bytes : List ℕ)
      → Writes byte_at w offset bytes (write_all_at f rt offset bytes w)
  unfolding write_all_at
  write_all_at-Writes w offset bytes = elim (Bool-cases (length bytes == 0)) [
    | inl e ↦
        rw e (
          wrote_all w (λ k lt. absurd (omega (arith, lt, ==→≡ (length bytes) 0 e))) (λ p out. refl))
    | inr e ↦ rw e (
        in_task-rule (Writes byte_at w offset bytes) (λ v. v) (f.write_all_at offset bytes)
          (rt.clone_handle w) w (λ x. write_failed x w (λ p out. refl))
          (awaited-Writes w offset bytes _ (laws.write_law w offset bytes)))
  ]

  -- On a file that keeps its promises, `read_exact_at` and `write_all_at` of the Tokio backend keep
  -- the same promises, whether the runtime runs, drops or refuses the task: a read gives the bytes
  -- of the range or fails, and changes nothing; a write puts its bytes in the range or fails, and
  -- changes nothing else.
  pub positioned-Contract :
      (w : f.World) (offset len : ℕ) (bytes : List ℕ)
      → Reads byte_at w offset len ((positioned f rt).read_exact_at offset len w)
        × Writes byte_at w offset bytes ((positioned f rt).write_all_at offset bytes w)
  positioned-Contract w offset len bytes =
      (read_exact_at-Reads w offset len, write_all_at-Writes w offset bytes)

  module _ (pool : Pool) (pool_laws : PoolLaws pool) (v : State f rt pool) where
    -- What `Fetched` says, of a result with the packed state.
    abbrev pub IsFetched : ℕ → ℕ → Result (Bytes pool) × State f rt pool → Type 0
    IsFetched offset len (res, u) =
        Fetched f laws pool pool_laws offset len v.file (res, u.free, u.file)

    awaited-Fetched :
        (offset len : ℕ) (res : Result (Bytes pool) × pool.Store × f.World)
        → Fetched f laws pool pool_laws offset len v.file res
        → IsFetched offset len (awaited (pack f rt pool res))
    awaited-Fetched offset len _ (fetched b bytes s' w' view full good same) =
        fetched b bytes s' w' view full good same
    awaited-Fetched offset len _ (failed e s' w' same) = failed e s' w' same

    -- On a file and a pool that keep their promises, `read_at` of the Tokio backend returns a buffer
    -- with the `len` bytes from `offset` on, and `read_all` one with all bytes of the file, or an
    -- error, whether the runtime runs, drops or refuses the task; the file is as before.
    pub tasks-Fetched :
        (offset len : ℕ)
        → IsFetched offset len (read_at f rt pool offset len v)
          × IsFetched 0 (laws.size v.file) (read_all_task f rt pool v)
    unfolding read_at read_all_task Whole.read_at
    tasks-Fetched offset len = (
      in_task-rule (IsFetched offset len) (λ u. u.file) (fetch f rt pool offset len)
          (rt.clone_handle v.file) v (λ x. failed x v.free v.file (λ p. refl))
          (awaited-Fetched offset len _
            (read_at-Fetched f laws pool pool_laws offset len v.free v.file)),
      in_task-rule (IsFetched 0 (laws.size v.file)) (λ u. u.file) (fetch_all f rt pool)
          (rt.clone_handle v.file) v (λ x. failed x v.free v.file (λ p. refl))
          (awaited-Fetched 0 (laws.size v.file) _
            (read_all-Fetched f laws pool pool_laws v.free v.file)),
    )
