-- ===== src/Tokio/Batch.antt =====
-- `write_slices_at` of src/tokio/mod.rs as its caller sees it: the waves run in a task.
use fastio.Prelude.{ℕ, ◌≡◌, inl, inr, refl, true, false, List, Option}
use fastio.Io.{Error, Result, ok, err, panic, stuck}
use fastio.Write.{WriteSlice, WriteSlices, new}
use fastio.Sync.Whole.Store.{IsOutside}
use fastio.Tokio.Task.{Runtime, task_error}
use fastio.Tokio.Waves.{Disk, WritesSlices}
use fastio.Tokio.Waves.Scopes.{AllIn}
use fastio.Tokio.Waves.Outcome.{Written, all_in, error, panicking, WritesSlices-Written}

-- `.await.map_err(io::Error::other)?` on the result of the task.
abbrev pub unwound : Result (Unit {0}) → Result (Unit {0})
unwound (ok u) = ok u
unwound (err e) = err e
unwound panic = err task_error
unwound stuck = stuck

-- The file is cloned, and the runtime runs the waves in a task or drops it.
pub data WritesBatch (rt : Runtime Disk) (parallelism : Option ℕ) (slices : List WriteSlice)
    (d : Disk) : Result (Unit {0}) → Disk → Type 0 where
  not_cloned :
      (e : Error) → rt.clone_handle d ≡ inl e → WritesBatch rt parallelism slices d (err e) d
  dropped :
      rt.clone_handle d ≡ inr tt
      → rt.is_lost d ≡ true
      → WritesBatch rt parallelism slices d (err task_error) d
  ran :
      (res : Result (Unit {0})) (d' : Disk)
      → rt.clone_handle d ≡ inr tt
      → rt.is_lost d ≡ false
      → WritesSlices parallelism slices d res d'
      → WritesBatch rt parallelism slices d (unwound res) d'

-- Only the slices have changed; with `Ok` each is in the file. The caller gets no panic.
pub data Stores (slices : List WriteSlice) (d : Disk) : Result (Unit {0}) → Disk → Type 0 where
  all_stored :
      (d' : Disk)
      → AllIn d' slices
      → ((p : ℕ) → IsOutside slices p → d' p ≡ d p)
      → Stores slices d (ok tt) d'
  failed :
      (e : Error) (d' : Disk)
      → ((p : ℕ) → IsOutside slices p → d' p ≡ d p)
      → Stores slices d (err e) d'

Written-Stores :
    (slices : List WriteSlice) (d : Disk) (res : Result (Unit {0})) (d' : Disk)
    → Written slices d res d'
    → Stores slices d (unwound res) d'
Written-Stores slices d _ d' (all_in _ here far) = all_stored d' here far
Written-Stores slices d _ d' (error e _ far) = failed e d' far
Written-Stores slices d _ d' (panicking _ far) = failed task_error d' far

-- For a batch that `WriteSlices::new` made, any parallelism, any order of the threads, and a runtime
-- that may refuse or drop the task: what `write_slices_at` returns is `Ok` or an error, also after a
-- panic of a thread. Only bytes of the slices have changed, and with `Ok` every slice is in the file
-- at its offset.
pub WritesBatch-Stores :
    (rt : Runtime Disk) (parallelism : Option ℕ) (slices : List WriteSlice) (batch : WriteSlices)
    (d : Disk) (res : Result (Unit {0})) (d' : Disk)
    → new slices ≡ ok batch
    → WritesBatch rt parallelism slices d res d'
    → Stores slices d res d'
WritesBatch-Stores rt parallelism slices batch d _ _ made (not_cloned e h) =
    failed e d (λ p out. refl)
WritesBatch-Stores rt parallelism slices batch d _ _ made (dropped h k) =
    failed task_error d (λ p out. refl)
WritesBatch-Stores rt parallelism slices batch d _ _ made (ran res d' h k run) =
    Written-Stores slices d res d' (WritesSlices-Written parallelism slices batch d res d' made run)
