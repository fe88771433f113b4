-- ===== src/Tokio/Windows/Shared.antt =====
-- The waves of `write_slices_at` of src/tokio/mod.rs on Windows. The threads of a wave share one
-- handle, so one cursor: each saves it, moves it with its writes and puts back what it saved.
pub mod Erased
pub mod Alone
pub mod Lost
pub mod Bounded
pub mod Possible
pub mod Known
pub mod Spoiled
use fastio.Prelude.{
  inl, inr, true, false, ℕ, ◌+◌, ◌≤◌, ◌<◌, ◌≡◌, ◌≢◌, List, [], ◌∷◌, Option, length, take, drop, map,
  All,
}
use fastio.Io.{Error, Result, ok, err, panic, u64_max}
use fastio.Write.{WriteSlice}
use fastio.Sync.Windows.{write_overflow, no_byte_written}
use fastio.Tokio.Task.{Runtime, task_error}
use fastio.Tokio.Batch.{unwound}
use fastio.Tokio.Waves.{
  Disk, Worker, writing, Thread, stored, join_all, IsEnded, chunks, worker_count,
}
use fastio.Tokio.Waves

-- The file, and the cursor of the handle that the threads share.
pub record SharedFile : Type 0 where
  pub disk : Disk
  pub position : ℕ

-- Where a thread is in `write_at_positioned`: before `stream_position`; in the loop of
-- `seek_write_exact`, with the saved position, the next offset and the bytes left; after the loop,
-- which returned `Ok` or an error; or at its end.
pub data Phase : Type 0 where
  arriving : ℕ → List ℕ → Phase
  moving : ℕ → ℕ → List ℕ → Phase
  moved : ℕ → ℕ → Phase
  broken : ℕ → ℕ → List ℕ → Error → Phase
  finished : Phase
  failed : Error → Phase
  panicked : Phase

pub record CursorThread : Type 0 where
  pub slice : WriteSlice
  pub phase : Phase

-- `scope.spawn` for each slice.
abbrev pub arrive : WriteSlice → CursorThread
arrive s = record { slice = s; phase = arriving s.offset s.bytes }

-- What one step of `write_at_positioned` does: `stream_position`, one round of the loop, the end of
-- the loop, or the seek back. `seek_write` leaves the cursor behind the bytes that it wrote; a call
-- that fails may leave it anywhere. An error of the loop comes before that of the seek back.
pub data Step (h : SharedFile) : Phase → SharedFile → Phase → Type 0 where
  save : (o : ℕ) (bytes : List ℕ) → Step h (arriving o bytes) h (moving h.position o bytes)
  save_fault : (o : ℕ) (bytes : List ℕ) (e : Error) → Step h (arriving o bytes) h (failed e)
  transfer :
      (saved o n : ℕ) (rest : List ℕ)
      → 0 < n
      → n ≤ length rest
      → o ≤ u64_max
      → Step h
          (moving saved o rest)
          (record { disk = stored h.disk o (take n rest); position = o + n })
          (moving saved (o + n) (drop n rest))
  overflow :
      (saved o : ℕ) (rest : List ℕ)
      → 0 < length rest
      → u64_max < o
      → Step h (moving saved o rest) h (broken saved o rest write_overflow)
  no_byte :
      (saved o p : ℕ) (rest : List ℕ)
      → 0 < length rest
      → Step h
          (moving saved o rest)
          (record { disk = h.disk; position = p })
          (broken saved o rest no_byte_written)
  fault :
      (saved o p : ℕ) (rest : List ℕ) (e : Error)
      → 0 < length rest
      → Step h
          (moving saved o rest)
          (record { disk = h.disk; position = p })
          (broken saved o rest e)
  complete : (saved o : ℕ) → Step h (moving saved o []) h (moved saved o)
  restore :
      (saved o : ℕ) → Step h (moved saved o) (record { disk = h.disk; position = saved }) finished
  restore_fault :
      (saved o p : ℕ) (e : Error)
      → Step h (moved saved o) (record { disk = h.disk; position = p }) (failed e)
  restore_broken :
      (saved o : ℕ) (rest : List ℕ) (e : Error)
      → Step h (broken saved o rest e) (record { disk = h.disk; position = saved }) (failed e)
  restore_lost :
      (saved o p : ℕ) (rest : List ℕ) (e : Error)
      → Step h (broken saved o rest e) (record { disk = h.disk; position = p }) (failed e)
  crash : (saved o : ℕ) (rest : List ℕ) → Step h (moving saved o rest) h panicked

-- One thread makes a step, whichever the scheduler picks.
pub data Round (h : SharedFile) : List CursorThread → SharedFile → List CursorThread → Type 0 where
  here :
      (s : WriteSlice) (ph : Phase) (h' : SharedFile) (ph' : Phase) (ts : List CursorThread)
      → Step h ph h' ph'
      → Round h (record { slice = s; phase = ph } ∷ ts) h' (record { slice = s; phase = ph' } ∷ ts)
  there :
      (t : CursorThread) (ts : List CursorThread) (h' : SharedFile) (ts' : List CursorThread)
      → Round h ts h' ts'
      → Round h (t ∷ ts) h' (t ∷ ts')

pub data Rounds : SharedFile → List CursorThread → SharedFile → List CursorThread → Type 0 where
  stop : (h : SharedFile) (ts : List CursorThread) → Rounds h ts h ts
  round :
      (h : SharedFile) (ts : List CursorThread) (h' : SharedFile) (ts' : List CursorThread)
      (h'' : SharedFile) (ts'' : List CursorThread)
      → Round h ts h' ts'
      → Rounds h' ts' h'' ts''
      → Rounds h ts h'' ts''

-- What is left to do of a thread, without the cursor.
abbrev pub worker_of : Phase → Worker
worker_of (arriving o bytes) = writing o bytes
worker_of (moving saved o rest) = writing o rest
worker_of (moved saved o) = writing o []
worker_of (broken saved o rest e) = writing o rest
worker_of finished = Waves.finished
worker_of (failed e) = Waves.failed e
worker_of panicked = Waves.panicked

abbrev pub seen : CursorThread → Thread
seen t = record { slice = t.slice; worker = worker_of t.phase }

-- The waves one after the other, up to the first that does not succeed; what is joined of a thread
-- is how it ended.
pub data CursorWaves
    : List (List WriteSlice) → SharedFile → Result (Unit {0}) → SharedFile → Type 0 where
  no_more : (h : SharedFile) → CursorWaves [] h (ok tt) h
  next_wave :
      (wave : List WriteSlice) (waves : List (List WriteSlice)) (h h' h'' : SharedFile)
      (ts : List CursorThread) (res : Result (Unit {0}))
      → Rounds h (map arrive wave) h' ts
      → All IsEnded (map seen ts)
      → join_all (map seen ts) ≡ ok tt
      → CursorWaves waves h' res h''
      → CursorWaves (wave ∷ waves) h res h''
  last_wave :
      (wave : List WriteSlice) (waves : List (List WriteSlice)) (h h' : SharedFile)
      (ts : List CursorThread) (e : Error)
      → Rounds h (map arrive wave) h' ts
      → All IsEnded (map seen ts)
      → join_all (map seen ts) ≡ err e
      → CursorWaves (wave ∷ waves) h (err e) h'
  panic_wave :
      (wave : List WriteSlice) (waves : List (List WriteSlice)) (h h' : SharedFile)
      (ts : List CursorThread)
      → Rounds h (map arrive wave) h' ts
      → All IsEnded (map seen ts)
      → join_all (map seen ts) ≡ panic
      → CursorWaves (wave ∷ waves) h panic h'
  spawn_panic :
      (k : ℕ) (wave : List WriteSlice) (waves : List (List WriteSlice)) (h h' : SharedFile)
      (ts : List CursorThread)
      → k < length wave
      → Rounds h (map arrive (take k wave)) h' ts
      → All IsEnded (map seen ts)
      → CursorWaves (wave ∷ waves) h panic h'

-- The task of `write_slices_at`, which returns at once for an empty batch.
pub data CursorSlices (parallelism : Option ℕ) (slices : List WriteSlice) (h : SharedFile)
    : Result (Unit {0}) → SharedFile → Type 0 where
  nothing : slices ≡ [] → CursorSlices parallelism slices h (ok tt) h
  in_waves :
      (res : Result (Unit {0})) (h' : SharedFile)
      → CursorWaves (chunks (worker_count parallelism (length slices)) slices) h res h'
      → CursorSlices parallelism slices h res h'

-- The file is cloned, and the runtime runs the waves in a task or drops it.
pub data CursorBatch (rt : Runtime Disk) (parallelism : Option ℕ) (slices : List WriteSlice)
    (h : SharedFile) : Result (Unit {0}) → SharedFile → Type 0 where
  not_cloned :
      (e : Error) → rt.clone_handle h.disk ≡ inl e → CursorBatch rt parallelism slices h (err e) h
  dropped :
      rt.clone_handle h.disk ≡ inr tt
      → rt.is_lost h.disk ≡ true
      → CursorBatch rt parallelism slices h (err task_error) h
  ran :
      (res : Result (Unit {0})) (h' : SharedFile)
      → rt.clone_handle h.disk ≡ inr tt
      → rt.is_lost h.disk ≡ false
      → CursorSlices parallelism slices h res h'
      → CursorBatch rt parallelism slices h (unwound res) h'
