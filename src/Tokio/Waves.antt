-- ===== src/Tokio/Waves.antt =====
-- `write_slices_at` of src/tokio/mod.rs: the slices in waves, a thread to each slice of a wave, and
-- the threads of a wave in any order.
pub mod Chunks
pub mod Threads
pub mod Scopes
pub mod Bound
pub mod Outcome
use fastio.Prelude.{
  ℕ, zero, suc, ◌+◌, ◌-◌, ◌≤◌, ◌<◌, ◌≡◌, leb, ltb, min, max, Bool, true, false, ◌&&◌, ◌||◌,
  if◌then◌else◌, List, [], ◌∷◌, Option, none, some, length, get_or, take, drop, map, All,
}
use fastio.Io.{Error, other, worker_panicked, Result, ok, err, panic, stuck}
use fastio.Write.{WriteSlice}

-- The number of threads of a wave: `available_parallelism` may be unknown.
unfoldable pub worker_count : Option ℕ → ℕ → ℕ
worker_count parallelism slices = max (min (elim parallelism [ none ↦ 1 | some n ↦ n ]) slices) 1

-- `slice::chunks`, with as many rounds as there are elements.
pub chunk_from {ℓ} : {A : Type ℓ} → ℕ → ℕ → List A → List (List A)
chunk_from zero n xs = []
chunk_from (suc fuel) n [] = []
chunk_from (suc fuel) n (x ∷ xs) = take n (x ∷ xs) ∷ chunk_from fuel n (drop n (x ∷ xs))

unfoldable pub chunks {ℓ} : {A : Type ℓ} → ℕ → List A → List (List A)
unfolding chunk_from
chunks n xs = chunk_from (length xs) n xs

-- The bytes of the file.
abbrev pub Disk : Type 0
Disk = ℕ → ℕ

abbrev pub stored : Disk → ℕ → List ℕ → Disk
stored d o bytes p = if leb o p && ltb p (o + length bytes) then get_or bytes (p - o) 0 else d p

-- A thread in `write_at_positioned`, with the bytes that are left for `write_all_at`; or how it
-- ended.
pub data Worker : Type 0 where
  writing : ℕ → List ℕ → Worker
  finished : Worker
  failed : Error → Worker
  panicked : Worker

pub record Thread : Type 0 where
  pub slice : WriteSlice
  pub worker : Worker

-- `scope.spawn` for each slice.
abbrev pub spawn : WriteSlice → Thread
spawn s = record { slice = s; worker = writing s.offset s.bytes }

-- What `write_all_at` does in one step: the operating system takes some bytes, or an interrupted call
-- is made again, or all have been written, or an error ends the thread, or a panic does.
pub data Move (d : Disk) : Worker → Disk → Worker → Type 0 where
  transfer :
      (o n : ℕ) (rest : List ℕ)
      → 0 < n
      → n ≤ length rest
      → Move d (writing o rest) (stored d o (take n rest)) (writing (o + n) (drop n rest))
  interrupted : (o : ℕ) (rest : List ℕ) → Move d (writing o rest) d (writing o rest)
  complete : (o : ℕ) → Move d (writing o []) d finished
  fault : (o : ℕ) (rest : List ℕ) (e : Error) → Move d (writing o rest) d (failed e)
  crash : (o : ℕ) (rest : List ℕ) → Move d (writing o rest) d panicked

-- One thread moves, whichever the scheduler picks.
pub data Turn (d : Disk) : List Thread → Disk → List Thread → Type 0 where
  here :
      (s : WriteSlice) (w : Worker) (d' : Disk) (w' : Worker) (ts : List Thread)
      → Move d w d' w'
      → Turn d (record { slice = s; worker = w } ∷ ts) d' (record { slice = s; worker = w' } ∷ ts)
  there :
      (t : Thread) (ts : List Thread) (d' : Disk) (ts' : List Thread)
      → Turn d ts d' ts'
      → Turn d (t ∷ ts) d' (t ∷ ts')

-- Some turns, counted.
pub data Turns : ℕ → Disk → List Thread → Disk → List Thread → Type 0 where
  stop : (d : Disk) (ts : List Thread) → Turns 0 d ts d ts
  turn :
      (n : ℕ) (d : Disk) (ts : List Thread) (d' : Disk) (ts' : List Thread) (d'' : Disk)
      (ts'' : List Thread)
      → Turn d ts d' ts'
      → Turns n d' ts' d'' ts''
      → Turns (suc n) d ts d'' ts''

abbrev pub worker_error : Error
worker_error = record { kind = other; message = worker_panicked }

abbrev pub any_panicked : List Thread → Bool
any_panicked [] = false
any_panicked (t ∷ ts) =
    elim t.worker [ panicked ↦ true | writing o r ↦ false | finished ↦ false | failed e ↦ false ]
    || any_panicked ts

-- After an early return with an error, the scope panics if a thread panicked that was not joined.
abbrev pub leave_scope : Error → List Thread → Result (Unit {0})
leave_scope e ts = if any_panicked ts then panic else err e

-- One round of the `for` loop over the handles; `rest` is what the later rounds return. A thread
-- that is not at its end has no result yet.
abbrev pub join_one : Worker → List Thread → Result (Unit {0}) → Result (Unit {0})
join_one finished ts rest = rest
join_one (failed e) ts rest = leave_scope e ts
join_one panicked ts rest = leave_scope worker_error ts
join_one (writing o left) ts rest = stuck

-- The `for` loop over the handles, in a scope that waits for all threads.
unfoldable pub join_all : List Thread → Result (Unit {0})
join_all [] = ok tt
join_all (t ∷ ts) = join_one t.worker ts (join_all ts)

-- The scope waits until every thread is at its end.
abbrev pub IsEnded : Thread → Type 0
IsEnded t = elim t.worker [ writing o r ↦ ⊥ | finished ↦ Unit | failed e ↦ Unit | panicked ↦ Unit ]

-- The `for` loop over the waves: it ends at the first wave that does not succeed. `scope.spawn` panics
-- if the system has no thread for it; the scope then waits for the threads before it.
pub data Waves : List (List WriteSlice) → Disk → Result (Unit {0}) → Disk → Type 0 where
  no_more : (d : Disk) → Waves [] d (ok tt) d
  next_wave :
      (n : ℕ) (wave : List WriteSlice) (waves : List (List WriteSlice)) (d d' d'' : Disk)
      (ts : List Thread) (res : Result (Unit {0}))
      → Turns n d (map spawn wave) d' ts
      → All IsEnded ts
      → join_all ts ≡ ok tt
      → Waves waves d' res d''
      → Waves (wave ∷ waves) d res d''
  last_wave :
      (n : ℕ) (wave : List WriteSlice) (waves : List (List WriteSlice)) (d d' : Disk)
      (ts : List Thread) (e : Error)
      → Turns n d (map spawn wave) d' ts
      → All IsEnded ts
      → join_all ts ≡ err e
      → Waves (wave ∷ waves) d (err e) d'
  panic_wave :
      (n : ℕ) (wave : List WriteSlice) (waves : List (List WriteSlice)) (d d' : Disk)
      (ts : List Thread)
      → Turns n d (map spawn wave) d' ts
      → All IsEnded ts
      → join_all ts ≡ panic
      → Waves (wave ∷ waves) d panic d'
  spawn_panic :
      (n k : ℕ) (wave : List WriteSlice) (waves : List (List WriteSlice)) (d d' : Disk)
      (ts : List Thread)
      → k < length wave
      → Turns n d (map spawn (take k wave)) d' ts
      → All IsEnded ts
      → Waves (wave ∷ waves) d panic d'

-- The task of `write_slices_at`, which returns at once for an empty batch.
pub data WritesSlices (parallelism : Option ℕ) (slices : List WriteSlice) (d : Disk)
    : Result (Unit {0}) → Disk → Type 0 where
  nothing : slices ≡ [] → WritesSlices parallelism slices d (ok tt) d
  in_waves :
      (res : Result (Unit {0})) (d' : Disk)
      → Waves (chunks (worker_count parallelism (length slices)) slices) d res d'
      → WritesSlices parallelism slices d res d'
