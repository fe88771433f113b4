-- ===== src/Tokio/Tests.antt =====
-- Tasks on a file in memory, and waves of two slices at a time.
use fastio.Prelude.{◌+◌, ◌≡◌, refl, ◌==◌, inr, [], ◌∷◌, List, length, some}
use fastio.Io.{ok, err}
use fastio.Write.{WriteSlice, WriteSlices, new}
use fastio.Positioned.{Reads, Writes}
use fastio.Samples.{disk_file, disk_laws, free_list, free_list_laws}
use fastio.Tokio.Task.{Runtime, State, task_error, positioned, read_at, read_all_task, write_all_at}
use fastio.Tokio.Task.Contract.{IsFetched, positioned-Contract, tasks-Fetched}
use fastio.Tokio.Waves.{Disk, chunks, worker_count, Waves, WritesSlices, in_waves}
use fastio.Tokio.Waves.Bound.{Waves-possible}
use fastio.Tokio.Batch.{Stores, ran, WritesBatch-Stores}

abbrev counting : Disk
counting p = p

-- A runtime that drops the tasks on a file whose first byte is 1.
abbrev runtime : Runtime Disk
runtime = record { clone_handle = λ w. inr tt; is_lost = λ w. w 0 == 1 }

dropped_task : (write_all_at disk_file runtime 4 (9 ∷ []) (λ p. p + 1)).0 ≡ err task_error
unfolding write_all_at
dropped_task = refl

positioned-Contract_example :
    Reads disk_laws.byte_at counting 4 3 ((positioned disk_file runtime).read_exact_at 4 3 counting)
    × Writes disk_laws.byte_at counting 4
        (9 ∷ [])
        ((positioned disk_file runtime).write_all_at 4 (9 ∷ []) counting)
positioned-Contract_example = positioned-Contract disk_file disk_laws runtime counting 4 3 (9 ∷ [])

abbrev state : State disk_file runtime free_list
state = record { free = 5; file = counting }

tasks-Fetched_example :
    IsFetched disk_file disk_laws runtime free_list free_list_laws state 4 3
      (read_at disk_file runtime free_list 4 3 state)
    × IsFetched disk_file disk_laws runtime free_list free_list_laws state 0 20
        (read_all_task disk_file runtime free_list state)
tasks-Fetched_example = tasks-Fetched disk_file disk_laws runtime free_list free_list_laws state 4 3

abbrev three : List WriteSlice
three =
    record { offset = 6; bytes = 7 ∷ 8 ∷ [] }
    ∷ record { offset = 0; bytes = 5 ∷ [] }
    ∷ record { offset = 3; bytes = 4 ∷ [] }
    ∷ []

abbrev batch : WriteSlices
batch = record { as_slice = three }

three_made : new three ≡ ok batch
unfolding new
three_made = refl

two_waves : length (chunks (worker_count (some 2) 3) three) ≡ 2
unfolding chunks worker_count
two_waves = refl

-- An order in which the waves of the batch succeed.
abbrev succeeding : (d' : Disk) × Waves (chunks (worker_count (some 2) 3) three) counting (ok tt) d'
succeeding = Waves-possible (chunks (worker_count (some 2) 3) three) counting

abbrev written : WritesSlices (some 2) three counting (ok tt) succeeding.0
written = in_waves (ok tt) succeeding.0 succeeding.1

WritesBatch-Stores_example : Stores three counting (ok tt) succeeding.0
WritesBatch-Stores_example =
    WritesBatch-Stores runtime (some 2) three batch counting (ok tt) succeeding.0 three_made
      (ran (ok tt) succeeding.0 refl refl written)
