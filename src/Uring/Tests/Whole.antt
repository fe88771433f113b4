-- ===== src/Uring/Tests/Whole.antt =====
-- Whole reads and round trips on the simulated ring.
use fastio.Prelude.{ℕ, ◌+◌, ◌*◌, ◌≡◌, ◌⊎◌, inr, refl, [], ◌∷◌, arith}
use fastio.Io.{Error, ok, err, u64_max}
use fastio.Samples.{free_list, free_list_laws}
use fastio.Uring.Ring.{Place, Entry, memory, contents, target}
use fastio.Uring.Cache.{File}
use fastio.Uring.Exact.{Slice, submit_read_exact_at, submit_write_exact_at, reading, overflow_error}
use fastio.Uring.Exact.Early.{submit_read_exact_at-early}
use fastio.Uring.Whole.{read_exact_at, write_all_at, read_at, read_all}
use fastio.Uring.Whole.RoundTrip.{write_all_at-read_exact_at}
use fastio.Uring.Whole.Fetch.{Gets, peek, reads-Gets}
use fastio.Uring.Tests.Simulated.{Kernel, simulated, simulated_laws, simulated-Wakes}

-- Byte `a` of file `d` is 100 * d + a, and byte `a` of the memory is a.
abbrev bytes_now : Place → ℕ
bytes_now (memory a) = a
bytes_now (contents d a) = 100 * d + a

abbrev resting : Kernel
resting = record { queue = []; bytes = bytes_now; entries = 2 }

abbrev writer : File
writer = record { fd = 7; ring_depth = 2; chunk_size = 3 }

abbrev one_by_one : File
one_by_one = record { fd = 7; ring_depth = 1; chunk_size = 1 }

abbrev payload : Slice
payload = record { address = 40; size = 4 }

abbrev back : Slice
back = record { address = 60; size = 4 }

write_ok : (write_all_at simulated writer 20 payload resting).0 ≡ ok tt
unfolding write_all_at submit_write_exact_at
write_ok = refl

read_ok :
    (read_exact_at simulated one_by_one 20 back
      (write_all_at simulated writer 20 payload resting).1).0
    ≡ ok tt
unfolding read_exact_at write_all_at submit_read_exact_at submit_write_exact_at
read_ok = refl

write_all_at-read_exact_at_example :
    simulated_laws.byte_at
      (read_exact_at simulated one_by_one 20 back
        (write_all_at simulated writer 20 payload resting).1).1
      (memory (60 + 3))
    ≡ 40 + 3
write_all_at-read_exact_at_example =
    write_all_at-read_exact_at simulated simulated_laws writer one_by_one 20 payload back resting
      simulated-Wakes (omega arith, omega arith) (omega arith, omega arith) refl refl refl write_ok
      read_ok 3 (omega arith)

-- The file has six bytes.
abbrev six : File → Kernel → Error ⊎ ℕ
six file w = inr 6

reads-Gets_example :
    Gets simulated simulated_laws free_list free_list_laws six 40 writer 20 4 resting
      (read_at simulated (peek simulated simulated_laws) six free_list 40 writer 20 4 5 resting)
    × Gets simulated simulated_laws free_list free_list_laws six 40 writer 0 6 resting
        (read_all simulated (peek simulated simulated_laws) six free_list 40 writer 5 resting)
    × (simulated_laws.pending
          (read_all simulated (peek simulated simulated_laws) six free_list 40 writer 5 resting).2
        ≡ [])
reads-Gets_example =
    reads-Gets simulated simulated_laws free_list free_list_laws six 40 simulated-Wakes writer
      (omega arith) (omega arith) resting refl 5 20 4 6 refl

-- The first chunk of three bytes ends beyond the greatest offset.
submit_read_exact_at-early_example :
    (w' : Kernel) × (e : Entry) × (submit_read_exact_at simulated writer u64_max payload resting
      ≡ (err (overflow_error reading), w'))
    × (simulated_laws.pending w' ≡ e ∷ [])
    × (target e 0 ≡ memory 40)
submit_read_exact_at-early_example =
    submit_read_exact_at-early simulated simulated_laws writer u64_max payload resting refl refl
      (omega arith) (omega arith) (omega arith) (omega arith) (omega arith)
