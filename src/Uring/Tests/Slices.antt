-- ===== src/Uring/Tests/Slices.antt =====
-- A batch of writes on the simulated ring.
use fastio.Prelude.{
  ℕ, zero, suc, ◌+◌, ◌*◌, ◌≡◌, refl, [], ◌∷◌, List, get_or, length, ◌-◌, ◌<◌, ltb, if◌then◌else◌,
  arith,
}
use fastio.Io.{ok}
use fastio.Write.{WriteSlice, WriteSlices, new}
use fastio.Uring.Ring.{Place, memory, contents}
use fastio.Uring.Cache.{File}
use fastio.Uring.Slices.{slice_at, write_slices_at, submit_write_slices_at}
use fastio.Uring.Slices.Transfer.{Written, write_slices_at-Written}
use fastio.Uring.Tests.Simulated.{
  Kernel, simulated, simulated_laws, simulated-Wakes, simulated-IsHealthy,
}
use fastio.Uring.Healthy.{write_slices_at-eq-ok}

abbrev pub slices : List WriteSlice
slices =
    record { offset = 6; bytes = 1 ∷ 2 ∷ 3 ∷ [] }
    ∷ record { offset = 0; bytes = 4 ∷ 5 ∷ [] }
    ∷ record { offset = 7; bytes = [] }
    ∷ []

abbrev pub batch : WriteSlices
batch = record { as_slice = slices }

abbrev pub data_ptr : ℕ → ℕ
data_ptr idx = 100 * idx

-- The data of slice `idx` from address 100 * idx on; the file is blank.
abbrev initial : Place → ℕ
initial (memory a) =
    if ltb a 100
    then get_or (1 ∷ 2 ∷ 3 ∷ []) a 0
    else if ltb a 200
    then get_or (4 ∷ 5 ∷ []) (a - 100) 0
    else 0
initial (contents d a) = 9

abbrev pub kernel : Kernel
kernel = record { queue = []; bytes = initial; entries = 1 }

abbrev pub handle : File
handle = record { fd = 7; ring_depth = 4; chunk_size = 3 }

abbrev file_at : Kernel → ℕ → ℕ → List ℕ
file_at w zero a = []
file_at w (suc n) a = w.bytes (contents 7 a) ∷ file_at w n (a + 1)

pub made : new slices ≡ ok batch
unfolding new
made = refl

written :
    file_at (write_slices_at simulated handle batch data_ptr kernel).1 10 0
    ≡ 4 ∷ 5 ∷ 9 ∷ 9 ∷ 9 ∷ 9 ∷ 1 ∷ 2 ∷ 3 ∷ 9 ∷ []
unfolding write_slices_at submit_write_slices_at
written = refl

pub stored :
    (i k : ℕ)
    → i < length slices
    → k < length (slice_at slices i).bytes
    → initial (memory (data_ptr i + k)) ≡ get_or (slice_at slices i).bytes k 0
stored zero k hi hk = ground arith
stored (suc zero) k hi hk = ground arith
stored (suc (suc zero)) k hi hk = elim hk [ ]
stored (suc (suc (suc i))) k hi hk = absurd (omega arith)

write_slices_at-Written_example :
    Written handle slices data_ptr simulated simulated_laws kernel
      (write_slices_at simulated handle batch data_ptr kernel)
write_slices_at-Written_example =
    write_slices_at-Written simulated simulated_laws handle slices batch data_ptr made
      simulated-Wakes (omega arith) kernel refl stored

write_slices_at-eq-ok_example : (write_slices_at simulated handle batch data_ptr kernel).0 ≡ ok tt
write_slices_at-eq-ok_example =
    write_slices_at-eq-ok simulated simulated_laws handle slices batch data_ptr
      (simulated-IsHealthy handle.ring_depth (omega arith)) made simulated-Wakes (omega arith)
      kernel refl stored
