-- ===== src/Uring/Tests/Batch.antt =====
-- A batch of reads on the simulated ring.
use fastio.Prelude.{ℕ, zero, suc, ◌*◌, ◌≡◌, refl, [], ◌∷◌, List, Option, some, arith}
use fastio.Io.{ok}
use fastio.Uring.Ring.{Place, memory, contents}
use fastio.Uring.Cache.{File}
use fastio.Uring.Batch.{Region, read_at_batch}
use fastio.Uring.Batch.Requests.{IsApart}
use fastio.Uring.Batch.Transfer.{Batch, read_at_batch-Batch}
use fastio.Samples.{free_list, free_list_laws}
use fastio.Uring.Whole.Fetch.{peek}
use fastio.Uring.Regions.{read_regions}
use fastio.Uring.Regions.Filled.{Filled, read_regions-Filled}
use fastio.Uring.Tests.Simulated.{Kernel, simulated, simulated_laws, simulated-Wakes}

abbrev pub regions : List Region
regions =
    record { offset = 4; len = 3 }
    ∷ record { offset = 0; len = 0 }
    ∷ record { offset = 9; len = 1 }
    ∷ []

abbrev pub buffer_ptr : ℕ → Option ℕ
buffer_ptr idx = some (50 * idx)

abbrev numbered : Place → ℕ
numbered (memory a) = 0
numbered (contents d a) = a

abbrev waiting : Kernel
waiting = record { queue = []; bytes = numbered; entries = 2 }

abbrev pub reader : File
reader = record { fd = 1; ring_depth = 2; chunk_size = 8 }

batch_returns : (read_at_batch simulated reader regions buffer_ptr waiting).0 ≡ ok tt
unfolding read_at_batch
batch_returns = refl

pub regions-IsApart : IsApart regions buffer_ptr
regions-IsApart zero k zero m hi hk hj hm e = (refl, omega (arith, e))
regions-IsApart zero k (suc zero) m hi hk hj hm e = elim hm [ ]
regions-IsApart zero k (suc (suc zero)) m hi hk hj hm e = absurd (omega arith)
regions-IsApart (suc zero) k j m hi hk hj hm e = elim hk [ ]
regions-IsApart (suc (suc zero)) k zero m hi hk hj hm e = absurd (omega arith)
regions-IsApart (suc (suc zero)) k (suc zero) m hi hk hj hm e = elim hm [ ]
regions-IsApart (suc (suc zero)) k (suc (suc zero)) m hi hk hj hm e = (refl, omega (arith, e))
regions-IsApart (suc (suc (suc i))) k j m hi hk hj hm e = absurd (omega arith)
regions-IsApart zero k (suc (suc (suc j))) m hi hk hj hm e = absurd (omega arith)
regions-IsApart (suc (suc zero)) k (suc (suc (suc j))) m hi hk hj hm e = absurd (omega arith)

read_at_batch-Batch_example :
    Batch simulated simulated_laws reader regions buffer_ptr waiting
      (read_at_batch simulated reader regions buffer_ptr waiting)
read_at_batch-Batch_example =
    read_at_batch-Batch simulated simulated_laws reader regions buffer_ptr regions-IsApart
      simulated-Wakes (omega arith) waiting refl

read_regions-Filled_example :
    Filled simulated simulated_laws free_list free_list_laws reader (50 *◌) regions 5 waiting (
      read_regions free_list simulated
        (peek simulated simulated_laws)
        (50 *◌)
        reader
        regions
        5
        waiting)
read_regions-Filled_example =
    read_regions-Filled simulated simulated_laws free_list free_list_laws reader (50 *◌)
      simulated-Wakes (omega arith) regions regions-IsApart 5 waiting refl
