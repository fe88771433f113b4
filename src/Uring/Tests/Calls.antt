-- ===== src/Uring/Tests/Calls.antt =====
-- Calls of a thread, one after the other, on the simulated ring.
use fastio.Prelude.{
  ℕ, zero, suc, ◌+◌, ◌<◌, ◌≤◌, ◌≡◌, ◌≢◌, refl, [], ◌∷◌, List, none, length, All, arith,
}
use fastio.Io.{u64_max}
use fastio.Uring.Ring.{memory}
use fastio.Uring.Exact.{Slice}
use fastio.Uring.Batch.{region_at}
use fastio.Uring.Session.{
  Call, reads, writes, writes_slices, reads_batch, perform, IsApart, Session, over, call, AllReturn,
  Session-quiet,
}
use fastio.Uring.Tests.Simulated.{Kernel, simulated, simulated_laws, simulated-Wakes}
use fastio.Uring.Tests.Slices.{slices, batch, data_ptr, kernel, handle, made, stored}
use fastio.Uring.Tests.Batch.{regions, buffer_ptr, reader, regions-IsApart}

abbrev scratch : Slice
scratch = record { address = 300; size = 5 }

abbrev calls : List Call
calls =
    writes_slices handle slices batch data_ptr
    ∷ reads handle 2 scratch
    ∷ writes handle 30 scratch
    ∷ reads_batch reader regions buffer_ptr
    ∷ []

-- The world after the first `n` calls.
abbrev after : List Call → Kernel → Kernel
after [] w = w
after (c ∷ cs) w = after cs (perform simulated c w).1

regions-fit :
    (i : ℕ)
    → i < length regions
    → ((region_at regions i).offset + (region_at regions i).len ≤ u64_max) × (buffer_ptr i ≢ none)
regions-fit zero hi = (omega arith, λ e. cc e)
regions-fit (suc zero) hi = (omega arith, λ e. cc e)
regions-fit (suc (suc zero)) hi = (omega arith, λ e. cc e)
regions-fit (suc (suc (suc i))) hi = absurd (omega arith)

four_calls : Session simulated simulated_laws calls kernel (after calls kernel)
four_calls =
    call _ _ _ _ (omega arith, made, stored)
      (call _ _ _ _ (omega arith, omega arith, omega arith)
        (call _ _ _ _ (omega arith, omega arith, omega arith)
          (call _ _ _ _ (omega arith, regions-IsApart, regions-fit) (over _))))

memory_inj : {a b : ℕ} → memory a ≡ memory b → a ≡ b
memory_inj e = cc

regions_there : IsApart (reads_batch reader regions buffer_ptr) (memory 700)
regions_there zero k hi hk e = omega (arith, memory_inj e, hk)
regions_there (suc zero) k hi hk e = omega (arith, memory_inj e, hk)
regions_there (suc (suc zero)) k hi hk e = omega (arith, memory_inj e, hk)
regions_there (suc (suc (suc i))) k hi hk e = omega arith

-- Memory at 700 belongs to no call.
nobody_there : All (λ c. IsApart c (memory 700)) calls
nobody_there = (
  (λ i k hi hk e. cc e),
  ((λ n lt e. omega (arith, memory_inj e, lt)), ((λ n lt e. cc e), (regions_there, tt))),
)

Session-quiet_example :
    AllReturn simulated simulated_laws calls kernel
    × (simulated_laws.pending (after calls kernel) ≡ [])
    × (simulated_laws.byte_at (after calls kernel) (memory 700)
        ≡ simulated_laws.byte_at kernel (memory 700))
Session-quiet_example =
    Session-quiet simulated simulated_laws simulated-Wakes calls kernel (after calls kernel)
      four_calls refl (memory 700) nobody_there
