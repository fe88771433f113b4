-- ===== src/Uring/Tests/Exact.antt =====
-- The exact transfers on the simulated ring.
use fastio.Prelude.{ℕ, zero, suc, ◌+◌, ◌*◌, ◌≡◌, refl, [], ◌∷◌, List, length, All, ◌≤◌, none, arith}
use fastio.Io.{ok, err, u64_max}
use fastio.Uring.Ring.{read_op, Place, memory, contents}
use fastio.Uring.Cache.{File}
use fastio.Uring.Exact.{
  Slice, exact_entry, submit_read_exact_at, submit_write_exact_at, reading, writing, overflow_error,
}
use fastio.Uring.Loop.{
  Vars, Flow, leave, init, in_flight, idle, submit_from, submit_one, submit_at, submit_idle,
  push_entry,
}
use fastio.Uring.Loop.Invariant.{so_far}
use fastio.Uring.Loop.Rounds.{begins, submits, IsBounded, Reached-IsBounded}
use fastio.Uring.Exact.Chunks.{plan, plan_laws, separate}
use fastio.Uring.Exact.Transfer.{
  Transfer, submit_read_exact_at-Transfer, submit_write_exact_at-Transfer,
}
use fastio.Uring.Tests.Simulated.{
  Kernel, simulated, simulated_laws, simulated-Wakes, simulated-IsHealthy,
}
use fastio.Uring.Healthy.{transfers-eq-ok}

-- Byte `a` of file `d` is 100 * d + a, and byte `a` of the memory is a.
abbrev initial : Place → ℕ
initial (memory a) = a
initial (contents d a) = 100 * d + a

abbrev idle_kernel : Kernel
idle_kernel = record { queue = []; bytes = initial; entries = 2 }

abbrev handle : File
handle = record { fd = 7; ring_depth = 2; chunk_size = 3 }

abbrev buffer : Slice
buffer = record { address = 40; size = 8 }

abbrev memory_at : Kernel → ℕ → ℕ → List ℕ
memory_at w zero a = []
memory_at w (suc n) a = w.bytes (memory a) ∷ memory_at w n (a + 1)

read_returns : (submit_read_exact_at simulated handle 20 buffer idle_kernel).0 ≡ ok tt
unfolding submit_read_exact_at
read_returns = refl

-- Eight bytes from offset 20 on, in three chunks, with short transfers, between their neighbours.
read_fills :
    memory_at (submit_read_exact_at simulated handle 20 buffer idle_kernel).1 10 39
    ≡ 39 ∷ 720 ∷ 721 ∷ 722 ∷ 723 ∷ 724 ∷ 725 ∷ 726 ∷ 727 ∷ 48 ∷ []
unfolding submit_read_exact_at
read_fills = refl

read_overflows :
    (submit_read_exact_at simulated handle u64_max buffer idle_kernel).0
    ≡ err (overflow_error reading)
unfolding submit_read_exact_at
read_overflows = refl

submit_read_exact_at-Transfer_example :
    Transfer simulated simulated_laws reading handle 20 buffer idle_kernel
      (submit_read_exact_at simulated handle 20 buffer idle_kernel)
submit_read_exact_at-Transfer_example =
    submit_read_exact_at-Transfer simulated simulated_laws handle 20 buffer simulated-Wakes
      (omega arith) (omega arith) idle_kernel refl

submit_write_exact_at-Transfer_example :
    Transfer simulated simulated_laws writing handle 20 buffer idle_kernel
      (submit_write_exact_at simulated handle 20 buffer idle_kernel)
submit_write_exact_at-Transfer_example =
    submit_write_exact_at-Transfer simulated simulated_laws handle 20 buffer simulated-Wakes
      (omega arith) (omega arith) idle_kernel refl

transfers-eq-ok_example :
    ((submit_read_exact_at simulated handle 20 buffer idle_kernel).0 ≡ ok tt)
    × ((submit_write_exact_at simulated handle 20 buffer idle_kernel).0 ≡ ok tt)
transfers-eq-ok_example =
    transfers-eq-ok simulated simulated_laws handle (simulated-IsHealthy 2 (omega arith)) 20 buffer
      (omega arith) simulated-Wakes (omega arith) (omega arith) idle_kernel refl

-- The first pass of that read sends two requests, as many as the depth.
abbrev sent : Vars simulated
sent = record {
  bytes_done = 0 ∷ 0 ∷ 0 ∷ [];
  state = in_flight ∷ in_flight ∷ idle ∷ [];
  flying = 2;
  pending_error = none;
  world = record {
    queue =
        record { opcode = read_op; fd = 7; address = 43; len = 3; offset = 23; user_data = 1 }
        ∷ record { opcode = read_op; fd = 7; address = 40; len = 3; offset = 20; user_data = 0 }
        ∷ [];
    bytes = initial;
    entries = 2;
  };
}

abbrev first_pass : Flow simulated
first_pass =
    submit_from simulated (plan reading handle 20 buffer) 2 3 0
      (init simulated (plan reading handle 20 buffer) 2 idle_kernel)

two_sent : first_pass ≡ leave sent
unfolding submit_from submit_one submit_at submit_idle push_entry exact_entry
two_sent = refl

Reached-IsBounded_example :
    (sent.flying ≡ length sent.world.queue)
    × (sent.flying ≤ 2)
    × ((i : ℕ) → so_far simulated sent i ≤ (plan reading handle 20 buffer).chunk_len i)
    × All
        (IsBounded simulated
          (plan reading handle 20 buffer)
          2
          (plan_laws reading handle 20 buffer)
          simulated_laws
          (separate reading handle 20 buffer)
          idle_kernel
          sent)
        sent.world.queue
Reached-IsBounded_example =
    Reached-IsBounded simulated (plan reading handle 20 buffer) 2
      (plan_laws reading handle 20 buffer) simulated_laws (separate reading handle 20 buffer)
      idle_kernel refl (omega arith) sent (submits _ sent begins two_sent)
