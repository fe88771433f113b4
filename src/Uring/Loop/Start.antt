-- ===== src/Uring/Loop/Start.antt =====
-- The start of the loop: what holds before its first round (src/uring.rs).
use fastio.Prelude.{
  ℕ, zero, suc, ◌≤◌, ◌<◌, ◌≡◌, ◌≢◌, refl, sym, some, [], get_elem?, replicate, get_or-replicate,
  length-replicate, arith,
}
use fastio.Uring.Ring.{Ring, Laws}
use fastio.Uring.Loop.{Plan, idle, done, init, total_len}
use fastio.Uring.Loop.Invariant.{flag, PlanLaws}
use fastio.Uring.Loop.Tally.{missing}
use fastio.Uring.Loop.Bytes.{Separate, Holds}

idle_flag : (n i : ℕ) → flag (get_elem? (replicate n idle) i) ≡ 0
idle_flag zero i = refl
idle_flag (suc n) zero = refl
idle_flag (suc n) (suc i) = idle_flag n i

idle-ne-done : (n i : ℕ) → get_elem? (replicate n idle) i ≢ some done
idle-ne-done zero i e = cc
idle-ne-done (suc n) zero e = cc
idle-ne-done (suc n) (suc i) e = idle-ne-done n i e

module _ (r : Ring) (plan : Plan) (depth : ℕ) (l : PlanLaws plan) (laws : Laws r)
    (s : Separate plan l) (want : ℕ → ℕ → ℕ) (start : r.World) where
  open plan use {count, chunk_len}
  open laws use {pending, byte_at}

  -- The start of the loop, on a ring with nothing in flight and room for `depth` requests.
  pub init-Holds :
      pending start ≡ []
      → depth ≤ r.sq_entries start
      → ((i k : ℕ) → i < count → k < chunk_len i → byte_at start (l.from i k) ≡ want i k)
      → Holds r plan depth l laws s want start (init r plan depth start)
  init-Holds quiet room given = record {
    ready = record {
      inv = rw quiet (record {
        size_done = length-replicate count 0;
        size_state = length-replicate count idle;
        counted = refl;
        deep = omega arith;
        single = λ i. sym (idle_flag count i);
        bounded = λ i. omega (arith, get_or-replicate {A = ℕ} count i 0);
        finished = λ i e. absurd (idle-ne-done count i e);
        open_all = tt;
      });
      room = room;
    };
    sources = given;
    arrived = λ i k lt. absurd (omega (arith, get_or-replicate {A = ℕ} count i 0));
    outside = λ p o. refl;
  }

  pub missing-init : (n : ℕ) → missing r plan n (init r plan depth start) ≤ total_len r plan depth n
  missing-init zero = omega arith
  missing-init (suc n) = omega (arith, missing-init n)
