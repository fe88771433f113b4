-- ===== src/Uring/Exact/Transfer.antt =====
-- `submit_read_exact_at` and `submit_write_exact_at` move the whole buffer (src/uring.rs).
use fastio.Prelude.{
  ℕ, ◌+◌, ◌*◌, ◌/◌, ◌%◌, ◌<◌, ◌≡◌, ◌≢◌, inl, inr, refl, ◌∙◌, sym, subst, ◌==◌, ==→≡, ==→≢,
  Bool-cases, [], arith,
}
use fastio.Io.{Error, Result, ok, err, u64_max}
use fastio.Uring.Ring.{Ring, Laws, Place}
use fastio.Uring.Loop.{run}
use fastio.Uring.Loop.Bytes.{IsOutside}
use fastio.Uring.Loop.Drive.{Wakes, Outcome, finished, failed, refused, run-Outcome}
use fastio.Uring.Loop.Origin.{IsRaised, no_ring}
use fastio.Uring.Cache.{File, with_ring-cases, IsFresh, init_error}
use fastio.Uring.Exact.{
  Slice, Direction, overflow_error, submit_exact_at, submit_read_exact_at, submit_write_exact_at,
  reading, writing,
}
use fastio.Uring.Exact.Chunks.{
  chunk-lt, chunk_of, byte_from, byte_to, plan, plan_laws, separate, refused_overflow, size,
}

module _ (r : Ring) (laws : Laws r) (d : Direction) (file : File) (offset : ℕ) (buf : Slice) where
  open laws use {pending, byte_at}

  -- Only the targets of the transfer have changed since `w`.
  abbrev pub Elsewhere : r.World → r.World → Type 0
  Elsewhere w w' =
      (p : Place)
      → ((n : ℕ) → n < buf.size → byte_to d file offset buf n ≢ p)
      → byte_at w' p ≡ byte_at w p

  -- The results of a transfer that starts in `w`. With `Ok` every byte of the buffer has been
  -- moved, and nothing is in flight. An error that the ring has raised, or that a transfer of no byte
  -- has, leaves nothing in flight either. The only other error is that of an overflow, for a range
  -- that does not end at a `u64`.
  pub data Transfer (w : r.World) : Result (Unit {0}) × r.World → Type 0 where
    complete :
        (w' : r.World)
        → pending w' ≡ []
        → ((n : ℕ)
            → n < buf.size
            → byte_at w' (byte_to d file offset buf n) ≡ byte_at w (byte_from d file offset buf n))
        → Elsewhere w w'
        → Transfer w (ok tt, w')
    io_error :
        (x : Error) (w' : r.World)
        → IsRaised r laws file.ring_depth (plan d file offset buf).short x
        → pending w' ≡ []
        → Elsewhere w w'
        → Transfer w (err x, w')
    overflow :
        (w' : r.World)
        → u64_max < offset + buf.size
        → Elsewhere w w'
        → Transfer w (err (overflow_error d), w')

  module _ (w w0 : r.World) (fresh : IsFresh r laws file.ring_depth w w0)
      (some_chunk : 0 < size d file offset buf) where
    abbrev want : ℕ → ℕ → ℕ
    want i k = byte_at w (byte_from d file offset buf (i * size d file offset buf + k))

    outside :
        (w' : r.World)
        → ((p : Place)
            → IsOutside r
                (plan d file offset buf)
                file.ring_depth
                (plan_laws d file offset buf)
                laws
                (separate d file offset buf)
                want
                w0
                p
            → byte_at w' p ≡ byte_at w0 p)
        → Elsewhere w w'
    outside w' h p far =
        h p (λ i k hi hk.
          far (i * size d file offset buf + k)
            (chunk-lt (size d file offset buf) buf.size i k hk).1)
        ∙ fresh.bytes p

    Outcome-Transfer :
        (o : Result (Unit {0}) × r.World)
        → Outcome r
            (plan d file offset buf)
            file.ring_depth
            (plan_laws d file offset buf)
            laws
            (separate d file offset buf)
            want
            w0
            o
        → Transfer w o
    Outcome-Transfer _ (finished w' quiet moved far) =
        complete w' quiet
          (λ n lt.
            let c = size d file offset buf in
            let (in_count, in_chunk, split) = chunk_of c buf.size n some_chunk lt in
            subst
              (λ m.
                byte_at w' (byte_to d file offset buf m)
                ≡ byte_at w (byte_from d file offset buf m))
              split (moved (n / c) (n % c) in_count in_chunk))
          (outside w' far)
    Outcome-Transfer _ (failed x w' raised quiet far) = io_error x w' raised quiet (outside w' far)
    Outcome-Transfer _ (refused x w' declined far) =
        let (long, which) =
          refused_overflow d file offset buf declined.idx declined.from_byte declined.len x
            declined.in_chunk declined.refused in
        subst (λ y. Transfer w (err y, w')) (sym which) (overflow w' long (outside w' far))

  -- On a thread with nothing in flight, with a handle that has a depth and a chunk size, both
  -- functions return, and what they return is true of the bytes.
  submit_exact_at-Transfer :
      Wakes r laws
      → 0 < file.ring_depth
      → 0 < file.chunk_size
      → (w : r.World) → pending w ≡ []
      → Transfer w (submit_exact_at r d file offset buf w)
  submit_exact_at-Transfer wakes deep chunked w quiet = elim (Bool-cases (buf.size == 0)) [
    | inl empty ↦
        let nothing = ==→≡ _ _ empty in
        rw empty (complete w quiet (λ n lt. absurd (omega arith)) (λ p far. refl))
    | inr filled ↦
        let some_byte = ==→≢ _ _ filled in
        elim (with_ring-cases r laws file (run r (plan d file offset buf) file.ring_depth) w
          quiet) [
            | inr (e, no_ring_made, returns) ↦
                rw (filled, returns)
                  (io_error (init_error e) w (no_ring w e no_ring_made) quiet (λ p far. refl))
            | inl (w0, fresh, returns) ↦
                rw (filled, returns)
                  (Outcome-Transfer w w0 fresh (omega arith) _ (
                    run-Outcome r (plan d file offset buf) file.ring_depth
                      (plan_laws d file offset buf) laws (separate d file offset buf)
                      (want w w0 fresh (omega arith)) w0 wakes deep fresh.quiet fresh.room
                      (λ i k hi hk. fresh.bytes _)))
          ]
  ]

-- On a ring that keeps its laws and wakes up, with nothing in flight, for a handle with a depth
-- and a chunk size: `submit_read_exact_at` returns without a panic, in bounded fuel. With `Ok` the
-- buffer has the bytes of the file from `offset` on. An error is one that the ring has raised or
-- that of a transfer of no byte, or else that of an overflow, for a range that does not end at a
-- `u64`; but for the last, and with `Ok`, nothing is in flight. No byte outside of the buffer has
-- changed.
pub submit_read_exact_at-Transfer :
    (r : Ring) (laws : Laws r) (file : File) (offset : ℕ) (buf : Slice)
    → Wakes r laws
    → 0 < file.ring_depth
    → 0 < file.chunk_size
    → (w : r.World) → laws.pending w ≡ []
    → Transfer r laws reading file offset buf w (submit_read_exact_at r file offset buf w)
unfolding submit_read_exact_at
submit_read_exact_at-Transfer r laws file offset buf =
    submit_exact_at-Transfer r laws reading file offset buf

-- On a ring that keeps its laws and wakes up, with nothing in flight, for a handle with a depth
-- and a chunk size: `submit_write_exact_at` returns without a panic, in bounded fuel. With `Ok`
-- the file has the bytes of the buffer from `offset` on. An error is one that the ring has raised
-- or that of a transfer of no byte, or else that of an overflow, for a range that does not end at a
-- `u64`; but for the last, and with `Ok`, nothing is in flight. No byte outside of that range of the
-- file has changed.
pub submit_write_exact_at-Transfer :
    (r : Ring) (laws : Laws r) (file : File) (offset : ℕ) (buf : Slice)
    → Wakes r laws
    → 0 < file.ring_depth
    → 0 < file.chunk_size
    → (w : r.World) → laws.pending w ≡ []
    → Transfer r laws writing file offset buf w (submit_write_exact_at r file offset buf w)
unfolding submit_write_exact_at
submit_write_exact_at-Transfer r laws file offset buf =
    submit_exact_at-Transfer r laws writing file offset buf
