-- ===== src/Uring/Healthy.antt =====
-- The exact transfers and the batch of writes on a ring that raises no error (src/uring.rs).
use fastio.Prelude.{ℕ, ◌+◌, ◌≤◌, ◌<◌, ◌≡◌, refl, List, [], length, get_or, arith}
use fastio.Io.{Result, ok, u64_max}
use fastio.Write.{WriteSlice, WriteSlices, new}
use fastio.Uring.Ring.{Ring, Laws, memory}
use fastio.Uring.Loop.Drive.{Wakes}
use fastio.Uring.Loop.Origin.{IsHealthy, IsHealthy-IsRaised}
use fastio.Uring.Cache.{File}
use fastio.Uring.Exact.{
  Slice, Direction, submit_read_exact_at, submit_write_exact_at, reading, writing,
}
use fastio.Uring.Exact.Transfer.{
  Transfer, complete, io_error, overflow, submit_read_exact_at-Transfer,
  submit_write_exact_at-Transfer,
}
use fastio.Uring.Slices.{slice_at, write_slices_at}
use fastio.Uring.Slices.Transfer.{Written, all_written, write_slices_at-Written}
use fastio.Uring.Slices.Transfer as Slices

module _ (r : Ring) (laws : Laws r) (file : File) (healthy : IsHealthy r laws file.ring_depth) where
  Transfer-eq-ok :
      (d : Direction) (offset : ℕ) (buf : Slice) (w : r.World) (res : Result (Unit {0}) × r.World)
      → offset + buf.size ≤ u64_max
      → Transfer r laws d file offset buf w res
      → res.0 ≡ ok tt
  Transfer-eq-ok d offset buf w _ fits (complete w' quiet moved far) = refl
  Transfer-eq-ok d offset buf w _ fits (io_error x w' raised quiet far) =
      absurd (IsHealthy-IsRaised r laws file.ring_depth _ x healthy raised)
  Transfer-eq-ok d offset buf w _ fits (overflow w' long far) = absurd (omega (arith, long, fits))

  Written-eq-ok :
      (slices : List WriteSlice) (data_ptr : ℕ → ℕ) (w : r.World)
      (res : Result (Unit {0}) × r.World)
      → Written file slices data_ptr r laws w res
      → res.0 ≡ ok tt
  Written-eq-ok slices data_ptr w _ (all_written w' quiet moved far) = refl
  Written-eq-ok slices data_ptr w _ (Slices.io_error x w' raised quiet far) =
      absurd (IsHealthy-IsRaised r laws file.ring_depth _ x healthy raised)

-- On a ring that keeps its laws and wakes up, whose waits succeed, where each completion of requests
-- for some byte moves one, and that can be made with the handle's depth; with nothing in flight, and
-- a handle with a depth and a chunk size: `submit_read_exact_at` and `submit_write_exact_at` of a
-- range that ends at a `u64` return `Ok`.
pub transfers-eq-ok :
    (r : Ring) (laws : Laws r) (file : File)
    → IsHealthy r laws file.ring_depth
    → (offset : ℕ) (buf : Slice) → offset + buf.size ≤ u64_max
    → Wakes r laws
    → 0 < file.ring_depth
    → 0 < file.chunk_size
    → (w : r.World) → laws.pending w ≡ []
    → ((submit_read_exact_at r file offset buf w).0 ≡ ok tt)
      × ((submit_write_exact_at r file offset buf w).0 ≡ ok tt)
transfers-eq-ok r laws file healthy offset buf fits wakes deep chunked w quiet = (
  Transfer-eq-ok r laws file healthy reading offset buf w _ fits
      (submit_read_exact_at-Transfer r laws file offset buf wakes deep chunked w quiet),
  Transfer-eq-ok r laws file healthy writing offset buf w _ fits
      (submit_write_exact_at-Transfer r laws file offset buf wakes deep chunked w quiet),
)

-- On such a ring, with nothing in flight, a handle with a depth, and a batch that `WriteSlices::new`
-- made, whose data is in memory at `data_ptr`: `write_slices_at` returns `Ok`.
pub write_slices_at-eq-ok :
    (r : Ring) (laws : Laws r) (file : File) (slices : List WriteSlice) (batch : WriteSlices)
    (data_ptr : ℕ → ℕ)
    → IsHealthy r laws file.ring_depth
    → new slices ≡ ok batch
    → Wakes r laws
    → 0 < file.ring_depth
    → (w : r.World) → laws.pending w ≡ []
    → ((i k : ℕ)
        → i < length slices
        → k < length (slice_at slices i).bytes
        → laws.byte_at w (memory (data_ptr i + k)) ≡ get_or (slice_at slices i).bytes k 0)
    → (write_slices_at r file batch data_ptr w).0 ≡ ok tt
write_slices_at-eq-ok r laws file slices batch data_ptr healthy made wakes deep w quiet stored =
    Written-eq-ok r laws file healthy slices data_ptr w _
      (write_slices_at-Written r laws file slices batch data_ptr made wakes deep w quiet stored)
