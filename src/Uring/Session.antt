-- ===== src/Uring/Session.antt =====
-- The calls of a thread on its cached ring, one after the other (src/uring.rs).
use fastio.Prelude.{
  ℕ, ◌+◌, ◌≤◌, ◌<◌, ◌≡◌, ◌≢◌, inl, inr, refl, ◌∙◌, List, [], ◌∷◌, Option, none, length, get_or, All,
  arith,
}
use fastio.Io.{Result, ok, err, panic, stuck, u64_max}
use fastio.Write.{WriteSlice, WriteSlices, new}
use fastio.Uring.Ring.{Ring, Laws, Place, memory, contents}
use fastio.Uring.Loop.Drive.{Wakes}
use fastio.Uring.Cache.{File}
use fastio.Uring.Exact.{Slice, reading, writing, submit_read_exact_at, submit_write_exact_at}
use fastio.Uring.Exact.Chunks.{byte_to}
use fastio.Uring.Exact.Transfer.{
  Transfer, submit_read_exact_at-Transfer, submit_write_exact_at-Transfer,
}
use fastio.Uring.Slices.{slice_at, write_slices_at}
use fastio.Uring.Slices.Transfer.{Written, write_slices_at-Written}
use fastio.Uring.Slices.Transfer as Slices
use fastio.Uring.Batch.{Region, region_at, read_at_batch}
use fastio.Uring.Batch.Requests.{address, IsApart as Disjoint}
use fastio.Uring.Batch.Transfer.{Batch, read_at_batch-Batch}
use fastio.Uring.Batch.Transfer as Batches

-- What a thread can ask of the backend.
pub data Call : Type 0 where
  reads writes : File → ℕ → Slice → Call
  writes_slices : File → List WriteSlice → WriteSlices → (ℕ → ℕ) → Call
  reads_batch : File → List Region → (ℕ → Option ℕ) → Call

-- The place is none that the call may write.
abbrev pub IsApart : Call → Place → Type 0
IsApart (reads file offset buf) p = (n : ℕ) → n < buf.size → byte_to reading file offset buf n ≢ p
IsApart (writes file offset buf) p = (n : ℕ) → n < buf.size → byte_to writing file offset buf n ≢ p
IsApart (writes_slices file slices batch data_ptr) p =
    (i k : ℕ)
    → i < length slices
    → k < length (slice_at slices i).bytes
    → contents file.fd ((slice_at slices i).offset + k) ≢ p
IsApart (reads_batch file regions buffer_ptr) p =
    (i k : ℕ)
    → i < length regions
    → k < (region_at regions i).len
    → memory (address buffer_ptr i + k) ≢ p

abbrev pub IsReturned : Result (Unit {0}) → Type 0
IsReturned (ok u) = Unit
IsReturned (err e) = Unit
IsReturned panic = ⊥
IsReturned stuck = ⊥

module _ (r : Ring) where
  abbrev pub perform : Call → r.World → Result (Unit {0}) × r.World
  perform (reads file offset buf) w = submit_read_exact_at r file offset buf w
  perform (writes file offset buf) w = submit_write_exact_at r file offset buf w
  perform (writes_slices file slices batch data_ptr) w = write_slices_at r file batch data_ptr w
  perform (reads_batch file regions buffer_ptr) w = read_at_batch r file regions buffer_ptr w

  module _ (laws : Laws r) where
    open laws use {pending, byte_at}

    -- The handle has a depth and a chunk size, ranges end at a `u64`, a batch of writes has been
    -- validated and its data is in memory, and a batch of reads has buffers of its own.
    abbrev pub IsFair : Call → r.World → Type 0
    IsFair (reads file offset buf) w =
        (0 < file.ring_depth) × (0 < file.chunk_size) × (offset + buf.size ≤ u64_max)
    IsFair (writes file offset buf) w =
        (0 < file.ring_depth) × (0 < file.chunk_size) × (offset + buf.size ≤ u64_max)
    IsFair (writes_slices file slices batch data_ptr) w =
        (0 < file.ring_depth)
        × (new slices ≡ ok batch)
        × ((i k : ℕ)
            → i < length slices
            → k < length (slice_at slices i).bytes
            → byte_at w (memory (data_ptr i + k)) ≡ get_or (slice_at slices i).bytes k 0)
    IsFair (reads_batch file regions buffer_ptr) w =
        (0 < file.ring_depth)
        × Disjoint regions buffer_ptr
        × ((i : ℕ)
            → i < length regions
            → ((region_at regions i).offset + (region_at regions i).len ≤ u64_max)
              × (buffer_ptr i ≢ none))

    -- The calls are made one after the other, each with its conditions, whatever it returns.
    pub data Session : List Call → r.World → r.World → Type 0 where
      over : (w : r.World) → Session [] w w
      call :
          (c : Call) (cs : List Call) (w w' : r.World)
          → IsFair c w
          → Session cs (perform c w).1 w'
          → Session (c ∷ cs) w w'

    -- No call of them panics or goes on forever.
    abbrev pub AllReturn : List Call → r.World → Type 0
    AllReturn [] w = Unit
    AllReturn (c ∷ cs) w = IsReturned (perform c w).0 × AllReturn cs (perform c w).1

    -- A call that returned, with nothing in flight after it.
    record Served (c : Call) (w : r.World) (res : Result (Unit {0}) × r.World) : Type 0 where
      returned : IsReturned res.0
      quiet : pending res.1 ≡ []
      elsewhere : (p : Place) → IsApart c p → byte_at res.1 p ≡ byte_at w p

    reads-Served :
        (file : File) (offset : ℕ) (buf : Slice) (w : r.World) (res : Result (Unit {0}) × r.World)
        → offset + buf.size ≤ u64_max
        → Transfer r laws reading file offset buf w res
        → Served (reads file offset buf) w res
    reads-Served file offset buf w _ fits (Transfer.complete w' quiet moved far) = record {
      returned = tt;
      quiet = quiet;
      elsewhere = far;
    }
    reads-Served file offset buf w _ fits (Transfer.io_error x w' raised quiet far) = record {
      returned = tt;
      quiet = quiet;
      elsewhere = far;
    }
    reads-Served file offset buf w _ fits (Transfer.overflow w' long far) = absurd (omega arith)

    writes-Served :
        (file : File) (offset : ℕ) (buf : Slice) (w : r.World) (res : Result (Unit {0}) × r.World)
        → offset + buf.size ≤ u64_max
        → Transfer r laws writing file offset buf w res
        → Served (writes file offset buf) w res
    writes-Served file offset buf w _ fits (Transfer.complete w' quiet moved far) = record {
      returned = tt;
      quiet = quiet;
      elsewhere = far;
    }
    writes-Served file offset buf w _ fits (Transfer.io_error x w' raised quiet far) = record {
      returned = tt;
      quiet = quiet;
      elsewhere = far;
    }
    writes-Served file offset buf w _ fits (Transfer.overflow w' long far) = absurd (omega arith)

    writes_slices-Served :
        (file : File) (slices : List WriteSlice) (batch : WriteSlices) (data_ptr : ℕ → ℕ)
        (w : r.World) (res : Result (Unit {0}) × r.World)
        → Written file slices data_ptr r laws w res
        → Served (writes_slices file slices batch data_ptr) w res
    writes_slices-Served file slices batch data_ptr w _ (Slices.all_written w' quiet moved far) =
        record { returned = tt; quiet = quiet; elsewhere = far }
    writes_slices-Served file slices batch data_ptr w _ (Slices.io_error x w' raised quiet far) =
        record { returned = tt; quiet = quiet; elsewhere = far }

    reads_batch-Served :
        (file : File) (regions : List Region) (buffer_ptr : ℕ → Option ℕ) (w : r.World)
        (res : Result (Unit {0}) × r.World)
        → ((i : ℕ)
            → i < length regions
            → ((region_at regions i).offset + (region_at regions i).len ≤ u64_max)
              × (buffer_ptr i ≢ none))
        → Batch r laws file regions buffer_ptr w res
        → Served (reads_batch file regions buffer_ptr) w res
    reads_batch-Served file regions buffer_ptr w _ fits (Batches.all_read w' quiet moved far) =
        record { returned = tt; quiet = quiet; elsewhere = far }
    reads_batch-Served file regions buffer_ptr w _ fits (Batches.io_error x w' raised quiet far) =
        record { returned = tt; quiet = quiet; elsewhere = far }
    reads_batch-Served file regions buffer_ptr w _ fits
          (Batches.declined x i w' hi (inl long) far) =
        let ends = (fits i hi).0 in absurd (omega (arith, ends, long.1))
    reads_batch-Served file regions buffer_ptr w _ fits
          (Batches.declined x i w' hi (inr no_ptr) far) =
        absurd ((fits i hi).1 no_ptr.1)

    perform-Served :
        Wakes r laws
        → (c : Call) (w : r.World) → IsFair c w
        → pending w ≡ []
        → Served c w (perform c w)
    perform-Served wakes (reads file offset buf) w (deep, chunked, fits) quiet =
        reads-Served file offset buf w _ fits
          (submit_read_exact_at-Transfer r laws file offset buf wakes deep chunked w quiet)
    perform-Served wakes (writes file offset buf) w (deep, chunked, fits) quiet =
        writes-Served file offset buf w _ fits
          (submit_write_exact_at-Transfer r laws file offset buf wakes deep chunked w quiet)
    perform-Served wakes (writes_slices file slices batch data_ptr) w (deep, made, stored) quiet =
        writes_slices-Served file slices batch data_ptr w _
          (write_slices_at-Written r laws file slices batch data_ptr made wakes deep w quiet stored)
    perform-Served wakes (reads_batch file regions buffer_ptr) w (deep, apart, fits) quiet =
        reads_batch-Served file regions buffer_ptr w _ fits
          (read_at_batch-Batch r laws file regions buffer_ptr apart wakes deep w quiet)

    -- On a ring that keeps its laws and wakes up, with nothing in flight: any calls of a
    -- thread, each with its conditions, all return, with `Ok` or an error. After them nothing is in
    -- flight, and a byte that no call may write has not changed.
    pub Session-quiet :
        Wakes r laws
        → (cs : List Call) (w w' : r.World) → Session cs w w'
        → pending w ≡ []
        → (p : Place) → All (λ c. IsApart c p) cs
        → AllReturn cs w × (pending w' ≡ []) × (byte_at w' p ≡ byte_at w p)
    Session-quiet wakes _ w _ (over _) quiet p out = (tt, quiet, refl)
    Session-quiet wakes _ w w' (call c cs _ _ fair rest) quiet p out =
        let here = perform-Served wakes c w fair quiet in
        let (later, quiet', same) = Session-quiet wakes cs _ w' rest here.quiet p out.1 in
        ((here.returned, later), quiet', same ∙ here.elsewhere p out.0)
