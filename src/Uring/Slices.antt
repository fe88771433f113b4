-- ===== src/Uring/Slices.antt =====
-- `submit_write_slices_at` and `write_slices_at` of src/uring.rs: a batch of positioned writes, one
-- chunk to a slice. `data_ptr idx` is the address of the data of slice `idx`.
pub mod Requests
pub mod Transfer
use fastio.Prelude.{ℕ, ◌+◌, ◌==◌, if◌then◌else◌, List, [], length, get_or}
use fastio.Io.{
  Error, invalid_input, write_zero, write_offset_overflow, short_io, Result, ok, ◌>>=◌, ok_or,
  checked_add, u64_max,
}
use fastio.Write.{WriteSlice, WriteSlices}
use fastio.Uring.Ring.{Ring, Entry, write_op}
use fastio.Uring.Loop.{Plan, run}
use fastio.Uring.Cache.{File, with_ring}

-- `writes[idx]`, for an index in range.
abbrev pub slice_at : List WriteSlice → ℕ → WriteSlice
slice_at writes idx = get_or writes idx (record { offset = 0; bytes = [] })

abbrev pub slice_overflow : Error
slice_overflow = record { kind = invalid_input; message = write_offset_overflow }

unfoldable pub slice_entry : File → List WriteSlice → (ℕ → ℕ) → ℕ → ℕ → ℕ → Result Entry
slice_entry file writes data_ptr idx so_far len = do
  file_offset ← ok_or (checked_add u64_max (slice_at writes idx).offset so_far) slice_overflow
  ok (record {
    opcode = write_op;
    fd = file.fd;
    address = data_ptr idx + so_far;
    len = len;
    offset = file_offset;
    user_data = idx;
  })

abbrev pub slices_plan : File → List WriteSlice → (ℕ → ℕ) → Plan
slices_plan file writes data_ptr = record {
  count = length writes;
  chunk_len = λ idx. length (slice_at writes idx).bytes;
  entry = slice_entry file writes data_ptr;
  short = record { kind = write_zero; message = short_io };
}

module _ (r : Ring) where
  unfoldable pub submit_write_slices_at :
      File → List WriteSlice → (ℕ → ℕ) → r.World → Result (Unit {0}) × r.World
  unfolding with_ring run slice_entry
  submit_write_slices_at file writes data_ptr w =
      if length writes == 0
      then (ok tt, w)
      else with_ring r file (run r (slices_plan file writes data_ptr) file.ring_depth) w

  unfoldable pub write_slices_at :
      File → WriteSlices → (ℕ → ℕ) → r.World → Result (Unit {0}) × r.World
  write_slices_at file writes data_ptr w = submit_write_slices_at file writes.as_slice data_ptr w
