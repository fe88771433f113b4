-- ===== src/Uring/Batch.antt =====
-- `read_at_batch` of src/uring.rs: several regions of a file, one chunk to a region. The buffers
-- are given by `buffer_ptr`: the address that `as_mut_slice` of buffer `idx` gives, or `none`.
pub mod Requests
pub mod Transfer
use fastio.Prelude.{ℕ, ◌+◌, ◌==◌, if◌then◌else◌, List, [], Option, none, some, length, get_or}
use fastio.Io.{
  Error, invalid_input, unexpected_eof, other, read_offset_overflow, short_batch_read,
  batch_buffer_not_mutable, Result, ok, ◌>>=◌, ok_or, checked_add, u64_max,
}
use fastio.Uring.Ring.{Ring, Entry, read_op}
use fastio.Uring.Loop.{Plan, run}
use fastio.Uring.Cache.{File, with_ring}

-- An `(offset, len)` pair.
pub record Region : Type 0 where
  pub offset : ℕ
  pub len : ℕ

-- `regions[idx]`, for an index in range.
abbrev pub region_at : List Region → ℕ → Region
region_at regions idx = get_or regions idx (record { offset = 0; len = 0 })

abbrev pub region_overflow : Error
region_overflow = record { kind = invalid_input; message = read_offset_overflow }

abbrev pub not_mutable : Error
not_mutable = record { kind = other; message = batch_buffer_not_mutable }

unfoldable pub region_entry : File → List Region → (ℕ → Option ℕ) → ℕ → ℕ → ℕ → Result Entry
region_entry file regions buffer_ptr idx so_far len = do
  buf ← ok_or (buffer_ptr idx) not_mutable
  file_offset ← ok_or (checked_add u64_max (region_at regions idx).offset so_far) region_overflow
  ok (record {
    opcode = read_op;
    fd = file.fd;
    address = buf + so_far;
    len = len;
    offset = file_offset;
    user_data = idx;
  })

abbrev pub regions_plan : File → List Region → (ℕ → Option ℕ) → Plan
regions_plan file regions buffer_ptr = record {
  count = length regions;
  chunk_len = λ idx. (region_at regions idx).len;
  entry = region_entry file regions buffer_ptr;
  short = record { kind = unexpected_eof; message = short_batch_read };
}

module _ (r : Ring) where
  -- With `Ok` the buffers are returned.
  unfoldable pub read_at_batch :
      File → List Region → (ℕ → Option ℕ) → r.World → Result (Unit {0}) × r.World
  unfolding with_ring run region_entry
  read_at_batch file regions buffer_ptr w =
      if length regions == 0
      then (ok tt, w)
      else with_ring r file (run r (regions_plan file regions buffer_ptr) file.ring_depth) w
