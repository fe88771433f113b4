-- ===== src/Uring/Exact.antt =====
-- `submit_read_exact_at` and `submit_write_exact_at` of src/uring.rs: one buffer in chunks. The two
-- have one body, up to the opcode, the messages and the kind of the error for no byte.
-- A slice has at most `isize::MAX` bytes, so no sum of positions inside of it overflows `usize`.
pub mod Chunks
pub mod Transfer
pub mod Early
use fastio.Prelude.{ℕ, ◌+◌, ◌-◌, ◌*◌, ◌/◌, ◌%◌, ◌==◌, if◌then◌else◌, min, []}
use fastio.Io.{
  Error, Message, ErrorKind, invalid_input, unexpected_eof, write_zero, read_offset_overflow,
  write_offset_overflow, short_io, Result, ok, ◌>>=◌, ok_or, checked_add, u64_max,
}
use fastio.Uring.Ring.{Ring, Entry, Opcode, read_op, write_op}
use fastio.Uring.Loop.{Plan, run}
use fastio.Uring.Cache.{File, with_ring}

-- A slice: where its bytes are in memory, and how many there are.
pub record Slice : Type 0 where
  pub address : ℕ
  pub size : ℕ

-- `usize::div_ceil`.
abbrev pub div_ceil : ℕ → ℕ → ℕ
div_ceil a b = a / b + (if a % b == 0 then 0 else 1)

-- What differs between a read and a write.
pub record Direction : Type 0 where
  pub opcode : Opcode
  pub overflow : Message
  pub no_byte : ErrorKind

abbrev pub reading : Direction
reading = record { opcode = read_op; overflow = read_offset_overflow; no_byte = unexpected_eof }

abbrev pub writing : Direction
writing = record { opcode = write_op; overflow = write_offset_overflow; no_byte = write_zero }

abbrev pub overflow_error : Direction → Error
overflow_error d = record { kind = invalid_input; message = d.overflow }

abbrev pub chunk_size_for : File → Slice → ℕ
chunk_size_for file buf = min file.chunk_size buf.size

abbrev pub chunk_len_at : ℕ → ℕ → ℕ → ℕ
chunk_len_at chunk_size total idx =
    let chunk_start = idx * chunk_size in min total (chunk_start + chunk_size) - chunk_start

unfoldable pub exact_entry : Direction → File → ℕ → Slice → ℕ → ℕ → ℕ → Result Entry
exact_entry d file offset buf idx so_far len = do
  let buf_offset = idx * chunk_size_for file buf + so_far
  file_offset ← ok_or (checked_add u64_max offset buf_offset) (overflow_error d)
  ok (record {
    opcode = d.opcode;
    fd = file.fd;
    address = buf.address + buf_offset;
    len = len;
    offset = file_offset;
    user_data = idx;
  })

abbrev pub exact_plan : Direction → File → ℕ → Slice → Plan
exact_plan d file offset buf = record {
  count = div_ceil buf.size (chunk_size_for file buf);
  chunk_len = chunk_len_at (chunk_size_for file buf) buf.size;
  entry = exact_entry d file offset buf;
  short = record { kind = d.no_byte; message = short_io };
}

module _ (r : Ring) where
  abbrev pub submit_exact_at : Direction → File → ℕ → Slice → r.World → Result (Unit {0}) × r.World
  submit_exact_at d file offset buf w =
      if buf.size == 0
      then (ok tt, w)
      else with_ring r file (run r (exact_plan d file offset buf) file.ring_depth) w

  unfoldable pub submit_read_exact_at : File → ℕ → Slice → r.World → Result (Unit {0}) × r.World
  unfolding with_ring run exact_entry
  submit_read_exact_at = submit_exact_at reading

  unfoldable pub submit_write_exact_at : File → ℕ → Slice → r.World → Result (Unit {0}) × r.World
  unfolding with_ring run exact_entry
  submit_write_exact_at = submit_exact_at writing
