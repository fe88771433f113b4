-- ===== src/Uring/Once.antt =====
-- `submit_read_at` and `submit_write_at` of src/uring.rs: one request, which may transfer less than
-- was asked for. The two have one body, up to the opcode and the message without a completion.
pub mod Reply
use fastio.Prelude.{ℕ, zero, suc, ◌==◌, if◌then◌else◌, min, [], Option, none, some}
use fastio.Prelude.Int.{pos, negsuc}
use fastio.Io.{Error, Message, other, read_no_cqe, write_no_cqe, Result, ok, err}
use fastio.Uring.Ring.{Ring, Entry, Cqe, Opcode, read_op, write_op}
use fastio.Uring.Loop.{max_io_len, sq_full_error, raw_os_error}
use fastio.Uring.Cache.{File, with_ring}
use fastio.Uring.Exact.{Slice}

abbrev pub once_entry : Opcode → File → ℕ → Slice → Entry
once_entry o file offset buf = record {
  opcode = o;
  fd = file.fd;
  address = buf.address;
  len = min buf.size max_io_len;
  offset = offset;
  user_data = 0;
}

abbrev pub no_cqe_error : Message → Error
no_cqe_error m = record { kind = other; message = m }

-- The result of the completion.
abbrev pub cqe_result : Message → Option Cqe → Result ℕ
cqe_result m none = err (no_cqe_error m)
cqe_result m (some c) = elim c.result [ pos n ↦ ok n | negsuc n ↦ err (raw_os_error (suc n)) ]

module _ (r : Ring) where
  -- The closure: push, wait, and take one completion.
  unfoldable pub submit_once : Message → Entry → r.World → Result ℕ × r.World
  submit_once m e w = elim (r.push e w) [
    | none ↦ (err sq_full_error, w)
    | some pushed ↦
        let waited = r.submit_and_wait pushed in
        elim waited.0 [
          | some x ↦ (err x, waited.1)
          | none ↦ let reaped = r.next waited.1 in (cqe_result m reaped.0, reaped.1)
        ]
  ]

  unfoldable pub submit_read_at : File → ℕ → Slice → r.World → Result ℕ × r.World
  unfolding with_ring submit_once
  submit_read_at file offset buf w =
      if buf.size == 0
      then (ok 0, w)
      else with_ring r file (submit_once read_no_cqe (once_entry read_op file offset buf)) w

  unfoldable pub submit_write_at : File → ℕ → Slice → r.World → Result ℕ × r.World
  unfolding with_ring submit_once
  submit_write_at file offset buf w =
      if buf.size == 0
      then (ok 0, w)
      else with_ring r file (submit_once write_no_cqe (once_entry write_op file offset buf)) w
