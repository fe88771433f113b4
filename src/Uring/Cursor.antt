-- ===== src/Uring/Cursor.antt =====
-- The cursor of a handle: `Read`, `Write` and `Seek` of src/uring.rs, over the position that clones
-- of the handle share under a lock.
pub mod Progress
pub mod Target
pub mod Returned
pub mod Clones
pub mod Sequential
use fastio.Prelude.{
  ℕ, zero, suc, ◌+◌, ◌-◌, ◌^◌, ◌==◌, leb, Bool, true, false, not, ◌&&◌, if◌then◌else◌, ◌⊎◌, inl,
  inr, Option, none, some,
}
use fastio.Prelude.Int.{ℤ, pos, negsuc, pos_part, neg_part, ◌+ℤ◌}
use fastio.Io.{
  Error, invalid_input, write_zero, other, position_lock_poisoned, file_position_overflow,
  invalid_negative_file_position, short_write, Result, ok, err, panic, stuck, checked_add, try_from,
  u64_max, ok_or, answer, ◌>>=◌,
}
use fastio.StdFile.{SeekFrom, start, current, from_end}
use fastio.Uring.Ring.{Ring}
use fastio.Uring.Cache.{File}
use fastio.Uring.Exact.{Slice}
use fastio.Uring.Once.{submit_read_at, submit_write_at}

-- `Arc<Mutex<u64>>`: a lock is poisoned when a thread panicked that held it.
pub record Position : Type 0 where
  pub poisoned : Bool
  pub at : ℕ

abbrev pub lock_error : Error
lock_error = record { kind = other; message = position_lock_poisoned }

abbrev pub position_overflow : Error
position_overflow = record { kind = invalid_input; message = file_position_overflow }

abbrev pub short_write_error : Error
short_write_error = record { kind = write_zero; message = short_write }

module _ (r : Ring) where
  -- `*position = position.checked_add(n)?`, after the transfer returned. A panic of the transfer
  -- poisons the lock.
  abbrev pub move_position : Position → Result ℕ × r.World → Result ℕ × Position × r.World
  move_position p (ok n, w) = elim (checked_add u64_max p.at n) [
    | none ↦ (err position_overflow, p, w)
    | some next ↦ (ok n, record p { at = next }, w)
  ]
  move_position p (err e, w) = (err e, p, w)
  move_position p (panic, w) = (panic, record p { poisoned = true }, w)
  move_position p (stuck, w) = (stuck, p, w)

  -- A write of no byte of a non-empty buffer is an error.
  abbrev pub reject_empty : Slice → Result ℕ × r.World → Result ℕ × r.World
  reject_empty buf (ok n, w) =
      (if (n == 0) && not (buf.size == 0) then err short_write_error else ok n, w)
  reject_empty buf (err e, w) = (err e, w)
  reject_empty buf (panic, w) = (panic, w)
  reject_empty buf (stuck, w) = (stuck, w)

  unfoldable pub read : File → Slice → Position → r.World → Result ℕ × Position × r.World
  read file buf p w =
      if p.poisoned
      then (err lock_error, p, w)
      else move_position p (submit_read_at r file p.at buf w)

  unfoldable pub write : File → Slice → Position → r.World → Result ℕ × Position × r.World
  write file buf p w =
      if p.poisoned
      then (err lock_error, p, w)
      else move_position p (reject_empty buf (submit_write_at r file p.at buf w))

-- `i128::checked_add`.
abbrev pub checked_add_i128 : ℤ → ℤ → Option ℤ
checked_add_i128 a b =
    let sum = a +ℤ b in
    if leb (pos_part sum) (2 ^ 127 - 1) && leb (neg_part sum) (2 ^ 127) then some sum else none

-- `u64::try_from` of an `i128`.
abbrev pub u64_try_from : ℤ → Option ℕ
u64_try_from (pos n) = try_from u64_max n
u64_try_from (negsuc n) = none

abbrev pub negative_position : Error
negative_position = record { kind = invalid_input; message = invalid_negative_file_position }

-- The position that a relative seek leads to.
unfoldable pub seek_target : ℕ → ℤ → Result ℕ
unfolding ◌+ℤ◌
seek_target base delta = do
  next ← ok_or (checked_add_i128 (pos base) delta) position_overflow
  ok_or (u64_try_from next) negative_position

-- The position of a handle, after the result of a relative seek.
abbrev pub set_position : Position → Result ℕ → Result ℕ × Position
set_position p (ok next) = (ok next, record p { at = next })
set_position p (err e) = (err e, p)
set_position p panic = (panic, record p { poisoned = true })
set_position p stuck = (stuck, p)

-- `metadata_len` is the length that the file's metadata gives, or the error of asking for it.
abbrev pub seek_unlocked : Error ⊎ ℕ → SeekFrom → Position → Result ℕ × Position
seek_unlocked metadata_len (start offset) p = (ok offset, record p { at = offset })
seek_unlocked metadata_len (current delta) p = set_position p (seek_target p.at delta)
seek_unlocked metadata_len (from_end delta) p =
    set_position p (answer metadata_len >>= λ len. seek_target len delta)

unfoldable pub seek : Error ⊎ ℕ → SeekFrom → Position → Result ℕ × Position
seek metadata_len from p =
    if p.poisoned then (err lock_error, p) else seek_unlocked metadata_len from p
