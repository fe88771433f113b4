-- ===== src/Uring/Whole.antt =====
-- `read_all`, `read_at`, `read_exact_at` and `write_all_at` of src/uring.rs, over the exact transfers.
pub mod RoundTrip
pub mod Fetch
use fastio.Prelude.{ℕ, List, ◌⊎◌, inl, inr, Option, none, some, length, bytes_from}
use fastio.Io.{Error, Result, ok, err, panic, stuck, try_from, usize_max}
use fastio.Buffer.{Pool, Bytes, allocate}
use fastio.Sync.Whole.{too_large_error}
use fastio.Uring.Ring.{Ring}
use fastio.Uring.Cache.{File}
use fastio.Uring.Exact.{Slice, submit_read_exact_at, submit_write_exact_at}

module _ (r : Ring) where
  unfoldable pub read_exact_at : File → ℕ → Slice → r.World → Result (Unit {0}) × r.World
  read_exact_at file offset buf w = submit_read_exact_at r file offset buf w

  unfoldable pub write_all_at : File → ℕ → Slice → r.World → Result (Unit {0}) × r.World
  write_all_at file offset buf w = submit_write_exact_at r file offset buf w

  -- `peek` reads the memory, `address` is where the slice of the new buffer lies, and
  -- `metadata_len` is the length that the operating system reports.
  module _ (peek : r.World → ℕ → ℕ) (metadata_len : File → r.World → Error ⊎ ℕ) (pool : Pool)
      (address : ℕ) where
    -- The slice of the buffer after a read.
    abbrev pub slice_after : ℕ → Result (Unit {0}) × r.World → Result (List ℕ) × r.World
    slice_after len (ok u, w) = (ok (bytes_from (peek w) address len), w)
    slice_after len (err e, w) = (err e, w)
    slice_after len (panic, w) = (panic, w)
    slice_after len (stuck, w) = (stuck, w)

    -- The closures that `Bytes::allocate` gets.
    abbrev pub fill_at : File → ℕ → List ℕ → r.World → Result (List ℕ) × r.World
    fill_at file offset buf w =
        slice_after (length buf)
          (read_exact_at file offset (record { address = address; size = length buf }) w)

    abbrev pub Fetch : Type 0
    Fetch = pool.Store → r.World → Result (Bytes pool) × pool.Store × r.World

    unfoldable pub read_at : File → ℕ → ℕ → Fetch
    read_at file offset len = allocate pool len (fill_at file offset)

    abbrev pub read_all_len : File → Error ⊎ ℕ → Fetch
    read_all_len file (inl e) s w = (err e, s, w)
    read_all_len file (inr len_u64) s w = elim (try_from usize_max len_u64) [
      | none ↦ (err too_large_error, s, w)
      | some len ↦ allocate pool len (fill_at file 0) s w
    ]

    unfoldable pub read_all : File → Fetch
    read_all file s w = read_all_len file (metadata_len file w) s w
