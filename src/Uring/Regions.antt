-- ===== src/Uring/Regions.antt =====
-- `read_at_batch` of src/uring.rs with its buffers: they are allocated, the batch reads into them,
-- and they are returned.
pub mod Fresh
pub mod Filled
use fastio.Prelude.{
  ℕ, ◌+◌, ◌==◌, if◌then◌else◌, List, [], ◌∷◌, Option, none, some, length, get_elem?, bytes_from,
}
use fastio.Io.{Error, Result, ok, err, panic, stuck}
use fastio.Buffer.{Pool, Storage, pooled, mmap, vec, Bytes, len, as_mut_slice, allocate}
use fastio.Uring.Ring.{Ring}
use fastio.Uring.Cache.{File}
use fastio.Uring.Batch.{Region, read_at_batch}

-- The closure `|_| Ok(())` leaves the slice as it is.
abbrev pub leave_slice : List ℕ → Unit {0} → Result (List ℕ) × Unit {0}
leave_slice slice u = (ok slice, u)

module _ (pool : Pool) where
  -- The drop of a buffer, of several, and of those of a result: what a pool gave goes back to it.
  abbrev pub drop_storage : Storage pool → pool.Store → pool.Store
  drop_storage (pooled b) s = pool.give_back b s
  drop_storage (mmap region) s = s
  drop_storage (vec v) s = s

  abbrev pub drop_all : List (Bytes pool) → pool.Store → pool.Store
  drop_all [] s = s
  drop_all (b ∷ bs) s = drop_all bs (drop_storage b.inner s)

  -- `collect`: the first error ends it, and the buffers that it has are dropped. The free buffers come with the result.
  abbrev pub collect :
      Result (Bytes pool)
      → pool.Store
      → Result (List (Bytes pool)) × pool.Store
      → Result (List (Bytes pool)) × pool.Store
  collect (ok b) s (ok bs, s') = (ok (b ∷ bs), s')
  collect (ok b) s (err e, s') = (err e, drop_storage b.inner s')
  collect (ok b) s (panic, s') = (panic, drop_storage b.inner s')
  collect (ok b) s (stuck, s') = (stuck, s')
  collect (err e) s rest = (err e, s)
  collect panic s rest = (panic, s)
  collect stuck s rest = (stuck, s)

  unfoldable pub allocate_each : List Region → pool.Store → Result (List (Bytes pool)) × pool.Store
  allocate_each [] s = (ok [], s)
  allocate_each (region ∷ regions) s =
      let one = allocate pool region.len leave_slice s tt in
      collect one.0 one.1 (allocate_each regions one.1)

  -- The slice of buffer `idx` for writing starts at `addresses idx`.
  abbrev pub slice_ptr : (ℕ → ℕ) → ℕ → Option (Bytes pool) → Option ℕ
  slice_ptr addresses idx none = none
  slice_ptr addresses idx (some b) = elim (as_mut_slice pool b) [
    | none ↦ none
    | some slice ↦ some (addresses idx)
  ]

  abbrev pub buffer_ptr : List (Bytes pool) → (ℕ → ℕ) → ℕ → Option ℕ
  buffer_ptr buffers addresses idx = slice_ptr addresses idx (get_elem? buffers idx)

  -- A buffer whose bytes the kernel has written.
  abbrev pub refill : Storage pool → List ℕ → Bytes pool
  refill (pooled b) bytes = record { inner = pooled (pool.assume_init bytes b) }
  refill (mmap region) bytes = record { inner = mmap region }
  refill (vec v) bytes = record { inner = vec bytes }

  -- The buffers from `idx` on, with the bytes that the memory has.
  abbrev pub refilled : (ℕ → ℕ) → (ℕ → ℕ) → ℕ → List (Bytes pool) → List (Bytes pool)
  refilled memory_at addresses idx [] = []
  refilled memory_at addresses idx (b ∷ bs) =
      refill b.inner (bytes_from memory_at (addresses idx) (len pool b))
      ∷ refilled memory_at addresses (idx + 1) bs

  module _ (r : Ring) (peek : r.World → ℕ → ℕ) (addresses : ℕ → ℕ) where
    -- The buffers are returned, or dropped.
    abbrev pub finish :
        List (Bytes pool)
        → pool.Store
        → Result (Unit {0}) × r.World
        → Result (List (Bytes pool)) × pool.Store × r.World
    finish buffers s (ok u, w) = (ok (refilled (peek w) addresses 0 buffers), s, w)
    finish buffers s (err e, w) = (err e, drop_all buffers s, w)
    finish buffers s (panic, w) = (panic, drop_all buffers s, w)
    finish buffers s (stuck, w) = (stuck, s, w)

    abbrev pub read_into :
        File
        → List Region
        → Result (List (Bytes pool)) × pool.Store
        → r.World
        → Result (List (Bytes pool)) × pool.Store × r.World
    read_into file regions (ok buffers, s) w =
        finish buffers s (read_at_batch r file regions (buffer_ptr buffers addresses) w)
    read_into file regions (err e, s) w = (err e, s, w)
    read_into file regions (panic, s) w = (panic, s, w)
    read_into file regions (stuck, s) w = (stuck, s, w)

    unfoldable pub read_regions :
        File
        → List Region
        → pool.Store
        → r.World
        → Result (List (Bytes pool)) × pool.Store × r.World
    unfolding allocate_each
    read_regions file regions s w =
        if length regions == 0
        then (ok [], s, w)
        else read_into file regions (allocate_each regions s) w
