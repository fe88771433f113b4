-- ===== src/Sync/Whole.antt =====
-- `read_all`, `read_at` and `write_slices_at` of src/sync/linux.rs over the positioned calls of
-- `std::os::unix::fs::FileExt`; src/sync/windows.rs has the same text over its own calls.
pub mod Fetch
pub mod Store
pub mod RoundTrip
pub mod First
pub mod Unordered
use fastio.Prelude.{ℕ, List, [], ◌∷◌, ◌⊎◌, inl, inr, none, some, length}
use fastio.Io.{Error, other, file_too_large, Result, ok, err, panic, stuck, try_from, usize_max}
use fastio.Write.{WriteSlice, WriteSlices}
use fastio.Buffer.{Pool, Bytes, allocate}
use fastio.Positioned.{Positioned}

abbrev pub too_large_error : Error
too_large_error = record { kind = other; message = file_too_large }

module _ (f : Positioned) (pool : Pool) where
  abbrev pub Fetch : Type 0
  Fetch = pool.Store → f.World → Result (Bytes pool) × pool.Store × f.World

  -- `read_exact_at`, which passes the slice of the buffer on.
  abbrev pub fill_at : ℕ → List ℕ → f.World → Result (List ℕ) × f.World
  fill_at offset buf w = f.read_exact_at offset (length buf) w

  unfoldable pub read_at : ℕ → ℕ → Fetch
  read_at offset len = allocate pool len (fill_at offset)

  abbrev pub read_all_len : Error ⊎ ℕ → Fetch
  read_all_len (inl e) s w = (err e, s, w)
  read_all_len (inr len_u64) s w = elim (try_from usize_max len_u64) [
    | none ↦ (err too_large_error, s, w)
    | some len ↦ allocate pool len (fill_at 0) s w
  ]

  unfoldable pub read_all : Fetch
  read_all s w = read_all_len (f.metadata_len w) s w

module _ (f : Positioned) where
  -- The `for` loop of `write_slices_at`, which ends at the first error.
  pub write_each : List WriteSlice → f.World → Result (Unit {0}) × f.World
  write_each [] w = (ok tt, w)
  write_each (write ∷ writes) w =
      let one = f.write_all_at write.offset write.bytes w in
      elim one.0 [
        | ok u ↦ write_each writes one.1
        | err e ↦ (err e, one.1)
        | panic ↦ (panic, one.1)
        | stuck ↦ (stuck, one.1)
      ]

  unfoldable pub write_slices_at : WriteSlices → f.World → Result (Unit {0}) × f.World
  unfolding write_each
  write_slices_at writes w = write_each writes.as_slice w
