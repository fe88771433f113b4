-- ===== src/Sync/Windows/Contract.antt =====
-- The Windows calls keep the contract of a positioned file (src/sync/windows.rs).
use fastio.Prelude.{ℕ, List, sym}
use fastio.Io.{Result}
use fastio.Positioned.{
  Reads, Writes, read_all, read_failed, wrote_all, write_failed, Laws as FileLaws,
}
use fastio.Sync.Windows.{Handle, read_exact_at, write_all_at, positioned}
use fastio.Sync.Windows.Promises.{Laws}
use fastio.Sync.Windows.ReadExact.{Restored, complete, incomplete, read_exact_at-Restored}
use fastio.Sync.Windows.WriteAll.{Stored, write_all_at-Stored}
use fastio.Sync.Windows.WriteAll

module _ (h : Handle) (laws : Laws h) where
  open laws use {byte_at, position}

  pub Restored-Reads :
      (w : h.World) (offset len : ℕ) (res : Result (List ℕ) × h.World)
      → Restored h laws offset len w res
      → Reads byte_at w offset len res
  Restored-Reads w offset len _ (complete bytes w' full good same at) =
      read_all bytes w' full good same
  Restored-Reads w offset len _ (incomplete e w' same) = read_failed e w' same

  pub Stored-Writes :
      (w : h.World) (offset : ℕ) (bytes : List ℕ) (res : Result (Unit {0}) × h.World)
      → Stored h laws offset bytes w res
      → Writes byte_at w offset bytes res
  Stored-Writes w offset bytes _ (WriteAll.complete w' good far at) =
      wrote_all w' (λ k lt. sym (good k lt)) far
  Stored-Writes w offset bytes _ (WriteAll.incomplete e w' far) = write_failed e w' far

  -- The positioned operations of Windows are what `read_all`, `read_at` and `write_slices_at` rely
  -- on, if the handle keeps its promises.
  abbrev pub positioned_laws : FileLaws (positioned h)
  positioned_laws = record {
    byte_at = byte_at;
    size = laws.size;
    metadata_law = laws.metadata_law;
    read_law =
        λ w offset len. Restored-Reads w offset len _ (read_exact_at-Restored h laws offset len w);
    write_law = λ w offset bytes.
        Stored-Writes w offset bytes _ (write_all_at-Stored h laws offset bytes w);
  }

  -- For a handle that keeps its promises, both calls return in a bounded number of rounds and
  -- without a panic. With `Ok`, `read_exact_at` gives the `len` bytes of the file from `offset` on,
  -- and `write_all_at` puts the bytes of the buffer there; the cursor is then where it was. A read
  -- never changes the file, a write no byte outside of its range.
  pub exact_calls-Restored :
      (offset len : ℕ) (buf : List ℕ) (w : h.World)
      → Restored h laws offset len w (read_exact_at h offset len w)
        × Stored h laws offset buf w (write_all_at h offset buf w)
  exact_calls-Restored offset len buf w =
      (read_exact_at-Restored h laws offset len w, write_all_at-Stored h laws offset buf w)
