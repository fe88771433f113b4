-- ===== src/Tokio/Windows/Contract.antt =====
-- The positioned calls of src/tokio/mod.rs for Windows put the cursor back, and the tasks can rely on
-- them.
use fastio.Prelude.{ℕ, List, []}
use fastio.Positioned.{Laws as FileLaws}
use fastio.Sync.Windows.{Handle, write_all_at}
use fastio.Sync.Windows.Promises.{Laws}
use fastio.Sync.Windows.ReadExact.{Restored, keep_cursor-Restored, read_loop-whole}
use fastio.Sync.Windows.WriteAll.{Stored, write_all_at-Stored}
use fastio.Sync.Windows.Contract.{Restored-Reads, Stored-Writes}
use fastio.Tokio.Windows.{
  eof_error, seek_read_exact, read_at_positioned, write_at_positioned, blocking,
}

module _ (h : Handle) (laws : Laws h) where
  -- For a handle that keeps its promises, both calls return in a bounded number of rounds and
  -- without a panic. With `Ok`, `read_at_positioned` gives the bytes of the range, and
  -- `write_at_positioned` puts its bytes into the range; the cursor is then where it was. A read
  -- never changes the file, a write no byte outside of its range.
  pub positioned_calls-Restored :
      (offset len : ℕ) (buf : List ℕ) (w : h.World)
      → Restored h laws offset len w (read_at_positioned h offset len w)
        × Stored h laws offset buf w (write_at_positioned h offset buf w)
  unfolding read_at_positioned write_at_positioned write_all_at
  positioned_calls-Restored offset len buf w = (
    keep_cursor-Restored h laws offset len w (seek_read_exact h offset len)
        (read_loop-whole h laws offset len w eof_error),
    write_all_at-Stored h laws offset buf w,
  )

  -- The calls are what the tasks rely on.
  abbrev pub blocking_laws : FileLaws (blocking h)
  blocking_laws = record {
    byte_at = laws.byte_at;
    size = laws.size;
    metadata_law = laws.metadata_law;
    read_law = λ w offset len.
        Restored-Reads h laws w offset len _ (positioned_calls-Restored offset len [] w).0;
    write_law = λ w offset bytes.
        Stored-Writes h laws w offset bytes _ (positioned_calls-Restored offset 0 bytes w).1;
  }
