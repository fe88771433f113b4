-- ===== src/Tokio/Windows.antt =====
-- The positioned calls of src/tokio/mod.rs for Windows. They are those of src/sync/windows.rs, but
-- for the error of a read of no byte.
pub mod Contract
pub mod Shared
pub mod Tests
use fastio.Prelude.{ℕ, List, []}
use fastio.Io.{Error, unexpected_eof, eof_in_positioned_read, Result}
use fastio.Positioned.{Positioned}
use fastio.Sync.Windows.{Handle, read_loop, keep_cursor, seek_write_exact as write_exact}

abbrev pub eof_error : Error
eof_error = record { kind = unexpected_eof; message = eof_in_positioned_read }

module _ (h : Handle) where
  abbrev pub seek_read_exact : ℕ → ℕ → h.World → Result (List ℕ) × h.World
  seek_read_exact offset len w = read_loop h eof_error len offset len [] w

  unfoldable pub read_at_positioned : ℕ → ℕ → h.World → Result (List ℕ) × h.World
  read_at_positioned offset len w = keep_cursor h (seek_read_exact offset len) w

  abbrev pub seek_write_exact : ℕ → List ℕ → h.World → Result (Unit {0}) × h.World
  seek_write_exact offset buf w = write_exact h offset buf w

  unfoldable pub write_at_positioned : ℕ → List ℕ → h.World → Result (Unit {0}) × h.World
  write_at_positioned offset buf w = keep_cursor h (seek_write_exact offset buf) w

  -- The calls as a positioned file, for the tasks.
  abbrev pub blocking : Positioned
  blocking = record {
    World = h.World;
    metadata_len = h.metadata_len;
    read_exact_at = read_at_positioned;
    write_all_at = write_at_positioned;
  }
