-- ===== src/Sync/Windows/Backend.antt =====
-- `read_all`, `read_at` and `write_slices_at` of src/sync/windows.rs, which have the text of
-- src/sync/linux.rs over the calls of src/sync/windows.rs.
use fastio.Prelude.{ℕ}
use fastio.Io.{Result}
use fastio.Write.{WriteSlices}
use fastio.Buffer.{Pool}
use fastio.Sync.Windows.{Handle, positioned}
use fastio.Sync.Whole
use fastio.Sync.Whole.{Fetch}

module _ (h : Handle) where
  module _ (pool : Pool) where
    unfoldable pub read_all : Fetch (positioned h) pool
    read_all = Whole.read_all (positioned h) pool

    unfoldable pub read_at : ℕ → ℕ → Fetch (positioned h) pool
    read_at offset len = Whole.read_at (positioned h) pool offset len

  unfoldable pub write_slices_at : WriteSlices → h.World → Result (Unit {0}) × h.World
  write_slices_at writes = Whole.write_slices_at (positioned h) writes
