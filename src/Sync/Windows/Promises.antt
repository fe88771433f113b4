-- ===== src/Sync/Windows/Promises.antt =====
-- What `std::fs` on Windows promises of the calls in src/sync/windows.rs.
use fastio.Prelude.{ℕ, ◌+◌, ◌≤◌, ◌<◌, ◌≡◌, ◌≢◌, inr, List, length, get_or}
use fastio.Sync.Windows.{Handle}

-- A transfer moves at most what it was given, at the offset it was given, and nobody else writes to
-- the file meanwhile. A seek to a start sets the cursor.
pub record Laws (h : Handle) : Type 0 where
  pub byte_at : h.World → ℕ → ℕ
  pub position : h.World → ℕ
  pub size : h.World → ℕ
  pub metadata_law : (w : h.World) (n : ℕ) → h.metadata_len w ≡ inr n → n ≡ size w
  pub position_law : (w : h.World) (p : ℕ) → (h.stream_position w).0 ≡ inr p → p ≡ position w
  pub position_bytes : (w : h.World) (k : ℕ) → byte_at (h.stream_position w).1 k ≡ byte_at w k
  pub seek_law :
      (w : h.World) (p q : ℕ) → (h.seek_start p w).0 ≡ inr q → position (h.seek_start p w).1 ≡ p
  pub seek_bytes : (w : h.World) (p k : ℕ) → byte_at (h.seek_start p w).1 k ≡ byte_at w k
  pub read_law :
      (w : h.World) (n o : ℕ) (bytes : List ℕ)
      → (h.seek_read n o w).0 ≡ inr bytes
      → (length bytes ≤ n) × ((k : ℕ) → k < length bytes → get_or bytes k 0 ≡ byte_at w (o + k))
  pub read_bytes : (w : h.World) (n o k : ℕ) → byte_at (h.seek_read n o w).1 k ≡ byte_at w k
  pub write_law :
      (w : h.World) (buf : List ℕ) (o n : ℕ)
      → (h.seek_write buf o w).0 ≡ inr n
      → (n ≤ length buf)
        × ((k : ℕ) → k < n → byte_at (h.seek_write buf o w).1 (o + k) ≡ get_or buf k 0)
  pub write_elsewhere :
      (w : h.World) (buf : List ℕ) (o p : ℕ)
      → ((k : ℕ) → k < length buf → o + k ≢ p)
      → byte_at (h.seek_write buf o w).1 p ≡ byte_at w p
