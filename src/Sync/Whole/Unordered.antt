-- ===== src/Sync/Whole/Unordered.antt =====
-- What `write_slices_at` of src/sync/linux.rs leaves in the file is that of slices without an order.
use fastio.Prelude.{ℕ, ◌≡◌, refl, List}
use mathlib.Core.Quot
use fastio.Io.{Error, Result, ok, err}
use fastio.Write.{WriteSlice, WriteSlices, new}
use fastio.Write.Unordered.{overlay, AllPlaced-overlay}
use fastio.Positioned.{Positioned, Laws}
use fastio.Sync.Whole.{write_slices_at}
use fastio.Sync.Whole.Store.{Elsewhere, Batch, all_stored, failed, write_slices_at-Batch}

-- The file after a batch: with `Ok` the slices are over the bytes that it had, and after an error no
-- byte outside of them has changed. There is no panic.
pub data Overlaid (f : Positioned) (laws : Laws f) (slices : List WriteSlice) (w : f.World)
    : Result (Unit {0}) × f.World → Type 0 where
  overlaid :
      (w' : f.World)
      → ((p : ℕ) → laws.byte_at w' p ≡ overlay (Quot.mk slices) (laws.byte_at w) p)
      → Overlaid f laws slices w (ok tt, w')
  broken_off :
      (e : Error) (w' : f.World)
      → Elsewhere f laws (λ v. 0) slices w w'
      → Overlaid f laws slices w (err e, w')

-- For a batch that `WriteSlices::new` made, on a file that keeps its promises: `write_slices_at`
-- returns without a panic. With `Ok` each byte of the file is that of the file before with the slices
-- over it, which depends on the slices but not on their order. After an error no byte outside of the
-- slices has changed.
pub write_slices_at-Overlaid :
    (f : Positioned) (laws : Laws f) (slices : List WriteSlice) (batch : WriteSlices) (w : f.World)
    → new slices ≡ ok batch
    → Overlaid f laws slices w (write_slices_at f batch w)
write_slices_at-Overlaid f laws slices batch w made =
    by_batch _ (write_slices_at-Batch f laws (λ v. 0) (λ o bytes v e. refl) slices batch w made)
  where
    by_batch :
        (out : Result (Unit {0}) × f.World)
        → Batch f laws (λ v. 0) slices w out
        → Overlaid f laws slices w out
    by_batch _ (all_stored v stored far same) =
        overlaid v
          (λ p. AllPlaced-overlay (laws.byte_at w) (laws.byte_at v) slices p stored (far p))
    by_batch _ (failed e v far) = broken_off e v far
