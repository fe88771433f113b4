-- ===== src/Sync/Windows/WriteAll.antt =====
-- `write_all_at` writes the range and puts the cursor back (src/sync/windows.rs).
use fastio.Prelude.{ℕ, ◌+◌, ◌≡◌, ◌⊎◌, inl, inr, refl, ◌∙◌, List, length, arith}
use fastio.Io.{Error, Result, ok, err}
use fastio.Sync.Windows.{Handle, seek_write_exact, restored, write_all_at}
use fastio.Sync.Windows.Promises.{Laws}
use fastio.Sync.Windows.Writing.{Elsewhere, HasPrefix, Wrote, all_written, failed, write_loop-Wrote}

-- What `write_all_at` does: with `Ok` the range has the bytes, and the cursor is where it was; the
-- rest of the file is as before in any case.
pub data Stored (h : Handle) (laws : Laws h) (offset : ℕ) (buf : List ℕ) (start : h.World)
    : Result (Unit {0}) × h.World → Type 0 where
  complete :
      (w : h.World)
      → HasPrefix h laws offset buf start (length buf) w
      → Elsewhere h laws offset buf start w
      → laws.position w ≡ laws.position start
      → Stored h laws offset buf start (ok tt, w)
  incomplete :
      (e : Error) (w : h.World)
      → Elsewhere h laws offset buf start w
      → Stored h laws offset buf start (err e, w)

module _ (h : Handle) (laws : Laws h) (offset : ℕ) (buf : List ℕ) (start : h.World) where
  saved : h.World
  saved = (h.stream_position start).1

  -- The seek back, after the transfer from `saved` on.
  back-Stored :
      (res : Result (Unit {0}) × h.World)
      → Wrote h laws offset buf saved res
      → (s : Error ⊎ ℕ) → (h.seek_start (laws.position start) res.1).0 ≡ s
      → Stored h laws offset buf start
          (restored h res.0 s, (h.seek_start (laws.position start) res.1).1)
  unfolding saved
  back-Stored _ (all_written w good far) (inr q) k =
      complete _ (λ i lt. laws.seek_bytes w _ (offset + i) ∙ good i lt)
        (λ p out. laws.seek_bytes w _ p ∙ far p out ∙ laws.position_bytes start p)
        (laws.seek_law w _ q k)
  back-Stored _ (all_written w good far) (inl e) k =
      incomplete e _ (λ p out. laws.seek_bytes w _ p ∙ far p out ∙ laws.position_bytes start p)
  back-Stored _ (failed e w far) s k =
      incomplete e _ (λ p out. laws.seek_bytes w _ p ∙ far p out ∙ laws.position_bytes start p)

  seek_write_exact-Wrote : Wrote h laws offset buf saved (seek_write_exact h offset buf saved)
  unfolding seek_write_exact
  seek_write_exact-Wrote =
      write_loop-Wrote h laws offset buf saved (length buf) 0 saved (omega arith) (omega arith)
        (λ k lt. absurd (omega (arith, lt))) (λ p out. refl)

  pub write_all_at-Stored : Stored h laws offset buf start (write_all_at h offset buf start)
  unfolding write_all_at saved
  write_all_at-Stored = by_position (h.stream_position start).0 refl
    where
      by_position :
          (a : Error ⊎ ℕ)
          → (h.stream_position start).0 ≡ a
          → Stored h laws offset buf start (elim a [
            | inl e ↦ (err e, saved)
            | inr p ↦
                let result = seek_write_exact h offset buf saved in
                let restore = h.seek_start p result.1 in (restored h result.0 restore.0, restore.1)
          ])
      by_position (inl e) k = incomplete e _ (λ p out. laws.position_bytes start p)
      by_position (inr p) k =
          rw (laws.position_law start p k)
            (back-Stored (seek_write_exact h offset buf saved) seek_write_exact-Wrote _ refl)
