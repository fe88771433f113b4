-- ===== src/Sync/Windows/ReadExact.antt =====
-- `read_exact_at` reads the range and puts the cursor back (src/sync/windows.rs).
use fastio.Prelude.{ℕ, ◌+◌, ◌≡◌, ◌⊎◌, inl, inr, refl, ◌∙◌, List, [], length, arith}
use fastio.Io.{Error, Result, ok, err}
use fastio.Sync.Windows.{
  Handle, read_loop, no_byte_read, seek_read_exact, restored, keep_cursor, read_exact_at,
}
use fastio.Sync.Windows.Promises.{Laws}
use fastio.Sync.Windows.Reading.{Same, IsPrefix, Read, all_read, failed, read_loop-Read}

-- What `read_exact_at` does: with `Ok` it gives the bytes of the range, and the cursor is where it
-- was; the file is as before in any case.
pub data Restored (h : Handle) (laws : Laws h) (offset len : ℕ) (start : h.World)
    : Result (List ℕ) × h.World → Type 0 where
  complete :
      (read : List ℕ) (w : h.World)
      → length read ≡ len
      → IsPrefix h laws offset len start read
      → Same h laws offset len start w
      → laws.position w ≡ laws.position start
      → Restored h laws offset len start (ok read, w)
  incomplete :
      (e : Error) (w : h.World)
      → Same h laws offset len start w
      → Restored h laws offset len start (err e, w)

module _ (h : Handle) (laws : Laws h) (offset len : ℕ) (start : h.World) where
  pub saved : h.World
  saved = (h.stream_position start).1

  -- The seek back, after the transfer from `saved` on.
  back-Restored :
      (res : Result (List ℕ) × h.World)
      → Read h laws offset len saved res
      → (s : Error ⊎ ℕ) → (h.seek_start (laws.position start) res.1).0 ≡ s
      → Restored h laws offset len start
          (restored h res.0 s, (h.seek_start (laws.position start) res.1).1)
  unfolding saved
  back-Restored _ (all_read read w full good same) (inr q) k =
      complete read _ full (λ i lt. good i lt ∙ laws.position_bytes start (offset + i))
        (λ i. laws.seek_bytes w _ i ∙ same i ∙ laws.position_bytes start i) (laws.seek_law w _ q k)
  back-Restored _ (all_read read w full good same) (inl e) k =
      incomplete e _ (λ i. laws.seek_bytes w _ i ∙ same i ∙ laws.position_bytes start i)
  back-Restored _ (failed e w same) s k =
      incomplete e _ (λ i. laws.seek_bytes w _ i ∙ same i ∙ laws.position_bytes start i)

  -- A transfer that reads the range, between saving the cursor and putting it back.
  pub keep_cursor-Restored :
      (transfer : h.World → Result (List ℕ) × h.World)
      → Read h laws offset len saved (transfer saved)
      → Restored h laws offset len start (keep_cursor h transfer start)
  unfolding saved
  keep_cursor-Restored transfer moves = by_position (h.stream_position start).0 refl
    where
      by_position :
          (a : Error ⊎ ℕ)
          → (h.stream_position start).0 ≡ a
          → Restored h laws offset len start (elim a [
            | inl e ↦ (err e, saved)
            | inr p ↦
                let result = transfer saved in
                let restore = h.seek_start p result.1 in (restored h result.0 restore.0, restore.1)
          ])
      by_position (inl e) k = incomplete e _ (laws.position_bytes start)
      by_position (inr p) k =
          rw (laws.position_law start p k) (back-Restored (transfer saved) moves _ refl)

  -- The loop from its start, with the error that it has for a read of no byte.
  pub read_loop-whole :
      (short : Error) → Read h laws offset len saved (read_loop h short len offset len [] saved)
  read_loop-whole short =
      read_loop-Read h laws offset len saved short len [] saved (omega arith) (omega arith)
        (λ k lt. elim lt [ ]) (λ k. refl)

  pub read_exact_at-Restored : Restored h laws offset len start (read_exact_at h offset len start)
  unfolding read_exact_at seek_read_exact
  read_exact_at-Restored =
      keep_cursor-Restored (seek_read_exact h offset len) (read_loop-whole no_byte_read)
