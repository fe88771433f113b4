-- ===== src/Tokio/Windows/Shared/Lost.antt =====
-- Two threads of a wave can lose the cursor of the handle (src/tokio/mod.rs).
use fastio.Prelude.{
  ℕ, ◌+◌, ◌≤◌, ◌≡◌, ◌≢◌, refl, subst, List, [], ◌∷◌, some, length, take, drop, map, arith,
}
use fastio.Io.{ok, u64_max}
use fastio.Write.{WriteSlice, WriteSlices, new}
use fastio.Write.Verdict.{new-eq-ok}
use fastio.Tokio.Waves.{join_all, stored, chunks, worker_count}
use fastio.Tokio.Windows.Shared.{
  SharedFile, Phase, moving, finished, CursorThread, arrive, Step, save, transfer, complete,
  restore, here, there, Rounds, stop, round, CursorWaves, no_more, next_wave, CursorSlices,
  in_waves,
}

drop-length : (xs : List ℕ) → drop (length xs) xs ≡ []
drop-length [] = refl
drop-length (x ∷ xs) = drop-length xs

abbrev pub at : WriteSlice → Phase → CursorThread
at s ph = record { slice = s; phase = ph }

-- The cursor and the file after one call of `seek_write` that takes the whole slice.
abbrev pub written : WriteSlice → SharedFile → SharedFile
written s h = record {
  disk = stored h.disk s.offset (take (length s.bytes) s.bytes);
  position = s.offset + length s.bytes;
}

abbrev pub put_back : ℕ → SharedFile → SharedFile
put_back p h = record { disk = h.disk; position = p }

pub whole :
    (s : WriteSlice) (h : SharedFile) (saved : ℕ)
    → length s.bytes ≢ 0
    → s.offset ≤ u64_max
    → Step h
        (moving saved s.offset s.bytes)
        (written s h)
        (moving saved (s.offset + length s.bytes) [])
whole s h saved some_byte word =
    subst
      (λ rest.
        Step h (moving saved s.offset s.bytes) (written s h)
          (moving saved (s.offset + length s.bytes) rest))
      (drop-length s.bytes)
      (transfer saved s.offset (length s.bytes) s.bytes (omega (arith, some_byte)) (omega arith)
        word)

module _ (a b : WriteSlice) (h : SharedFile) (filled : length a.bytes ≢ 0)
    (filled' : length b.bytes ≢ 0) (word : a.offset ≤ u64_max) (word' : b.offset ≤ u64_max) where
  last : SharedFile
  last = put_back (a.offset + length a.bytes) (written b (put_back h.position (written a h)))

  -- The first thread writes before the second saves the cursor, and puts it back before the second
  -- writes.
  late_save : Rounds h (map arrive (a ∷ b ∷ [])) last (at a finished ∷ at b finished ∷ [])
  unfolding last
  late_save = round _ _ _ _ _ _ (here a _ _ _ _ (save a.offset a.bytes)) (
      round _ _ _ _ _ _ (here a _ _ _ _ (whole a h h.position filled word)) (
        round _ _ _ _ _ _ (there _ _ _ _ (here b _ _ _ _ (save b.offset b.bytes))) (
          round _ _ _ _ _ _ (here a _ _ _ _ (complete h.position _)) (
            round _ _ _ _ _ _ (here a _ _ _ _ (restore h.position _)) (
              round _ _ _ _ _ _ (there _ _ _ _ (here b _ _ _ _ (whole b _ _ filled' word'))) (
                round _ _ _ _ _ _ (there _ _ _ _ (here b _ _ _ _ (complete _ _))) (
                  round _ _ _ _ _ _ (there _ _ _ _ (here b _ _ _ _ (restore _ _))) (stop _ _))))))))

-- On Windows, with a parallelism of two or more and a batch of two slices with content that
-- `WriteSlices::new` made: there is an order of the steps of the two threads in which
-- `write_slices_at` returns `Ok` and leaves the cursor behind the first slice, wherever it was.
pub CursorSlices-lost :
    (n : ℕ) (a b : WriteSlice) (batch : WriteSlices) (h : SharedFile)
    → 2 ≤ n
    → length a.bytes ≢ 0
    → length b.bytes ≢ 0
    → new (a ∷ b ∷ []) ≡ ok batch
    → (h' : SharedFile) × CursorSlices (some n) (a ∷ b ∷ []) h (ok tt) h'
      × (h'.position ≡ a.offset + length a.bytes)
unfolding worker_count chunks join_all last
CursorSlices-lost n a b batch h enough filled filled' made =
    let (same, fits, apart) = new-eq-ok (a ∷ b ∷ []) batch made in
    let word : a.offset ≤ u64_max = omega (arith, fits.0 filled) in
    let word' : b.offset ≤ u64_max = omega (arith, fits.1.0 filled') in
    let two : 2 ≡ worker_count (some n) 2 = omega (arith, enough) in
    let end = last a b h filled filled' word word' in
    (
      end,
      in_waves (ok tt) end (
          subst (λ k. CursorWaves (chunks k (a ∷ b ∷ [])) h (ok tt) end) two
            (next_wave (a ∷ b ∷ []) [] h end end (at a finished ∷ at b finished ∷ []) (ok tt)
              (late_save a b h filled filled' word word') (tt, (tt, tt)) refl (no_more end))),
      refl,
    )
