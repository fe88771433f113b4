-- ===== src/Tokio/Windows/Tests.antt =====
-- Runs of `write_slices_at` on Windows, with the cursor of the shared handle.
use fastio.Prelude.{◌+◌, ◌*◌, ◌≤◌, inr, false, ◌≡◌, refl, [], ◌∷◌, some, none, arith}
use fastio.Io.{ok}
use fastio.Write.{WriteSlice, WriteSlices, new}
use fastio.Tokio.Task.{Runtime}
use fastio.Tokio.Batch.{WritesBatch}
use fastio.Tokio.Waves.{Disk, chunks, worker_count, join_all, stored}
use fastio.Tokio.Windows.Shared.{
  SharedFile, arrive, Rounds, ran, CursorSlices, in_waves, next_wave, no_more, here, round, stop,
  save, transfer, complete, restore, finished,
}
use fastio.Tokio.Windows.Shared.Erased.{CursorBatch-WritesBatch}
use fastio.Tokio.Windows.Shared.Known.{IsKnown, CursorSlices-IsKnown}
use fastio.Tokio.Windows.Shared.Lost.{CursorSlices-lost}
use fastio.Tokio.Windows.Shared.Possible.{CursorSlices-possible}
use fastio.Tokio.Windows.Shared.Bounded.{steps, steps-bounded}
use fastio.Tokio.Waves.Bound.{total}

abbrev front : WriteSlice
front = record { offset = 0; bytes = 5 ∷ 6 ∷ [] }

abbrev back : WriteSlice
back = record { offset = 30; bytes = 7 ∷ [] }

abbrev pair : WriteSlices
pair = record { as_slice = front ∷ back ∷ [] }

-- The cursor is at 100.
abbrev handle : SharedFile
handle = record { disk = λ p. p; position = 100 }

pair_made : new (front ∷ back ∷ []) ≡ ok pair
unfolding new
pair_made = refl

abbrev lost :
    (h' : SharedFile) × CursorSlices (some 8) (front ∷ back ∷ []) handle (ok tt) h'
    × (h'.position ≡ 2)
lost =
    CursorSlices-lost 8 front back pair handle (omega arith) (λ e. omega (arith, e))
      (λ e. omega (arith, e)) pair_made

CursorSlices-lost_example :
    (h' : SharedFile) × CursorSlices (some 8) (front ∷ back ∷ []) handle (ok tt) h'
    × (h'.position ≡ 2)
CursorSlices-lost_example =
    CursorSlices-lost 8 front back pair handle (omega arith) (λ e. omega (arith, e))
      (λ e. omega (arith, e)) pair_made

abbrev steady : Runtime Disk
steady = record { clone_handle = λ d. inr tt; is_lost = λ d. false }

CursorBatch-WritesBatch_example :
    WritesBatch steady (some 8) (front ∷ back ∷ []) handle.disk (ok tt) lost.0.disk
CursorBatch-WritesBatch_example =
    CursorBatch-WritesBatch steady (some 8) (front ∷ back ∷ []) handle (ok tt) lost.0
      (ran (ok tt) lost.0 refl refl lost.1)

CursorSlices-IsKnown_example :
    IsKnown 100 (front ∷ back ∷ []) (worker_count (some 8) 2) lost.0.position
CursorSlices-IsKnown_example =
    CursorSlices-IsKnown (some 8) (front ∷ back ∷ []) handle (ok tt) lost.0 lost.1 refl

-- One slice, written in one call.
abbrev after : SharedFile
after = record { disk = stored handle.disk 30 (7 ∷ []); position = 100 }

abbrev alone :
    Rounds handle (arrive back ∷ []) after (record { slice = back; phase = finished } ∷ [])
alone = round _ _ _ _ _ _ (here back _ _ _ [] (save 30 (7 ∷ []))) (
    round _ _ _ _ _ _
      (here back _ _ _ [] (transfer 100 30 1 (7 ∷ []) (omega arith) (omega arith) (omega arith)))
      (round _ _ _ _ _ _ (here back _ _ _ [] (complete 100 31))
        (round _ _ _ _ _ _ (here back _ _ _ [] (restore 100 31)) (stop _ _))))

alone_returns : CursorSlices none (back ∷ []) handle (ok tt) after
unfolding chunks worker_count join_all
alone_returns = in_waves (ok tt) after (
    next_wave (back ∷ []) [] handle after after (record { slice = back; phase = finished } ∷ [])
      (ok tt) alone (tt, tt) refl (no_more after))

steps-bounded_example : steps alone ≤ total (back ∷ []) + 3 * 1
steps-bounded_example =
    steps-bounded (back ∷ []) handle after (record { slice = back; phase = finished } ∷ []) alone

CursorSlices-possible_example :
    (h' : SharedFile) × CursorSlices (some 8) (front ∷ back ∷ []) handle (ok tt) h'
    × (h'.position ≡ handle.position)
CursorSlices-possible_example =
    CursorSlices-possible (some 8) (front ∷ back ∷ []) pair handle pair_made
