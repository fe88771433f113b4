-- ===== src/Tokio/Windows/Shared/Spoiled.antt =====
-- A thread whose call has failed does not let the scope succeed (src/tokio/mod.rs).
use fastio.Prelude.{◌≡◌, ◌⊎◌, inl, inr, List, [], ◌∷◌, map, All, arith}
use fastio.Io.{ok}
use fastio.Tokio.Waves.{join_all, IsEnded}
use fastio.Tokio.Windows.Shared.{
  SharedFile, Phase, arriving, moving, moved, broken, finished, failed, panicked, CursorThread,
  Step, save, save_fault, transfer, overflow, no_byte, fault, complete, restore, restore_fault,
  restore_broken, restore_lost, crash, Round, here, there, Rounds, stop, round, seen,
}

abbrev pub IsSpoiled : Phase → Type 0
IsSpoiled (arriving o bytes) = ⊥
IsSpoiled (moving saved o rest) = ⊥
IsSpoiled (moved saved o) = ⊥
IsSpoiled (broken saved o rest e) = Unit
IsSpoiled finished = ⊥
IsSpoiled (failed e) = Unit
IsSpoiled panicked = Unit

abbrev pub SomeSpoiled : List CursorThread → Type 0
SomeSpoiled [] = ⊥
SomeSpoiled (t ∷ ts) = IsSpoiled t.phase ⊎ SomeSpoiled ts

Step-IsSpoiled :
    (h : SharedFile) (ph : Phase) (h' : SharedFile) (ph' : Phase)
    → Step h ph h' ph'
    → IsSpoiled ph
    → IsSpoiled ph'
Step-IsSpoiled h _ _ _ (restore_broken saved o rest e) bad = tt
Step-IsSpoiled h _ _ _ (restore_lost saved o p rest e) bad = tt
Step-IsSpoiled h _ _ _ (save o bytes) bad = bad
Step-IsSpoiled h _ _ _ (save_fault o bytes e) bad = tt
Step-IsSpoiled h _ _ _ (transfer saved o n rest pos le word) bad = bad
Step-IsSpoiled h _ _ _ (overflow saved o rest some_byte far) bad = tt
Step-IsSpoiled h _ _ _ (no_byte saved o p rest some_byte) bad = tt
Step-IsSpoiled h _ _ _ (fault saved o p rest e some_byte) bad = tt
Step-IsSpoiled h _ _ _ (complete saved o) bad = bad
Step-IsSpoiled h _ _ _ (restore saved o) bad = bad
Step-IsSpoiled h _ _ _ (restore_fault saved o p e) bad = tt
Step-IsSpoiled h _ _ _ (crash saved o rest) bad = tt

Round-SomeSpoiled :
    (h : SharedFile) (ts : List CursorThread) (h' : SharedFile) (ts' : List CursorThread)
    → Round h ts h' ts'
    → SomeSpoiled ts
    → SomeSpoiled ts'
Round-SomeSpoiled h _ _ _ (here s ph h' ph' ts step) (inl bad) =
    inl (Step-IsSpoiled h ph h' ph' step bad)
Round-SomeSpoiled h _ _ _ (here s ph h' ph' ts step) (inr bad) = inr bad
Round-SomeSpoiled h _ _ _ (there t ts h' ts' one) (inl bad) = inl bad
Round-SomeSpoiled h _ _ _ (there t ts h' ts' one) (inr bad) =
    inr (Round-SomeSpoiled h ts h' ts' one bad)

pub Rounds-SomeSpoiled :
    (h : SharedFile) (ts : List CursorThread) (h' : SharedFile) (ts' : List CursorThread)
    → Rounds h ts h' ts'
    → SomeSpoiled ts
    → SomeSpoiled ts'
Rounds-SomeSpoiled h _ _ _ (stop _ ts) bad = bad
Rounds-SomeSpoiled h _ _ _ (round _ ts h1 ts1 h2 ts2 one rest) bad =
    Rounds-SomeSpoiled h1 ts1 h2 ts2 rest (Round-SomeSpoiled h ts h1 ts1 one bad)

-- A spoiled thread that has ended does not let the scope succeed.
pub spoiled-joined :
    (ts : List CursorThread)
    → SomeSpoiled ts
    → All IsEnded (map seen ts)
    → ¬ (join_all (map seen ts) ≡ ok tt)
unfolding join_all
spoiled-joined [] bad ended joined = bad
spoiled-joined (t ∷ ts) bad ended joined =
    by_phase (λ later. spoiled-joined ts later ended.1) t.phase bad ended.0 joined
  where
    by_phase :
        (SomeSpoiled ts → ¬ (join_all (map seen ts) ≡ ok tt))
        → (ph : Phase) → IsSpoiled ph ⊎ SomeSpoiled ts
        → IsEnded (seen (record { slice = t.slice; phase = ph }))
        → ¬ (join_all (seen (record { slice = t.slice; phase = ph }) ∷ map seen ts) ≡ ok tt)
    by_phase not_later finished (inl never) here_ended h = never
    by_phase not_later finished (inr later) here_ended h = not_later later h
    by_phase not_later (arriving o bytes) b here_ended h = here_ended
    by_phase not_later (moving saved o rest) b here_ended h = here_ended
    by_phase not_later (moved saved o) b here_ended h = here_ended
    by_phase not_later (broken saved o rest e) b here_ended h = here_ended
    by_phase not_later (failed e) b here_ended h = ground arith
    by_phase not_later panicked b here_ended h = ground arith
