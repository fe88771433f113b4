-- ===== src/Tokio/Windows/Shared/Bounded.antt =====
-- Every order of the steps of a wave comes to an end (src/tokio/mod.rs).
use fastio.Prelude.{
  ℕ, suc, ◌+◌, ◌*◌, ◌≤◌, ◌<◌, ◌≡◌, refl, List, [], ◌∷◌, length, length-drop, map, arith,
}
use fastio.Write.{WriteSlice}
use fastio.Tokio.Waves.Bound.{total}
use fastio.Tokio.Windows.Shared.{
  SharedFile, Phase, arriving, moving, moved, broken, finished, failed, panicked, CursorThread,
  arrive, Step, save, save_fault, transfer, overflow, no_byte, fault, complete, restore,
  restore_fault, restore_broken, restore_lost, crash, Round, here, there, Rounds, stop, round,
}

-- The steps that a thread has left, at most.
abbrev left : Phase → ℕ
left (arriving o bytes) = length bytes + 3
left (moving saved o rest) = length rest + 2
left (moved saved o) = 1
left (broken saved o rest e) = 1
left finished = 0
left (failed e) = 0
left panicked = 0

abbrev left_all : List CursorThread → ℕ
left_all [] = 0
left_all (t ∷ ts) = left t.phase + left_all ts

Step-left :
    (h : SharedFile) (ph : Phase) (h' : SharedFile) (ph' : Phase)
    → Step h ph h' ph'
    → left ph' < left ph
Step-left h _ _ _ (save o bytes) = omega arith
Step-left h _ _ _ (save_fault o bytes e) = omega arith
Step-left h _ _ _ (transfer saved o n rest pos le word) = omega (arith, pos, le, length-drop n rest)
Step-left h _ _ _ (overflow saved o rest some_byte far) = omega arith
Step-left h _ _ _ (no_byte saved o p rest some_byte) = omega arith
Step-left h _ _ _ (fault saved o p rest e some_byte) = omega arith
Step-left h _ _ _ (complete saved o) = omega arith
Step-left h _ _ _ (restore saved o) = omega arith
Step-left h _ _ _ (restore_fault saved o p e) = omega arith
Step-left h _ _ _ (restore_broken saved o rest e) = omega arith
Step-left h _ _ _ (restore_lost saved o p rest e) = omega arith
Step-left h _ _ _ (crash saved o rest) = omega arith

Round-left :
    (h : SharedFile) (ts : List CursorThread) (h' : SharedFile) (ts' : List CursorThread)
    → Round h ts h' ts'
    → left_all ts' < left_all ts
Round-left h _ _ _ (here s ph h' ph' ts step) = omega (arith, Step-left h ph h' ph' step)
Round-left h _ _ _ (there t ts h' ts' one) = omega (arith, Round-left h ts h' ts' one)

-- The steps of a run.
pub steps :
    {h : SharedFile} {ts : List CursorThread} {h' : SharedFile} {ts' : List CursorThread}
    → Rounds h ts h' ts'
    → ℕ
steps (stop h ts) = 0
steps (round h ts h1 ts1 h2 ts2 one rest) = suc (steps rest)

steps-left :
    (h : SharedFile) (ts : List CursorThread) (h' : SharedFile) (ts' : List CursorThread)
    (run : Rounds h ts h' ts')
    → steps run + left_all ts' ≤ left_all ts
unfolding steps
steps-left h _ _ _ (stop _ ts) = omega arith
steps-left h _ _ _ (round _ ts h1 ts1 h2 ts2 one rest) =
    omega (arith, Round-left h ts h1 ts1 one, steps-left h1 ts1 h2 ts2 rest)

left_all-arrive : (ss : List WriteSlice) → left_all (map arrive ss) ≡ total ss + 3 * length ss
left_all-arrive [] = refl
left_all-arrive (s ∷ ss) = omega (arith, left_all-arrive ss)

-- On Windows, in any order, the threads of a wave take at most as many steps as the wave has bytes,
-- and three for each slice: for the cursor that is saved, the end of the loop, and the seek back.
pub steps-bounded :
    (wave : List WriteSlice) (h h' : SharedFile) (ts : List CursorThread)
    (run : Rounds h (map arrive wave) h' ts)
    → steps run ≤ total wave + 3 * length wave
steps-bounded wave h h' ts run =
    omega (arith, steps-left h (map arrive wave) h' ts run, left_all-arrive wave)
