-- ===== src/Tokio/Windows/Shared/Erased.antt =====
-- Without the cursor, the waves of Windows are those of the other systems (src/tokio/mod.rs).
use fastio.Prelude.{take, ℕ, suc, ◌≡◌, ◌⊎◌, inl, inr, refl, ap, subst, List, [], ◌∷◌, Option, map}
use fastio.Io.{Result}
use fastio.Write.{WriteSlice}
use fastio.Tokio.Waves.{Disk, Move, Thread, spawn, Turn, Turns, stop, turn, Waves, WritesSlices}
use fastio.Tokio.Waves
use fastio.Tokio.Task.{Runtime}
use fastio.Tokio.Batch.{WritesBatch}
use fastio.Tokio.Batch
use fastio.Tokio.Windows.Shared.{
  SharedFile, Phase, CursorThread, arrive, Step, save, save_fault, transfer, overflow, no_byte,
  fault, complete, restore, restore_fault, restore_broken, restore_lost, crash, Round, here, there,
  Rounds, worker_of, seen, CursorWaves, CursorSlices, CursorBatch,
}
use fastio.Tokio.Windows.Shared

-- A step is a move of the thread, or nothing that is seen without the cursor.
abbrev Shadow : Disk → Phase → Disk → Phase → Type 0
Shadow d ph d' ph' =
    ((d' ≡ d) × (worker_of ph' ≡ worker_of ph)) ⊎ Move d (worker_of ph) d' (worker_of ph')

Step-Shadow :
    (h : SharedFile) (ph : Phase) (h' : SharedFile) (ph' : Phase)
    → Step h ph h' ph'
    → Shadow h.disk ph h'.disk ph'
Step-Shadow h _ _ _ (save o bytes) = inl (refl, refl)
Step-Shadow h _ _ _ (save_fault o bytes e) = inr (Waves.fault o bytes e)
Step-Shadow h _ _ _ (transfer saved o n rest pos le word) = inr (Waves.transfer o n rest pos le)
Step-Shadow h _ _ _ (overflow saved o rest some_byte far) = inl (refl, refl)
Step-Shadow h _ _ _ (no_byte saved o p rest some_byte) = inl (refl, refl)
Step-Shadow h _ _ _ (fault saved o p rest e some_byte) = inl (refl, refl)
Step-Shadow h _ _ _ (complete saved o) = inl (refl, refl)
Step-Shadow h _ _ _ (restore saved o) = inr (Waves.complete o)
Step-Shadow h _ _ _ (restore_fault saved o p e) = inr (Waves.fault o [] e)
Step-Shadow h _ _ _ (restore_broken saved o rest e) = inr (Waves.fault o rest e)
Step-Shadow h _ _ _ (restore_lost saved o p rest e) = inr (Waves.fault o rest e)
Step-Shadow h _ _ _ (crash saved o rest) = inr (Waves.crash o rest)

Round-Shadow :
    (h : SharedFile) (ts : List CursorThread) (h' : SharedFile) (ts' : List CursorThread)
    → Round h ts h' ts'
    → ((h'.disk ≡ h.disk) × (map seen ts' ≡ map seen ts))
      ⊎ Turn h.disk (map seen ts) h'.disk (map seen ts')
Round-Shadow h _ _ _ (here s ph h' ph' ts step) = elim (Step-Shadow h ph h' ph' step) [
  | inl (same, still) ↦ inl (same, ap (λ w. record { slice = s; worker = w } ∷ map seen ts) still)
  | inr move ↦ inr (Waves.here s (worker_of ph) h'.disk (worker_of ph') (map seen ts) move)
]
Round-Shadow h _ _ _ (there t ts h' ts' one) = elim (Round-Shadow h ts h' ts' one) [
  | inl (same, still) ↦ inl (same, ap (seen t ∷◌) still)
  | inr moves ↦ inr (Waves.there (seen t) (map seen ts) h'.disk (map seen ts') moves)
]

pub Rounds-Turns :
    (h : SharedFile) (ts : List CursorThread) (h' : SharedFile) (ts' : List CursorThread)
    → Rounds h ts h' ts'
    → (n : ℕ) × Turns n h.disk (map seen ts) h'.disk (map seen ts')
Rounds-Turns h ts _ _ (Shared.stop _ _) = (0, stop h.disk (map seen ts))
Rounds-Turns h ts _ _ (Shared.round _ _ h1 ts1 h2 ts2 one rest) =
    let (n, later) = Rounds-Turns h1 ts1 h2 ts2 rest in
    elim (Round-Shadow h ts h1 ts1 one) [
      | inl (same, still) ↦ (
        n,
        subst (λ l. Turns n h.disk l h2.disk (map seen ts2)) still
            (subst (λ d. Turns n d (map seen ts1) h2.disk (map seen ts2)) same later),
      )
      | inr moves ↦ (
        suc n,
        turn n h.disk (map seen ts) h1.disk (map seen ts1) h2.disk (map seen ts2) moves later,
      )
    ]

seen-arrive : (ss : List WriteSlice) → map seen (map arrive ss) ≡ map spawn ss
seen-arrive [] = refl
seen-arrive (s ∷ ss) = ap (spawn s ∷◌) (seen-arrive ss)

wave-Turns :
    (wave : List WriteSlice) (h h' : SharedFile) (ts : List CursorThread)
    → Rounds h (map arrive wave) h' ts
    → (n : ℕ) × Turns n h.disk (map spawn wave) h'.disk (map seen ts)
wave-Turns wave h h' ts run =
    let (n, turns) = Rounds-Turns h (map arrive wave) h' ts run in
    (n, subst (λ l. Turns n h.disk l h'.disk (map seen ts)) (seen-arrive wave) turns)

CursorWaves-Waves :
    (waves : List (List WriteSlice)) (h : SharedFile) (res : Result (Unit {0})) (h' : SharedFile)
    → CursorWaves waves h res h'
    → Waves waves h.disk res h'.disk
CursorWaves-Waves _ h _ _ (Shared.no_more _) = Waves.no_more h.disk
CursorWaves-Waves _ h _ _ (Shared.next_wave wave waves _ h1 h2 ts res run ended joined rest) =
    let (n, turns) = wave-Turns wave h h1 ts run in
    Waves.next_wave n wave waves h.disk h1.disk h2.disk (map seen ts) res turns ended joined
      (CursorWaves-Waves waves h1 res h2 rest)
CursorWaves-Waves _ h _ _ (Shared.last_wave wave waves _ h1 ts e run ended joined) =
    let (n, turns) = wave-Turns wave h h1 ts run in
    Waves.last_wave n wave waves h.disk h1.disk (map seen ts) e turns ended joined
CursorWaves-Waves _ h _ _ (Shared.panic_wave wave waves _ h1 ts run ended joined) =
    let (n, turns) = wave-Turns wave h h1 ts run in
    Waves.panic_wave n wave waves h.disk h1.disk (map seen ts) turns ended joined
CursorWaves-Waves _ h _ _ (Shared.spawn_panic k wave waves _ h1 ts short run ended) =
    let (n, turns) = wave-Turns (take k wave) h h1 ts run in
    Waves.spawn_panic n k wave waves h.disk h1.disk (map seen ts) short turns ended

pub CursorSlices-WritesSlices :
    (parallelism : Option ℕ) (slices : List WriteSlice) (h : SharedFile) (res : Result (Unit {0}))
    (h' : SharedFile)
    → CursorSlices parallelism slices h res h'
    → WritesSlices parallelism slices h.disk res h'.disk
CursorSlices-WritesSlices parallelism slices h _ _ (Shared.nothing empty) = Waves.nothing empty
CursorSlices-WritesSlices parallelism slices h _ _ (Shared.in_waves res h' run) =
    Waves.in_waves res h'.disk (CursorWaves-Waves _ h res h' run)

-- Every run of `write_slices_at` on Windows, with the task around it and in any order of the steps
-- of its threads, their seeks among them, is, without the cursor, a run on a file with positioned
-- writes, with the same result and the same bytes.
pub CursorBatch-WritesBatch :
    (rt : Runtime Disk) (parallelism : Option ℕ) (slices : List WriteSlice) (h : SharedFile)
    (res : Result (Unit {0})) (h' : SharedFile)
    → CursorBatch rt parallelism slices h res h'
    → WritesBatch rt parallelism slices h.disk res h'.disk
CursorBatch-WritesBatch rt parallelism slices h _ _ (Shared.not_cloned e refused) =
    Batch.not_cloned e refused
CursorBatch-WritesBatch rt parallelism slices h _ _ (Shared.dropped cloned lost) =
    Batch.dropped cloned lost
CursorBatch-WritesBatch rt parallelism slices h _ _ (Shared.ran res h' cloned kept run) =
    Batch.ran res h'.disk cloned kept (CursorSlices-WritesSlices parallelism slices h res h' run)
