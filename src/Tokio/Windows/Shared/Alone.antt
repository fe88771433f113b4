-- ===== src/Tokio/Windows/Shared/Alone.antt =====
-- With one thread to a wave the cursor is put back (src/tokio/mod.rs).
use fastio.Prelude.{ℕ, ◌≡◌, refl, ◌∙◌, subst, List, [], ◌∷◌, Option, length, map, All, arith}
use fastio.Io.{Result, ok}
use fastio.Write.{WriteSlice}
use fastio.Tokio.Waves.{join_all, IsEnded, chunks, worker_count}
use fastio.Tokio.Waves.Chunks.{IsWave, chunks-worker_count}
use fastio.Tokio.Windows.Shared.{
  SharedFile, Phase, arriving, moving, moved, broken, finished, failed, panicked, CursorThread,
  arrive, Step, save, save_fault, transfer, overflow, no_byte, fault, complete, restore,
  restore_fault, restore_broken, restore_lost, crash, Round, here, there, Rounds, stop, round, seen,
  CursorWaves, no_more, next_wave, last_wave, panic_wave, spawn_panic, CursorSlices, nothing,
  in_waves,
}

-- What a thread alone knows of the position `p` at the start, when the cursor is at `now`.
abbrev Knows : ℕ → ℕ → Phase → Type 0
Knows p now (arriving o bytes) = now ≡ p
Knows p now (moving saved o rest) = saved ≡ p
Knows p now (moved saved o) = saved ≡ p
Knows p now (broken saved o rest e) = Unit
Knows p now finished = now ≡ p
Knows p now (failed e) = Unit
Knows p now panicked = Unit

Step-Knows :
    (p : ℕ) (h : SharedFile) (ph : Phase) (h' : SharedFile) (ph' : Phase)
    → Step h ph h' ph'
    → Knows p h.position ph
    → Knows p h'.position ph'
Step-Knows p h _ _ _ (save o bytes) k = k
Step-Knows p h _ _ _ (save_fault o bytes e) k = tt
Step-Knows p h _ _ _ (transfer saved o n rest pos le word) k = k
Step-Knows p h _ _ _ (overflow saved o rest some_byte far) k = tt
Step-Knows p h _ _ _ (no_byte saved o q rest some_byte) k = tt
Step-Knows p h _ _ _ (fault saved o q rest e some_byte) k = tt
Step-Knows p h _ _ _ (complete saved o) k = k
Step-Knows p h _ _ _ (restore saved o) k = k
Step-Knows p h _ _ _ (restore_fault saved o q e) k = tt
Step-Knows p h _ _ _ (restore_broken saved o rest e) k = tt
Step-Knows p h _ _ _ (restore_lost saved o q rest e) k = tt
Step-Knows p h _ _ _ (crash saved o rest) k = tt

-- A wave of one thread stays one.
One : ℕ → SharedFile → List CursorThread → Type 0
One p h ts = (t : CursorThread) × (ts ≡ t ∷ []) × Knows p h.position t.phase

Round-Knows :
    (p : ℕ) (h : SharedFile) (t : CursorThread) (h' : SharedFile) (ts' : List CursorThread)
    → Round h (t ∷ []) h' ts'
    → Knows p h.position t.phase
    → One p h' ts'
unfolding One
Round-Knows p h _ _ _ (here s ph h' ph' _ step) k =
    (record { slice = s; phase = ph' }, refl, Step-Knows p h ph h' ph' step k)
Round-Knows p h _ _ _ (there t _ h' ts' one) k = elim one [ ]

Rounds-One :
    (p : ℕ) (h : SharedFile) (ts : List CursorThread) (h' : SharedFile) (ts' : List CursorThread)
    → Rounds h ts h' ts'
    → One p h ts
    → One p h' ts'
unfolding One
Rounds-One p h ts _ _ (stop _ _) k = k
Rounds-One p h ts _ _ (round _ _ h1 ts1 h2 ts2 one rest) (t, same, known) =
    Rounds-One p h1 ts1 h2 ts2 rest
      (Round-Knows p h t h1 ts1 (subst (λ l. Round h l h1 ts1) same one) known)

-- A thread that has ended well has put the cursor back.
ended-well :
    (p now : ℕ) (t : CursorThread)
    → Knows p now t.phase
    → All IsEnded (seen t ∷ [])
    → join_all (seen t ∷ []) ≡ ok tt
    → now ≡ p
unfolding join_all
ended-well p now t = by_phase t.phase
  where
    by_phase :
        (ph : Phase)
        → Knows p now ph
        → All IsEnded (seen (record { slice = t.slice; phase = ph }) ∷ [])
        → join_all (seen (record { slice = t.slice; phase = ph }) ∷ []) ≡ ok tt
        → now ≡ p
    by_phase (arriving o bytes) k ended joined = k
    by_phase (moving saved o rest) k ended joined = absurd ended.0
    by_phase (moved saved o) k ended joined = absurd ended.0
    by_phase (broken saved o rest e) k ended joined = absurd ended.0
    by_phase finished k ended joined = k
    by_phase (failed e) k ended joined = cc
    by_phase panicked k ended joined = cc

wave-position :
    (wave : List WriteSlice) (h h' : SharedFile) (ts : List CursorThread)
    → IsWave 1 wave
    → Rounds h (map arrive wave) h' ts
    → All IsEnded (map seen ts)
    → join_all (map seen ts) ≡ ok tt
    → h'.position ≡ h.position
unfolding One
wave-position [] h h' ts short run ended joined = absurd (omega (arith, short.0))
wave-position (s ∷ []) h h' ts short run ended joined =
    let (t, same, known) =
      Rounds-One h.position h (arrive s ∷ []) h' ts run (arrive s, refl, refl) in
    ended-well h.position h'.position t known (subst (λ l. All IsEnded (map seen l)) same ended)
      (subst (λ l. join_all (map seen l) ≡ ok tt) same joined)
wave-position (s ∷ t ∷ ss) h h' ts short run ended joined = absurd (omega (arith, short.1))

CursorWaves-position :
    (waves : List (List WriteSlice)) (h : SharedFile) (res : Result (Unit {0})) (h' : SharedFile)
    → All (IsWave 1) waves
    → CursorWaves waves h res h'
    → res ≡ ok tt
    → h'.position ≡ h.position
CursorWaves-position _ h _ _ short (no_more _) e = refl
CursorWaves-position _ h _ _ short (next_wave wave waves _ h1 h2 ts res run ended joined rest) e =
    CursorWaves-position waves h1 res h2 short.1 rest e
    ∙ wave-position wave h h1 ts short.0 run ended joined
CursorWaves-position _ h _ _ short (last_wave wave waves _ h1 ts x run ended joined) e = cc
CursorWaves-position _ h _ _ short (panic_wave wave waves _ h1 ts run ended joined) e = cc
CursorWaves-position _ h _ _ short (spawn_panic k wave waves _ h1 ts few run ended) e = cc

-- On Windows, with one thread to a wave (for a batch of one slice, or where the parallelism is 1, 0
-- or unknown): if `write_slices_at` returns `Ok`, then the cursor is where it was.
pub CursorSlices-position :
    (parallelism : Option ℕ) (slices : List WriteSlice) (h : SharedFile) (res : Result (Unit {0}))
    (h' : SharedFile)
    → worker_count parallelism (length slices) ≡ 1
    → CursorSlices parallelism slices h res h'
    → res ≡ ok tt
    → h'.position ≡ h.position
CursorSlices-position parallelism slices h _ _ one (nothing empty) e = refl
CursorSlices-position parallelism slices h _ _ one (in_waves res h' run) e =
    CursorWaves-position _ h res h'
      (subst (λ n. All (IsWave n) (chunks n slices)) one (chunks-worker_count parallelism slices).1)
      (subst (λ n. CursorWaves (chunks n slices) h res h') one run) e
