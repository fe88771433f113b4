-- ===== src/Tokio/Windows/Shared/Known.antt =====
-- Where the cursor of the handle can be after `write_slices_at` on Windows (src/tokio/mod.rs).
use fastio.Prelude.{
  ℕ, ◌+◌, ◌≤◌, ◌<◌, ◌≡◌, ◌⊎◌, inl, inr, refl, sym, subst, List, [], ◌∷◌, Option, Bool-cases, leb,
  leb→le, leb→lt, length, length-drop, drop, map, All, All-map, All-append_left, arith,
}
use fastio.Io.{Result, ok}
use fastio.Write.{WriteSlice}
use fastio.Tokio.Waves.{join_all, IsEnded, worker_count}
use fastio.Tokio.Waves.Chunks.{concat, chunks-worker_count}
use fastio.Tokio.Windows.Shared.{
  SharedFile, Phase, arriving, moving, moved, broken, finished, failed, panicked, CursorThread,
  arrive, Step, save, save_fault, transfer, overflow, no_byte, fault, complete, restore,
  restore_fault, restore_broken, restore_lost, crash, Round, here, there, Rounds, stop, round, seen,
  CursorWaves, no_more, next_wave, last_wave, panic_wave, spawn_panic, CursorSlices, nothing,
  in_waves,
}
use fastio.Tokio.Windows.Shared.Alone.{CursorSlices-position}
use fastio.Tokio.Windows.Shared.Spoiled.{IsSpoiled, SomeSpoiled, Rounds-SomeSpoiled, spoiled-joined}

module _ (Q : ℕ → Type 0) where
  -- Behind each of the bytes from `o` on, the cursor may be.
  abbrev Reach : ℕ → List ℕ → Type 0
  Reach o bytes = (k : ℕ) → 0 < k → k ≤ length bytes → Q (o + k)

  abbrev Fine : Phase → Type 0
  Fine (arriving o bytes) = Reach o bytes
  Fine (moving saved o rest) = Q saved × Reach o rest
  Fine (moved saved o) = Q saved
  Fine (broken saved o rest e) = Unit
  Fine finished = Unit
  Fine (failed e) = Unit
  Fine panicked = Unit

  abbrev AllFine : List CursorThread → Type 0
  AllFine ts = All (λ t. Fine t.phase) ts

  Reach-drop :
      (o n : ℕ) (rest : List ℕ) → n ≤ length rest → Reach o rest → Reach (o + n) (drop n rest)
  Reach-drop o n rest le reach k pos lt =
      subst Q {x = o + (n + k)} (omega arith)
        (reach (n + k) (omega (arith, pos)) (omega (arith, lt, le, length-drop n rest)))

  Step-Fine :
      (h : SharedFile) (ph : Phase) (h' : SharedFile) (ph' : Phase)
      → Step h ph h' ph'
      → Q h.position
      → Fine ph
      → IsSpoiled ph' ⊎ (Q h'.position × Fine ph')
  Step-Fine h _ _ _ (save o bytes) q fine = inr (q, (q, fine))
  Step-Fine h _ _ _ (save_fault o bytes e) q fine = inl tt
  Step-Fine h _ _ _ (transfer saved o n rest pos le word) q fine =
      inr (fine.1 n pos le, (fine.0, Reach-drop o n rest le fine.1))
  Step-Fine h _ _ _ (overflow saved o rest some_byte far) q fine = inl tt
  Step-Fine h _ _ _ (no_byte saved o p rest some_byte) q fine = inl tt
  Step-Fine h _ _ _ (fault saved o p rest e some_byte) q fine = inl tt
  Step-Fine h _ _ _ (complete saved o) q fine = inr (q, fine.0)
  Step-Fine h _ _ _ (restore saved o) q fine = inr (fine, tt)
  Step-Fine h _ _ _ (restore_fault saved o p e) q fine = inl tt
  Step-Fine h _ _ _ (restore_broken saved o rest e) q fine = inl tt
  Step-Fine h _ _ _ (restore_lost saved o p rest e) q fine = inl tt
  Step-Fine h _ _ _ (crash saved o rest) q fine = inl tt

  Round-AllFine :
      (h : SharedFile) (ts : List CursorThread) (h' : SharedFile) (ts' : List CursorThread)
      → Round h ts h' ts'
      → Q h.position
      → AllFine ts
      → SomeSpoiled ts' ⊎ (Q h'.position × AllFine ts')
  Round-AllFine h _ _ _ (here s ph h' ph' ts step) q fine =
      elim (Step-Fine h ph h' ph' step q fine.0) [
        | inl bad ↦ inl (inl bad)
        | inr (q', good) ↦ inr (q', (good, fine.1))
      ]
  Round-AllFine h _ _ _ (there t ts h' ts' one) q fine =
      elim (Round-AllFine h ts h' ts' one q fine.1) [
        | inl bad ↦ inl (inr bad)
        | inr (q', good) ↦ inr (q', (fine.0, good))
      ]

  Rounds-AllFine :
      (h : SharedFile) (ts : List CursorThread) (h' : SharedFile) (ts' : List CursorThread)
      → Rounds h ts h' ts'
      → Q h.position
      → AllFine ts
      → SomeSpoiled ts' ⊎ Q h'.position
  Rounds-AllFine h _ _ _ (stop _ ts) q fine = inr q
  Rounds-AllFine h _ _ _ (round _ ts h1 ts1 h2 ts2 one rest) q fine =
      elim (Round-AllFine h ts h1 ts1 one q fine) [
        | inl bad ↦ inl (Rounds-SomeSpoiled h1 ts1 h2 ts2 rest bad)
        | inr (q', good) ↦ Rounds-AllFine h1 ts1 h2 ts2 rest q' good
      ]

  abbrev Reachable : WriteSlice → Type 0
  Reachable s = Reach s.offset s.bytes

  arrive-AllFine : (ss : List WriteSlice) → All Reachable ss → AllFine (map arrive ss)
  arrive-AllFine [] reach = tt
  arrive-AllFine (s ∷ ss) reach = (reach.0, arrive-AllFine ss reach.1)

  wave-Q :
      (wave : List WriteSlice) (h h' : SharedFile) (ts : List CursorThread)
      → All Reachable wave
      → Rounds h (map arrive wave) h' ts
      → All IsEnded (map seen ts)
      → join_all (map seen ts) ≡ ok tt
      → Q h.position
      → Q h'.position
  wave-Q wave h h' ts reach run ended joined q =
      elim (Rounds-AllFine h (map arrive wave) h' ts run q (arrive-AllFine wave reach)) [
        | inl bad ↦ absurd (spoiled-joined ts bad ended joined)
        | inr known ↦ known
      ]

  CursorWaves-Q :
      (waves : List (List WriteSlice)) (h : SharedFile) (res : Result (Unit {0})) (h' : SharedFile)
      → All Reachable (concat waves)
      → CursorWaves waves h res h'
      → res ≡ ok tt
      → Q h.position
      → Q h'.position
  CursorWaves-Q _ h _ _ reach (no_more _) e q = q
  CursorWaves-Q _ h _ _ reach (next_wave wave waves _ h1 h2 ts res run ended joined rest) e q =
      let split = All-append_left Reachable wave (concat waves) reach in
      CursorWaves-Q waves h1 res h2 split.1 rest e (wave-Q wave h h1 ts split.0 run ended joined q)
  CursorWaves-Q _ h _ _ reach (last_wave wave waves _ h1 ts x run ended joined) e q = cc
  CursorWaves-Q _ h _ _ reach (panic_wave wave waves _ h1 ts run ended joined) e q = cc
  CursorWaves-Q _ h _ _ reach (spawn_panic k wave waves _ h1 ts few run ended) e q = cc

-- The position is right behind some byte of some slice.
abbrev pub IsBehind : List WriteSlice → ℕ → Type 0
IsBehind [] p = ⊥
IsBehind (s ∷ ss) p =
    ((k : ℕ) × (0 < k) × (k ≤ length s.bytes) × (p ≡ s.offset + k)) ⊎ IsBehind ss p

abbrev StaysNear : ℕ → List WriteSlice → ℕ → Type 0
StaysNear start ss p = (p ≡ start) ⊎ IsBehind ss p

-- The cursor is where it was, or there were two or more threads and it is behind a byte of a slice.
abbrev pub IsKnown : ℕ → List WriteSlice → ℕ → ℕ → Type 0
IsKnown start ss workers p = (p ≡ start) ⊎ ((2 ≤ workers) × IsBehind ss p)

all-IsBehind :
    (ss : List WriteSlice)
    → All (λ s. (k : ℕ) → 0 < k → k ≤ length s.bytes → IsBehind ss (s.offset + k)) ss
all-IsBehind [] = tt
all-IsBehind (s ∷ ss) = (
  (λ k pos le. inl (k, pos, le, refl)),
  All-map (λ t. (k : ℕ) → 0 < k → k ≤ length t.bytes → IsBehind ss (t.offset + k))
      (λ t. (k : ℕ) → 0 < k → k ≤ length t.bytes → IsBehind (s ∷ ss) (t.offset + k)) ss
      (λ t behind k pos le. inr (behind k pos le)) (all-IsBehind ss),
)

CursorSlices-StaysNear :
    (parallelism : Option ℕ) (slices : List WriteSlice) (h : SharedFile) (res : Result (Unit {0}))
    (h' : SharedFile)
    → CursorSlices parallelism slices h res h'
    → res ≡ ok tt
    → StaysNear h.position slices h'.position
CursorSlices-StaysNear parallelism slices h _ _ (nothing empty) e = inl refl
CursorSlices-StaysNear parallelism slices h _ _ (in_waves res h' run) e =
    CursorWaves-Q (StaysNear h.position slices) _ h res h'
      (subst (All (Reachable (StaysNear h.position slices)))
        (sym (chunks-worker_count parallelism slices).0)
        (All-map (λ s. (k : ℕ) → 0 < k → k ≤ length s.bytes → IsBehind slices (s.offset + k))
          (Reachable (StaysNear h.position slices)) slices
          (λ s behind k pos le. inr (behind k pos le)) (all-IsBehind slices)))
      run e (inl refl)

one-or-more :
    (parallelism : Option ℕ) (n : ℕ)
    → (worker_count parallelism n ≡ 1) ⊎ (2 ≤ worker_count parallelism n)
unfolding worker_count
one-or-more parallelism n = elim (Bool-cases (leb 2 (worker_count parallelism n))) [
  | inl e ↦ inr (leb→le _ _ e)
  | inr e ↦ let less = leb→lt _ _ e in inl (omega (arith, less))
]

-- On Windows, for any parallelism and any order of the steps of the threads: if `write_slices_at`
-- returns `Ok`, then the cursor is where it was; or there were two or more threads to a wave, and
-- the cursor is right behind a byte of a slice of the batch.
pub CursorSlices-IsKnown :
    (parallelism : Option ℕ) (slices : List WriteSlice) (h : SharedFile) (res : Result (Unit {0}))
    (h' : SharedFile)
    → CursorSlices parallelism slices h res h'
    → res ≡ ok tt
    → IsKnown h.position slices (worker_count parallelism (length slices)) h'.position
CursorSlices-IsKnown parallelism slices h res h' run e =
    elim (one-or-more parallelism (length slices)) [
      | inl one ↦ inl (CursorSlices-position parallelism slices h res h' one run e)
      | inr more ↦ elim (CursorSlices-StaysNear parallelism slices h res h' run e) [
        | inl same ↦ inl same
        | inr behind ↦ inr (more, behind)
      ]
    ]
