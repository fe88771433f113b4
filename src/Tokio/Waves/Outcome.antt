-- ===== src/Tokio/Waves/Outcome.antt =====
-- What `write_slices_at` of src/tokio/mod.rs does to the file, in any order of its threads.
use fastio.Prelude.{
  take, All-take, AllPairs-take, ℕ, ◌+◌, ◌≡◌, refl, ◌∙◌, sym, subst, List, [], ◌∷◌, ◌++◌, Option,
  length, All, All-append_left, All-append, AllPairs, AllPairs-append,
}
use fastio.Io.{Error, Result, ok, err, panic}
use fastio.Write.{WriteSlice, WriteSlices, new}
use fastio.Write.Verdict.{IsDisjoint, new-eq-ok}
use fastio.Sync.Whole.Store.{IsOutside, IsDisjoint-IsOutside}
use fastio.Tokio.Waves.{
  Disk, Waves, no_more, next_wave, last_wave, panic_wave, spawn_panic, WritesSlices, nothing,
  in_waves,
}
use fastio.Tokio.Waves.Chunks.{concat, chunks-worker_count}
use fastio.Tokio.Waves.Threads.{HasPrefix}
use fastio.Tokio.Waves.Scopes.{AllIn, Turns-wave}

-- What is in the file stays there when only slices apart from it are written.
AllIn-later :
    (d d' : Disk) (ss later : List WriteSlice)
    → ((p : ℕ) → IsOutside later p → d' p ≡ d p)
    → All (λ s. All (IsDisjoint s) later) ss
    → AllIn d ss
    → AllIn d' ss
AllIn-later d d' [] later far apart h = tt
AllIn-later d d' (s ∷ ss) later far apart h = (
  (λ k lt. far (s.offset + k) (IsDisjoint-IsOutside s k later lt apart.0) ∙ h.0 k lt),
  AllIn-later d d' ss later far apart.1 h.1,
)

-- Only the slices have changed; with `Ok` each is in the file.
pub data Written (ss : List WriteSlice) (d : Disk) : Result (Unit {0}) → Disk → Type 0 where
  all_in :
      (d' : Disk) → AllIn d' ss → ((p : ℕ) → IsOutside ss p → d' p ≡ d p) → Written ss d (ok tt) d'
  error :
      (e : Error) (d' : Disk) → ((p : ℕ) → IsOutside ss p → d' p ≡ d p) → Written ss d (err e) d'
  panicking : (d' : Disk) → ((p : ℕ) → IsOutside ss p → d' p ≡ d p) → Written ss d panic d'

-- A wave before other waves.
after_wave :
    (wave later : List WriteSlice) (d d' d'' : Disk) (res : Result (Unit {0}))
    → All (λ s. All (IsDisjoint s) later) wave
    → AllIn d' wave
    → ((p : ℕ) → IsOutside wave p → d' p ≡ d p)
    → Written later d' res d''
    → Written (wave ++ later) d res d''
after_wave wave later d d' d'' _ apart there far (all_in _ rest far') =
    all_in d''
      (All-append (λ s. HasPrefix d'' s (length s.bytes)) wave later
        (AllIn-later d' d'' wave later far' apart there) rest)
      (λ p out. let split = All-append_left _ wave later out in far' p split.1 ∙ far p split.0)
after_wave wave later d d' d'' _ apart there far (error e _ far') =
    error e d''
      (λ p out. let split = All-append_left _ wave later out in far' p split.1 ∙ far p split.0)
after_wave wave later d d' d'' _ apart there far (panicking _ far') =
    panicking d''
      (λ p out. let split = All-append_left _ wave later out in far' p split.1 ∙ far p split.0)

Waves-Written :
    (waves : List (List WriteSlice)) (d : Disk) (res : Result (Unit {0})) (d' : Disk)
    → Waves waves d res d'
    → AllPairs IsDisjoint (concat waves)
    → Written (concat waves) d res d'
Waves-Written _ d _ _ (no_more _) apart = all_in d tt (λ p out. refl)
Waves-Written _ d _ _ (next_wave n wave waves _ d1 d2 ts res run ended joined rest) apart =
    let (within, later, across) = AllPairs-append IsDisjoint wave (concat waves) apart in
    let (there, far) = Turns-wave n wave d d1 ts within run in
    after_wave wave (concat waves) d d1 d2 res across (there joined) far
      (Waves-Written waves d1 res d2 rest later)
Waves-Written _ d _ _ (last_wave n wave waves _ d1 ts e run ended joined) apart =
    let (within, later, across) = AllPairs-append IsDisjoint wave (concat waves) apart in
    let (there, far) = Turns-wave n wave d d1 ts within run in
    error e d1 (λ p out. far p (All-append_left _ wave (concat waves) out).0)
Waves-Written _ d _ _ (panic_wave n wave waves _ d1 ts run ended joined) apart =
    let (within, later, across) = AllPairs-append IsDisjoint wave (concat waves) apart in
    let (there, far) = Turns-wave n wave d d1 ts within run in
    panicking d1 (λ p out. far p (All-append_left _ wave (concat waves) out).0)
Waves-Written _ d _ _ (spawn_panic n k wave waves _ d1 ts short run ended) apart =
    let (within, later, across) = AllPairs-append IsDisjoint wave (concat waves) apart in
    let (there, far) =
      Turns-wave n (take k wave) d d1 ts (AllPairs-take IsDisjoint k wave within) run in
    panicking d1 (λ p out. far p (All-take _ k wave (All-append_left _ wave (concat waves) out).0))

-- For a batch that `WriteSlices::new` made, any parallelism and any order of the threads: when
-- `write_slices_at` returns, only bytes of the slices have changed, and with `Ok` every slice is in
-- the file at its offset.
pub WritesSlices-Written :
    (parallelism : Option ℕ) (slices : List WriteSlice) (batch : WriteSlices) (d : Disk)
    (res : Result (Unit {0})) (d' : Disk)
    → new slices ≡ ok batch
    → WritesSlices parallelism slices d res d'
    → Written slices d res d'
WritesSlices-Written parallelism slices batch d _ _ made (nothing empty) =
    all_in d (subst (AllIn d) (sym empty) tt) (λ p out. refl)
WritesSlices-Written parallelism slices batch d res d' made (in_waves _ _ run) =
    let (same, fits, apart) = new-eq-ok slices batch made in
    let whole = (chunks-worker_count parallelism slices).0 in
    subst (λ ss. Written ss d res d') whole
      (Waves-Written _ d res d' run (subst (AllPairs IsDisjoint) (sym whole) apart))
