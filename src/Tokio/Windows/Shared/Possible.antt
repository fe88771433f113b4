-- ===== src/Tokio/Windows/Shared/Possible.antt =====
-- Threads that run one after the other succeed and put the cursor back (src/tokio/mod.rs).
use fastio.Prelude.{
  ℕ, ◌≤◌, ◌≡◌, ◌≢◌, refl, ◌∙◌, sym, subst, List, [], ◌∷◌, Option, length, map, All, All-append_left,
  arith,
}
use fastio.Io.{ok, u64_max}
use fastio.Write.{WriteSlice, WriteSlices, new}
use fastio.Write.Verdict.{Fits, new-eq-ok}
use fastio.Tokio.Waves.{join_all, IsEnded, chunks, worker_count}
use fastio.Tokio.Waves.Chunks.{concat, chunks-worker_count}
use fastio.Tokio.Windows.Shared.{
  SharedFile, CursorThread, arrive, finished, save, complete, restore, here, there, Rounds, stop,
  round, seen, CursorWaves, no_more, next_wave, CursorSlices, in_waves,
}
use fastio.Tokio.Windows.Shared.Lost.{at, written, put_back, whole}

-- One slice: the thread runs to its end before anything else.
finish :
    (o : ℕ) (bytes : List ℕ) (ts : List CursorThread) (h : SharedFile)
    → (length bytes ≢ 0 → o ≤ u64_max)
    → let s : WriteSlice = record { offset = o; bytes = bytes } in
      (h' : SharedFile) × Rounds h (arrive s ∷ ts) h' (at s finished ∷ ts)
      × (h'.position ≡ h.position)
finish o [] ts h word = (
  put_back h.position h,
  round _ _ _ _ _ _ (here _ _ _ _ ts (save o [])) (
      round _ _ _ _ _ _ (here _ _ _ _ ts (complete h.position o))
        (round _ _ _ _ _ _ (here _ _ _ _ ts (restore h.position o)) (stop _ _))),
  refl,
)
finish o (b ∷ bytes) ts h word =
    let s : WriteSlice = record { offset = o; bytes = b ∷ bytes } in
    let filled : length (b ∷ bytes) ≢ 0 = λ e. omega (arith, e) in
    (
      put_back h.position (written s h),
      round _ _ _ _ _ _ (here s _ _ _ ts (save o (b ∷ bytes))) (
          round _ _ _ _ _ _ (here s _ _ _ ts (whole s h h.position filled (word filled))) (
            round _ _ _ _ _ _ (here s _ _ _ ts (complete h.position _))
              (round _ _ _ _ _ _ (here s _ _ _ ts (restore h.position _)) (stop _ _)))),
      refl,
    )

under :
    (t : CursorThread) (h : SharedFile) (ts : List CursorThread) (h' : SharedFile)
    (ts' : List CursorThread)
    → Rounds h ts h' ts'
    → Rounds h (t ∷ ts) h' (t ∷ ts')
under t h _ _ _ (stop _ ts) = stop h (t ∷ ts)
under t h _ _ _ (round _ ts h1 ts1 h2 ts2 one rest) =
    round h (t ∷ ts) h1 (t ∷ ts1) h2 (t ∷ ts2) (there t ts h1 ts1 one) (under t h1 ts1 h2 ts2 rest)

Rounds-trans :
    (h : SharedFile) (ts : List CursorThread) (h' : SharedFile) (ts' : List CursorThread)
    (h'' : SharedFile) (ts'' : List CursorThread)
    → Rounds h ts h' ts'
    → Rounds h' ts' h'' ts''
    → Rounds h ts h'' ts''
Rounds-trans h ts _ _ h'' ts'' (stop _ _) later = later
Rounds-trans h ts _ _ h'' ts'' (round _ _ h1 ts1 h2 ts2 one rest) later =
    round h ts h1 ts1 h'' ts'' one (Rounds-trans h1 ts1 h2 ts2 h'' ts'' rest later)

record Success (wave : List WriteSlice) (h : SharedFile) : Type 0 where
  after : SharedFile
  threads : List CursorThread
  run : Rounds h (map arrive wave) after threads
  ended : All IsEnded (map seen threads)
  joined : join_all (map seen threads) ≡ ok tt
  back : after.position ≡ h.position

wave-Success : (wave : List WriteSlice) (h : SharedFile) → All Fits wave → Success wave h
unfolding join_all
wave-Success [] h fits = record {
  after = h;
  threads = [];
  run = stop h [];
  ended = tt;
  joined = refl;
  back = refl;
}
wave-Success (s ∷ wave) h fits =
    let (h1, one, back) =
      finish s.offset s.bytes (map arrive wave) h (λ filled. omega (arith, fits.0 filled)) in
    let rest = wave-Success wave h1 fits.1 in
    record {
      after = rest.after;
      threads = at s finished ∷ rest.threads;
      run =
          Rounds-trans h _ h1 _ rest.after _ one
            (under (at s finished) h1 (map arrive wave) rest.after rest.threads rest.run);
      ended = (tt, rest.ended);
      joined = rest.joined;
      back = rest.back ∙ back;
    }

CursorWaves-possible :
    (waves : List (List WriteSlice)) (h : SharedFile)
    → All Fits (concat waves)
    → (h' : SharedFile) × CursorWaves waves h (ok tt) h' × (h'.position ≡ h.position)
CursorWaves-possible [] h fits = (h, no_more h, refl)
CursorWaves-possible (wave ∷ waves) h fits =
    let split = All-append_left Fits wave (concat waves) fits in
    let s = wave-Success wave h split.0 in
    let (h', run, back) = CursorWaves-possible waves s.after split.1 in
    (
      h',
      next_wave wave waves h s.after h' s.threads (ok tt) s.run s.ended s.joined run,
      back ∙ s.back,
    )

-- On Windows, for a batch that `WriteSlices::new` made, any file and any parallelism: there is an
-- order of the steps of the threads in which `write_slices_at` returns `Ok` and the cursor is where
-- it was.
pub CursorSlices-possible :
    (parallelism : Option ℕ) (slices : List WriteSlice) (batch : WriteSlices) (h : SharedFile)
    → new slices ≡ ok batch
    → (h' : SharedFile) × CursorSlices parallelism slices h (ok tt) h' × (h'.position ≡ h.position)
CursorSlices-possible parallelism slices batch h made =
    let (same, fits, apart) = new-eq-ok slices batch made in
    let (h', run, back) =
      CursorWaves-possible (chunks (worker_count parallelism (length slices)) slices) h
        (subst (All Fits) (sym (chunks-worker_count parallelism slices).0) fits) in
    (h', in_waves (ok tt) h' run, back)
