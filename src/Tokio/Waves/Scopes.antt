-- ===== src/Tokio/Waves/Scopes.antt =====
-- What a scope returns for a wave (src/tokio/mod.rs).
use fastio.Prelude.{ℕ, ◌≡◌, ◌∙◌, sym, subst, List, [], ◌∷◌, length, map, All, AllPairs, ◌≢◌, arith}
use fastio.Io.{Error, Result, ok}
use fastio.Write.{WriteSlice}
use fastio.Write.Verdict.{IsDisjoint}
use fastio.Sync.Whole.Store.{IsOutside}
use fastio.Tokio.Waves.{
  Disk, Worker, writing, finished, failed, panicked, Thread, spawn, Turns, join_all, join_one,
  leave_scope, worker_error,
}
use fastio.Tokio.Waves.Threads.{
  HasPrefix, IsSound, AllSound, slices_of, slices_of-spawn, spawn-AllSound, Turns-AllSound,
}

-- Every slice is in the file.
abbrev pub AllIn : Disk → List WriteSlice → Type 0
AllIn d ss = All (λ s. HasPrefix d s (length s.bytes)) ss

leave_scope-ne-ok : (e : Error) (ts : List Thread) → leave_scope e ts ≢ ok tt
leave_scope-ne-ok e ts h = ground arith

join_one-ok :
    (d : Disk) (s : WriteSlice) (w : Worker) (ts : List Thread) (rest : Result (Unit {0}))
    → IsSound d s w
    → join_one w ts rest ≡ ok tt
    → HasPrefix d s (length s.bytes) × (rest ≡ ok tt)
join_one-ok d s finished ts rest good h = (good, h)
join_one-ok d s (failed e) ts rest good h = absurd (leave_scope-ne-ok e ts h)
join_one-ok d s panicked ts rest good h = absurd (leave_scope-ne-ok worker_error ts h)
join_one-ok d s (writing o left) ts rest good h = cc

-- A scope returns `Ok` only if all its threads finished.
join_all-ok :
    (d : Disk) (ts : List Thread) → AllSound d ts → join_all ts ≡ ok tt → AllIn d (slices_of ts)
unfolding join_all
join_all-ok d [] sound h = tt
join_all-ok d (t ∷ ts) sound h =
    let (first, later) = join_one-ok d t.slice t.worker ts (join_all ts) sound.0 h in
    (first, join_all-ok d ts sound.1 later)

-- A wave from `d` to `d'`: only the slices have changed, and with `Ok` each is in the file.
pub Turns-wave :
    (n : ℕ) (wave : List WriteSlice) (d d' : Disk) (ts : List Thread)
    → AllPairs IsDisjoint wave
    → Turns n d (map spawn wave) d' ts
    → (join_all ts ≡ ok tt → AllIn d' wave) × ((p : ℕ) → IsOutside wave p → d' p ≡ d p)
Turns-wave n wave d d' ts apart run =
    let (sound, far, same) =
      Turns-AllSound n d (map spawn wave) d' ts run
        (subst (AllPairs IsDisjoint) (sym (slices_of-spawn wave)) apart) (spawn-AllSound d wave) in
    (
      (λ h. subst (AllIn d') (same ∙ slices_of-spawn wave) (join_all-ok d' ts sound h)),
      λ p out. far p (subst (λ l. IsOutside l p) (sym (slices_of-spawn wave)) out),
    )
