-- ===== src/Sync/Whole/First.antt =====
-- Where `write_slices_at` stops at an error (src/sync/linux.rs).
use fastio.Prelude.{
  ℕ, ◌+◌, ◌≡◌, refl, sym, ◌∙◌, ap, List, [], ◌∷◌, ◌++◌, length, All, All-append_left, AllPairs,
  subst,
}
use fastio.Io.{Error, Result, ok, err, panic, stuck}
use fastio.Write.{WriteSlice, WriteSlices, new}
use fastio.Write.Verdict.{IsDisjoint, new-eq-ok}
use fastio.Positioned.{
  Positioned, Laws, Writes, wrote_all, write_failed, IsRange, Elsewhere as OutsideRange,
}
use fastio.Sync.Whole.{write_each, write_slices_at}
use fastio.Sync.Whole.Store.{IsOutside, IsDisjoint-IsOutside}

module _ (f : Positioned) (laws : Laws f) where
  open laws use {byte_at}

  -- The loop stopped at slice `at`: the slices before it are in the file, its own write returned the
  -- error, and the slices after it have changed nothing.
  pub record StopsAt (slices : List WriteSlice) (w : f.World) (e : Error) (w' : f.World)
      : Type 0 where
    pub before : List WriteSlice
    pub at : WriteSlice
    pub after : List WriteSlice
    pub split : slices ≡ before ++ (at ∷ after)
    pub reached : f.World
    pub stopped : f.write_all_at at.offset at.bytes reached ≡ (err e, w')
    pub stored : All (λ s. IsRange byte_at w' s.offset s.bytes) before
    pub elsewhere :
        (p : ℕ) → IsOutside before p → IsOutside (at ∷ []) p → byte_at w' p ≡ byte_at w p

  -- A slice that was written before the loop went on.
  StopsAt-cons :
      (s : WriteSlice) (slices : List WriteSlice) (w v : f.World) (e : Error) (w' : f.World)
      → All (IsDisjoint s) slices
      → IsRange byte_at v s.offset s.bytes
      → OutsideRange byte_at s.offset (length s.bytes) w v
      → StopsAt slices v e w'
      → StopsAt (s ∷ slices) w e w'
  StopsAt-cons s slices w v e w' apart good far later =
      let (apart_before, apart_after) =
        All-append_left (IsDisjoint s) later.before (later.at ∷ later.after)
          (subst (All (IsDisjoint s)) later.split apart) in
      record {
        before = s ∷ later.before;
        at = later.at;
        after = later.after;
        split = ap (s ∷◌) later.split;
        reached = later.reached;
        stopped = later.stopped;
        stored = (
          (λ k lt.
              good k lt
              ∙ sym (
                  later.elsewhere (s.offset + k)
                    (IsDisjoint-IsOutside s k later.before lt apart_before)
                    (IsDisjoint-IsOutside s k (later.at ∷ []) lt (apart_after.0, tt)))),
          later.stored,
        );
        elsewhere = λ p out here. later.elsewhere p out.1 here ∙ far p out.0;
      }

  write_each-StopsAt :
      (slices : List WriteSlice) (w : f.World) (e : Error) (w' : f.World)
      → AllPairs IsDisjoint slices
      → write_each f slices w ≡ (err e, w')
      → StopsAt slices w e w'
  unfolding write_each
  write_each-StopsAt [] w e w' apart h = cc (ap (λ (r : Result (Unit {0}) × f.World). r.0) h)
  write_each-StopsAt (s ∷ slices) w e w' apart h =
      by_first (f.write_all_at s.offset s.bytes w) refl (laws.write_law w s.offset s.bytes)
        (λ v. write_each-StopsAt slices v e w' apart.1) h
    where
      by_first :
          (one : Result (Unit {0}) × f.World)
          → f.write_all_at s.offset s.bytes w ≡ one
          → Writes byte_at w s.offset s.bytes one
          → ((v : f.World) → write_each f slices v ≡ (err e, w') → StopsAt slices v e w')
          → elim one.0 [
            | ok u ↦ write_each f slices one.1
            | err x ↦ (err x, one.1)
            | panic ↦ (panic, one.1)
            | stuck ↦ (stuck, one.1)
          ]
            ≡ (err e, w')
          → StopsAt (s ∷ slices) w e w'
      by_first _ same (wrote_all v good far) rest h =
          StopsAt-cons s slices w v e w' apart.0 good far (rest v h)
      by_first _ same (write_failed x v far) rest h = record {
        before = [];
        at = s;
        after = slices;
        split = refl;
        reached = w;
        stopped = same ∙ h;
        stored = tt;
        elsewhere = λ p none_before out.
            ap (λ (r : Result (Unit {0}) × f.World). byte_at r.1 p) (sym h) ∙ far p out.0;
      }

  -- For a batch that `WriteSlices::new` made, on a file that keeps its promises: when
  -- `write_slices_at` returns an error, this is the error of the write of one slice; the slices
  -- before it are in the file at their offsets, and no byte outside of these and of its own range
  -- has changed, so that no later slice was written.
  pub write_slices_at-StopsAt :
      (slices : List WriteSlice) (batch : WriteSlices) (w : f.World) (e : Error) (w' : f.World)
      → new slices ≡ ok batch
      → write_slices_at f batch w ≡ (err e, w')
      → StopsAt slices w e w'
  unfolding write_slices_at
  write_slices_at-StopsAt slices batch w e w' made h =
      let (same, fits, apart) = new-eq-ok slices batch made in
      write_each-StopsAt slices w e w' apart (rw same at h)
