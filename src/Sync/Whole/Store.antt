-- ===== src/Sync/Whole/Store.antt =====
-- `write_slices_at` writes a validated batch (src/sync/linux.rs, with src/write.rs).
use fastio.Prelude.{
  ℕ, ◌+◌, ◌<◌, ◌≡◌, ◌≢◌, refl, sym, ◌∙◌, List, [], ◌∷◌, length, All, AllPairs, arith,
}
use fastio.Io.{Error, Result, ok, err, panic, stuck}
use fastio.Write.{WriteSlice, WriteSlices, new}
use fastio.Write.Verdict.{IsDisjoint, new-eq-ok}
use fastio.Positioned.{
  Positioned, Laws, Writes, wrote_all, write_failed, IsRange, Elsewhere as OutsideRange,
}
use fastio.Sync.Whole.{write_each, write_slices_at}

-- The places of a slice, and those outside of a batch.
abbrev pub IsOutside : List WriteSlice → ℕ → Type 0
IsOutside slices p = All (λ s. (k : ℕ) → k < length s.bytes → s.offset + k ≢ p) slices

-- A byte of a slice is none of the bytes of disjoint slices.
pub IsDisjoint-IsOutside :
    (s : WriteSlice) (k : ℕ) (slices : List WriteSlice)
    → k < length s.bytes
    → All (IsDisjoint s) slices
    → IsOutside slices (s.offset + k)
IsDisjoint-IsOutside s k [] lt apart = tt
IsDisjoint-IsOutside s k (v ∷ slices) lt apart = (
  λ m hm same. apart.0 (s.offset + k) ((omega arith, omega arith), (omega arith, omega arith)),
  IsDisjoint-IsOutside s k slices lt apart.1,
)

-- `kept` is what a successful write leaves as it is, besides the rest of the file.
module _ (f : Positioned) (laws : Laws f) (kept : f.World → ℕ) where
  open laws use {byte_at}

  abbrev pub Elsewhere : List WriteSlice → f.World → f.World → Type 0
  Elsewhere slices w w' = (p : ℕ) → IsOutside slices p → byte_at w' p ≡ byte_at w p

  pub data Batch (slices : List WriteSlice) (w : f.World)
      : Result (Unit {0}) × f.World → Type 0 where
    all_stored :
        (w' : f.World)
        → All (λ s. IsRange byte_at w' s.offset s.bytes) slices
        → Elsewhere slices w w'
        → kept w' ≡ kept w
        → Batch slices w (ok tt, w')
    failed : (e : Error) (w' : f.World) → Elsewhere slices w w' → Batch slices w (err e, w')

  module _
      (kept_law : (o : ℕ) (bytes : List ℕ) (w : f.World)
        → (f.write_all_at o bytes w).0 ≡ ok tt
        → kept (f.write_all_at o bytes w).1 ≡ kept w) where
    -- One slice, and then the rest of the batch.
    cons-Batch :
        (s : WriteSlice) (slices : List WriteSlice) (w v : f.World)
        (res : Result (Unit {0}) × f.World)
        → All (IsDisjoint s) slices
        → IsRange byte_at v s.offset s.bytes
        → OutsideRange byte_at s.offset (length s.bytes) w v
        → kept v ≡ kept w
        → Batch slices v res
        → Batch (s ∷ slices) w res
    cons-Batch s slices w v _ apart good far same (all_stored w' rest far' same') =
        all_stored w'
          (
            (λ k lt.
                good k lt ∙ sym (far' (s.offset + k) (IsDisjoint-IsOutside s k slices lt apart))),
            rest,
          )
          (λ p out. far' p out.1 ∙ far p out.0) (same' ∙ same)
    cons-Batch s slices w v _ apart good far same (failed e w' far') =
        failed e w' (λ p out. far' p out.1 ∙ far p out.0)

    pub write_each-Batch :
        (slices : List WriteSlice) (w : f.World)
        → AllPairs IsDisjoint slices
        → Batch slices w (write_each f slices w)
    unfolding write_each
    write_each-Batch [] w apart = all_stored w tt (λ p out. refl) refl
    write_each-Batch (s ∷ slices) w apart =
        by_first (f.write_all_at s.offset s.bytes w) (laws.write_law w s.offset s.bytes)
          (kept_law s.offset s.bytes w) (λ v. write_each-Batch slices v apart.1)
      where
        by_first :
            (one : Result (Unit {0}) × f.World)
            → Writes byte_at w s.offset s.bytes one
            → (one.0 ≡ ok tt → kept one.1 ≡ kept w)
            → ((v : f.World) → Batch slices v (write_each f slices v))
            → Batch (s ∷ slices) w (elim one.0 [
              | ok u ↦ write_each f slices one.1
              | err e ↦ (err e, one.1)
              | panic ↦ (panic, one.1)
              | stuck ↦ (stuck, one.1)
            ])
        by_first _ (wrote_all v good far) same rest =
            cons-Batch s slices w v _ apart.0 good far (same refl) (rest v)
        by_first _ (write_failed e v far) same rest = failed e v (λ p out. far p out.0)

    pub write_slices_at-Batch :
        (slices : List WriteSlice) (batch : WriteSlices) (w : f.World)
        → new slices ≡ ok batch
        → Batch slices w (write_slices_at f batch w)
    unfolding write_slices_at
    write_slices_at-Batch slices batch w made =
        let (same, fits, apart) = new-eq-ok slices batch made in
        rw same (write_each-Batch slices w apart)
