-- ===== src/Sync/Whole/RoundTrip.antt =====
-- `read_at` gets back what `write_slices_at` has put into the file (src/sync/linux.rs).
use fastio.Prelude.{ℕ, suc, ◌<◌, ◌≡◌, refl, sym, ◌∙◌, ap, List, [], ◌∷◌, length, get_or, All, arith}
use fastio.Io.{Error, Result, ok, err}
use fastio.Write.{WriteSlice, WriteSlices, new}
use fastio.Buffer.{Pool, PoolLaws, Bytes, as_ref}
use fastio.Positioned.{Positioned, Laws, IsRange}
use fastio.Sync.Whole.{read_at, write_slices_at}
use fastio.Sync.Whole.Fetch.{Fetched, fetched, failed, read_at-Fetched}
use fastio.Sync.Whole.Store.{Batch, all_stored, write_slices_at-Batch}
use fastio.Sync.Whole.Store

-- Lists with the same elements at the same places.
get_or-ext :
    (xs ys : List ℕ)
    → length xs ≡ length ys
    → ((k : ℕ) → k < length xs → get_or xs k 0 ≡ get_or ys k 0)
    → xs ≡ ys
get_or-ext [] [] e h = refl
get_or-ext [] (y ∷ ys) e h = absurd (omega arith)
get_or-ext (x ∷ xs) [] e h = absurd (omega arith)
get_or-ext (x ∷ xs) (y ∷ ys) e h =
    let rest = get_or-ext xs ys (omega arith) (λ k lt. h (suc k) (omega arith)) in
    let first = h 0 (omega arith) in cc (rest, first)

module _ (f : Positioned) (laws : Laws f) (pool : Pool) (pool_laws : PoolLaws pool) where
  open laws use {byte_at}

  -- A buffer with just these bytes, or an error.
  pub data GivesBack (bytes : List ℕ) : Result (Bytes pool) × pool.Store × f.World → Type 0 where
    gives :
        (b : Bytes pool) (s : pool.Store) (w : f.World)
        → as_ref pool b ≡ ok bytes
        → GivesBack bytes (ok b, s, w)
    fails : (e : Error) (s : pool.Store) (w : f.World) → GivesBack bytes (err e, s, w)

  Fetched-GivesBack :
      (offset : ℕ) (bytes : List ℕ) (w : f.World) (res : Result (Bytes pool) × pool.Store × f.World)
      → IsRange byte_at w offset bytes
      → Fetched f laws pool pool_laws offset (length bytes) w res
      → GivesBack bytes res
  Fetched-GivesBack offset bytes w _ there (fetched b got s' w' view full good same) =
      gives b s' w' (
        view
        ∙ ap ok (
            get_or-ext got bytes full
              (λ k lt. good k lt ∙ sym (there k (omega (arith, full, lt))))))
  Fetched-GivesBack offset bytes w _ there (failed e s' w' same) = fails e s' w'

  all-GivesBack :
      (slices : List WriteSlice) (w : f.World) (s : pool.Store)
      → All (λ v. IsRange byte_at w v.offset v.bytes) slices
      → All (λ v. GivesBack v.bytes (read_at f pool v.offset (length v.bytes) s w)) slices
  all-GivesBack [] w s there = tt
  all-GivesBack (v ∷ slices) w s there = (
    Fetched-GivesBack v.offset v.bytes w _ there.0
        (read_at-Fetched f laws pool pool_laws v.offset (length v.bytes) s w),
    all-GivesBack slices w s there.1,
  )

  -- For a file and a pool that keep their promises, and a batch that `WriteSlices::new` made: after
  -- `write_slices_at` has returned `Ok`, `read_at` of the range of any slice returns a buffer with
  -- the bytes of that slice, or an error.
  pub write_slices_at-read_at :
      (slices : List WriteSlice) (batch : WriteSlices) (w : f.World)
      → new slices ≡ ok batch
      → (write_slices_at f batch w).0 ≡ ok tt
      → (s : pool.Store)
      → All
          (λ v.
            GivesBack v.bytes
              (read_at f pool v.offset (length v.bytes) s (write_slices_at f batch w).1))
          slices
  write_slices_at-read_at slices batch w made done s =
      all-GivesBack slices (write_slices_at f batch w).1 s (
        stored_by _
          (write_slices_at-Batch f laws (λ v. 0) (λ o bytes v e. refl) slices batch w made) done)
    where
      stored_by :
          (res : Result (Unit {0}) × f.World)
          → Batch f laws (λ v. 0) slices w res
          → res.0 ≡ ok tt
          → All (λ v. IsRange byte_at res.1 v.offset v.bytes) slices
      stored_by _ (all_stored w' there far same) h = there
      stored_by _ (Store.failed e w' far) h = cc h
