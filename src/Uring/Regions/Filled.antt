-- ===== src/Uring/Regions/Filled.antt =====
-- `read_at_batch` returns buffers with the bytes of their regions (src/uring.rs, with src/buffer.rs).
use fastio.Prelude.{
  ℕ, suc, ◌+◌, ◌<◌, ◌≡◌, ◌≢◌, ◌⊎◌, inl, inr, refl, ◌∙◌, ap, sym, subst, ◌==◌, List, [], ◌∷◌, none,
  some, length, get_or, bytes_from, length-bytes_from, get_or-bytes_from, arith, false,
}
use fastio.Io.{Error, Result, ok, err, u64_max}
use fastio.Buffer.{Pool, PoolLaws, Bytes, len, as_ref}
use fastio.Uring.Ring.{Ring, Laws, memory, contents}
use fastio.Uring.Loop.Drive.{Wakes}
use fastio.Uring.Cache.{File}
use fastio.Uring.Loop.Origin.{IsRaised}
use fastio.Uring.Batch.{Region, region_at, region_overflow, regions_plan}
use fastio.Uring.Batch.Requests.{address, IsApart}
use fastio.Uring.Batch.Transfer.{Batch, all_read, io_error, declined, read_at_batch-Batch}
use fastio.Uring.Whole.Fetch.{peek}
use fastio.Uring.Regions.{
  drop_all, allocate_each, buffer_ptr, refilled, finish, read_into, read_regions,
}
use fastio.Uring.Regions.Fresh.{AllFresh, allocate_each-AllFresh, buffer_ptr-some}

module _ (r : Ring) (laws : Laws r) (pool : Pool) (pool_laws : PoolLaws pool) (file : File)
    (addresses : ℕ → ℕ) where
  open laws use {pending, byte_at}

  -- The buffer has the bytes of the region in `w`.
  pub record IsFilled (w : r.World) (region : Region) (b : Bytes pool) : Type 0 where
    pub bytes : List ℕ
    pub view : as_ref pool b ≡ ok bytes
    pub full : length bytes ≡ region.len
    pub good :
        (k : ℕ)
        → k < region.len
        → get_or bytes k 0 ≡ byte_at w (contents file.fd (region.offset + k))

  -- One filled buffer for each region.
  abbrev pub AllFilled : r.World → List Region → List (Bytes pool) → Type 0
  AllFilled w [] [] = Unit
  AllFilled w [] (b ∷ bs) = ⊥
  AllFilled w (region ∷ regions) [] = ⊥
  AllFilled w (region ∷ regions) (b ∷ bs) = IsFilled w region b × AllFilled w regions bs

  -- The error of a transfer of no byte.
  abbrev short_read : Error
  short_read = (regions_plan file [] (λ i. none)).short

  -- The results of a batch that starts in `w`. An error is one that the ring has raised, or that of a
  -- transfer of no byte, with nothing in flight; or the overflow error, for a region. With an error the
  -- buffers that were allocated are dropped.
  pub data Filled (regions : List Region) (s : pool.Store) (w : r.World)
      : Result (List (Bytes pool)) × pool.Store × r.World → Type 0 where
    all_filled :
        (bs : List (Bytes pool)) (s' : pool.Store) (w' : r.World)
        → pending w' ≡ []
        → AllFilled w regions bs
        → Filled regions s w (ok bs, s', w')
    failed :
        (e : Error) (bs : List (Bytes pool)) (s' : pool.Store) (w' : r.World)
        → allocate_each pool regions s ≡ (ok bs, s')
        → (IsRaised r laws file.ring_depth short_read e × (pending w' ≡ []))
          ⊎ ((idx : ℕ) × (e ≡ region_overflow)
              × (idx < length regions)
              × (u64_max < (region_at regions idx).offset + (region_at regions idx).len))
        → Filled regions s w (err e, drop_all pool bs s', w')

  -- What the kernel has moved, for the buffers from `idx` on.
  refilled-AllFilled :
      (w w' : r.World) (regions : List Region) (bs : List (Bytes pool)) (idx : ℕ)
      → AllFresh pool pool_laws regions bs
      → ((i k : ℕ)
          → i < length regions
          → k < (region_at regions i).len
          → byte_at w' (memory (addresses (idx + i) + k))
            ≡ byte_at w (contents file.fd ((region_at regions i).offset + k)))
      → AllFilled w regions (refilled pool (peek r laws w') addresses idx bs)
  refilled-AllFilled w w' [] [] idx all moved = tt
  refilled-AllFilled w w' [] (b ∷ bs) idx all moved = elim all [ ]
  refilled-AllFilled w w' (region ∷ regions) [] idx all moved = elim all [ ]
  refilled-AllFilled w w' (region ∷ regions) (b ∷ bs) idx all moved =
      let got = bytes_from (peek r laws w') (addresses idx) (len pool b) in
      let size : length got ≡ region.len =
        length-bytes_from (peek r laws w') (addresses idx) (len pool b) ∙ all.0.sized in
      (
        record {
          bytes = got;
          view = all.0.takes got size;
          full = size;
          good = λ k lt.
              get_or-bytes_from (peek r laws w') (addresses idx) (len pool b) k
                (omega (arith, lt, all.0.sized))
              ∙ ap (λ n. byte_at w' (memory (addresses n + k))) {x = idx} {y = idx + 0}
                  (omega arith)
              ∙ moved 0 k (omega arith) lt;
        },
        refilled-AllFilled w w' regions bs (idx + 1) all.1 (λ i k hi hk.
            ap (λ n. byte_at w' (memory (addresses n + k))) {x = idx + 1 + i} {y = idx + suc i}
              (omega arith)
            ∙ moved (suc i) k (omega arith) hk),
      )

  module _ (regions : List Region) (bs : List (Bytes pool))
      (all : AllFresh pool pool_laws regions bs) where
    address-eq :
        (i : ℕ) → i < length regions → address (buffer_ptr pool bs addresses) i ≡ addresses i
    address-eq i lt =
        rw (address, buffer_ptr-some pool pool_laws regions bs addresses i all lt) refl

    buffer_ptr-IsApart :
        IsApart regions (λ i. some (addresses i)) → IsApart regions (buffer_ptr pool bs addresses)
    buffer_ptr-IsApart apart i k j m hi hk hj hm same =
        apart i k j m hi hk hj hm (omega (arith, same, address-eq i hi, address-eq j hj))

    Batch-Filled :
        (s s' : pool.Store) (w : r.World) (res : Result (Unit {0}) × r.World)
        → allocate_each pool regions s ≡ (ok bs, s')
        → Batch r laws file regions (buffer_ptr pool bs addresses) w res
        → Filled regions s w (finish pool r (peek r laws) addresses bs s' res)
    Batch-Filled s s' w _ made (all_read w' quiet moved far) = all_filled _ s' w' quiet (
        refilled-AllFilled w w' regions bs 0 all (λ i k hi hk.
          ap (λ a. byte_at w' (memory (a + k)))
            (ap addresses {x = 0 + i} {y = i} (omega arith) ∙ sym (address-eq i hi))
          ∙ moved i k hi hk))
    Batch-Filled s s' w _ made (io_error x w' raised quiet far) =
        failed x bs s' w' made (inl (raised, quiet))
    Batch-Filled s s' w _ made (declined x i w' hi (inl long) far) =
        failed x bs s' w' made (inr (i, long.0, hi, long.1))
    Batch-Filled s s' w _ made (declined x i w' hi (inr no_slice) far) = absurd (
        ptr-ne-none
          (sym (buffer_ptr-some pool pool_laws regions bs addresses i all hi) ∙ no_slice.1))
      where
        ptr-ne-none : {a : ℕ} → some a ≢ none
        ptr-ne-none e = cc e

  -- For slices of the buffers that share no byte, on a ring and a pool that keep their laws, with
  -- nothing in flight, for a handle with a depth: `read_at_batch` returns one buffer for each region
  -- with the region's bytes and nothing in flight, or an error that the ring has raised or that of a
  -- transfer of no byte, with nothing in flight, or else the overflow error, for a region that does
  -- not end at a `u64`. With an error all buffers are dropped, and so go back to their pool.
  pub read_regions-Filled :
      Wakes r laws
      → 0 < file.ring_depth
      → (regions : List Region) → IsApart regions (λ i. some (addresses i))
      → (s : pool.Store) (w : r.World) → pending w ≡ []
      → Filled regions s w (read_regions pool r (peek r laws) addresses file regions s w)
  unfolding read_regions
  read_regions-Filled wakes deep [] apart s w quiet = all_filled [] s w quiet tt
  read_regions-Filled wakes deep (region ∷ regions) apart s w quiet =
      let (bs, s', made, all) = allocate_each-AllFresh pool pool_laws (region ∷ regions) s in
      let some_region : (length (region ∷ regions) == 0) ≡ false = ground arith in
      rw some_region (
        subst
          (λ res.
            Filled (region ∷ regions) s w
              (read_into pool r (peek r laws) addresses file (region ∷ regions) res w))
          (sym made)
          (Batch-Filled (region ∷ regions) bs all s s' w _ made (
            read_at_batch-Batch r laws file (region ∷ regions) (buffer_ptr pool bs addresses)
              (buffer_ptr-IsApart (region ∷ regions) bs all apart) wakes deep w quiet)))
