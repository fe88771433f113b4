-- ===== src/Uring/Regions/Fresh.antt =====
-- The buffers that `read_at_batch` allocates (src/uring.rs, with src/buffer.rs).
use fastio.Prelude.{
  ℕ, zero, suc, ◌<◌, ◌≡◌, ◌==◌, ==→≡, refl, ◌∙◌, ap, sym, inl, inr, Bool-cases, List, [], ◌∷◌, some,
  length, get_elem?, arith,
}
use fastio.Io.{ok}
use fastio.Buffer.{Pool, PoolLaws, pooled, Bytes, len, as_mut_slice, from_vec, allocate, as_ref}
use fastio.Uring.Batch.{Region}
use fastio.Uring.Regions.{leave_slice, allocate_each, slice_ptr, buffer_ptr, refill}

module _ (pool : Pool) (laws : PoolLaws pool) where
  -- A buffer of `n` bytes that can be written, and takes the bytes that are written.
  pub record IsFresh (n : ℕ) (b : Bytes pool) : Type 0 where
    pub slice : List ℕ
    pub mutable : as_mut_slice pool b ≡ some slice
    pub sized : len pool b ≡ n
    pub takes :
        (bytes : List ℕ) → length bytes ≡ n → as_ref pool (refill pool b.inner bytes) ≡ ok bytes

  pub record Allocates (n : ℕ) (s : pool.Store) : Type 0 where
    pub buffer : Bytes pool
    pub free : pool.Store
    pub returns : allocate pool n leave_slice s tt ≡ (ok buffer, free, tt)
    pub fresh : IsFresh n buffer

  allocate-Allocates : (n : ℕ) (s : pool.Store) → Allocates n s
  unfolding allocate as_ref as_mut_slice len
  allocate-Allocates n s = elim (Bool-cases (n == 0)) [
    | inl e ↦ record {
      buffer = from_vec pool [];
      free = s;
      returns = rw (allocate, e) refl;
      fresh = record {
        slice = [];
        mutable = refl;
        sized = sym (==→≡ n 0 e);
        takes = λ bytes h. refl;
      };
    }
    | inr e ↦
        let b = (pool.alloc_uninit n s).0 in
        let same = laws.init_law (pool.contents b) b refl in
        record {
          buffer = record { inner = pooled (pool.assume_init (pool.contents b) b) };
          free = (pool.alloc_uninit n s).1;
          returns = rw (allocate, e) refl;
          fresh = record {
            slice = pool.contents (pool.assume_init (pool.contents b) b);
            mutable = refl;
            sized = laws.len_law _ ∙ ap length same ∙ laws.alloc_law n s;
            takes = λ bytes h.
                ap ok (laws.init_law bytes _ (h ∙ sym (laws.alloc_law n s) ∙ sym (ap length same)));
          };
        }
  ]

  -- A fresh buffer for each region.
  abbrev pub AllFresh : List Region → List (Bytes pool) → Type 0
  AllFresh [] [] = Unit
  AllFresh [] (b ∷ bs) = ⊥
  AllFresh (region ∷ regions) [] = ⊥
  AllFresh (region ∷ regions) (b ∷ bs) = IsFresh region.len b × AllFresh regions bs

  pub allocate_each-AllFresh :
      (regions : List Region) (s : pool.Store)
      → (bs : List (Bytes pool)) × (s' : pool.Store) × (allocate_each pool regions s ≡ (ok bs, s'))
        × AllFresh regions bs
  unfolding allocate_each
  allocate_each-AllFresh [] s = ([], s, refl, tt)
  allocate_each-AllFresh (region ∷ regions) s =
      let one = allocate-Allocates region.len s in
      let (bs, s', rest, all) = allocate_each-AllFresh regions one.free in
      (one.buffer ∷ bs, s', rw (allocate_each, one.returns, rest) refl, (one.fresh, all))

  fresh_at :
      (regions : List Region) (bs : List (Bytes pool)) (i : ℕ)
      → AllFresh regions bs
      → i < length regions
      → (b : Bytes pool) × (get_elem? bs i ≡ some b)
        × ((slice : List ℕ) × (as_mut_slice pool b ≡ some slice))
  fresh_at [] bs i all lt = elim lt [ ]
  fresh_at (region ∷ regions) [] i all lt = elim all [ ]
  fresh_at (region ∷ regions) (b ∷ bs) zero all lt = (b, refl, (all.0.slice, all.0.mutable))
  fresh_at (region ∷ regions) (b ∷ bs) (suc i) all lt = fresh_at regions bs i all.1 (omega arith)

  -- No buffer of the batch is refused as not mutable.
  pub buffer_ptr-some :
      (regions : List Region) (bs : List (Bytes pool)) (addresses : ℕ → ℕ) (i : ℕ)
      → AllFresh regions bs
      → i < length regions
      → buffer_ptr pool bs addresses i ≡ some (addresses i)
  buffer_ptr-some regions bs addresses i all lt =
      let (b, at, slice) = fresh_at regions bs i all lt in rw (at, slice_ptr, slice.1) refl
