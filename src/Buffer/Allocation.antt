-- ===== src/Buffer/Allocation.antt =====
-- What `Bytes::allocate` returns (src/buffer.rs).
use fastio.Prelude.{
  ℕ, ◌≡◌, ◌≢◌, refl, ◌∙◌, ap, sym, ◌==◌, ==→≡, ==→≢, Bool-cases, inl, inr, List, [], length, true,
}
use fastio.Io.{Error, Result, ok, err}
use fastio.Buffer.{Pool, PoolLaws, Bytes, from_vec, pooled, wrap, allocate, as_ref, is_pooled}

module _ (pool : Pool) (laws : PoolLaws pool) {World : Type 0} where
  -- A closure fills the slice that it gets, or returns an error.
  pub data Fills (P : List ℕ → World → Type 0) (Q : Error → World → Type 0) (n : ℕ)
      : Result (List ℕ) × World → Type 0 where
    fills : (bytes : List ℕ) (w : World) → length bytes ≡ n → P bytes w → Fills P Q n (ok bytes, w)
    fails : (e : Error) (w : World) → Q e w → Fills P Q n (err e, w)

  -- The buffer has the bytes that the closure left, and is pooled unless it is empty; or the
  -- closure's error is returned, and the buffer has gone back to the pool.
  pub data Allocated (P : List ℕ → World → Type 0) (Q : Error → World → Type 0) (n : ℕ)
      (s : pool.Store) (w : World) : Result (Bytes pool) × pool.Store × World → Type 0 where
    empty : n ≡ 0 → Allocated P Q n s w (ok (from_vec pool []), s, w)
    filled :
        (b : Bytes pool) (bytes : List ℕ) (w' : World)
        → n ≢ 0
        → is_pooled pool b ≡ true
        → as_ref pool b ≡ ok bytes
        → length bytes ≡ n
        → P bytes w'
        → Allocated P Q n s w (ok b, (pool.alloc_uninit n s).1, w')
    returned :
        (e : Error) (w' : World)
        → n ≢ 0
        → Q e w'
        → Allocated P Q n s w
            (err e, pool.give_back (pool.alloc_uninit n s).0 (pool.alloc_uninit n s).1, w')

  module _ (P : List ℕ → World → Type 0) (Q : Error → World → Type 0) (n : ℕ) (s : pool.Store)
      (w : World) where
    wrap-Allocated :
        (res : Result (List ℕ) × World)
        → n ≢ 0
        → Fills P Q n res
        → Allocated P Q n s w (wrap pool (pool.alloc_uninit n s).0 (pool.alloc_uninit n s).1 res)
    unfolding as_ref
    wrap-Allocated _ some_byte (fills bytes w' full good) =
        filled (record { inner = pooled (pool.assume_init bytes (pool.alloc_uninit n s).0) }) bytes
          w' some_byte refl
          (ap ok (laws.init_law bytes (pool.alloc_uninit n s).0 (full ∙ sym (laws.alloc_law n s))))
          full good
    wrap-Allocated _ some_byte (fails e w' bad) = returned e w' some_byte bad

    -- For a pool that keeps its promises and a closure that fills the slice of `n` bytes or fails:
    -- `allocate` of no byte is an empty vector, without the pool or the closure; otherwise it is a
    -- pooled buffer with the bytes that the closure left, or the closure's error, and then the
    -- buffer is given back to the pool.
    pub allocate-Allocated :
        (init : List ℕ → World → Result (List ℕ) × World)
        → ((slice : List ℕ) → length slice ≡ n → Fills P Q n (init slice w))
        → Allocated P Q n s w (allocate pool n init s w)
    unfolding allocate
    allocate-Allocated init good = elim (Bool-cases (n == 0)) [
      | inl e ↦ rw e (empty (==→≡ n 0 e))
      | inr e ↦ rw e (
          wrap-Allocated _ (==→≢ n 0 e)
            (good (pool.contents (pool.alloc_uninit n s).0) (laws.alloc_law n s)))
    ]
