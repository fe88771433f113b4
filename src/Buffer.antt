-- ===== src/Buffer.antt =====
-- Owned byte buffers (src/buffer.rs). A pooled buffer of the `zeropool` crate is a parameter: `Buf`.
pub mod View
pub mod Allocation
mod Tests
use fastio.Prelude.{
  ℕ, ◌==◌, ◌≡◌, if◌then◌else◌, Bool, true, false, List, [], Option, none, some, length,
}
use fastio.Io.{Result, ok, err, panic, stuck, ◌>>=◌}
use fastio.Mmap.{MmapRegion, as_slice}

-- What the crate uses of `zeropool`. `Store` are the buffers that are free; `alloc_uninit` takes a
-- buffer, which goes back when it is dropped; `assume_init` is the buffer after its slice was filled
-- with the bytes. `contents` are the bytes of a buffer (`as_ref`), `len` how many there are, and
-- `into_inner` turns it into a vector.
pub record Pool : Type 1 where
  pub Buf : Type 0
  pub Store : Type 0
  pub alloc_uninit : ℕ → Store → Buf × Store
  pub give_back : Buf → Store → Store
  pub assume_init : List ℕ → Buf → Buf
  pub contents : Buf → List ℕ
  pub len : Buf → ℕ
  pub into_inner : Buf → List ℕ

-- What the `zeropool` crate documents of them.
pub record PoolLaws (pool : Pool) : Type 0 where
  pub len_law : (b : pool.Buf) → pool.len b ≡ length (pool.contents b)
  pub into_inner_law : (b : pool.Buf) → pool.into_inner b ≡ pool.contents b
  pub alloc_law : (n : ℕ) (s : pool.Store) → length (pool.contents (pool.alloc_uninit n s).0) ≡ n
  pub init_law :
      (bytes : List ℕ) (b : pool.Buf)
      → length bytes ≡ length (pool.contents b)
      → pool.contents (pool.assume_init bytes b) ≡ bytes

module _ (pool : Pool) where
  open pool use {Buf}

  pub data Storage : Type 0 where
    pooled : Buf → Storage
    mmap : MmapRegion → Storage
    vec : List ℕ → Storage

  pub record Bytes : Type 0 where
    pub inner : Storage

  abbrev pub from_vec : List ℕ → Bytes
  from_vec v = record { inner = vec v }

  abbrev pub from_mmap : MmapRegion → Bytes
  from_mmap region = record { inner = mmap region }

  abbrev pub storage_len : Storage → ℕ
  storage_len (pooled b) = pool.len b
  storage_len (mmap b) = b.len
  storage_len (vec b) = length b

  unfoldable pub len : Bytes → ℕ
  len b = storage_len b.inner

  unfoldable pub is_empty : Bytes → Bool
  unfolding len
  is_empty b = len b == 0

  -- The bytes that `as_mut_slice` gives for writing.
  abbrev pub storage_mut : Storage → Option (List ℕ)
  storage_mut (pooled b) = some (pool.contents b)
  storage_mut (mmap b) = none
  storage_mut (vec b) = some b

  unfoldable pub as_mut_slice : Bytes → Option (List ℕ)
  as_mut_slice b = storage_mut b.inner

  abbrev pub storage_vec : Storage → Result (List ℕ)
  storage_vec (pooled b) = ok (pool.into_inner b)
  storage_vec (mmap b) = as_slice b
  storage_vec (vec b) = ok b

  unfoldable pub into_vec : Bytes → Result (List ℕ)
  into_vec b = storage_vec b.inner

  abbrev pub storage_shared : Storage → Result (List ℕ)
  storage_shared (pooled b) = ok (pool.into_inner b)
  storage_shared (mmap b) = as_slice b
  storage_shared (vec b) = ok b

  -- The bytes of the `Arc<[u8]>`.
  unfoldable pub into_shared : Bytes → Result (List ℕ)
  into_shared b = storage_shared b.inner

  abbrev pub storage_ref : Storage → Result (List ℕ)
  storage_ref (pooled b) = ok (pool.contents b)
  storage_ref (mmap b) = as_slice b
  storage_ref (vec b) = ok b

  unfoldable pub as_ref : Bytes → Result (List ℕ)
  as_ref b = storage_ref b.inner

  unfoldable pub deref : Bytes → Result (List ℕ)
  unfolding as_ref
  deref b = as_ref b

  -- `From` for a vector and for a mapped region.
  abbrev pub of_vec : List ℕ → Bytes
  of_vec v = from_vec v

  abbrev pub of_region : MmapRegion → Bytes
  of_region region = from_mmap region

  abbrev pub is_pooled : Bytes → Bool
  is_pooled b = elim b.inner [ pooled x ↦ true | mmap x ↦ false | vec x ↦ false ]

  -- `allocate`: `init` gets the slice of the buffer and leaves its bytes there; it changes the world.
  module _ {World : Type 0} where
    abbrev pub wrap : Buf → pool.Store → Result (List ℕ) × World → Result Bytes × pool.Store × World
    wrap u s (ok bytes, w) = (ok (record { inner = pooled (pool.assume_init bytes u) }), s, w)
    wrap u s (err e, w) = (err e, pool.give_back u s, w)
    wrap u s (panic, w) = (panic, pool.give_back u s, w)
    wrap u s (stuck, w) = (stuck, s, w)

    unfoldable pub allocate :
        ℕ
        → (List ℕ → World → Result (List ℕ) × World)
        → pool.Store
        → World
        → Result Bytes × pool.Store × World
    allocate len init s w =
        if len == 0
        then (ok (from_vec []), s, w)
        else (let uninit = pool.alloc_uninit len s in
            wrap uninit.0 uninit.1 (init (pool.contents uninit.0) w))
