-- ===== src/Buffer/View.antt =====
-- The views of a buffer agree (src/buffer.rs).
use fastio.Prelude.{
  ℕ, ◌≡◌, ◌≢◌, refl, ◌∙◌, ap, sym, ◌==◌, List, none, some, length, take, drop, length-take,
  length-drop, arith,
}
use fastio.Io.{ok}
use fastio.Mmap.{MmapRegion}
use fastio.Mmap.Region.{IsValid, as_slice-ok}
use fastio.Buffer.{
  Pool, PoolLaws, Storage, pooled, mmap, vec, Bytes, len, is_empty, as_mut_slice, into_vec,
  into_shared, as_ref,
}

module _ (pool : Pool) (laws : PoolLaws pool) where
  -- A mapped region is valid; other storage always is.
  abbrev pub IsSound : Storage pool → Type 0
  IsSound (pooled b) = Unit
  IsSound (mmap r) = IsValid r
  IsSound (vec b) = Unit

  -- One list of bytes, of the stated length, is what every view gives; a mutable view is there
  -- exactly if the storage is not a map.
  pub record View (b : Bytes pool) : Type 0 where
    pub bytes : List ℕ
    pub as_ref_view : as_ref pool b ≡ ok bytes
    pub into_vec_view : into_vec pool b ≡ ok bytes
    pub into_shared_view : into_shared pool b ≡ ok bytes
    pub len_view : len pool b ≡ length bytes
    pub is_empty_view : is_empty pool b ≡ (length bytes == 0)
    pub map_view : (r : MmapRegion) → b.inner ≡ mmap r → as_mut_slice pool b ≡ none
    pub owned_view : ((r : MmapRegion) → b.inner ≢ mmap r) → as_mut_slice pool b ≡ some bytes

  length-region : (r : MmapRegion) → IsValid r → length (take r.len (drop r.start r.inner)) ≡ r.len
  length-region r v =
      length-take r.len (drop r.start r.inner)
      ∙ omega (arith, length-drop r.start r.inner, v.inside)

  storage-View : (s : Storage pool) → IsSound s → View (record { inner = s })
  unfolding as_ref into_vec into_shared len is_empty as_mut_slice
  storage-View (pooled b) h = record {
    bytes = pool.contents b;
    as_ref_view = refl;
    into_vec_view = ap ok (laws.into_inner_law b);
    into_shared_view = ap ok (laws.into_inner_law b);
    len_view = laws.len_law b;
    is_empty_view = ap (λ n. n == 0) (laws.len_law b);
    map_view = λ r e. cc;
    owned_view = λ owned. refl;
  }
  storage-View (mmap r) h = record {
    bytes = take r.len (drop r.start r.inner);
    as_ref_view = as_slice-ok r h;
    into_vec_view = as_slice-ok r h;
    into_shared_view = as_slice-ok r h;
    len_view = sym (length-region r h);
    is_empty_view = ap (λ n. n == 0) (sym (length-region r h));
    map_view = λ r' e. refl;
    owned_view = λ owned. absurd (owned r refl);
  }
  storage-View (vec b) h = record {
    bytes = b;
    as_ref_view = refl;
    into_vec_view = refl;
    into_shared_view = refl;
    len_view = refl;
    is_empty_view = refl;
    map_view = λ r e. cc;
    owned_view = λ owned. refl;
  }

  -- With what `zeropool` documents, and for a valid region where the storage is a map: `as_ref`,
  -- `into_vec` and `into_shared` give the same bytes without a panic, `len` and `is_empty` are
  -- about them, and `as_mut_slice` gives them too, except for a map, where it gives `None`.
  pub Bytes-View : (b : Bytes pool) → IsSound b.inner → View b
  Bytes-View b h = storage-View b.inner h
