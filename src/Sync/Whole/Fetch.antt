-- ===== src/Sync/Whole/Fetch.antt =====
-- What `read_at` and `read_all` return (src/sync/linux.rs).
use fastio.Prelude.{
  ℕ, ◌≡◌, refl, sym, subst, List, [], length, Bool-cases, leb, inl, inr, ◌⊎◌, arith,
}
use fastio.Io.{Error, Result, ok, err, usize_max}
use fastio.Buffer.{Pool, PoolLaws, Bytes, as_ref, from_vec}
use fastio.Buffer.Allocation.{
  Fills, fills, fails, Allocated, empty, filled, returned, allocate-Allocated,
}
use fastio.Positioned.{Positioned, Laws, Reads, read_all as read_whole, read_failed, Same, IsRange}
use fastio.Sync.Whole.{fill_at, read_at, read_all, read_all_len, too_large_error}

module _ (f : Positioned) (laws : Laws f) (pool : Pool) (pool_laws : PoolLaws pool) where
  open laws use {byte_at, size}

  -- A buffer with the bytes of the range, or an error; the file is as before.
  pub data Fetched (offset len : ℕ) (w : f.World)
      : Result (Bytes pool) × pool.Store × f.World → Type 0 where
    fetched :
        (b : Bytes pool) (bytes : List ℕ) (s' : pool.Store) (w' : f.World)
        → as_ref pool b ≡ ok bytes
        → length bytes ≡ len
        → IsRange byte_at w offset bytes
        → Same byte_at w w'
        → Fetched offset len w (ok b, s', w')
    failed :
        (e : Error) (s' : pool.Store) (w' : f.World)
        → Same byte_at w w'
        → Fetched offset len w (err e, s', w')

  module _ (offset len : ℕ) (s : pool.Store) (w : f.World) where
    abbrev Got : List ℕ → f.World → Type 0
    Got bytes w' = IsRange byte_at w offset bytes × Same byte_at w w'

    abbrev Lost : Error → f.World → Type 0
    Lost e w' = Same byte_at w w'

    Reads-Fills :
        (n : ℕ) (res : Result (List ℕ) × f.World)
        → Reads byte_at w offset n res
        → n ≡ len
        → Fills pool pool_laws Got Lost len res
    Reads-Fills n _ (read_whole bytes w' full good same) e =
        fills bytes w' (ground (arith, full, e)) (good, same)
    Reads-Fills n _ (read_failed x w' same) e = fails x w' same

    Allocated-Fetched :
        (res : Result (Bytes pool) × pool.Store × f.World)
        → Allocated pool pool_laws Got Lost len s w res
        → Fetched offset len w res
    unfolding as_ref
    Allocated-Fetched _ (empty none_asked) =
        fetched (from_vec pool []) [] s w refl (sym none_asked) (λ k lt. elim lt [ ]) (λ p. refl)
    Allocated-Fetched _ (filled b bytes w' some_byte pool_backed view full good) =
        fetched b bytes _ w' view full good.0 good.1
    Allocated-Fetched _ (returned e w' some_byte same) = failed e _ w' same

    pub read_at-Fetched : Fetched offset len w (read_at f pool offset len s w)
    unfolding read_at
    read_at-Fetched = Allocated-Fetched _ (
        allocate-Allocated pool pool_laws Got Lost len s w (fill_at f pool offset)
          (λ slice e. Reads-Fills (length slice) _ (laws.read_law w offset (length slice)) e))

  pub read_all-Fetched : (s : pool.Store) (w : f.World) → Fetched 0 (size w) w (read_all f pool s w)
  unfolding read_all read_at
  read_all-Fetched s w = by_len (f.metadata_len w) refl
    where
      by_len :
          (a : Error ⊎ ℕ) → f.metadata_len w ≡ a → Fetched 0 (size w) w (read_all_len f pool a s w)
      by_len (inl e) h = failed e s w (λ p. refl)
      by_len (inr n) h = elim (Bool-cases (leb n usize_max)) [
        | inr e ↦ rw (e, read_all_len) (failed too_large_error s w (λ p. refl))
        | inl e ↦
            rw (e, read_all_len)
              (subst (λ m. Fetched 0 m w (read_at f pool 0 n s w)) (laws.metadata_law w n h)
                (read_at-Fetched 0 n s w))
      ]

  -- For a file and a pool that keep their promises: `read_at` returns a buffer whose bytes are the
  -- `len` bytes of the file from `offset` on, and `read_all` one with all bytes of the file, or an
  -- error; the file is as before.
  pub reads-Fetched :
      (offset len : ℕ) (s : pool.Store) (w : f.World)
      → Fetched offset len w (read_at f pool offset len s w)
        × Fetched 0 (size w) w (read_all f pool s w)
  reads-Fetched offset len s w = (read_at-Fetched offset len s w, read_all-Fetched s w)
