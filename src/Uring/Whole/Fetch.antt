-- ===== src/Uring/Whole/Fetch.antt =====
-- What `read_at` and `read_all` return (src/uring.rs).
use fastio.Prelude.{
  ℕ, ◌+◌, ◌<◌, ◌≡◌, refl, sym, List, [], length, get_or, Bool-cases, leb, leb→le, ◌≤◌, inl, inr,
  ◌⊎◌, bytes_from, length-bytes_from, get_or-bytes_from, ◌∙◌, arith,
}
use fastio.Io.{Error, Result, ok, err, usize_max, u64_max}
use fastio.Buffer.{Pool, PoolLaws, Bytes, as_ref, from_vec}
use fastio.Buffer.Allocation.{
  Fills, fills, fails, Allocated, empty, filled, returned, allocate-Allocated,
}
use fastio.Sync.Whole.{too_large_error}
use fastio.Uring.Ring.{Ring, Laws, memory, contents}
use fastio.Uring.Loop.Drive.{Wakes}
use fastio.Uring.Cache.{File}
use fastio.Uring.Exact.{reading}
use fastio.Uring.Exact.Transfer.{
  Transfer, complete, io_error, overflow, submit_read_exact_at-Transfer,
}
use fastio.Uring.Whole.{read_exact_at, read_at, read_all, read_all_len, fill_at, slice_after}

abbrev pub peek : (r : Ring) (laws : Laws r) → r.World → ℕ → ℕ
peek r laws w a = laws.byte_at w (memory a)

module _ (r : Ring) (laws : Laws r) (pool : Pool) (pool_laws : PoolLaws pool)
    (metadata_len : File → r.World → Error ⊎ ℕ) (address : ℕ) where
  open laws use {pending, byte_at}

  -- No byte of any file has changed.
  abbrev pub SameFiles : r.World → r.World → Type 0
  SameFiles w w' = (fd p : ℕ) → byte_at w' (contents fd p) ≡ byte_at w (contents fd p)

  module _ (file : File) (offset len : ℕ) (w : r.World) where
    abbrev Got : List ℕ → r.World → Type 0
    Got bytes w' =
        ((k : ℕ) → k < len → get_or bytes k 0 ≡ byte_at w (contents file.fd (offset + k)))
        × (pending w' ≡ [])
        × SameFiles w w'

    abbrev Lost : Error → r.World → Type 0
    Lost e w' = ((pending w' ≡ []) ⊎ (u64_max < offset + len)) × SameFiles w w'

    -- A buffer with the bytes of the range and nothing in flight, or an error, after which a
    -- request may be in flight only if the range does not end at a `u64`. The files are as before.
    pub data Gets : Result (Bytes pool) × pool.Store × r.World → Type 0 where
      fetched :
          (b : Bytes pool) (bytes : List ℕ) (s' : pool.Store) (w' : r.World)
          → as_ref pool b ≡ ok bytes
          → length bytes ≡ len
          → Got bytes w'
          → Gets (ok b, s', w')
      failed : (e : Error) (s' : pool.Store) (w' : r.World) → Lost e w' → Gets (err e, s', w')

    Transfer-Fills :
        (n : ℕ) (res : Result (Unit {0}) × r.World)
        → n ≡ len
        → Transfer r laws reading file offset (record { address = address; size = n }) w res
        → Fills pool pool_laws Got Lost len
            (slice_after r (peek r laws) metadata_len pool address n res)
    Transfer-Fills n _ same (complete w' quiet moved far) =
        fills (bytes_from (peek r laws w') address n) w'
          (length-bytes_from (peek r laws w') address n ∙ same)
          (
            λ k lt.
                get_or-bytes_from (peek r laws w') address n k (omega arith)
                ∙ moved k (omega arith),
            quiet,
            λ fd p. far (contents fd p) (λ m hm e. cc),
          )
    Transfer-Fills n _ same (io_error x w' raised quiet far) =
        fails x w' (inl quiet, λ fd p. far (contents fd p) (λ m hm e. cc))
    Transfer-Fills n _ same (overflow w' long far) =
        fails _ w' (inr (omega arith), λ fd p. far (contents fd p) (λ m hm e. cc))

    Allocated-Gets :
        (s : pool.Store) (res : Result (Bytes pool) × pool.Store × r.World)
        → pending w ≡ []
        → Allocated pool pool_laws Got Lost len s w res
        → Gets res
    unfolding as_ref
    Allocated-Gets s _ quiet (empty none_asked) =
        fetched (from_vec pool []) [] s w refl (sym none_asked)
          ((λ k lt. absurd (omega arith)), quiet, λ fd p. refl)
    Allocated-Gets s _ quiet (filled b bytes w' some_byte pool_backed view full good) =
        fetched b bytes _ w' view full good
    Allocated-Gets s _ quiet (returned e w' some_byte bad) = failed e _ w' bad

    pub read_at-Gets :
        Wakes r laws
        → 0 < file.ring_depth
        → 0 < file.chunk_size
        → pending w ≡ []
        → (s : pool.Store)
        → Gets (read_at r (peek r laws) metadata_len pool address file offset len s w)
    unfolding read_at read_exact_at
    read_at-Gets wakes deep chunked quiet s = Allocated-Gets s _ quiet (
        allocate-Allocated pool pool_laws Got Lost len s w
          (fill_at r (peek r laws) metadata_len pool address file offset)
          (λ slice e. Transfer-Fills (length slice) _ e (
            submit_read_exact_at-Transfer r laws file offset
              (record { address = address; size = length slice }) wakes deep chunked w quiet)))

    Gets-quiet :
        (res : Result (Bytes pool) × pool.Store × r.World)
        → offset + len ≤ u64_max
        → Gets res
        → pending res.2 ≡ []
    Gets-quiet _ fits (fetched b bytes s' w' view full good) = good.1
    Gets-quiet _ fits (failed e s' w' (inl quiet, same)) = quiet
    Gets-quiet _ fits (failed e s' w' (inr long, same)) = absurd (omega arith)

  pub read_all-Gets :
      Wakes r laws
      → (file : File) → 0 < file.ring_depth
      → 0 < file.chunk_size
      → (w : r.World) → pending w ≡ []
      → (s : pool.Store) (n : ℕ) → metadata_len file w ≡ inr n
      → Gets file 0 n w (read_all r (peek r laws) metadata_len pool address file s w)
        × (pending (read_all r (peek r laws) metadata_len pool address file s w).2 ≡ [])
  unfolding read_all read_at
  read_all-Gets wakes file deep chunked w quiet s n known = elim (Bool-cases (leb n usize_max)) [
    | inr e ↦
        rw (known, read_all_len, e) (failed too_large_error s w (inl quiet, λ fd p. refl), quiet)
    | inl e ↦
        let got = read_at-Gets file 0 n w wakes deep chunked quiet s in
        rw (known, read_all_len, e) (got, Gets-quiet file 0 n w _ (omega (arith, leb→le _ _ e)) got)
  ]

  -- On a ring and a pool that keep their laws, with nothing in flight, for a handle with a depth and
  -- a chunk size: `read_at` returns a buffer whose bytes are the `len` bytes of the file from
  -- `offset` on, with nothing in flight, or an error; a request is in flight after an error only if
  -- the range does not end at a `u64`. For a file that has `n` bytes, `read_all` returns a buffer
  -- with these bytes, or an error, and nothing is in flight then. No file has changed.
  pub reads-Gets :
      Wakes r laws
      → (file : File) → 0 < file.ring_depth
      → 0 < file.chunk_size
      → (w : r.World) → pending w ≡ []
      → (s : pool.Store) (offset len n : ℕ) → metadata_len file w ≡ inr n
      → Gets file offset len w
          (read_at r (peek r laws) metadata_len pool address file offset len s w)
        × Gets file 0 n w (read_all r (peek r laws) metadata_len pool address file s w)
        × (pending (read_all r (peek r laws) metadata_len pool address file s w).2 ≡ [])
  reads-Gets wakes file deep chunked w quiet s offset len n known =
      let whole = read_all-Gets wakes file deep chunked w quiet s n known in
      (read_at-Gets file offset len w wakes deep chunked quiet s, whole.0, whole.1)
