-- ===== src/Uring/Exact/Early.antt =====
-- An offset that overflows in the second chunk, while the first one is in flight (src/uring.rs).
use fastio.Prelude.{
  ℕ, ◌+◌, ◌-◌, ◌*◌, ◌/◌, ◌≤◌, ◌<◌, ◌≡◌, ◌==◌, inl, inr, refl, leb, ==→≡, ==→≢, Bool-cases, true,
  false, ap, min, [], ◌∷◌, arith,
}
use fastio.Io.{err, u64_max}
use fastio.Uring.Ring.{Ring, Entry, Laws, memory, target, read_op}
use fastio.Uring.Loop.{max_io_len}
use fastio.Uring.Loop.Early.{run-early}
use fastio.Uring.Cache.{File, with_ring, needs_new}
use fastio.Uring.Exact.{
  Slice, div_ceil, chunk_len_at, exact_entry, exact_plan, submit_read_exact_at, reading,
  overflow_error,
}
use fastio.Uring.Exact.Chunks.{chunk_of}

two_chunks : (c total : ℕ) → 0 < c → c < total → 1 < div_ceil total c
two_chunks c total pos lt =
    let (in_count, in_chunk, split) = chunk_of c total c pos lt in
    elim (Bool-cases (c / c == 0)) [
      | inl zero_times ↦ absurd (omega (arith, split, ap (λ (x : ℕ). x * c) (==→≡ _ _ zero_times)))
      | inr times ↦ omega (arith, in_count, ==→≢ _ _ times)
    ]

-- On a thread with a ring for the handle and nothing in flight, for a depth of at least 2: a read
-- whose first chunk starts at a `u64` and whose second chunk does not returns the overflow error at
-- once, and a request that writes into the caller's buffer stays in flight.
pub submit_read_exact_at-early :
    (r : Ring) (laws : Laws r) (file : File) (offset : ℕ) (buf : Slice) (w : r.World)
    → laws.pending w ≡ []
    → needs_new r file.ring_depth w ≡ false
    → 1 < file.ring_depth
    → 0 < file.chunk_size
    → file.chunk_size < buf.size
    → offset ≤ u64_max
    → u64_max < offset + file.chunk_size
    → (w' : r.World) × (e : Entry) × (submit_read_exact_at r file offset buf w
        ≡ (err (overflow_error reading), w'))
      × (laws.pending w' ≡ e ∷ [])
      × (target e 0 ≡ memory buf.address)
unfolding submit_read_exact_at with_ring exact_entry
submit_read_exact_at-early r laws file offset buf w quiet cached deep chunked long starts ends =
    let c = min file.chunk_size buf.size in
    let e : Entry = record {
      opcode = read_op;
      fd = file.fd;
      address = buf.address + (0 * c + 0);
      len = min (chunk_len_at c buf.size 0) max_io_len;
      offset = offset + (0 * c + 0);
      user_data = 0;
    } in
    let first : leb (offset + (0 * c + 0)) u64_max ≡ true = ground arith in
    let second : leb (offset + (1 * c + 0)) u64_max ≡ false = ground arith in
    let some_byte : (buf.size == 0) ≡ false = ground arith in
    let room : file.ring_depth ≤ r.sq_entries w = ground (arith, cached) in
    let chunks = two_chunks c buf.size (omega arith) (omega arith) in
    let (w', returns, flying) =
      run-early r (exact_plan reading file offset buf) file.ring_depth laws w
        (div_ceil buf.size c - 2) e (overflow_error reading) (omega (arith, chunks)) deep
        (omega arith) (omega arith) (rw first refl) (rw second refl) quiet room in
    (w', e, rw (some_byte, cached) returns, flying, ap memory (omega arith))
