-- ===== src/Uring/Whole/RoundTrip.antt =====
-- What `write_all_at` puts into a file, `read_exact_at` gets back (src/uring.rs).
use fastio.Prelude.{ℕ, ◌+◌, ◌<◌, ◌≡◌, ◌∙◌, ap, sym, [], arith}
use fastio.Io.{Result, ok, ok-ne-err}
use fastio.Uring.Ring.{Ring, Laws, memory, contents}
use fastio.Uring.Loop.Drive.{Wakes}
use fastio.Uring.Cache.{File}
use fastio.Uring.Exact.{Slice, Direction, reading, writing}
use fastio.Uring.Exact.Chunks.{byte_from, byte_to}
use fastio.Uring.Exact.Transfer.{
  Transfer, complete, io_error, overflow, submit_read_exact_at-Transfer,
  submit_write_exact_at-Transfer,
}
use fastio.Uring.Whole.{read_exact_at, write_all_at}

module _ (r : Ring) (laws : Laws r) where
  open laws use {pending, byte_at}

  -- A transfer that returned `Ok` has moved every byte.
  pub Transfer-ok :
      (d : Direction) (file : File) (offset : ℕ) (buf : Slice) (w : r.World)
      (res : Result (Unit {0}) × r.World)
      → Transfer r laws d file offset buf w res
      → res.0 ≡ ok tt
      → (pending res.1 ≡ [])
        × ((n : ℕ)
            → n < buf.size
            → byte_at res.1 (byte_to d file offset buf n)
              ≡ byte_at w (byte_from d file offset buf n))
  Transfer-ok d file offset buf w _ (complete w' quiet moved far) h = (quiet, moved)
  Transfer-ok d file offset buf w _ (io_error x w' raised quiet far) h = absurd (ok-ne-err (sym h))
  Transfer-ok d file offset buf w _ (overflow w' long far) h = absurd (ok-ne-err (sym h))

  -- On a ring that keeps its laws and wakes up, with nothing in flight, for handles of one file
  -- with depths and chunk sizes that may differ: if `write_all_at` of a buffer and then
  -- `read_exact_at` at the same offset into a buffer of the same length both return `Ok`, the
  -- second buffer has the bytes that the first one had.
  pub write_all_at-read_exact_at :
      (writer reader : File) (offset : ℕ) (buf back : Slice) (w : r.World)
      → Wakes r laws
      → (0 < writer.ring_depth) × (0 < writer.chunk_size)
      → (0 < reader.ring_depth) × (0 < reader.chunk_size)
      → reader.fd ≡ writer.fd
      → back.size ≡ buf.size
      → pending w ≡ []
      → (write_all_at r writer offset buf w).0 ≡ ok tt
      → (read_exact_at r reader offset back (write_all_at r writer offset buf w).1).0 ≡ ok tt
      → (n : ℕ) → n < buf.size
      → byte_at
          (read_exact_at r reader offset back (write_all_at r writer offset buf w).1).1
          (memory (back.address + n))
        ≡ byte_at w (memory (buf.address + n))
  unfolding read_exact_at write_all_at
  write_all_at-read_exact_at writer reader offset buf back w wakes fair fair' same_file same_size
        quiet wrote got n lt =
      let (quiet', put) =
        Transfer-ok writing writer offset buf w _
          (submit_write_exact_at-Transfer r laws writer offset buf wakes fair.0 fair.1 w quiet)
          wrote in
      let (quiet'', read) =
        Transfer-ok reading reader offset back _ _
          (submit_read_exact_at-Transfer r laws reader offset back wakes fair'.0 fair'.1 _ quiet')
          got in
      read n (omega arith)
      ∙ ap (λ (f : ℕ). byte_at (write_all_at r writer offset buf w).1 (contents f (offset + n)))
          same_file
      ∙ put n lt
