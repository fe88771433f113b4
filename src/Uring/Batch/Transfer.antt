-- ===== src/Uring/Batch/Transfer.antt =====
-- `read_at_batch` fills the buffers of a batch (src/uring.rs).
use fastio.Prelude.{
  ℕ, ◌+◌, ◌<◌, ◌≡◌, ◌≢◌, ◌⊎◌, inl, inr, refl, ◌∙◌, ◌==◌, ==→≡, Bool-cases, List, [], Option, none,
  length, arith,
}
use fastio.Io.{Error, Result, ok, err, u64_max}
use fastio.Uring.Ring.{Ring, Laws, Place, memory, contents}
use fastio.Uring.Loop.{run}
use fastio.Uring.Loop.Drive.{Wakes, Outcome, finished, failed, refused, run-Outcome}
use fastio.Uring.Loop.Origin.{IsRaised, no_ring}
use fastio.Uring.Cache.{File, with_ring-cases, IsFresh, init_error}
use fastio.Uring.Batch.{Region, region_at, region_overflow, not_mutable, read_at_batch}
use fastio.Uring.Batch.Requests.{address, IsApart, plan, plan_laws, separate, refused_why}

module _ (r : Ring) (laws : Laws r) (file : File) (regions : List Region)
    (buffer_ptr : ℕ → Option ℕ) where
  open laws use {pending, byte_at}

  -- Only the buffers have changed since `w`.
  abbrev pub Elsewhere : r.World → r.World → Type 0
  Elsewhere w w' =
      (p : Place)
      → ((i k : ℕ)
          → i < length regions
          → k < (region_at regions i).len
          → memory (address buffer_ptr i + k) ≢ p)
      → byte_at w' p ≡ byte_at w p

  -- The results of a batch that starts in `w`. An error that the ring has raised, or that a transfer
  -- of no byte has, leaves nothing in flight; each other error has its cause in a region.
  pub data Batch (w : r.World) : Result (Unit {0}) × r.World → Type 0 where
    all_read :
        (w' : r.World)
        → pending w' ≡ []
        → ((i k : ℕ)
            → i < length regions
            → k < (region_at regions i).len
            → byte_at w' (memory (address buffer_ptr i + k))
              ≡ byte_at w (contents file.fd ((region_at regions i).offset + k)))
        → Elsewhere w w'
        → Batch w (ok tt, w')
    io_error :
        (x : Error) (w' : r.World)
        → IsRaised r laws file.ring_depth (plan file regions buffer_ptr).short x
        → pending w' ≡ []
        → Elsewhere w w'
        → Batch w (err x, w')
    declined :
        (x : Error) (idx : ℕ) (w' : r.World)
        → idx < length regions
        → ((x ≡ region_overflow)
            × (u64_max < (region_at regions idx).offset + (region_at regions idx).len))
          ⊎ ((x ≡ not_mutable) × (buffer_ptr idx ≡ none))
        → Elsewhere w w'
        → Batch w (err x, w')

  module _ (apart : IsApart regions buffer_ptr) (w w0 : r.World)
      (fresh : IsFresh r laws file.ring_depth w w0) where
    abbrev want : ℕ → ℕ → ℕ
    want i k = byte_at w (contents file.fd ((region_at regions i).offset + k))

    abbrev Ends : Result (Unit {0}) × r.World → Type 0
    Ends =
        Outcome r (plan file regions buffer_ptr) file.ring_depth (plan_laws file regions buffer_ptr)
          laws (separate file regions buffer_ptr apart) want w0

    Outcome-Batch : (o : Result (Unit {0}) × r.World) → Ends o → Batch w o
    Outcome-Batch _ (finished w' quiet moved far) =
        all_read w' quiet moved (λ p out. far p out ∙ fresh.bytes p)
    Outcome-Batch _ (failed x w' raised quiet far) =
        io_error x w' raised quiet (λ p out. far p out ∙ fresh.bytes p)
    Outcome-Batch _ (refused x w' refusal far) =
        declined x refusal.idx w' refusal.in_range
          (refused_why file regions buffer_ptr refusal.idx refusal.from_byte refusal.len x
            refusal.in_chunk refusal.refused)
          (λ p out. far p out ∙ fresh.bytes p)

  -- With buffers that share no byte, on a ring that keeps its laws and wakes up, with nothing in
  -- flight, for a handle with a depth: `read_at_batch` returns without a panic, in bounded fuel.
  -- With `Ok` every buffer has the bytes of its region. An error is one that the ring has raised or
  -- that of a transfer of no byte, or else the overflow error, for a region that does not end at a
  -- `u64`, or the error of a buffer that is not mutable; but for the last two, and with `Ok`, nothing
  -- is in flight. No byte outside of the buffers has changed.
  pub read_at_batch-Batch :
      IsApart regions buffer_ptr
      → Wakes r laws
      → 0 < file.ring_depth
      → (w : r.World) → pending w ≡ []
      → Batch w (read_at_batch r file regions buffer_ptr w)
  unfolding read_at_batch
  read_at_batch-Batch apart wakes deep w quiet = elim (Bool-cases (length regions == 0)) [
    | inl empty ↦
        let nothing = ==→≡ _ _ empty in
        rw empty (all_read w quiet (λ i k hi hk. absurd (omega arith)) (λ p out. refl))
    | inr filled ↦
        elim (with_ring-cases r laws file (run r (plan file regions buffer_ptr) file.ring_depth) w
          quiet) [
            | inr (e, no_ring_made, returns) ↦
                rw (filled, returns)
                  (io_error (init_error e) w (no_ring w e no_ring_made) quiet (λ p out. refl))
            | inl (w0, fresh, returns) ↦
                rw (filled, returns)
                  (Outcome-Batch apart w w0 fresh _ (
                    run-Outcome r (plan file regions buffer_ptr) file.ring_depth
                      (plan_laws file regions buffer_ptr) laws
                      (separate file regions buffer_ptr apart) (want apart w w0 fresh) w0 wakes deep
                      fresh.quiet fresh.room (λ i k hi hk. fresh.bytes _)))
          ]
  ]
