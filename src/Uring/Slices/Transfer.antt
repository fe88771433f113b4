-- ===== src/Uring/Slices/Transfer.antt =====
-- `write_slices_at` writes a validated batch (src/uring.rs, with src/write.rs).
use fastio.Prelude.{
  ℕ, ◌+◌, ◌<◌, ◌≡◌, ◌≢◌, inl, inr, refl, ◌∙◌, ◌==◌, ==→≡, Bool-cases, List, [], length, get_or, All,
  AllPairs, arith,
}
use fastio.Io.{Error, Result, ok, err}
use fastio.Write.{WriteSlice, WriteSlices, new}
use fastio.Write.Verdict.{IsDisjoint, Fits, new-eq-ok}
use fastio.Uring.Ring.{Ring, Laws, Place, memory, contents}
use fastio.Uring.Loop.{run}
use fastio.Uring.Loop.Drive.{Wakes, Outcome, finished, failed, refused, run-Outcome}
use fastio.Uring.Loop.Origin.{IsRaised, no_ring}
use fastio.Uring.Cache.{File, with_ring-cases, IsFresh, init_error}
use fastio.Uring.Slices.{slice_at, submit_write_slices_at, write_slices_at}
use fastio.Uring.Slices.Requests.{plan, plan_laws, separate, never_refused}

module _ (file : File) (writes : List WriteSlice) (data_ptr : ℕ → ℕ) where
  module _ (r : Ring) (laws : Laws r) where
    open laws use {pending, byte_at}

    -- Only the ranges of the slices have changed since `w`.
    abbrev pub Elsewhere : r.World → r.World → Type 0
    Elsewhere w w' =
        (p : Place)
        → ((i k : ℕ)
            → i < length writes
            → k < length (slice_at writes i).bytes
            → contents file.fd ((slice_at writes i).offset + k) ≢ p)
        → byte_at w' p ≡ byte_at w p

    -- The results of writing a batch from `w` on. Nothing is in flight after any of them,
    -- and an error is one that the ring has raised or that of a transfer of no byte.
    pub data Written (w : r.World) : Result (Unit {0}) × r.World → Type 0 where
      all_written :
          (w' : r.World)
          → pending w' ≡ []
          → ((i k : ℕ)
              → i < length writes
              → k < length (slice_at writes i).bytes
              → byte_at w' (contents file.fd ((slice_at writes i).offset + k))
                ≡ get_or (slice_at writes i).bytes k 0)
          → Elsewhere w w'
          → Written w (ok tt, w')
      io_error :
          (x : Error) (w' : r.World)
          → IsRaised r laws file.ring_depth (plan file writes data_ptr).short x
          → pending w' ≡ []
          → Elsewhere w w'
          → Written w (err x, w')

    module _ (fits : All Fits writes) (apart : AllPairs IsDisjoint writes) (w w0 : r.World)
        (fresh : IsFresh r laws file.ring_depth w w0) where
      abbrev want : ℕ → ℕ → ℕ
      want i k = get_or (slice_at writes i).bytes k 0

      abbrev Ends : Result (Unit {0}) × r.World → Type 0
      Ends =
          Outcome r (plan file writes data_ptr) file.ring_depth (plan_laws file writes data_ptr)
            laws (separate file writes data_ptr apart) want w0

      Outcome-Written : (o : Result (Unit {0}) × r.World) → Ends o → Written w o
      Outcome-Written _ (finished w' quiet moved far) =
          all_written w' quiet moved (λ p out. far p out ∙ fresh.bytes p)
      Outcome-Written _ (failed x w' raised quiet far) =
          io_error x w' raised quiet (λ p out. far p out ∙ fresh.bytes p)
      Outcome-Written _ (refused x w' declined far) = absurd (
          never_refused file writes data_ptr fits declined.idx declined.from_byte declined.len x
            declined.in_range declined.in_chunk declined.refused)

    submit_write_slices_at-Written :
        All Fits writes
        → AllPairs IsDisjoint writes
        → Wakes r laws
        → 0 < file.ring_depth
        → (w : r.World) → pending w ≡ []
        → ((i k : ℕ)
            → i < length writes
            → k < length (slice_at writes i).bytes
            → byte_at w (memory (data_ptr i + k)) ≡ get_or (slice_at writes i).bytes k 0)
        → Written w (submit_write_slices_at r file writes data_ptr w)
    unfolding submit_write_slices_at
    submit_write_slices_at-Written fits apart wakes deep w quiet stored =
        elim (Bool-cases (length writes == 0)) [
          | inl empty ↦
              let nothing = ==→≡ _ _ empty in
              rw empty (all_written w quiet (λ i k hi hk. absurd (omega arith)) (λ p out. refl))
          | inr filled ↦
              elim (with_ring-cases r laws file (run r (plan file writes data_ptr) file.ring_depth)
                w quiet) [
                  | inr (e, none_made, returns) ↦
                      rw (filled, returns)
                        (io_error (init_error e) w (no_ring w e none_made) quiet (λ p out. refl))
                  | inl (w0, fresh, returns) ↦
                      rw (filled, returns)
                        (Outcome-Written fits apart w w0 fresh _ (
                          run-Outcome r (plan file writes data_ptr) file.ring_depth
                            (plan_laws file writes data_ptr) laws
                            (separate file writes data_ptr apart) (want fits apart w w0 fresh) w0
                            wakes deep fresh.quiet fresh.room
                            (λ i k hi hk. fresh.bytes _ ∙ stored i k hi hk)))
                ]
        ]

-- For a batch that `WriteSlices::new` made, whose data is in memory at `data_ptr`, on a ring that
-- keeps its laws and wakes up, with nothing in flight, for a handle with a depth:
-- `write_slices_at` returns without a panic, in bounded fuel. With `Ok` every slice is in the file
-- at its offset. Whatever it returns, nothing is in flight, and no byte outside of the ranges of
-- the slices has changed.
pub write_slices_at-Written :
    (r : Ring) (laws : Laws r) (file : File) (slices : List WriteSlice) (batch : WriteSlices)
    (data_ptr : ℕ → ℕ)
    → new slices ≡ ok batch
    → Wakes r laws
    → 0 < file.ring_depth
    → (w : r.World) → laws.pending w ≡ []
    → ((i k : ℕ)
        → i < length slices
        → k < length (slice_at slices i).bytes
        → laws.byte_at w (memory (data_ptr i + k)) ≡ get_or (slice_at slices i).bytes k 0)
    → Written file slices data_ptr r laws w (write_slices_at r file batch data_ptr w)
unfolding write_slices_at
write_slices_at-Written r laws file slices batch data_ptr made wakes deep w quiet stored =
    let (same, fits, apart) = new-eq-ok slices batch made in
    rw same (
      submit_write_slices_at-Written file slices data_ptr r laws fits apart wakes deep w quiet
        stored)
