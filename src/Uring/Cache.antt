-- ===== src/Uring/Cache.antt =====
-- The handle, and the ring that each thread keeps for its handles (src/uring.rs).
use fastio.Prelude.{
  ℕ, ◌≤◌, ◌≡◌, refl, ◌⊎◌, inl, inr, Bool, true, not, ◌||◌, ltb, Bool-cases, if◌then◌else◌, [],
  arith,
}
use fastio.Io.{Error, failed_to_initialize_io_uring, Result, err}
use fastio.Uring.Ring.{Ring, Laws, Place}

-- A file handle, without its cursor. `fd` stands for the open file that the descriptor of `inner`
-- refers to: the descriptors of clones refer to one.
pub record File : Type 0 where
  pub fd : ℕ
  pub ring_depth : ℕ
  pub chunk_size : ℕ

-- The error of `IoUring::new`, with the message that `with_ring` gives it.
abbrev pub init_error : Error → Error
init_error e = record { kind = e.kind; message = failed_to_initialize_io_uring }

module _ (r : Ring) where
  abbrev pub needs_new : ℕ → r.World → Bool
  needs_new depth w = not (r.is_cached w) || ltb (r.sq_entries w) depth

  -- `with_ring`: the closure runs on the ring of the thread, made anew if it is missing or too
  -- small for the handle.
  unfoldable pub with_ring {ℓ} :
      {A : Type ℓ} → File → (r.World → Result A × r.World) → r.World → Result A × r.World
  with_ring file f w =
      if needs_new file.ring_depth w
      then (elim (r.create file.ring_depth w) [ inl e ↦ (err (init_error e), w) | inr w' ↦ f w' ])
      else f w

  module _ (laws : Laws r) where
    open laws use {pending, byte_at}

    -- The ring that a closure runs on: nothing in flight, room for the depth, all bytes as before.
    pub record IsFresh (depth : ℕ) (w w' : r.World) : Type 0 where
      pub quiet : pending w' ≡ []
      pub room : depth ≤ r.sq_entries w'
      pub bytes : (p : Place) → byte_at w' p ≡ byte_at w p

    -- On a thread with nothing in flight, the closure runs on such a ring, or the ring could not
    -- be made and nothing has changed.
    pub with_ring-cases {ℓ} :
        {A : Type ℓ} (file : File) (f : r.World → Result A × r.World) (w : r.World)
        → pending w ≡ []
        → ((w' : r.World) × IsFresh file.ring_depth w w' × (with_ring file f w ≡ f w'))
          ⊎ ((e : Error) × (r.create file.ring_depth w ≡ inl e)
              × (with_ring file f w ≡ (err (init_error e), w)))
    unfolding with_ring
    with_ring-cases file f w quiet = elim (Bool-cases (needs_new file.ring_depth w)) [
      | inr old ↦ inl (w, record { quiet = quiet; room = ground arith; bytes = λ p. refl }, rw old)
      | inl new ↦ by_create (r.create file.ring_depth w) refl new
    ]
      where
        by_create :
            (c : Error ⊎ r.World)
            → r.create file.ring_depth w ≡ c
            → needs_new file.ring_depth w ≡ true
            → ((w' : r.World) × IsFresh file.ring_depth w w' × (with_ring file f w ≡ f w'))
              ⊎ ((e : Error) × (r.create file.ring_depth w ≡ inl e)
                  × (with_ring file f w ≡ (err (init_error e), w)))
        by_create (inl e) h new = inr (e, h, rw (new, h, with_ring))
        by_create (inr w') h new = inl (
          w',
          record {
            quiet = laws.create_pending file.ring_depth w w' h quiet;
            room = laws.create_entries file.ring_depth w w' h;
            bytes = λ p. laws.create_bytes file.ring_depth w w' p h;
          },
          rw (new, h, with_ring),
        )
