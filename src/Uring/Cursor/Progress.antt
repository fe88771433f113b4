-- ===== src/Uring/Cursor/Progress.antt =====
-- What the cursor's `read` and `write` do (src/uring.rs).
use fastio.Prelude.{
  ℕ, ◌+◌, ◌≤◌, ◌<◌, ◌≡◌, ◌⊎◌, inl, inr, refl, subst, sym, ap, [], ◌∷◌, false, not, ◌&&◌, ◌==◌,
  Bool-cases, leb, leb→le, if◌then◌else◌, arith,
}
use fastio.Io.{Error, Result, ok, err, u64_max}
use fastio.Uring.Ring.{Ring, Laws, Entry, Opcode, read_op, write_op, source, target}
use fastio.Uring.Cache.{File}
use fastio.Uring.Exact.{Slice}
use fastio.Uring.Once.{once_entry}
use fastio.Uring.Once.Reply.{
  Reply, Elsewhere, moved, refused, left_over, submit_read_at-Reply, submit_write_at-Reply,
}
use fastio.Uring.Cursor.{
  Position, lock_error, read, write, move_position, reject_empty, position_overflow,
  short_write_error,
}

module _ (r : Ring) (laws : Laws r) (file : File) (buf : Slice) (p : Position) (w : r.World) where
  open laws use {pending, byte_at}

  -- The request that the cursor makes at its position.
  abbrev pub request : Opcode → Entry
  request o = once_entry o file p.at buf

  -- What a transfer at the cursor leads to: `n` bytes from the position on are moved, and the
  -- position moves by `n`; or an error, and the position stays.
  pub data Progress (o : Opcode) : Result ℕ × Position × r.World → Type 0 where
    advanced :
        (n : ℕ) (p' : Position) (w' : r.World)
        → p'.at ≡ p.at + n
        → p'.poisoned ≡ p.poisoned
        → p'.at ≤ u64_max
        → n ≤ buf.size
        → (o ≡ write_op → n ≡ 0 → buf.size ≡ 0)
        → pending w' ≡ []
        → ((k : ℕ) → k < n → byte_at w' (target (request o) k) ≡ byte_at w (source (request o) k))
        → Elsewhere r laws (request o) w w'
        → Progress o (ok n, p', w')
    stayed :
        (e : Error) (w' : r.World)
        → (pending w' ≡ []) ⊎ (pending w' ≡ request o ∷ [])
        → Elsewhere r laws (request o) w w'
        → Progress o (err e, p, w')

  moved-Progress :
      (o : Opcode) (n : ℕ) (w' : r.World)
      → n ≤ (request o).len
      → (o ≡ write_op → n ≡ 0 → buf.size ≡ 0)
      → pending w' ≡ []
      → ((k : ℕ) → k < n → byte_at w' (target (request o) k) ≡ byte_at w (source (request o) k))
      → Elsewhere r laws (request o) w w'
      → Progress o (move_position r p (ok n, w'))
  moved-Progress o n w' le some_byte quiet arrived far =
      elim (Bool-cases (leb (p.at + n) u64_max)) [
        | inl e ↦
            rw (e, move_position)
              (advanced n (record p { at = p.at + n }) w' refl refl (leb→le _ _ e)
                (omega (arith, le)) some_byte quiet arrived far)
        | inr e ↦ rw (e, move_position) (stayed position_overflow w' (inl quiet) far)
      ]

  read-of :
      (res : Result ℕ × r.World)
      → Reply r laws (request read_op) w res
      → Progress read_op (move_position r p res)
  read-of _ (moved n w' le quiet arrived far) =
      moved-Progress read_op n w' le (λ h. cc) quiet arrived far
  read-of _ (refused x w' quiet far) = stayed x w' (inl quiet) far
  read-of _ (left_over x w' still far) = stayed x w' (inr still) far

  write-of :
      (res : Result ℕ × r.World)
      → Reply r laws (request write_op) w res
      → Progress write_op (move_position r p (reject_empty r buf res))
  write-of _ (moved n w' le quiet arrived far) =
      elim (Bool-cases ((n == 0) && not (buf.size == 0))) [
        | inl e ↦ rw e (stayed short_write_error w' (inl quiet) far)
        | inr e ↦
            rw e (
              moved-Progress write_op n w' le (λ h zero. ground (arith, e, zero)) quiet arrived far)
      ]
  write-of _ (refused x w' quiet far) = stayed x w' (inl quiet) far
  write-of _ (left_over x w' still far) = stayed x w' (inr still) far

  module _ (open_lock : p.poisoned ≡ false) (deep : 0 < file.ring_depth)
      (quiet : pending w ≡ []) where
    unlocked :
        (rest : Result ℕ × Position × r.World)
        → (if p.poisoned then (err lock_error, p, w) else rest) ≡ rest
    unlocked rest = ap (λ b. if b then (err lock_error, p, w) else rest) open_lock

    pub read-Progress : Progress read_op (read r file buf p w)
    unfolding read
    read-Progress =
        subst (Progress read_op) (sym (unlocked _))
          (read-of _ (submit_read_at-Reply r laws file p.at buf w deep quiet))

    pub write-Progress : Progress write_op (write r file buf p w)
    unfolding write
    write-Progress =
        subst (Progress write_op) (sym (unlocked _))
          (write-of _ (submit_write_at-Reply r laws file p.at buf w deep quiet))

    -- With the lock not poisoned, a positive depth, nothing in flight and a ring that keeps its
    -- laws: `read` fills the first `n` bytes of the buffer with those of the file from the position
    -- on, and `write` puts the first `n` bytes of the buffer there; they return `n` and move the
    -- position by it. It is at most the size of the buffer, and after a `write` 0 only for an empty
    -- buffer. Or they return an error with the position unchanged, and at most the request is still
    -- in flight. No byte outside of the buffer, or of that range of the file, is changed.
    pub transfers-Progress :
        Progress read_op (read r file buf p w) × Progress write_op (write r file buf p w)
    transfers-Progress = (read-Progress, write-Progress)
