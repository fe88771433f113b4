-- ===== src/Uring/Cursor/Sequential/Refines.antt =====
-- Calls on clones refine a file with a cursor (src/uring.rs).
use fastio.Prelude.{
  ℕ, zero, suc, inl, inr, ◌+◌, ◌≤◌, ◌<◌, ◌≡◌, ◌⊎◌, refl, ◌∙◌, ap, sym, subst, subst₂, List, [], ◌∷◌,
  bytes_from, length-bytes_from, arith,
}
use fastio.Io.{Error, Result, ok, err, panic, stuck, u64_max}
use fastio.StdFile.{SeekFrom, from_end}
use fastio.Prelude.Int.{ℤ, pos_part, neg_part}
use fastio.Uring.Ring.{Ring, Laws, read_op, write_op, memory, contents}
use fastio.Uring.Cache.{File}
use fastio.Uring.Exact.{Slice}
use fastio.Uring.Once.Reply.{Elsewhere}
use fastio.Uring.Cursor.{Position, seek}
use fastio.Uring.Cursor.Progress.{request, read-Progress, write-Progress}
use fastio.Uring.Cursor.Target.{
  Aim, at_start, at_current, at_end, Landing, landed, IsTyped, seek-Landing,
}
use fastio.Uring.Cursor.Target
use fastio.Uring.Cursor.Returned.{IsAdvanced, Progress-IsAdvanced, Progress-IsStayed}
use fastio.Uring.Cursor.Sequential.{
  Event, got, put, sought, failed, seek_failed, IsTarget, Unchanged, Outside, Allows, Follows,
  no_event, event, tape, IsHandle, Ran, nothing, reads, writes, seeks, read_fails, write_fails,
  seek_fails, Rest,
}

bytes_from-ext :
    (f g : ℕ → ℕ) (a b n : ℕ)
    → ((k : ℕ) → k < n → f (a + k) ≡ g (b + k))
    → bytes_from f a n ≡ bytes_from g b n
bytes_from-ext f g a b zero h = refl
bytes_from-ext f g a b (suc n) h =
    subst₂ (λ x ys. f a ∷ bytes_from f (a + 1) n ≡ x ∷ ys)
      (ap f {x = a} {y = a + 0} (omega arith) ∙ h 0 (omega arith) ∙ ap g {x = b + 0} (omega arith))
      (bytes_from-ext f g (a + 1) (b + 1) n (λ k lt.
        ap f {x = a + 1 + k} {y = a + (1 + k)} (omega arith)
        ∙ h (1 + k) (omega arith)
        ∙ ap g {x = b + (1 + k)} (omega arith)))
      refl

module _ (r : Ring) (laws : Laws r) (fd : ℕ) where
  open laws use {pending, byte_at}

  module _ (file : File) (buf : Slice) (p : Position) (w w1 : r.World)
      (handle : IsHandle r laws fd file) where
    -- A read does not reach the file, and a write only the range at the cursor.
    read-Unchanged :
        (p1 : Position)
        → Elsewhere r laws (request r laws file buf p w read_op) w w1
        → Unchanged (tape r laws fd p w) (tape r laws fd p1 w1)
    read-Unchanged p1 far q = far (contents fd q) ((λ k lt e. cc), tt)

    write-Outside :
        (p1 : Position)
        → Elsewhere r laws (request r laws file buf p w write_op) w w1
        → Outside buf.size (tape r laws fd p w) (tape r laws fd p1 w1)
    write-Outside p1 far q out = far (contents fd q) ((λ k lt e. ground (arith, out)), tt)

    got-Allows :
        (n : ℕ) (p1 : Position)
        → IsAdvanced r laws file buf p w read_op n p1 w1
        → Allows
            (tape r laws fd p w)
            (got (bytes_from (λ a. byte_at w1 (memory a)) buf.address n))
            (tape r laws fd p1 w1)
    got-Allows n p1 done =
        let size = length-bytes_from (λ a. byte_at w1 (memory a)) buf.address n in
        (
          subst
              (λ m.
                bytes_from (λ a. byte_at w1 (memory a)) buf.address n
                ≡ bytes_from (λ q. byte_at w (contents fd q)) p.at m)
              (sym size)
              (bytes_from-ext _ _ buf.address p.at n (λ k lt.
                done.moves k lt ∙ ap (λ (d : ℕ). byte_at w (contents d (p.at + k))) handle.0)),
          read-Unchanged p1 done.far,
          done.at ∙ ap (p.at +◌) (sym size),
        )

    put-Allows :
        (n : ℕ) (p1 : Position)
        → IsAdvanced r laws file buf p w write_op n p1 w1
        → Allows
            (tape r laws fd p w)
            (put (bytes_from (λ a. byte_at w (memory a)) buf.address n) buf.size)
            (tape r laws fd p1 w1)
    put-Allows n p1 done =
        let size = length-bytes_from (λ a. byte_at w (memory a)) buf.address n in
        (
          subst
              (λ m.
                bytes_from (λ a. byte_at w (memory a)) buf.address n
                ≡ bytes_from (λ q. byte_at w1 (contents fd q)) p.at m)
              (sym size)
              (bytes_from-ext _ _ buf.address p.at n (λ k lt. sym (
                ap (λ (d : ℕ). byte_at w1 (contents d (p.at + k))) (sym handle.0)
                ∙ done.moves k lt))),
          write-Outside p1 done.far,
          done.at ∙ ap (p.at +◌) (sym size),
        )

  -- A call that fails leaves the position.
  stay :
      (p : Position) (w : r.World) (p1 : Position) (w1 : r.World)
      → Rest r laws fd p w
      → p1 ≡ p
      → pending w1 ≡ []
      → Rest r laws fd p1 w1
  stay p w p1 w1 rest same quiet = record {
    lock = ap (λ (t : Position). t.poisoned) same ∙ rest.lock;
    word = omega (arith, ap (λ (t : Position). t.at) same, rest.word);
    quiet = quiet;
  }

  -- Where a seek has left the position, and that it leads there; or that it leads to no `u64`.
  abbrev IsSought : Error ⊎ ℕ → SeekFrom → Position → Result ℕ × Position → Type 0
  IsSought len from p (ok q, p1) =
      (p1.at ≡ q) × (p1.poisoned ≡ p.poisoned) × (q ≤ u64_max) × IsTarget len p.at from q
  IsSought len from p (err e, p1) = (p1 ≡ p) × ((q : ℕ) → q ≤ u64_max → ¬ IsTarget len p.at from q)
  IsSought len from p (panic, p1) = Unit
  IsSought len from p (stuck, p1) = Unit

  Aim-IsTarget :
      (len : Error ⊎ ℕ) (from : SeekFrom) (p : Position) (base : ℕ) (delta : ℤ) (q : ℕ)
      → Aim len p from base delta
      → base + pos_part delta ≡ q + neg_part delta
      → IsTarget len p.at from q
  Aim-IsTarget len _ p _ _ q (at_start offset) sum = omega (arith, sum)
  Aim-IsTarget len _ p _ _ q (at_current delta) sum = sum
  Aim-IsTarget len _ p _ _ q (at_end delta n known) sum = (n, known, sum)

  target-sum :
      (len : Error ⊎ ℕ) (from : SeekFrom) (p : Position) (base : ℕ) (delta : ℤ) (q : ℕ)
      → Aim len p from base delta
      → IsTarget len p.at from q
      → base + pos_part delta ≡ q + neg_part delta
  target-sum len _ p _ _ q (at_start offset) there = omega (arith, there)
  target-sum len _ p _ _ q (at_current delta) there = there
  target-sum len _ p _ _ q (at_end delta n known) (m, told, sum) =
      let same : n ≡ m = cc (known, told) in omega (arith, same, sum)

  no_length-IsTarget :
      (len : Error ⊎ ℕ) (delta : ℤ) (at q : ℕ) (e : Error)
      → len ≡ inl e
      → ¬ IsTarget len at (from_end delta) q
  no_length-IsTarget len delta at q e none_told (n, told, sum) = cc (none_told, told)

  Landing-IsSought :
      (len : Error ⊎ ℕ) (from : SeekFrom) (p : Position) (res : Result ℕ × Position)
      → Landing len p from res
      → IsSought len from p res
  Landing-IsSought len from p _ (landed base delta next p1 aim sum word at lock) =
      (at, lock, word, Aim-IsTarget len from p base delta next aim sum)
  Landing-IsSought len from p _ (Target.refused base delta aim out) = (
    refl,
    λ q word there.
        let sum = target-sum len from p base delta q aim there in
        elim out [ inl low ↦ omega (arith, low, sum) | inr high ↦ omega (arith, high, sum, word) ],
  )
  Landing-IsSought len from p _ (Target.no_length delta e from_the_end h) = (
    refl,
    λ q word there.
        no_length-IsTarget len delta p.at q e h
          (subst (λ f. IsTarget len p.at f q) from_the_end there),
  )

  seek-IsSought :
      (len : Error ⊎ ℕ) (from : SeekFrom) (p : Position) (w : r.World) (res : Result ℕ × Position)
      → IsTyped len from
      → Rest r laws fd p w
      → seek len from p ≡ res
      → IsSought len from p res
  seek-IsSought len from p w res typed rest e =
      subst (IsSought len from p) e
        (Landing-IsSought len from p _ (seek-Landing len from p rest.lock rest.word typed))

  -- For calls of `read`, `write` and `seek` on clones of a handle, in any order in which they take
  -- the lock of their position, from a position that is a `u64` and not poisoned, with nothing in
  -- flight, on a ring that keeps its laws, where a call that fails leaves nothing in flight: what
  -- the callers see is what they see of a file with a cursor, used by one call after the other. A
  -- read gets the bytes at the cursor and a write puts them there, both move the cursor by their
  -- number; a read or write that fails leaves it. A seek moves the cursor to the position that it
  -- returns, which is the one that it names, and fails, with the cursor as it was, only if it names
  -- no `u64` or the length of the file is not to be had.
  pub Ran-Follows :
      (p : Position) (w : r.World) (es : List Event) (p' : Position) (w' : r.World)
      → Rest r laws fd p w
      → Ran r laws fd p w es p' w'
      → Follows (tape r laws fd p w) es (tape r laws fd p' w')
  Ran-Follows p w _ _ _ rest (nothing _ _) = no_event (tape r laws fd p w)
  Ran-Follows p w _ _ _ rest (reads file buf _ _ n p1 w1 es p2 w2 handle call later) =
      let done =
        Progress-IsAdvanced r laws file buf p w read_op _
          (read-Progress r laws file buf p w rest.lock handle.1 rest.quiet) n p1 w1 call in
      event (tape r laws fd p w) _ (tape r laws fd p1 w1) es (tape r laws fd p2 w2)
        (got-Allows file buf p w w1 handle n p1 done)
        (Ran-Follows p1 w1 es p2 w2
          (record { lock = done.lock ∙ rest.lock; word = done.word; quiet = done.quiet }) later)
  Ran-Follows p w _ _ _ rest (writes file buf _ _ n p1 w1 es p2 w2 handle call later) =
      let done =
        Progress-IsAdvanced r laws file buf p w write_op _
          (write-Progress r laws file buf p w rest.lock handle.1 rest.quiet) n p1 w1 call in
      event (tape r laws fd p w) _ (tape r laws fd p1 w1) es (tape r laws fd p2 w2)
        (put-Allows file buf p w w1 handle n p1 done)
        (Ran-Follows p1 w1 es p2 w2
          (record { lock = done.lock ∙ rest.lock; word = done.word; quiet = done.quiet }) later)
  Ran-Follows p w _ _ _ rest (seeks len from _ _ q p1 es p2 w2 typed call later) =
      let (at, lock, word, there) = seek-IsSought len from p w _ typed rest call in
      event (tape r laws fd p w) (sought len from q) (tape r laws fd p1 w) es (tape r laws fd p2 w2)
        ((λ x. refl), at, there)
        (Ran-Follows p1 w es p2 w2
          (record { lock = lock ∙ rest.lock; word = omega (arith, at, word); quiet = rest.quiet })
          later)
  Ran-Follows p w _ _ _ rest (read_fails file buf _ _ e p1 w1 es p2 w2 handle call quiet later) =
      let left =
        Progress-IsStayed r laws file buf p w read_op _
          (read-Progress r laws file buf p w rest.lock handle.1 rest.quiet) e p1 w1 call in
      event (tape r laws fd p w) (failed 0) (tape r laws fd p1 w1) es (tape r laws fd p2 w2)
        (
          (λ x out. read-Unchanged file buf p w w1 handle p1 left.far x),
          ap (λ (t : Position). t.at) left.same,
        )
        (Ran-Follows p1 w1 es p2 w2 (stay p w p1 w1 rest left.same quiet) later)
  Ran-Follows p w _ _ _ rest (write_fails file buf _ _ e p1 w1 es p2 w2 handle call quiet later) =
      let left =
        Progress-IsStayed r laws file buf p w write_op _
          (write-Progress r laws file buf p w rest.lock handle.1 rest.quiet) e p1 w1 call in
      event (tape r laws fd p w) (failed buf.size) (tape r laws fd p1 w1) es (tape r laws fd p2 w2)
        (write-Outside file buf p w w1 handle p1 left.far, ap (λ (t : Position). t.at) left.same)
        (Ran-Follows p1 w1 es p2 w2 (stay p w p1 w1 rest left.same quiet) later)
  Ran-Follows p w _ _ _ rest (seek_fails len from _ _ e p1 es p2 w2 typed call later) =
      let (same, nowhere) = seek-IsSought len from p w _ typed rest call in
      event (tape r laws fd p w) (seek_failed len from) (tape r laws fd p1 w) es
        (tape r laws fd p2 w2) ((λ x. refl), ap (λ (t : Position). t.at) same, nowhere)
        (Ran-Follows p1 w es p2 w2 (stay p w p1 w rest same rest.quiet) later)
