-- ===== src/Uring/Cursor/Clones.antt =====
-- Clones of a handle that write one after the other through the position they share
-- (src/uring.rs): a call holds the lock of the position from its start to its end.
use fastio.Prelude.{
  ℕ, ◌+◌, ◌<◌, ◌≡◌, ◌≢◌, refl, ◌∙◌, ap, sym, subst, List, [], ◌∷◌, All, false, arith,
}
use fastio.Io.{Error, ok, err}
use fastio.Uring.Ring.{Ring, Laws, write_op, memory, contents, target}
use fastio.Uring.Cache.{File}
use fastio.Uring.Exact.{Slice}
use fastio.Uring.Cursor.{Position, write}
use fastio.Uring.Once.Reply.{Elsewhere}
use fastio.Uring.Cursor.Progress.{request, write-Progress}
use fastio.Uring.Cursor.Returned.{Progress-IsAdvanced, Progress-IsStayed}

-- A call of `write` on one of the clones.
pub record Call : Type 0 where
  pub file : File
  pub buf : Slice

abbrev pub total : List ℕ → ℕ
total [] = 0
total (n ∷ ns) = n + total ns

-- The handle is one of the file, and its ring has room.
abbrev pub IsClone : ℕ → Call → Type 0
IsClone fd c = (c.file.fd ≡ fd) × (0 < c.file.ring_depth)

module _ (r : Ring) (laws : Laws r) where
  open laws use {pending, byte_at}

  -- Some calls in the order in which they took the lock, each with the count it returned; a call
  -- that fails counts as 0, and leaves no request in flight.
  pub data Wrote : List Call → Position → r.World → List ℕ → Position → r.World → Type 0 where
    no_call : (p : Position) (w : r.World) → Wrote [] p w [] p w
    returned :
        (file : File) (buf : Slice) (calls : List Call) (p : Position) (w : r.World) (n : ℕ)
        (p1 : Position) (w1 : r.World) (counts : List ℕ) (p2 : Position) (w2 : r.World)
        → write r file buf p w ≡ (ok n, p1, w1)
        → Wrote calls p1 w1 counts p2 w2
        → Wrote (record { file = file; buf = buf } ∷ calls) p w (n ∷ counts) p2 w2
    failed :
        (file : File) (buf : Slice) (calls : List Call) (p : Position) (w : r.World) (e : Error)
        (p1 : Position) (w1 : r.World) (counts : List ℕ) (p2 : Position) (w2 : r.World)
        → write r file buf p w ≡ (err e, p1, w1)
        → pending w1 ≡ []
        → Wrote calls p1 w1 counts p2 w2
        → Wrote (record { file = file; buf = buf } ∷ calls) p w (0 ∷ counts) p2 w2

  -- From `at` on, the file has what each call wrote, one after the other without a gap.
  abbrev pub IsLaid : r.World → r.World → ℕ → ℕ → List Call → List ℕ → Type 0
  IsLaid w w' fd at (c ∷ calls) (n ∷ counts) =
      ((k : ℕ) → k < n → byte_at w' (contents fd (at + k)) ≡ byte_at w (memory (c.buf.address + k)))
      × IsLaid w w' fd (at + n) calls counts
  IsLaid w w' fd at [] counts = Unit
  IsLaid w w' fd at (c ∷ calls) [] = Unit

  pub record Appended (fd : ℕ) (calls : List Call) (p : Position) (w : r.World) (counts : List ℕ)
      (p' : Position) (w' : r.World) : Type 0 where
    pub moved : p'.at ≡ p.at + total counts
    pub lock : p'.poisoned ≡ false
    pub laid : IsLaid w w' fd p.at calls counts
    pub before : (q : ℕ) → q < p.at → byte_at w' (contents fd q) ≡ byte_at w (contents fd q)
    pub kept : (a : ℕ) → byte_at w' (memory a) ≡ byte_at w (memory a)

  IsLaid-memory :
      (w w1 w' : r.World) (fd at : ℕ) (calls : List Call) (counts : List ℕ)
      → ((a : ℕ) → byte_at w1 (memory a) ≡ byte_at w (memory a))
      → IsLaid w1 w' fd at calls counts
      → IsLaid w w' fd at calls counts
  IsLaid-memory w w1 w' fd at [] counts same h = tt
  IsLaid-memory w w1 w' fd at (c ∷ calls) [] same h = tt
  IsLaid-memory w w1 w' fd at (c ∷ calls) (n ∷ counts) same h = (
    (λ k lt. h.0 k lt ∙ same (c.buf.address + k)),
    IsLaid-memory w w1 w' fd (at + n) calls counts same h.1,
  )

  module _ (file : File) (buf : Slice) (p : Position) (w : r.World) where
    not_memory : (a k : ℕ) → target (request r laws file buf p w write_op) k ≢ memory a
    not_memory a k same = cc

    not_before :
        (fd q k : ℕ) → q < p.at → target (request r laws file buf p w write_op) k ≢ contents fd q
    not_before fd q k lt same = ground arith

  -- One call before the others.
  prepend :
      (fd n : ℕ) (file : File) (buf : Slice) (calls : List Call) (counts : List ℕ)
      (p p1 p2 : Position) (w w1 w2 : r.World)
      → file.fd ≡ fd
      → p1.at ≡ p.at + n
      → ((k : ℕ)
          → k < n
          → byte_at w1 (contents file.fd (p.at + k)) ≡ byte_at w (memory (buf.address + k)))
      → Elsewhere r laws (request r laws file buf p w write_op) w w1
      → Appended fd calls p1 w1 counts p2 w2
      → Appended fd (record { file = file; buf = buf } ∷ calls) p w (n ∷ counts) p2 w2
  prepend fd n file buf calls counts p p1 p2 w w1 w2 same_file at moves far rest =
      let kept : (a : ℕ) → byte_at w1 (memory a) ≡ byte_at w (memory a) =
        λ a. far (memory a) ((λ k lt. not_memory file buf p w a k), tt) in
      record {
        moved = omega (arith, at, rest.moved);
        lock = rest.lock;
        laid = (
          λ k lt.
              rest.before (p.at + k) (omega (arith, at, lt))
              ∙ ap (λ (d : ℕ). byte_at w1 (contents d (p.at + k))) (sym same_file)
              ∙ moves k lt,
          IsLaid-memory w w1 w2 fd (p.at + n) calls counts kept
              (subst (λ (a : ℕ). IsLaid w1 w2 fd a calls counts) at rest.laid),
        );
        before = λ q lt.
            rest.before q (omega (arith, at, lt))
            ∙ far (contents fd q) ((λ k lt'. not_before file buf p w fd q k lt), tt);
        kept = λ a. rest.kept a ∙ kept a;
      }

  -- For clones of a handle, in any order in which their calls of `write` take the lock of the
  -- position they share, and that is not poisoned; nothing in flight at the start, and a ring that
  -- keeps its laws: from the position on, the file has the bytes that each call reported as
  -- written, one call after the other, without a gap and none over another. The position is past
  -- them, and not poisoned. What was before the position and the memory are not changed. Calls that
  -- fail take no room, if they leave nothing in flight.
  pub Wrote-Appended :
      (fd : ℕ) (calls : List Call) (p : Position) (w : r.World) (counts : List ℕ) (p' : Position)
      (w' : r.World)
      → p.poisoned ≡ false
      → pending w ≡ []
      → All (IsClone fd) calls
      → Wrote calls p w counts p' w'
      → Appended fd calls p w counts p' w'
  Wrote-Appended fd _ p w _ _ _ open_lock quiet clones (no_call _ _) = record {
    moved = omega arith;
    lock = open_lock;
    laid = tt;
    before = λ q lt. refl;
    kept = λ a. refl;
  }
  Wrote-Appended fd _ p w _ _ _ open_lock quiet clones
        (returned file buf calls _ _ n p1 w1 counts p2 w2 call later) =
      let put =
        Progress-IsAdvanced r laws file buf p w write_op _
          (write-Progress r laws file buf p w open_lock clones.0.1 quiet) n p1 w1 call in
      prepend fd n file buf calls counts p p1 p2 w w1 w2 clones.0.0 put.at put.moves put.far
        (Wrote-Appended fd calls p1 w1 counts p2 w2 (put.lock ∙ open_lock) put.quiet clones.1 later)
  Wrote-Appended fd _ p w _ _ _ open_lock quiet clones
        (failed file buf calls _ _ e p1 w1 counts p2 w2 call landed later) =
      let left =
        Progress-IsStayed r laws file buf p w write_op _
          (write-Progress r laws file buf p w open_lock clones.0.1 quiet) e p1 w1 call in
      prepend fd 0 file buf calls counts p p1 p2 w w1 w2 clones.0.0
        (ap (λ (t : Position). t.at) left.same ∙ omega arith) (λ k lt. elim lt [ ]) left.far
        (Wrote-Appended fd calls p1 w1 counts p2 w2
          (ap (λ (t : Position). t.poisoned) left.same ∙ open_lock) landed clones.1 later)
