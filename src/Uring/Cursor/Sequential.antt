-- ===== src/Uring/Cursor/Sequential.antt =====
-- The cursor that clones share is that of a file which is read, written and sought one call after the
-- other, in the order in which the calls take the lock (src/uring.rs).
pub mod Refines
use fastio.Prelude.{
  ℕ, zero, suc, ◌+◌, ◌≤◌, ◌<◌, ◌≡◌, ◌≢◌, ◌⊎◌, inl, inr, refl, ◌∙◌, ap, sym, subst, subst₂, List, [],
  ◌∷◌, false, length, get_or, bytes_from, length-bytes_from, get_or-bytes_from, arith,
}
use fastio.Io.{Error, Result, ok, err, panic, stuck, u64_max}
use fastio.StdFile.{SeekFrom, start, current, from_end}
use fastio.Prelude.Int.{pos_part, neg_part}
use fastio.Uring.Ring.{Ring, Laws, read_op, write_op, memory, contents, target}
use fastio.Uring.Cache.{File}
use fastio.Uring.Exact.{Slice}
use fastio.Uring.Once.Reply.{Elsewhere}
use fastio.Uring.Cursor.{Position, read, write, seek}
use fastio.Uring.Cursor.Progress.{request, read-Progress, write-Progress}
use fastio.Uring.Cursor.Target.{Landing, landed, IsTyped, seek-Landing}
use fastio.Uring.Cursor.Target
use fastio.Uring.Cursor.Returned.{IsAdvanced, Progress-IsAdvanced, Progress-IsStayed}

-- What a caller sees of a call: the bytes that it got or put, where it went, or that it failed. A
-- write names how many bytes it was to put: those of them that it does not report may have changed. A
-- seek names the length of the file that it was told, or the error of asking, and what it was to seek.
pub data Event : Type 0 where
  got : List ℕ → Event
  put : List ℕ → ℕ → Event
  sought : Error ⊎ ℕ → SeekFrom → ℕ → Event
  failed : ℕ → Event
  seek_failed : Error ⊎ ℕ → SeekFrom → Event

-- A file with a cursor.
pub record Tape : Type 0 where
  pub bytes : ℕ → ℕ
  pub at : ℕ

abbrev pub Unchanged : Tape → Tape → Type 0
Unchanged t t' = (p : ℕ) → t'.bytes p ≡ t.bytes p

-- No byte but the `n` from the cursor on has changed.
abbrev pub Outside : ℕ → Tape → Tape → Type 0
Outside n t t' = (p : ℕ) → (p < t.at) ⊎ (t.at + n ≤ p) → t'.bytes p ≡ t.bytes p

-- The place `q` is where a seek from the cursor `at` leads.
abbrev pub IsTarget : Error ⊎ ℕ → ℕ → SeekFrom → ℕ → Type 0
IsTarget len at (start offset) q = q ≡ offset
IsTarget len at (current delta) q = at + pos_part delta ≡ q + neg_part delta
IsTarget len at (from_end delta) q =
    (n : ℕ) × (len ≡ inr n) × (n + pos_part delta ≡ q + neg_part delta)

-- What each event means for the file and the cursor.
abbrev pub Allows : Tape → Event → Tape → Type 0
Allows t (got bytes) t' =
    (bytes ≡ bytes_from t.bytes t.at (length bytes))
    × Unchanged t t'
    × (t'.at ≡ t.at + length bytes)
Allows t (put bytes size) t' =
    (bytes ≡ bytes_from t'.bytes t.at (length bytes))
    × Outside size t t'
    × (t'.at ≡ t.at + length bytes)
Allows t (sought len from p) t' = Unchanged t t' × (t'.at ≡ p) × IsTarget len t.at from p
Allows t (failed n) t' = Outside n t t' × (t'.at ≡ t.at)
Allows t (seek_failed len from) t' =
    Unchanged t t' × (t'.at ≡ t.at) × ((q : ℕ) → q ≤ u64_max → ¬ IsTarget len t.at from q)

pub data Follows : Tape → List Event → Tape → Type 0 where
  no_event : (t : Tape) → Follows t [] t
  event :
      (t : Tape) (e : Event) (t' : Tape) (es : List Event) (t'' : Tape)
      → Allows t e t'
      → Follows t' es t''
      → Follows t (e ∷ es) t''

module _ (r : Ring) (laws : Laws r) (fd : ℕ) where
  open laws use {pending, byte_at}

  abbrev pub tape : Position → r.World → Tape
  tape p w = record { bytes = λ q. byte_at w (contents fd q); at = p.at }

  abbrev pub IsHandle : File → Type 0
  IsHandle file = (file.fd ≡ fd) × (0 < file.ring_depth)

  -- Calls on clones in the order in which they took the lock, with what was seen of them. A read or
  -- write that failed has left nothing in flight.
  pub data Ran : Position → r.World → List Event → Position → r.World → Type 0 where
    nothing : (p : Position) (w : r.World) → Ran p w [] p w
    reads :
        (file : File) (buf : Slice) (p : Position) (w : r.World) (n : ℕ) (p1 : Position)
        (w1 : r.World) (es : List Event) (p2 : Position) (w2 : r.World)
        → IsHandle file
        → read r file buf p w ≡ (ok n, p1, w1)
        → Ran p1 w1 es p2 w2
        → Ran p w (got (bytes_from (λ a. byte_at w1 (memory a)) buf.address n) ∷ es) p2 w2
    writes :
        (file : File) (buf : Slice) (p : Position) (w : r.World) (n : ℕ) (p1 : Position)
        (w1 : r.World) (es : List Event) (p2 : Position) (w2 : r.World)
        → IsHandle file
        → write r file buf p w ≡ (ok n, p1, w1)
        → Ran p1 w1 es p2 w2
        → Ran p w (put (bytes_from (λ a. byte_at w (memory a)) buf.address n) buf.size ∷ es) p2 w2
    seeks :
        (len : Error ⊎ ℕ) (from : SeekFrom) (p : Position) (w : r.World) (q : ℕ) (p1 : Position)
        (es : List Event) (p2 : Position) (w2 : r.World)
        → IsTyped len from
        → seek len from p ≡ (ok q, p1)
        → Ran p1 w es p2 w2
        → Ran p w (sought len from q ∷ es) p2 w2
    read_fails :
        (file : File) (buf : Slice) (p : Position) (w : r.World) (e : Error) (p1 : Position)
        (w1 : r.World) (es : List Event) (p2 : Position) (w2 : r.World)
        → IsHandle file
        → read r file buf p w ≡ (err e, p1, w1)
        → pending w1 ≡ []
        → Ran p1 w1 es p2 w2
        → Ran p w (failed 0 ∷ es) p2 w2
    write_fails :
        (file : File) (buf : Slice) (p : Position) (w : r.World) (e : Error) (p1 : Position)
        (w1 : r.World) (es : List Event) (p2 : Position) (w2 : r.World)
        → IsHandle file
        → write r file buf p w ≡ (err e, p1, w1)
        → pending w1 ≡ []
        → Ran p1 w1 es p2 w2
        → Ran p w (failed buf.size ∷ es) p2 w2
    seek_fails :
        (len : Error ⊎ ℕ) (from : SeekFrom) (p : Position) (w : r.World) (e : Error) (p1 : Position)
        (es : List Event) (p2 : Position) (w2 : r.World)
        → IsTyped len from
        → seek len from p ≡ (err e, p1)
        → Ran p1 w es p2 w2
        → Ran p w (seek_failed len from ∷ es) p2 w2

  -- Between two calls: the lock is not poisoned, the position is a `u64`, nothing is in flight.
  pub record Rest (p : Position) (w : r.World) : Type 0 where
    pub lock : p.poisoned ≡ false
    pub word : p.at ≤ u64_max
    pub quiet : pending w ≡ []
