-- ===== src/Uring/Cursor/Returned.antt =====
-- What a call of the cursor that returned has done, by its result (src/uring.rs).
use fastio.Prelude.{ℕ, ◌+◌, ◌≤◌, ◌<◌, ◌≡◌, refl, subst, []}
use fastio.Io.{Error, Result, ok, err, panic, stuck, u64_max}
use fastio.Uring.Ring.{Ring, Laws, Opcode, source, target}
use fastio.Uring.Cache.{File}
use fastio.Uring.Exact.{Slice}
use fastio.Uring.Once.Reply.{Elsewhere}
use fastio.Uring.Cursor.{Position}
use fastio.Uring.Cursor.Progress.{Progress, advanced, stayed, request}

module _ (r : Ring) (laws : Laws r) (file : File) (buf : Slice) (p : Position) (w : r.World)
    (o : Opcode) where
  open laws use {pending, byte_at}

  -- What a transfer that returned `Ok` has done.
  pub record IsAdvanced (n : ℕ) (p' : Position) (w' : r.World) : Type 0 where
    pub at : p'.at ≡ p.at + n
    pub lock : p'.poisoned ≡ p.poisoned
    pub word : p'.at ≤ u64_max
    pub within : n ≤ buf.size
    pub quiet : pending w' ≡ []
    pub moves :
        (k : ℕ)
        → k < n
        → byte_at w' (target (request r laws file buf p w o) k)
          ≡ byte_at w (source (request r laws file buf p w o) k)
    pub far : Elsewhere r laws (request r laws file buf p w o) w w'

  -- What a transfer that returned an error has done.
  pub record IsStayed (p' : Position) (w' : r.World) : Type 0 where
    pub same : p' ≡ p
    pub far : Elsewhere r laws (request r laws file buf p w o) w w'

  abbrev IsDone : Result ℕ × Position × r.World → Type 0
  IsDone (ok n, p', w') = IsAdvanced n p' w'
  IsDone (err e, p', w') = IsStayed p' w'
  IsDone (panic, p', w') = Unit
  IsDone (stuck, p', w') = Unit

  Progress-IsDone :
      (res : Result ℕ × Position × r.World) → Progress r laws file buf p w o res → IsDone res
  Progress-IsDone _ (advanced n p' w' at lock word within some_byte quiet moves far) = record {
    at = at;
    lock = lock;
    word = word;
    within = within;
    quiet = quiet;
    moves = moves;
    far = far;
  }
  Progress-IsDone _ (stayed e w' left far) = record { same = refl; far = far }

  pub Progress-IsAdvanced :
      (res : Result ℕ × Position × r.World)
      → Progress r laws file buf p w o res
      → (n : ℕ) (p' : Position) (w' : r.World) → res ≡ (ok n, p', w')
      → IsAdvanced n p' w'
  Progress-IsAdvanced res done n p' w' e = subst IsDone e (Progress-IsDone res done)

  pub Progress-IsStayed :
      (res : Result ℕ × Position × r.World)
      → Progress r laws file buf p w o res
      → (x : Error) (p' : Position) (w' : r.World) → res ≡ (err x, p', w')
      → IsStayed p' w'
  Progress-IsStayed res done x p' w' e = subst IsDone e (Progress-IsDone res done)
