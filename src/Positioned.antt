-- ===== src/Positioned.antt =====
-- A file with positioned reads and writes, as the backends use it or offer it: the length, a read
-- that fills a buffer, and a write of a whole buffer. The bytes of the buffer come with `Ok`.
use fastio.Prelude.{ℕ, ◌+◌, ◌<◌, ◌≡◌, ◌≢◌, ◌⊎◌, inr, List, length, get_or}
use fastio.Io.{Error, Result, ok, err}

pub record Positioned : Type 1 where
  pub World : Type 0
  pub metadata_len : World → Error ⊎ ℕ
  pub read_exact_at : ℕ → ℕ → World → Result (List ℕ) × World
  pub write_all_at : ℕ → List ℕ → World → Result (Unit {0}) × World

module _ {World : Type 0} (byte_at : World → ℕ → ℕ) where
  -- No byte of the file has changed.
  abbrev pub Same : World → World → Type 0
  Same w w' = (p : ℕ) → byte_at w' p ≡ byte_at w p

  -- The bytes are those of the file from `offset` on.
  abbrev pub IsRange : World → ℕ → List ℕ → Type 0
  IsRange w offset bytes = (k : ℕ) → k < length bytes → get_or bytes k 0 ≡ byte_at w (offset + k)

  -- No byte outside of the range has changed.
  abbrev pub Elsewhere : ℕ → ℕ → World → World → Type 0
  Elsewhere offset len w w' =
      (p : ℕ) → ((k : ℕ) → k < len → offset + k ≢ p) → byte_at w' p ≡ byte_at w p

  pub data Reads (w : World) (offset len : ℕ) : Result (List ℕ) × World → Type 0 where
    read_all :
        (bytes : List ℕ) (w' : World)
        → length bytes ≡ len
        → IsRange w offset bytes
        → Same w w'
        → Reads w offset len (ok bytes, w')
    read_failed : (e : Error) (w' : World) → Same w w' → Reads w offset len (err e, w')

  pub data Writes (w : World) (offset : ℕ) (bytes : List ℕ)
      : Result (Unit {0}) × World → Type 0 where
    wrote_all :
        (w' : World)
        → IsRange w' offset bytes
        → Elsewhere offset (length bytes) w w'
        → Writes w offset bytes (ok tt, w')
    write_failed :
        (e : Error) (w' : World)
        → Elsewhere offset (length bytes) w w'
        → Writes w offset bytes (err e, w')

-- What callers rely on: a read gives the bytes of the range or fails, and changes nothing; a write
-- puts its bytes in the range or fails, and changes nothing else; the length is that of the file.
pub record Laws (f : Positioned) : Type 0 where
  pub byte_at : f.World → ℕ → ℕ
  pub size : f.World → ℕ
  pub metadata_law : (w : f.World) (n : ℕ) → f.metadata_len w ≡ inr n → n ≡ size w
  pub read_law :
      (w : f.World) (offset len : ℕ) → Reads byte_at w offset len (f.read_exact_at offset len w)
  pub write_law :
      (w : f.World) (offset : ℕ) (bytes : List ℕ)
      → Writes byte_at w offset bytes (f.write_all_at offset bytes w)
