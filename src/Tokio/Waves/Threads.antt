-- ===== src/Tokio/Waves/Threads.antt =====
-- What is true of each thread of a wave, whatever turns the threads take (src/tokio/mod.rs).
use fastio.Prelude.{
  ℕ, zero, suc, ◌+◌, ◌-◌, ◌<◌, ◌≡◌, ◌≢◌, inl, inr, refl, ◌∙◌, ap, sym, subst, ltb, ltb→lt, ltb→le,
  Bool-cases, List, [], ◌∷◌, length, length-take, length-drop, get_or, take, drop, map, All,
  AllPairs, arith,
}
use fastio.Write.{WriteSlice}
use fastio.Write.Verdict.{IsDisjoint}
use fastio.Sync.Whole.Store.{IsOutside, IsDisjoint-IsOutside}
use fastio.Tokio.Waves.{
  Disk, stored, Worker, writing, finished, failed, panicked, Thread, spawn, Move, transfer,
  interrupted, complete, fault, crash, Turn, here, there, Turns, stop, turn,
}

pub stored-inside :
    (d : Disk) (o : ℕ) (bytes : List ℕ) (k : ℕ)
    → k < length bytes
    → stored d o bytes (o + k) ≡ get_or bytes k 0
stored-inside d o bytes k lt =
    ground (arith, ap (λ i. get_or bytes i 0) {x = o + k - o} {y = k} (omega arith))

pub stored-outside :
    (d : Disk) (o : ℕ) (bytes : List ℕ) (p : ℕ)
    → ((k : ℕ) → k < length bytes → o + k ≢ p)
    → stored d o bytes p ≡ d p
stored-outside d o bytes p out = ground (arith, out (p - o))

get_or-take : (n : ℕ) (xs : List ℕ) (k : ℕ) → k < n → get_or (take n xs) k 0 ≡ get_or xs k 0
get_or-take zero xs k h = elim h [ ]
get_or-take (suc n) [] k h = refl
get_or-take (suc n) (x ∷ xs) zero h = refl
get_or-take (suc n) (x ∷ xs) (suc k) h = get_or-take n xs k (omega arith)

-- The first `n` bytes of the slice are in the file.
abbrev pub HasPrefix : Disk → WriteSlice → ℕ → Type 0
HasPrefix d s n = (k : ℕ) → k < n → d (s.offset + k) ≡ get_or s.bytes k 0

-- A thread that writes has written the bytes before those that are left.
abbrev pub IsSound : Disk → WriteSlice → Worker → Type 0
IsSound d s (writing o rest) =
    (n : ℕ) × (o ≡ s.offset + n)
    × (n + length rest ≡ length s.bytes)
    × ((k : ℕ) → get_or rest k 0 ≡ get_or s.bytes (n + k) 0)
    × HasPrefix d s n
IsSound d s finished = HasPrefix d s (length s.bytes)
IsSound d s (failed e) = Unit
IsSound d s panicked = Unit

-- Bytes outside of the slice do not matter to its thread.
IsSound-other :
    (d d' : Disk) (s : WriteSlice) (w : Worker)
    → ((k : ℕ) → k < length s.bytes → d' (s.offset + k) ≡ d (s.offset + k))
    → IsSound d s w
    → IsSound d' s w
IsSound-other d d' s (writing o rest) same (n, at, size, left, good) =
    (n, at, size, left, λ k lt. same k (omega (arith, lt, size)) ∙ good k lt)
IsSound-other d d' s finished same good = λ k lt. same k lt ∙ good k lt
IsSound-other d d' s (failed e) same good = tt
IsSound-other d d' s panicked same good = tt

get_or-drop : (n : ℕ) (xs : List ℕ) (k : ℕ) → get_or (drop n xs) k 0 ≡ get_or xs (n + k) 0
get_or-drop zero xs k = ap (λ i. get_or xs i 0) (omega arith)
get_or-drop (suc n) [] k = refl
get_or-drop (suc n) (x ∷ xs) k =
    get_or-drop n xs k ∙ ap (λ i. get_or (x ∷ xs) i 0) {x = suc (n + k)} (omega arith)

-- A move keeps what is true of its thread, and changes no byte outside of its slice.
pub Move-IsSound :
    (d : Disk) (s : WriteSlice) (w : Worker) (d' : Disk) (w' : Worker)
    → Move d w d' w'
    → IsSound d s w
    → IsSound d' s w' × ((p : ℕ) → ((k : ℕ) → k < length s.bytes → s.offset + k ≢ p) → d' p ≡ d p)
Move-IsSound d s _ _ _ (transfer o m rest pos le) (n, at, size, left, good) =
    let taken = length-take m rest in
    (
      (
        n + m,
        omega (arith, at),
        omega (arith, size, le, length-drop m rest),
        (λ k. get_or-drop m rest k ∙ left (m + k) ∙ ap (λ i. get_or s.bytes i 0) (omega arith)),
        λ k lt. elim (Bool-cases (ltb k n)) [
          | inl e ↦
              let old = ltb→lt k n e in
              stored-outside d o (take m rest) (s.offset + k)
                (λ i hi same. omega (arith, old, at, same))
              ∙ good k old
          | inr e ↦
              let new = ltb→le k n e in
              ap (stored d o (take m rest)) {x = s.offset + k} (omega (arith, at, new))
              ∙ stored-inside d o (take m rest) (k - n) (omega (arith, taken, new, lt, le))
              ∙ get_or-take m rest (k - n) (omega (arith, new, lt))
              ∙ left (k - n)
              ∙ ap (λ i. get_or s.bytes i 0) (omega (arith, new))
        ],
      ),
      λ p out.
          stored-outside d o (take m rest) p (λ i hi same.
            out (n + i) (omega (arith, hi, taken, size, le)) (omega (arith, at, same))),
    )
Move-IsSound d s _ _ _ (interrupted o rest) sound = (sound, λ p out. refl)
Move-IsSound d s _ _ _ (complete o) (n, at, size, left, good) =
    ((λ k lt. good k (omega (arith, lt, size))), λ p out. refl)
Move-IsSound d s _ _ _ (fault o rest e) sound = (tt, λ p out. refl)
Move-IsSound d s _ _ _ (crash o rest) sound = (tt, λ p out. refl)

abbrev pub slices_of : List Thread → List WriteSlice
slices_of [] = []
slices_of (t ∷ ts) = t.slice ∷ slices_of ts

abbrev pub AllSound : Disk → List Thread → Type 0
AllSound d ts = All (λ t. IsSound d t.slice t.worker) ts

-- A move of a thread whose slice is apart from theirs does not matter to the threads.
AllSound-apart :
    (d d' : Disk) (s : WriteSlice) (ts : List Thread)
    → ((p : ℕ) → ((k : ℕ) → k < length s.bytes → s.offset + k ≢ p) → d' p ≡ d p)
    → All (IsDisjoint s) (slices_of ts)
    → AllSound d ts
    → AllSound d' ts
AllSound-apart d d' s [] far apart sound = tt
AllSound-apart d d' s (t ∷ ts) far apart sound = (
  IsSound-other d d' t.slice t.worker
      (λ k lt. far (t.slice.offset + k) (λ m hm same.
        apart.0 (t.slice.offset + k) ((omega arith, omega arith), (omega arith, omega arith))))
      sound.0,
  AllSound-apart d d' s ts far apart.1 sound.1,
)

-- A turn keeps what is true of all threads, and their slices, and the bytes outside of them.
pub Turn-AllSound :
    (d : Disk) (ts : List Thread) (d' : Disk) (ts' : List Thread)
    → Turn d ts d' ts'
    → AllPairs IsDisjoint (slices_of ts)
    → AllSound d ts
    → AllSound d' ts'
      × ((p : ℕ) → IsOutside (slices_of ts) p → d' p ≡ d p)
      × (slices_of ts' ≡ slices_of ts)
Turn-AllSound d _ _ _ (here s w d' w' ts move) apart sound =
    let (kept, far) = Move-IsSound d s w d' w' move sound.0 in
    ((kept, AllSound-apart d d' s ts far apart.0 sound.1), (λ p out. far p out.0), refl)
Turn-AllSound d _ _ _ (there t ts d' ts' one) apart sound =
    let (kept, far, same) = Turn-AllSound d ts d' ts' one apart.1 sound.1 in
    (
      (
        IsSound-other d d' t.slice t.worker
            (λ k lt.
              far (t.slice.offset + k) (IsDisjoint-IsOutside t.slice k (slices_of ts) lt apart.0))
            sound.0,
        kept,
      ),
      (λ p out. far p out.1),
      ap (t.slice ∷◌) same,
    )

pub Turns-AllSound :
    (n : ℕ) (d : Disk) (ts : List Thread) (d' : Disk) (ts' : List Thread)
    → Turns n d ts d' ts'
    → AllPairs IsDisjoint (slices_of ts)
    → AllSound d ts
    → AllSound d' ts'
      × ((p : ℕ) → IsOutside (slices_of ts) p → d' p ≡ d p)
      × (slices_of ts' ≡ slices_of ts)
Turns-AllSound _ d ts _ _ (stop _ _) apart sound = (sound, (λ p out. refl), refl)
Turns-AllSound _ d ts _ _ (turn n _ _ d1 ts1 d2 ts2 one rest) apart sound =
    let (kept, far, same) = Turn-AllSound d ts d1 ts1 one apart sound in
    let (kept', far', same') =
      Turns-AllSound n d1 ts1 d2 ts2 rest (subst (AllPairs IsDisjoint) (sym same) apart) kept in
    (kept', (λ p out. far' p (subst (λ l. IsOutside l p) (sym same) out) ∙ far p out), same' ∙ same)

pub slices_of-spawn : (ss : List WriteSlice) → slices_of (map spawn ss) ≡ ss
slices_of-spawn [] = refl
slices_of-spawn (s ∷ ss) = ap (s ∷◌) (slices_of-spawn ss)

pub spawn-AllSound : (d : Disk) (ss : List WriteSlice) → AllSound d (map spawn ss)
spawn-AllSound d [] = tt
spawn-AllSound d (s ∷ ss) = (
  (
    0,
    omega arith,
    omega arith,
    (λ k. ap (λ i. get_or s.bytes i 0) (omega arith)),
    λ k lt. absurd (omega (arith, lt)),
  ),
  spawn-AllSound d ss,
)
