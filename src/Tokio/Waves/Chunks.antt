-- ===== src/Tokio/Waves/Chunks.antt =====
-- The waves of a batch (src/tokio/mod.rs).
use fastio.Prelude.{
  ℕ, zero, suc, ◌≤◌, ◌<◌, ◌≡◌, refl, ◌∙◌, ap, max, List, [], ◌∷◌, ◌++◌, Option, none, some, length,
  length-take, length-drop, take, drop, All, arith,
}
use fastio.Tokio.Waves.{worker_count, chunk_from, chunks}

abbrev pub concat {ℓ} : {A : Type ℓ} → List (List A) → List A
concat [] = []
concat (xs ∷ xss) = xs ++ concat xss

pub take-append-drop {ℓ} : {A : Type ℓ} (n : ℕ) (xs : List A) → take n xs ++ drop n xs ≡ xs
take-append-drop zero xs = refl
take-append-drop (suc n) [] = refl
take-append-drop (suc n) (x ∷ xs) = ap (x ∷◌) (take-append-drop n xs)

-- A wave has a slice, and not more slices than there are threads.
abbrev pub IsWave {ℓ} : {A : Type ℓ} → ℕ → List A → Type 0
IsWave n wave = (0 < length wave) × (length wave ≤ n)

concat-chunk_from {ℓ} :
    {A : Type ℓ} (fuel n : ℕ) (xs : List A)
    → 0 < n
    → length xs ≤ fuel
    → concat (chunk_from fuel n xs) ≡ xs
unfolding chunk_from
concat-chunk_from zero n [] pos enough = refl
concat-chunk_from zero n (x ∷ xs) pos enough = absurd (omega (arith, enough))
concat-chunk_from (suc fuel) n [] pos enough = refl
concat-chunk_from (suc fuel) n (x ∷ xs) pos enough =
    ap (take n (x ∷ xs) ++◌) (
      concat-chunk_from fuel n (drop n (x ∷ xs)) pos
        (omega (arith, length-drop n (x ∷ xs), enough, pos)))
    ∙ take-append-drop n (x ∷ xs)

chunk_from-IsWave {ℓ} :
    {A : Type ℓ} (fuel n : ℕ) (xs : List A) → 0 < n → All (IsWave n) (chunk_from fuel n xs)
unfolding chunk_from
chunk_from-IsWave zero n xs pos = tt
chunk_from-IsWave (suc fuel) n [] pos = tt
chunk_from-IsWave (suc fuel) n (x ∷ xs) pos = (
  (omega (arith, length-take n (x ∷ xs), pos), omega (arith, length-take n (x ∷ xs))),
  chunk_from-IsWave fuel n (drop n (x ∷ xs)) pos,
)

-- The waves of `write_slices_at` in order are the batch, each wave has a slice, and no wave has more
-- slices than the parallelism that is available (or than 1, if that is unknown or 0).
pub chunks-worker_count {ℓ} :
    {A : Type ℓ} (parallelism : Option ℕ) (xs : List A)
    → let n = worker_count parallelism (length xs) in
      (concat (chunks n xs) ≡ xs)
      × All (IsWave n) (chunks n xs)
      × (n ≤ max (elim parallelism [ none ↦ 1 | some k ↦ k ]) 1)
unfolding chunks worker_count
chunks-worker_count parallelism xs =
    let n = worker_count parallelism (length xs) in
    let pos : 0 < n = omega arith in
    (
      concat-chunk_from (length xs) n xs pos (omega arith),
      (chunk_from-IsWave (length xs) n xs pos),
      omega arith,
    )
