-- ===== src/Write/Unordered.antt =====
-- A batch without its order (src/write.rs): what it writes, and whether it is accepted, are those of
-- the multiset of its slices.
use fastio.Prelude.{
  ℕ, suc, ◌+◌, ◌-◌, ◌<◌, ◌≡◌, ◌≢◌, ◌⊎◌, refl, ◌∙◌, ap, leb, ltb, leb→le, leb→lt, ltb→lt, ltb→le,
  ◌&&◌, ◌==◌, if◌then◌else◌, Bool-cases, inl, inr, max, List, [], ◌∷◌, length, get_or, All, arith,
}
use mathlib.Core.Logic.{∥∥₁_elim}
use mathlib.Core.List.{Perm, Permᴰ}
use mathlib.Core.Quot
use mathlib.Core.Quot.{Quot}
use native.Mathlib.Nat.{ℕ_set}
use fastio.Write.{WriteSlice}

-- One more than the byte that the slice writes at `p`, or 0.
abbrev pub mark : ℕ → WriteSlice → ℕ
mark p s =
    if leb s.offset p && ltb p (s.offset + length s.bytes)
    then suc (get_or s.bytes (p - s.offset) 0)
    else 0

-- The marks of all slices together, whatever their order.
abbrev pub marks : ℕ → List WriteSlice → ℕ
marks p [] = 0
marks p (s ∷ ss) = max (mark p s) (marks p ss)

marks-Permᴰ : (p : ℕ) (ss ts : List WriteSlice) → Permᴰ ss ts → marks p ss ≡ marks p ts
marks-Permᴰ p _ _ Permᴰ.nil = refl
marks-Permᴰ p _ _ (Permᴰ.cons {l₁ = ss} {l₂ = ts} e d) =
    omega (arith, ap (mark p) e, marks-Permᴰ p ss ts d)
marks-Permᴰ p _ _ (Permᴰ.swap e f) = omega (arith, ap (mark p) e, ap (mark p) f)
marks-Permᴰ p _ _ (Permᴰ.trans {l₁ = ss} {l₂ = us} {l₃ = ts} d e) =
    marks-Permᴰ p ss us d ∙ marks-Permᴰ p us ts e

pub marks-Perm : (p : ℕ) (ss ts : List WriteSlice) → Perm ss ts → marks p ss ≡ marks p ts
marks-Perm p ss ts h = ∥∥₁_elim h (ℕ_set _ _) (marks-Permᴰ p ss ts)

-- Slices whose order is forgotten.
abbrev pub Slices : Type 0
Slices = Quot (Perm {A = WriteSlice})

-- The byte at `p` of a file with the bytes `d`, after the slices were written.
unfoldable pub overlay : Slices → (ℕ → ℕ) → ℕ → ℕ
overlay slices d p =
    let marked = Quot.lift ℕ_set (marks p) (marks-Perm p) slices in
    if marked == 0 then d p else marked - 1

mark-cases :
    (p : ℕ) (s : WriteSlice)
    → ((mark p s ≡ 0) × ((k : ℕ) → k < length s.bytes → s.offset + k ≢ p))
      ⊎ ((k : ℕ) × (k < length s.bytes)
          × (s.offset + k ≡ p)
          × (mark p s ≡ suc (get_or s.bytes k 0)))
mark-cases p s = elim (Bool-cases (leb s.offset p)) [
  | inr before ↦
      let out = leb→lt s.offset p before in
      inl (rw (before, mark), (λ k lt same. omega (arith, out, same)))
  | inl from ↦ elim (Bool-cases (ltb p (s.offset + length s.bytes))) [
    | inr past ↦
        let out = ltb→le p (s.offset + length s.bytes) past in
        inl (rw (from, past, mark), (λ k lt same. omega (arith, out, lt, same)))
    | inl below ↦
        let lo = leb→le s.offset p from in
        let hi = ltb→lt p (s.offset + length s.bytes) below in
        inr (p - s.offset, omega (arith, lo, hi), omega (arith, lo), rw (from, below, mark))
  ]
]

-- The bytes of each slice are in the file `d`.
abbrev pub AllPlaced : (ℕ → ℕ) → List WriteSlice → Type 0
AllPlaced d ss = All (λ s. (k : ℕ) → k < length s.bytes → get_or s.bytes k 0 ≡ d (s.offset + k)) ss

-- In a file that has all slices, what is marked at `p` is the byte at `p`; where nothing is marked,
-- no slice has a byte.
marks-cases :
    (d : ℕ → ℕ) (p : ℕ) (ss : List WriteSlice)
    → AllPlaced d ss
    → ((marks p ss ≡ 0) × All (λ s. (k : ℕ) → k < length s.bytes → s.offset + k ≢ p) ss)
      ⊎ (marks p ss ≡ suc (d p))
marks-cases d p [] here = inl (refl, tt)
marks-cases d p (s ∷ ss) here = elim (mark-cases p s) [
  | inl (none_here, out) ↦ elim (marks-cases d p ss here.1) [
    | inl (none_there, far) ↦ inl (omega (arith, none_here, none_there), (out, far))
    | inr marked ↦ inr (omega (arith, none_here, marked))
  ]
  | inr (k, lt, at, marked) ↦
      let byte : mark p s ≡ suc (d p) = marked ∙ ap suc (here.0 k lt ∙ ap d at) in
      elim (marks-cases d p ss here.1) [
        | inl (none_there, far) ↦ inr (omega (arith, byte, none_there))
        | inr same ↦ inr (omega (arith, byte, same))
      ]
]

-- A file that has all slices, and elsewhere the bytes of `d`, is `d` with the slices over it.
pub AllPlaced-overlay :
    (d d' : ℕ → ℕ) (ss : List WriteSlice) (p : ℕ)
    → AllPlaced d' ss
    → (All (λ s. (k : ℕ) → k < length s.bytes → s.offset + k ≢ p) ss → d' p ≡ d p)
    → d' p ≡ overlay (Quot.mk ss) d p
unfolding overlay
AllPlaced-overlay d d' ss p here far = elim (marks-cases d' p ss here) [
  | inl (nothing, out) ↦ rw nothing (far out)
  | inr marked ↦ rw marked (ground arith)
]
