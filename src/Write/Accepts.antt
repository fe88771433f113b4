-- ===== src/Write/Accepts.antt =====
-- Whether a batch is accepted does not depend on the order of its slices (src/write.rs).
use fastio.Prelude.{◌≡◌, refl, subst, Bool, true, false, List, All, AllPairs}
use mathlib.Core.Bool.{Bool-set}
use mathlib.Core.Logic.{∥∥₁_elim}
use mathlib.Core.List.{Perm, Permᴰ}
use fastio.Io.{Result, ok, err, panic, stuck}
use fastio.Write.{WriteSlice, WriteSlices, new}
use fastio.Write.Verdict.{IsDisjoint, Fits, Verdict, accepted, overflows, overlaps, new-Verdict}

All-Permᴰ {ℓ} :
    (P : WriteSlice → Type ℓ) (ss ts : List WriteSlice) → Permᴰ ss ts → All P ss → All P ts
All-Permᴰ P _ _ Permᴰ.nil h = h
All-Permᴰ P _ _ (Permᴰ.cons {l₁ = ss} {l₂ = ts} e d) h = (subst P e h.0, All-Permᴰ P ss ts d h.1)
All-Permᴰ P _ _ (Permᴰ.swap e f) h = (subst P f h.1.0, (subst P e h.0, h.1.1))
All-Permᴰ P _ _ (Permᴰ.trans {l₁ = ss} {l₂ = us} {l₃ = ts} d e) h =
    All-Permᴰ P us ts e (All-Permᴰ P ss us d h)

IsDisjoint-symm : (s t : WriteSlice) → IsDisjoint s t → IsDisjoint t s
IsDisjoint-symm s t apart k both = apart k (both.1, both.0)

AllPairs-Permᴰ :
    (ss ts : List WriteSlice) → Permᴰ ss ts → AllPairs IsDisjoint ss → AllPairs IsDisjoint ts
AllPairs-Permᴰ _ _ Permᴰ.nil h = h
AllPairs-Permᴰ _ _ (Permᴰ.cons {l₁ = ss} {l₂ = ts} e d) h =
    (subst (λ s. All (IsDisjoint s) ts) e (All-Permᴰ _ ss ts d h.0), AllPairs-Permᴰ ss ts d h.1)
AllPairs-Permᴰ _ _ (Permᴰ.swap {a = a} {b = b} {b' = b'} {l = l} e f) h = (
  (
    subst (λ s. IsDisjoint s b') f (subst (IsDisjoint b) e (IsDisjoint-symm a b h.0.0)),
    subst (λ s. All (IsDisjoint s) l) f h.1.0,
  ),
  (subst (λ s. All (IsDisjoint s) l) e h.0.1, h.1.1),
)
AllPairs-Permᴰ _ _ (Permᴰ.trans {l₁ = ss} {l₂ = us} {l₃ = ts} d e) h =
    AllPairs-Permᴰ us ts e (AllPairs-Permᴰ ss us d h)

abbrev pub is_accepted : Result WriteSlices → Bool
is_accepted (ok batch) = true
is_accepted (err e) = false
is_accepted panic = false
is_accepted stuck = false

-- Slices that fit and are disjoint are accepted.
new-eq-accepted :
    (ts : List WriteSlice)
    → All Fits ts
    → AllPairs IsDisjoint ts
    → new ts ≡ ok (record { as_slice = ts })
new-eq-accepted ts fit apart = by_verdict (new ts) (new-Verdict ts)
  where
    by_verdict : (res : Result WriteSlices) → Verdict ts res → res ≡ ok (record { as_slice = ts })
    by_verdict _ (accepted f d) = refl
    by_verdict _ (overflows m fault over) = absurd (over fit)
    by_verdict _ (overlaps f clash) = absurd (clash apart)

Perm-accepted :
    (ss ts : List WriteSlice)
    → Perm ss ts
    → is_accepted (new ss) ≡ true
    → is_accepted (new ts) ≡ true
Perm-accepted ss ts h = by_verdict (new ss) (new-Verdict ss)
  where
    by_verdict :
        (res : Result WriteSlices)
        → Verdict ss res
        → is_accepted res ≡ true
        → is_accepted (new ts) ≡ true
    by_verdict _ (accepted fit apart) e = ∥∥₁_elim h (Bool-set _ _) (λ d.
        rw (new-eq-accepted ts (All-Permᴰ Fits ss ts d fit) (AllPairs-Permᴰ ss ts d apart)) refl)
    by_verdict _ (overflows m fault over) e = cc
    by_verdict _ (overlaps f clash) e = cc

-- If `new` accepts a list of slices, then it accepts them in every other order, and the batch has
-- them in that order.
pub new-Perm :
    (ss ts : List WriteSlice) (batch : WriteSlices)
    → Perm ss ts
    → new ss ≡ ok batch
    → new ts ≡ ok (record { as_slice = ts })
new-Perm ss ts batch h made =
    by_verdict (new ts) (new-Verdict ts) (Perm-accepted ss ts h (rw made refl))
  where
    by_verdict :
        (res : Result WriteSlices)
        → Verdict ts res
        → is_accepted res ≡ true
        → res ≡ ok (record { as_slice = ts })
    by_verdict _ (accepted fit apart) e = refl
    by_verdict _ (overflows m fault over) e = cc
    by_verdict _ (overlaps f clash) e = cc
