-- ===== src/Sync/Windows/Writing.antt =====
-- The loop of `seek_write_exact` (src/sync/windows.rs).
use fastio.Prelude.{
  ℕ, zero, suc, ◌+◌, ◌-◌, ◌≤◌, ◌<◌, ◌≡◌, ◌≢◌, ◌⊎◌, inl, inr, refl, ◌∙◌, ap, sym, subst, ltb, ltb→lt,
  ltb→le, leb, Bool-cases, true, false, List, [], ◌∷◌, length, length-drop, drop, get_or, arith,
}
use fastio.Io.{Error, Result, ok, err, u64_max}
use fastio.Sync.Windows.{Handle, write_loop, write_overflow, no_byte_written}
use fastio.Sync.Windows.Promises.{Laws}
use fastio.Sync.Windows.Reading.{not_less}

get_or-drop : (n : ℕ) (xs : List ℕ) (k : ℕ) → get_or (drop n xs) k 0 ≡ get_or xs (n + k) 0
get_or-drop zero xs k = ap (λ i. get_or xs i 0) (omega arith)
get_or-drop (suc n) [] k = refl
get_or-drop (suc n) (x ∷ xs) k =
    get_or-drop n xs k ∙ ap (λ i. get_or (x ∷ xs) i 0) {x = suc (n + k)} (omega arith)

module _ (h : Handle) (laws : Laws h) (offset : ℕ) (buf : List ℕ) (start : h.World) where
  open laws use {byte_at, position}

  -- Only the range has changed.
  abbrev pub Elsewhere : h.World → Type 0
  Elsewhere w =
      (p : ℕ) → ((k : ℕ) → k < length buf → offset + k ≢ p) → byte_at w p ≡ byte_at start p

  -- The first `n` bytes are in the file.
  abbrev pub HasPrefix : ℕ → h.World → Type 0
  HasPrefix n w = (k : ℕ) → k < n → byte_at w (offset + k) ≡ get_or buf k 0

  pub data Wrote : Result (Unit {0}) × h.World → Type 0 where
    all_written : (w : h.World) → HasPrefix (length buf) w → Elsewhere w → Wrote (ok tt, w)
    failed : (e : Error) (w : h.World) → Elsewhere w → Wrote (err e, w)

  -- One `seek_write` of the bytes that are left.
  module _ (written : ℕ) (w : h.World) (below : written < length buf) where
    abbrev next : h.World
    next = (h.seek_write (drop written buf) (offset + written) w).1

    next-Elsewhere : Elsewhere w → Elsewhere next
    next-Elsewhere far p out =
        laws.write_elsewhere w (drop written buf) (offset + written) p (λ k lt same.
          out (written + k) (omega (arith, lt, length-drop written buf)) (omega (arith, same)))
        ∙ far p out

    next-HasPrefix :
        (n : ℕ)
        → (h.seek_write (drop written buf) (offset + written) w).0 ≡ inr n
        → HasPrefix written w
        → HasPrefix (written + n) next
    next-HasPrefix n e good k lt = elim (Bool-cases (ltb k written)) [
      | inl before ↦
          let old = ltb→lt k written before in
          laws.write_elsewhere w (drop written buf) (offset + written) (offset + k)
            (λ i hi same. omega (arith, old, same))
          ∙ good k old
      | inr after ↦
          let new = ltb→le k written after in
          let law = laws.write_law w (drop written buf) (offset + written) n e in
          ap (byte_at next) {x = offset + k} (omega (arith, new))
          ∙ law.1 (k - written) (omega (arith, new, lt))
          ∙ get_or-drop written buf (k - written)
          ∙ ap (λ i. get_or buf i 0) (omega (arith, new))
    ]

    next_le :
        (n : ℕ)
        → (h.seek_write (drop written buf) (offset + written) w).0 ≡ inr n
        → written + n ≤ length buf
    next_le n e = omega (
      arith,
      (laws.write_law w (drop written buf) (offset + written) n e).0,
      length-drop written buf,
      below,
    )

  module _ (fuel written : ℕ) where
    -- The rest of a round, after `seek_write`.
    abbrev after : Error ⊎ ℕ → h.World → Result (Unit {0}) × h.World
    after (inl e) w = (err e, w)
    after (inr zero) w = (err no_byte_written, w)
    after (inr (suc k)) w = write_loop h fuel offset buf (written + suc k) w

    write_loop-round :
        (w : h.World) (a : Error ⊎ ℕ)
        → (h.seek_write (drop written buf) (offset + written) w).0 ≡ a
        → ltb written (length buf) ≡ true
        → leb (offset + written) u64_max ≡ true
        → write_loop h (suc fuel) offset buf written w
          ≡ after a (h.seek_write (drop written buf) (offset + written) w).1
    unfolding write_loop
    write_loop-round w (inl e) k more fits = rw (more, fits, k, write_loop) refl
    write_loop-round w (inr zero) k more fits = rw (more, fits, k, write_loop) refl
    write_loop-round w (inr (suc n)) k more fits = rw (more, fits, k, write_loop) refl

  write_loop-stop :
      (fuel written : ℕ) (w : h.World)
      → ltb written (length buf) ≡ false
      → write_loop h fuel offset buf written w ≡ (ok tt, w)
  unfolding write_loop
  write_loop-stop zero written w e = rw (e, write_loop) refl
  write_loop-stop (suc fuel) written w e = rw (e, write_loop) refl

  write_loop-over :
      (fuel written : ℕ) (w : h.World)
      → ltb written (length buf) ≡ true
      → leb (offset + written) u64_max ≡ false
      → write_loop h (suc fuel) offset buf written w ≡ (err write_overflow, w)
  unfolding write_loop
  write_loop-over fuel written w more over = rw (more, over, write_loop) refl

  -- What a loop with this fuel does from any round on.
  abbrev pub Writes : ℕ → Type 0
  Writes fuel =
      (written : ℕ) (w : h.World)
      → length buf ≤ written + fuel
      → written ≤ length buf
      → HasPrefix written w
      → Elsewhere w
      → Wrote (write_loop h fuel offset buf written w)

  round-Wrote :
      (fuel written : ℕ) (w : h.World)
      → Writes fuel
      → length buf ≤ written + suc fuel
      → written < length buf
      → HasPrefix written w
      → Elsewhere w
      → (a : Error ⊎ ℕ) → (h.seek_write (drop written buf) (offset + written) w).0 ≡ a
      → Wrote (after fuel written a (h.seek_write (drop written buf) (offset + written) w).1)
  round-Wrote fuel written w rest enough lt good far (inl e) k =
      failed e _ (next-Elsewhere written w lt far)
  round-Wrote fuel written w rest enough lt good far (inr zero) k =
      failed no_byte_written _ (next-Elsewhere written w lt far)
  round-Wrote fuel written w rest enough lt good far (inr (suc n)) k =
      rest (written + suc n) _ (omega (arith, enough)) (next_le written w lt (suc n) k)
        (next-HasPrefix written w lt (suc n) k good) (next-Elsewhere written w lt far)

  pub write_loop-Wrote : (fuel : ℕ) → Writes fuel
  write_loop-Wrote zero written w enough le good far =
      subst Wrote
        (sym
          (write_loop-stop zero written w (not_less written (length buf) (omega (arith, enough)))))
        (all_written w (λ k lt. good k (omega (arith, enough, lt))) far)
  write_loop-Wrote (suc fuel) written w enough le good far =
      elim (Bool-cases (ltb written (length buf))) [
        | inr e ↦
            subst Wrote (sym (write_loop-stop (suc fuel) written w e))
              (all_written w (λ k lt. good k (omega (arith, ltb→le _ _ e, lt))) far)
        | inl e ↦ elim (Bool-cases (leb (offset + written) u64_max)) [
          | inr over ↦
              subst Wrote (sym (write_loop-over fuel written w e over))
                (failed write_overflow w far)
          | inl fits ↦ subst Wrote (sym (write_loop-round fuel written w _ refl e fits)) (
              round-Wrote fuel written w (write_loop-Wrote fuel) enough (ltb→lt _ _ e) good far _
                refl)
        ]
      ]
