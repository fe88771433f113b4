-- ===== src/Uring/Cursor/Target.antt =====
-- Where a seek leads to (src/uring.rs).
use fastio.Prelude.{
  ℕ, suc, ◌+◌, ◌-◌, ◌^◌, ◌≤◌, ◌<◌, ◌≡◌, ◌⊎◌, inl, inr, refl, sym, ap, subst, false, Bool-cases, leb,
  leb→le, leb→lt, if◌then◌else◌, arith,
}
use fastio.Prelude.Int.{ℤ, pos, negsuc, pos_part, neg_part}
use fastio.Io.{Error, Result, ok, err, u64_max, answer, ◌>>=◌}
use fastio.StdFile.{SeekFrom, start, current, from_end}
use fastio.Uring.Cursor.{
  Position, lock_error, seek_unlocked, seek, seek_target, set_position, negative_position,
}

-- The base and the distance of a seek: a start is relative to 0.
pub data Aim (len : Error ⊎ ℕ) (p : Position) : SeekFrom → ℕ → ℤ → Type 0 where
  at_start : (offset : ℕ) → Aim len p (start offset) 0 (pos offset)
  at_current : (delta : ℤ) → Aim len p (current delta) p.at delta
  at_end : (delta : ℤ) (n : ℕ) → len ≡ inr n → Aim len p (from_end delta) n delta

-- What a seek returns: the sum of base and distance, which becomes the position; or an error, with
-- the position unchanged, where that sum is not a `u64`, or where the length was not to be had.
pub data Landing (len : Error ⊎ ℕ) (p : Position) (from : SeekFrom)
    : Result ℕ × Position → Type 0 where
  landed :
      (base : ℕ) (delta : ℤ) (next : ℕ) (p' : Position)
      → Aim len p from base delta
      → base + pos_part delta ≡ next + neg_part delta
      → next ≤ u64_max
      → p'.at ≡ next
      → p'.poisoned ≡ p.poisoned
      → Landing len p from (ok next, p')
  refused :
      (base : ℕ) (delta : ℤ)
      → Aim len p from base delta
      → (base + pos_part delta < neg_part delta)
        ⊎ (u64_max + neg_part delta < base + pos_part delta)
      → Landing len p from (err negative_position, p)
  no_length :
      (delta : ℤ) (e : Error) → from ≡ from_end delta → len ≡ inl e → Landing len p from (err e, p)

-- Distances are those of an `i64`, and positions and lengths those of a `u64`.
abbrev pub IsWord : ℤ → Type 0
IsWord d = (pos_part d ≤ 2 ^ 63 - 1) × (neg_part d ≤ 2 ^ 63)

pub seek_target-forward :
    (base d : ℕ)
    → base ≤ u64_max
    → d ≤ 2 ^ 63 - 1
    → seek_target base (pos d)
      ≡ (if leb (base + d) u64_max then ok (base + d) else err negative_position)
unfolding seek_target
seek_target-forward base d word small = ground arith

pub seek_target-back :
    (base d : ℕ)
    → base ≤ u64_max
    → suc d ≤ 2 ^ 63
    → seek_target base (negsuc d)
      ≡ (if leb (suc d) base then ok (base - suc d) else err negative_position)
unfolding seek_target
seek_target-back base d word small = ground arith

target-Landing :
    (len : Error ⊎ ℕ) (p : Position) (from : SeekFrom) (base : ℕ) (delta : ℤ)
    → Aim len p from base delta
    → base ≤ u64_max
    → IsWord delta
    → Landing len p from (set_position p (seek_target base delta))
target-Landing len p from base (pos d) aim word small =
    subst (λ t. Landing len p from (set_position p t))
      (sym (seek_target-forward base d word small.0))
      (elim (Bool-cases (leb (base + d) u64_max)) [
        | inl e ↦ rw e (landed base (pos d) (base + d) _ aim (omega arith) (leb→le _ _ e) refl refl)
        | inr e ↦ rw e (refused base (pos d) aim (inr (omega (arith, leb→lt _ _ e))))
      ])
target-Landing len p from base (negsuc d) aim word small =
    subst (λ t. Landing len p from (set_position p t)) (sym (seek_target-back base d word small.1))
      (elim (Bool-cases (leb (suc d) base)) [
        | inl e ↦ rw e (
            landed base (negsuc d) (base - suc d) _ aim (omega (arith, leb→le _ _ e))
              (omega (arith, word)) refl refl)
        | inr e ↦ rw e (refused base (negsuc d) aim (inl (omega (arith, leb→lt _ _ e))))
      ])

-- The numbers of a seek are those of the source's types.
abbrev pub IsTyped : Error ⊎ ℕ → SeekFrom → Type 0
IsTyped len (start offset) = offset ≤ u64_max
IsTyped len (current delta) = IsWord delta
IsTyped len (from_end delta) = IsWord delta × ((n : ℕ) → len ≡ inr n → n ≤ u64_max)

-- With the lock not poisoned, a seek returns the sum of its base (0, the position, or the length of
-- the file) and its distance, and puts the position there, if that sum is a `u64`; otherwise it
-- returns the error of a negative position, also for a sum that is too large, or the error of
-- asking for the length, and the position stays.
pub seek-Landing :
    (len : Error ⊎ ℕ) (from : SeekFrom) (p : Position)
    → p.poisoned ≡ false
    → p.at ≤ u64_max
    → IsTyped len from
    → Landing len p from (seek len from p)
unfolding seek
seek-Landing len from p open_lock word typed =
    subst (Landing len p from)
      (sym (ap (λ b. if b then (err lock_error, p) else seek_unlocked len from p) open_lock))
      (by_from from typed)
  where
    by_length :
        (delta : ℤ) (l : Error ⊎ ℕ)
        → len ≡ l
        → IsWord delta
        → ((n : ℕ) → len ≡ inr n → n ≤ u64_max)
        → Landing len p (from_end delta) (set_position p (answer l >>= λ n. seek_target n delta))
    by_length delta (inl e) h small bound = no_length delta e refl h
    by_length delta (inr n) h small bound =
        target-Landing len p (from_end delta) n delta (at_end delta n h) (bound n h) small

    by_from : (f : SeekFrom) → IsTyped len f → Landing len p f (seek_unlocked len f p)
    by_from (start offset) h =
        landed 0 (pos offset) offset _ (at_start offset) (omega arith) h refl refl
    by_from (current delta) h =
        target-Landing len p (current delta) p.at delta (at_current delta) word h
    by_from (from_end delta) h = by_length delta len refl h.0 h.1
