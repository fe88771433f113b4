-- ===== src/Sync/Windows/Reading.antt =====
-- The loop of `seek_read_exact` (src/sync/windows.rs).
use fastio.Prelude.{
  ℕ, zero, suc, ◌+◌, ◌-◌, ◌≤◌, ◌<◌, ◌≡◌, ◌⊎◌, inl, inr, refl, ◌∙◌, ap, sym, subst, ltb, ltb→lt,
  ltb→le, leb, Bool-cases, true, false, List, [], ◌∷◌, ◌++◌, length, length-append, get_or, arith,
}
use fastio.Io.{Error, Result, ok, err, u64_max}
use fastio.Sync.Windows.{Handle, read_loop, read_overflow}
use fastio.Sync.Windows.Promises.{Laws}

pub get_or-append_left :
    (xs ys : List ℕ) (k : ℕ) → k < length xs → get_or (xs ++ ys) k 0 ≡ get_or xs k 0
get_or-append_left [] ys k h = elim h [ ]
get_or-append_left (x ∷ xs) ys zero h = refl
get_or-append_left (x ∷ xs) ys (suc k) h = get_or-append_left xs ys k (omega arith)

pub get_or-append_right :
    (xs ys : List ℕ) (k : ℕ) → length xs ≤ k → get_or (xs ++ ys) k 0 ≡ get_or ys (k - length xs) 0
get_or-append_right [] ys k h = ap (λ n. get_or ys n 0) (omega arith)
get_or-append_right (x ∷ xs) ys zero h = absurd (omega (arith, h))
get_or-append_right (x ∷ xs) ys (suc k) h =
    get_or-append_right xs ys k (omega (arith, h)) ∙ ap (λ n. get_or ys n 0) (omega arith)

pub not_less : (a b : ℕ) → b ≤ a → ltb a b ≡ false
not_less a b le = ground arith

module _ (h : Handle) (laws : Laws h) (offset len : ℕ) (start : h.World) where
  open laws use {byte_at, position}

  abbrev pub Same : h.World → Type 0
  Same w = (k : ℕ) → byte_at w k ≡ byte_at start k

  -- The bytes are those of the file from `offset` on.
  abbrev pub IsPrefix : List ℕ → Type 0
  IsPrefix read = (k : ℕ) → k < length read → get_or read k 0 ≡ byte_at start (offset + k)

  pub data Read : Result (List ℕ) × h.World → Type 0 where
    all_read :
        (read : List ℕ) (w : h.World)
        → length read ≡ len
        → IsPrefix read
        → Same w
        → Read (ok read, w)
    failed : (e : Error) (w : h.World) → Same w → Read (err e, w)

  longer :
      (read bytes : List ℕ) (w : h.World)
      → IsPrefix read
      → Same w
      → ((k : ℕ) → k < length bytes → get_or bytes k 0 ≡ byte_at w (offset + length read + k))
      → IsPrefix (read ++ bytes)
  longer read bytes w good same more k lt = elim (Bool-cases (ltb k (length read))) [
    | inl e ↦
        let in_read = ltb→lt k (length read) e in
        get_or-append_left read bytes k in_read ∙ good k in_read
    | inr e ↦
        let past = ltb→le k (length read) e in
        get_or-append_right read bytes k past
        ∙ more (k - length read) (omega (arith, past, lt, length-append read bytes))
        ∙ ap (byte_at w) (omega (arith, past))
        ∙ same (offset + k)
  ]

  -- `short` is the error for a read of no byte.
  module _ (short : Error) where
    module _ (fuel : ℕ) (read : List ℕ) where
      -- The rest of a round, after `seek_read`.
      abbrev after : Error ⊎ List ℕ → h.World → Result (List ℕ) × h.World
      after (inl e) w = (err e, w)
      after (inr []) w = (err short, w)
      after (inr (b ∷ bytes)) w = read_loop h short fuel offset len (read ++ (b ∷ bytes)) w

      read_loop-round :
          (w : h.World) (a : Error ⊎ List ℕ)
          → (h.seek_read (len - length read) (offset + length read) w).0 ≡ a
          → ltb (length read) len ≡ true
          → leb (offset + length read) u64_max ≡ true
          → read_loop h short (suc fuel) offset len read w
            ≡ after a (h.seek_read (len - length read) (offset + length read) w).1
      unfolding read_loop
      read_loop-round w (inl e) k more fits = rw (more, fits, k, read_loop) refl
      read_loop-round w (inr []) k more fits = rw (more, fits, k, read_loop) refl
      read_loop-round w (inr (b ∷ bytes)) k more fits = rw (more, fits, k, read_loop) refl

    -- What a loop with this fuel does from any round on.
    abbrev pub Reads : ℕ → Type 0
    Reads fuel =
        (read : List ℕ) (w : h.World)
        → len ≤ length read + fuel
        → length read ≤ len
        → IsPrefix read
        → Same w
        → Read (read_loop h short fuel offset len read w)

    round-Read :
        (fuel : ℕ) (read : List ℕ) (w : h.World)
        → Reads fuel
        → len ≤ length read + suc fuel
        → length read ≤ len
        → IsPrefix read
        → Same w
        → (a : Error ⊎ List ℕ) → (h.seek_read (len - length read) (offset + length read) w).0 ≡ a
        → Read (after fuel read a (h.seek_read (len - length read) (offset + length read) w).1)
    round-Read fuel read w rest enough le good same (inl x) k =
        failed x _ (λ p. laws.read_bytes w _ _ p ∙ same p)
    round-Read fuel read w rest enough le good same (inr []) k =
        failed short _ (λ p. laws.read_bytes w _ _ p ∙ same p)
    round-Read fuel read w rest enough le good same (inr (b ∷ bytes)) k =
        let law = laws.read_law w (len - length read) (offset + length read) (b ∷ bytes) k in
        rest (read ++ (b ∷ bytes)) _ (omega (arith, enough, length-append read (b ∷ bytes)))
          (omega (arith, le, law.0, length-append read (b ∷ bytes)))
          (longer read (b ∷ bytes) w good same law.1) (λ p. laws.read_bytes w _ _ p ∙ same p)

    read_loop-stop :
        (fuel : ℕ) (read : List ℕ) (w : h.World)
        → ltb (length read) len ≡ false
        → read_loop h short fuel offset len read w ≡ (ok read, w)
    unfolding read_loop
    read_loop-stop zero read w e = rw (e, read_loop) refl
    read_loop-stop (suc fuel) read w e = rw (e, read_loop) refl

    read_loop-over :
        (fuel : ℕ) (read : List ℕ) (w : h.World)
        → ltb (length read) len ≡ true
        → leb (offset + length read) u64_max ≡ false
        → read_loop h short (suc fuel) offset len read w ≡ (err read_overflow, w)
    unfolding read_loop
    read_loop-over fuel read w more over = rw (more, over, read_loop) refl

    pub read_loop-Read : (fuel : ℕ) → Reads fuel
    read_loop-Read zero read w enough le good same =
        subst Read
          (sym (read_loop-stop zero read w (not_less (length read) len (omega (arith, enough)))))
          (all_read read w (omega (arith, enough, le)) good same)
    read_loop-Read (suc fuel) read w enough le good same =
        elim (Bool-cases (ltb (length read) len)) [
          | inr e ↦
              subst Read (sym (read_loop-stop (suc fuel) read w e))
                (all_read read w (omega (arith, ltb→le _ _ e, le)) good same)
          | inl e ↦ elim (Bool-cases (leb (offset + length read) u64_max)) [
            | inr over ↦
                subst Read (sym (read_loop-over fuel read w e over)) (failed read_overflow w same)
            | inl fits ↦
                subst Read (sym (read_loop-round fuel read w _ refl e fits))
                  (round-Read fuel read w (read_loop-Read fuel) enough le good same _ refl)
          ]
        ]
