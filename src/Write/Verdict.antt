-- ===== src/Write/Verdict.antt =====
-- `WriteSlices::new` decides whether a batch of slices is disjoint (src/write.rs).
use fastio.Prelude.{
  ℕ, ◌+◌, ◌≤◌, ◌<◌, ◌≡◌, ◌≢◌, ◌↔◌, ◌⊎◌, inl, inr, refl, List, [], ◌∷◌, length, All, AllPairs,
  Bool-cases, ◌==◌, ==→≡, ==→≢, leb, leb→le, leb→lt, if◌then◌else◌, max, arith,
}
use fastio.Io.{
  Message, Result, ok, err, write_slices_overlap, write_length_too_large, write_offset_overflow,
  u64_max,
}
use fastio.Write.{
  WriteSlice, WriteSlices, Range, end_offset, collect_ranges, sort_by_start, has_overlap, new,
  invalid,
}
use fastio.Write.Sorting.{Apart, IsFilled, has_overlap-sort}

-- The slice writes the byte at file offset `k`.
abbrev pub Covers : WriteSlice → ℕ → Type 0
Covers w k = (w.offset ≤ k) × (k < w.offset + length w.bytes)

-- No byte of the file is written by both slices.
abbrev pub IsDisjoint : WriteSlice → WriteSlice → Type 0
IsDisjoint w v = (k : ℕ) → ¬ (Covers w k × Covers v k)

-- The end of a slice with content is a `u64`.
abbrev pub Fits : WriteSlice → Type 0
Fits w = length w.bytes ≢ 0 → w.offset + length w.bytes ≤ u64_max

-- Why a slice does not fit, with the message that says so: its length alone is no `u64`, or its
-- length is one and its end is not.
pub data Fault (w : WriteSlice) : Message → Type 0 where
  too_long : u64_max < length w.bytes → Fault w write_length_too_large
  too_far :
      length w.bytes ≤ u64_max → u64_max < w.offset + length w.bytes → Fault w write_offset_overflow

-- The message is that of the first slice of the batch that does not fit.
pub data FirstFault : List WriteSlice → Message → Type 0 where
  at_once :
      (w : WriteSlice) (ws : List WriteSlice) (m : Message)
      → length w.bytes ≢ 0
      → Fault w m
      → FirstFault (w ∷ ws) m
  later :
      (w : WriteSlice) (ws : List WriteSlice) (m : Message)
      → Fits w
      → FirstFault ws m
      → FirstFault (w ∷ ws) m

-- What a constructor of a batch may answer on `ws`.
pub data Verdict (ws : List WriteSlice) : Result WriteSlices → Type 0 where
  accepted : All Fits ws → AllPairs IsDisjoint ws → Verdict ws (ok (record { as_slice = ws }))
  overflows : (m : Message) → FirstFault ws m → ¬ All Fits ws → Verdict ws (err (invalid m))
  overlaps :
      All Fits ws → ¬ AllPairs IsDisjoint ws → Verdict ws (err (invalid write_slices_overlap))

abbrev range : WriteSlice → Range
range w = record { start = w.offset; stop = w.offset + length w.bytes }

-- The ranges of the slices with content, in the order of the batch.
ranges : List WriteSlice → List Range
ranges [] = []
ranges (w ∷ ws) = if length w.bytes == 0 then ranges ws else range w ∷ ranges ws

-- `end_offset` is the end of the slice where that is a `u64`, and the error of the fault otherwise.
end_offset-cases :
    (w : WriteSlice)
    → ((w.offset + length w.bytes ≤ u64_max) × (end_offset w ≡ ok (w.offset + length w.bytes)))
      ⊎ ((m : Message) × Fault w m × (end_offset w ≡ err (invalid m)))
unfolding end_offset
end_offset-cases w = elim (Bool-cases (leb (length w.bytes) u64_max)) [
  | inl short ↦ elim (Bool-cases (leb (w.offset + length w.bytes) u64_max)) [
    | inl fits ↦ inl (leb→le _ _ fits, rw (short, fits))
    | inr over ↦
        inr (write_offset_overflow, too_far (leb→le _ _ short) (leb→lt _ _ over), rw (short, over))
  ]
  | inr long ↦ inr (write_length_too_large, too_long (leb→lt _ _ long), rw long)
]

Fault-over : (w : WriteSlice) (m : Message) → Fault w m → u64_max < w.offset + length w.bytes
Fault-over w _ (too_long h) = omega (arith, h)
Fault-over w _ (too_far h over) = over

FirstFault-unfit : (ws : List WriteSlice) (m : Message) → FirstFault ws m → ¬ All Fits ws
FirstFault-unfit _ m (at_once w ws _ filled fault) fit =
    let over = Fault-over w m fault in omega (arith, over, fit.0 filled)
FirstFault-unfit _ m (later w ws _ fits first) fit = FirstFault-unfit ws m first fit.1

-- The collection gives the ranges, or the error of the first slice that does not fit.
collect_ranges-cases :
    (ws : List WriteSlice)
    → (All Fits ws × (collect_ranges ws ≡ ok (ranges ws)))
      ⊎ ((m : Message) × FirstFault ws m × (collect_ranges ws ≡ err (invalid m)))
unfolding collect_ranges ranges
collect_ranges-cases [] = inl (tt, refl)
collect_ranges-cases (w ∷ ws) = elim (Bool-cases (length w.bytes == 0)) [
  | inl empty ↦
      let fits : Fits w = λ h. absurd (h (==→≡ _ _ empty)) in
      elim (collect_ranges-cases ws) [
        | inl (f, e) ↦ inl ((fits, f), rw (empty, e))
        | inr (m, f, e) ↦ inr (m, later w ws m fits f, rw (empty, e))
      ]
  | inr filled ↦ elim (end_offset-cases w) [
    | inl (fits, e) ↦ elim (collect_ranges-cases ws) [
      | inl (f, r) ↦ inl (((λ h. fits), f), rw (filled, e, r))
      | inr (m, f, r) ↦ inr (m, later w ws m (λ h. fits) f, rw (filled, e, r))
    ]
    | inr (m, fault, e) ↦ inr (m, at_once w ws m (==→≢ _ _ filled) fault, rw (filled, e))
  ]
]

ranges-IsFilled : (ws : List WriteSlice) → All IsFilled (ranges ws)
unfolding ranges
ranges-IsFilled [] = tt
ranges-IsFilled (w ∷ ws) = elim (Bool-cases (length w.bytes == 0)) [
  | inl empty ↦ rw empty (ranges-IsFilled ws)
  | inr filled ↦ let some_byte = ==→≢ _ _ filled in rw filled (omega arith, ranges-IsFilled ws)
]

empty-IsDisjoint :
    (w : WriteSlice) (ws : List WriteSlice) → length w.bytes ≡ 0 → All (IsDisjoint w) ws
empty-IsDisjoint w [] e = tt
empty-IsDisjoint w (v ∷ ws) e = ((λ k h. omega (arith, h.0)), empty-IsDisjoint w ws e)

-- Two slices with content share no byte exactly if their ranges lie apart.
Apart-IsDisjoint :
    (w v : WriteSlice)
    → length w.bytes ≢ 0
    → length v.bytes ≢ 0
    → Apart (range w) (range v) ↔ IsDisjoint w v
Apart-IsDisjoint w v p q = (
  λ a k h. omega (arith, h.0, h.1, a),
  λ d. elim (Bool-cases (leb (w.offset + length w.bytes) v.offset)) [
    | inl before ↦ inl (leb→le _ _ before)
    | inr late ↦ elim (Bool-cases (leb (v.offset + length v.bytes) w.offset)) [
      | inl after ↦ inr (leb→le _ _ after)
      | inr early ↦
          let l = leb→lt _ _ late in
          let e = leb→lt _ _ early in absurd (d (max w.offset v.offset) (omega arith))
    ]
  ],
)

All-ranges :
    (w : WriteSlice) (ws : List WriteSlice)
    → length w.bytes ≢ 0
    → All (Apart (range w)) (ranges ws) ↔ All (IsDisjoint w) ws
unfolding ranges
All-ranges w [] p = (λ h. h, λ h. h)
All-ranges w (v ∷ ws) p = elim (Bool-cases (length v.bytes == 0)) [
  | inl empty ↦
      let none_there = ==→≡ _ _ empty in
      rw empty (
        λ h. ((λ k c. omega (arith, c.1)), (All-ranges w ws p).0 h),
        λ h. (All-ranges w ws p).1 h.1,
      )
  | inr filled ↦
      let here = Apart-IsDisjoint w v p (==→≢ _ _ filled) in
      rw filled
        (λ h. (here.0 h.0, (All-ranges w ws p).0 h.1), λ h. (here.1 h.0, (All-ranges w ws p).1 h.1))
]

-- The ranges lie apart exactly if no byte is written by two slices of the batch.
AllPairs-ranges : (ws : List WriteSlice) → AllPairs Apart (ranges ws) ↔ AllPairs IsDisjoint ws
unfolding ranges
AllPairs-ranges [] = (λ h. h, λ h. h)
AllPairs-ranges (w ∷ ws) = elim (Bool-cases (length w.bytes == 0)) [
  | inl empty ↦ rw empty (
    λ h. (empty-IsDisjoint w ws (==→≡ _ _ empty), (AllPairs-ranges ws).0 h),
    λ h. (AllPairs-ranges ws).1 h.1,
  )
  | inr filled ↦
      let here = All-ranges w ws (==→≢ _ _ filled) in
      rw filled (
        λ h. (here.0 h.0, (AllPairs-ranges ws).0 h.1),
        λ h. (here.1 h.0, (AllPairs-ranges ws).1 h.1),
      )
]

-- For every list of slices: `new` returns the batch if every slice with content ends at a `u64`
-- and no byte of the file is written by two of them; if
-- some slice does not end at a `u64`, it answers with the error of the first such slice, which tells
-- a length that is no `u64` from an end that is none; and with the overlap error if all do and two
-- slices share a byte.
pub new-Verdict : (ws : List WriteSlice) → Verdict ws (new ws)
unfolding new
new-Verdict ws = elim (collect_ranges-cases ws) [
  | inr (m, f, e) ↦ rw e (overflows m f (FirstFault-unfit ws m f))
  | inl (f, e) ↦
      let decides = has_overlap-sort (ranges ws) (ranges-IsFilled ws) in
      elim (Bool-cases (has_overlap (sort_by_start (ranges ws)))) [
        | inl clash ↦
            rw (e, clash) (overlaps f (λ d. cc (clash, decides.1 ((AllPairs-ranges ws).1 d))))
        | inr apart ↦ rw (e, apart) (accepted f ((AllPairs-ranges ws).0 (decides.0 apart)))
      ]
]

-- A batch that was constructed has the slices that were given, and they are disjoint and fit.
pub new-eq-ok :
    (ws : List WriteSlice) (batch : WriteSlices)
    → new ws ≡ ok batch
    → (batch.as_slice ≡ ws) × All Fits ws × AllPairs IsDisjoint ws
new-eq-ok ws batch e = invert (new ws) (new-Verdict ws) e
  where
    invert :
        (r : Result WriteSlices)
        → Verdict ws r
        → r ≡ ok batch
        → (batch.as_slice ≡ ws) × All Fits ws × AllPairs IsDisjoint ws
    invert _ (accepted f d) e = (cc, f, d)
    invert _ (overflows m f unfit) e = cc
    invert _ (overlaps f d) e = cc
