-- ===== src/Write/Sorting.antt =====
-- The sort of the ranges, and the test of neighbours in the sorted list (src/write.rs).
use fastio.Prelude.{
  ◌≤◌, ◌<◌, ◌≡◌, ◌↔◌, ◌⊎◌, inl, inr, false, refl, List, [], ◌∷◌, All, AllPairs, All-map, ltb,
  Bool-cases, ltb→lt, ltb→le, arith,
}
use fastio.Write.{Range, insert_by_start, sort_by_start, has_overlap}

abbrev pub Apart : Range → Range → Type 0
Apart r q = (r.stop ≤ q.start) ⊎ (q.stop ≤ r.start)

abbrev pub IsFilled : Range → Type 0
IsFilled r = r.start < r.stop

abbrev Before : Range → Range → Type 0
Before r q = r.start ≤ q.start

Apart-symm : (r q : Range) → Apart r q → Apart q r
Apart-symm r q h = omega arith

All-insert {ℓ} :
    (P : Range → Type ℓ) (r : Range) (qs : List Range)
    → All P (insert_by_start r qs) ↔ (P r × All P qs)
unfolding insert_by_start
All-insert P r [] = (λ h. h, λ h. h)
All-insert P r (q ∷ qs) = elim (Bool-cases (ltb q.start r.start)) [
  | inl e ↦ rw e (
    λ h. let k = (All-insert P r qs).0 h.1 in (k.0, (h.0, k.1)),
    λ h. (h.1.0, (All-insert P r qs).1 (h.0, h.1.1)),
  )
  | inr e ↦ rw e (λ h. h, λ h. h)
]

pub All-sort {ℓ} : (P : Range → Type ℓ) (rs : List Range) → All P (sort_by_start rs) ↔ All P rs
unfolding sort_by_start
All-sort P [] = (λ h. h, λ h. h)
All-sort P (r ∷ rs) = (
  λ h. let k = (All-insert P r (sort_by_start rs)).0 h in (k.0, (All-sort P rs).0 k.1),
  λ h. (All-insert P r (sort_by_start rs)).1 (h.0, (All-sort P rs).1 h.1),
)

AllPairs-insert :
    (r : Range) (qs : List Range)
    → AllPairs Apart (insert_by_start r qs) ↔ (All (Apart r) qs × AllPairs Apart qs)
unfolding insert_by_start
AllPairs-insert r [] = (λ h. h, λ h. h)
AllPairs-insert r (q ∷ qs) = elim (Bool-cases (ltb q.start r.start)) [
  | inl e ↦ rw e (
    λ h.
        let first = (All-insert (Apart q) r qs).0 h.0 in
        let rest = (AllPairs-insert r qs).0 h.1 in
        ((Apart-symm q r first.0, rest.0), (first.1, rest.1)),
    λ h. (
      (All-insert (Apart q) r qs).1 (Apart-symm r q h.0.0, h.1.0),
      (AllPairs-insert r qs).1 (h.0.1, h.1.1),
    ),
  )
  | inr e ↦ rw e (λ h. h, λ h. h)
]

-- Sorting keeps whether the ranges lie apart, in both directions.
pub AllPairs-sort : (rs : List Range) → AllPairs Apart (sort_by_start rs) ↔ AllPairs Apart rs
unfolding sort_by_start
AllPairs-sort [] = (λ h. h, λ h. h)
AllPairs-sort (r ∷ rs) = (
  λ h.
      let k = (AllPairs-insert r (sort_by_start rs)).0 h in
      ((All-sort (Apart r) rs).0 k.0, (AllPairs-sort rs).0 k.1),
  λ h.
      (AllPairs-insert r (sort_by_start rs)).1
        ((All-sort (Apart r) rs).1 h.0, (AllPairs-sort rs).1 h.1),
)

insert-Before :
    (r : Range) (qs : List Range) → AllPairs Before qs → AllPairs Before (insert_by_start r qs)
unfolding insert_by_start
insert-Before r [] h = (tt, tt)
insert-Before r (q ∷ qs) h = elim (Bool-cases (ltb q.start r.start)) [
  | inl e ↦
      let lt = ltb→lt _ _ e in
      rw e ((All-insert (Before q) r qs).1 (omega arith, h.0), insert-Before r qs h.1)
  | inr e ↦
      let le = ltb→le _ _ e in
      rw e ((le, All-map (Before q) (Before r) qs (λ x b. omega arith) h.0), h)
]

-- The sorted list is in order of the starts.
pub sort-Before : (rs : List Range) → AllPairs Before (sort_by_start rs)
unfolding sort_by_start
sort-Before [] = tt
sort-Before (r ∷ rs) = insert-Before r (sort_by_start rs) (sort-Before rs)

-- In a list in order of the starts it is enough to test neighbours.
Apart-of-has_overlap :
    (rs : List Range) → AllPairs Before rs → has_overlap rs ≡ false → AllPairs Apart rs
unfolding has_overlap
Apart-of-has_overlap [] h e = tt
Apart-of-has_overlap (r ∷ []) h e = (tt, tt)
Apart-of-has_overlap (r ∷ q ∷ rs) h e =
    let next : r.stop ≤ q.start = ground arith in
    let rest = Apart-of-has_overlap (q ∷ rs) h.1 (ground arith) in
    ((inl next, All-map (Before q) (Apart r) rs (λ x b. inl (omega arith)) h.1.0), rest)

has_overlap-of-Apart :
    (rs : List Range)
    → AllPairs Before rs
    → All IsFilled rs
    → AllPairs Apart rs
    → has_overlap rs ≡ false
unfolding has_overlap
has_overlap-of-Apart [] h f a = refl
has_overlap-of-Apart (r ∷ []) h f a = refl
has_overlap-of-Apart (r ∷ q ∷ rs) h f a =
    let rest = has_overlap-of-Apart (q ∷ rs) h.1 f.1 a.1 in
    let next : r.stop ≤ q.start = omega (arith, h.0.0, f.0, f.1.0, a.0.0) in ground arith

-- After the sort, the test of neighbours decides whether filled ranges lie apart.
pub has_overlap-sort :
    (rs : List Range)
    → All IsFilled rs
    → (has_overlap (sort_by_start rs) ≡ false) ↔ AllPairs Apart rs
has_overlap-sort rs f = (
  λ e. (AllPairs-sort rs).0 (Apart-of-has_overlap (sort_by_start rs) (sort-Before rs) e),
  λ a.
      has_overlap-of-Apart (sort_by_start rs) (sort-Before rs) ((All-sort IsFilled rs).1 f)
        ((AllPairs-sort rs).1 a),
)
