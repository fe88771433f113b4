-- ===== src/Mmap/Region.antt =====
-- Regions and subregions of a mapping (src/mmap.rs).
use fastio.Prelude.{
  ℕ, zero, suc, ◌+◌, ◌≤◌, ◌<◌, ◌≡◌, inl, inr, refl, ◌∙◌, ap, sym, leb, leb→le, leb→lt, Bool-cases,
  List, [], ◌∷◌, Option, none, some, length, take, drop, arith, subst,
}
use fastio.Io.{Result, ok, ok_inj, usize_max}
use fastio.Mmap.{MmapRegion, new, subregion, as_slice}

-- The region lies in its mapping, and the mapping in memory.
pub record IsValid (r : MmapRegion) : Type 0 where
  pub inside : r.start + r.len ≤ length r.inner
  pub addressable : length r.inner ≤ usize_max

drop-nil : (n : ℕ) → drop {A = ℕ} n [] ≡ []
drop-nil zero = refl
drop-nil (suc n) = refl

pub drop-drop : (m n : ℕ) (xs : List ℕ) → drop n (drop m xs) ≡ drop (m + n) xs
drop-drop zero n xs = ap (λ k. drop k xs) (omega arith)
drop-drop (suc m) n [] = drop-nil n ∙ sym (drop-nil (suc m + n))
drop-drop (suc m) n (x ∷ xs) =
    drop-drop m n xs ∙ ap (λ k. drop k (x ∷ xs)) {x = suc (m + n)} (omega arith)

pub take-take : (n m : ℕ) (xs : List ℕ) → n ≤ m → take n (take m xs) ≡ take n xs
take-take zero m xs h = refl
take-take (suc n) zero xs h = absurd (omega (arith, h))
take-take (suc n) (suc m) [] h = refl
take-take (suc n) (suc m) (x ∷ xs) h = ap (x ∷◌) (take-take n m xs (omega (arith, h)))

pub take-drop-take :
    (n o m : ℕ) (xs : List ℕ) → o + n ≤ m → take n (drop o (take m xs)) ≡ take n (drop o xs)
take-drop-take n zero m xs h = take-take n m xs (omega (arith, h))
take-drop-take n (suc o) zero xs h = absurd (omega (arith, h))
take-drop-take n (suc o) (suc m) [] h = refl
take-drop-take n (suc o) (suc m) (x ∷ xs) h = take-drop-take n o m xs (omega (arith, h))

pub new-ok :
    (inner : List ℕ) (start len : ℕ)
    → start + len ≤ length inner
    → length inner ≤ usize_max
    → new inner start len ≡ ok (record { inner = inner; start = start; len = len })
unfolding new
new-ok inner start len h k = ground arith

pub as_slice-ok : (r : MmapRegion) → IsValid r → as_slice r ≡ ok (take r.len (drop r.start r.inner))
unfolding as_slice
as_slice-ok r v = ground arith

-- What `subregion` returns for a range inside the region and for one outside.
pub data Subregion (r : MmapRegion) (offset len : ℕ) : Result (Option MmapRegion) → Type 0 where
  inside :
      (s : MmapRegion)
      → offset + len ≤ r.len
      → IsValid s
      → s.len ≡ len
      → ((bytes : List ℕ) → as_slice r ≡ ok bytes → as_slice s ≡ ok (take len (drop offset bytes)))
      → Subregion r offset len (ok (some s))
  outside : r.len < offset + len → Subregion r offset len (ok none)

module _ (r : MmapRegion) (offset len : ℕ) (v : IsValid r) where
  abbrev part : MmapRegion
  part = record { inner = r.inner; start = r.start + offset; len = len }

  part-IsValid : offset + len ≤ r.len → IsValid part
  part-IsValid h = record { inside = omega (arith, h, v.inside); addressable = v.addressable }

  as_slice-part :
      offset + len ≤ r.len
      → (bytes : List ℕ) → as_slice r ≡ ok bytes
      → as_slice part ≡ ok (take len (drop offset bytes))
  as_slice-part h bytes e =
      as_slice-ok part (part-IsValid h)
      ∙ ap ok (
          sym (
            take-drop-take len offset r.len (drop r.start r.inner) h
            ∙ ap (take len) (drop-drop r.start offset r.inner)))
      ∙ ap (λ b. ok (take len (drop offset b))) (ok_inj (sym (as_slice-ok r v) ∙ e))

  subregion-in : offset + len ≤ r.len → subregion r offset len ≡ ok (some part)
  unfolding subregion
  subregion-in h =
      ground
        (arith, new-ok r.inner (r.start + offset) len (omega (arith, h, v.inside)) v.addressable)

  subregion-out : r.len < offset + len → subregion r offset len ≡ ok none
  unfolding subregion
  subregion-out h = ground arith

  -- A range inside a valid region gives a valid region whose slice is that range of the slice, any
  -- other range gives `None`, and `subregion` never panics.
  pub subregion-Subregion : Subregion r offset len (subregion r offset len)
  subregion-Subregion = elim (Bool-cases (leb (offset + len) r.len)) [
    | inl e ↦
        let h = leb→le (offset + len) r.len e in
        subst (Subregion r offset len) (sym (subregion-in h))
          (inside part h (part-IsValid h) refl (as_slice-part h))
    | inr e ↦
        let h = leb→lt (offset + len) r.len e in
        subst (Subregion r offset len) (sym (subregion-out h)) (outside h)
  ]
