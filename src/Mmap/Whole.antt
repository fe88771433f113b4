-- ===== src/Mmap/Whole.antt =====
-- Mapping a whole file, and its parts (src/mmap.rs).
use fastio.Prelude.{
  ℕ, ◌≤◌, ◌<◌, ◌≡◌, ◌⊎◌, inl, inr, refl, ◌∙◌, ap, sym, subst, ◌==◌, ==→≡, ==→≢, Bool-cases, List,
  [], ◌∷◌, Option, none, some, length, take, drop, if◌then◌else◌, arith,
}
use fastio.Io.{
  Error, invalid_data, cannot_mmap_empty_file, Result, ok, err, ok_inj, usize_max, ◌>>=◌, answer,
}
use fastio.Mmap.{MmapRegion, new, subregion, as_slice, Mapper, map, map_range, mmap_error}
use fastio.Mmap.Region.{
  IsValid, new-ok, as_slice-ok, Subregion, inside, outside, subregion-Subregion,
}
use fastio.Mmap.Range.{Laws, Mapping, mapped, empty, overflow, beyond, refused, map_range-Mapping}

take-length : (xs : List ℕ) → take (length xs) xs ≡ xs
take-length [] = refl
take-length (x ∷ xs) = ap (x ∷◌) (take-length xs)

-- What `map` returns: the whole file, or the fault of an empty file, or an error of the operating
-- system.
pub data Whole (f : Mapper) (file : List ℕ) : Result MmapRegion → Type 0 where
  whole :
      (r : MmapRegion)
      → 0 < length file
      → IsValid r
      → r.len ≡ length file
      → as_slice r ≡ ok file
      → Whole f file (ok r)
  nothing : length file ≡ 0 → Whole f file (err (mmap_error invalid_data cannot_mmap_empty_file))
  denied :
      (e : Error) → (f.metadata_len ≡ inl e) ⊎ (f.map_file 0 none ≡ inl e) → Whole f file (err e)

-- `whole_law` is what the system promises of a mapping without a length.
module _ (f : Mapper) (page_size : ℕ) (file : List ℕ) (laws : Laws f page_size file)
    (whole_law : (m : List ℕ) → f.map_file 0 none ≡ inr m → m ≡ file) where
  abbrev region : MmapRegion
  region = record { inner = file; start = 0; len = length file }

  region-IsValid : IsValid region
  region-IsValid = record { inside = omega arith; addressable = omega (arith, laws.addressable) }

  new-Whole : 0 < length file → Whole f file (new file 0 (length file))
  new-Whole pos =
      subst (Whole f file)
        (sym (new-ok file 0 (length file) region-IsValid.inside region-IsValid.addressable))
        (whole region pos region-IsValid refl
          (as_slice-ok region region-IsValid ∙ ap ok (take-length file)))

  mapped-Whole :
      0 < length file
      → (a : Error ⊎ List ℕ) → f.map_file 0 none ≡ a
      → Whole f file (answer a >>= λ inner. new inner 0 (length file))
  mapped-Whole pos (inl e) h = denied e (inr h)
  mapped-Whole pos (inr inner) h =
      subst (λ bytes. Whole f file (new bytes 0 (length file))) (sym (whole_law inner h))
        (new-Whole pos)

  map-unknown : (e : Error) → f.metadata_len ≡ inl e → map f ≡ err e
  unfolding map
  map-unknown e h = ground (arith, h)

  map-eq :
      (n : ℕ)
      → f.metadata_len ≡ inr n
      → n ≤ usize_max
      → map f ≡ (
          if n == 0
          then err (mmap_error invalid_data cannot_mmap_empty_file)
          else (answer (f.map_file 0 none) >>= λ inner. new inner 0 n))
  unfolding map
  map-eq n h fits = ground (arith, h)

  -- With the system's promises, `map` maps a file that is not empty to a valid region whose slice is
  -- the whole file, and otherwise returns the error of the empty file or the system's. It never
  -- panics, and never finds the file too large.
  pub map-Whole : Whole f file (map f)
  map-Whole = by_len f.metadata_len refl
    where
      by_len : (a : Error ⊎ ℕ) → f.metadata_len ≡ a → Whole f file (map f)
      by_len (inl e) h = subst (Whole f file) (sym (map-unknown e h)) (denied e (inl h))
      by_len (inr n) h =
          let same = laws.metadata_law n h in
          let fits = laws.addressable in
          subst (Whole f file) (sym (map-eq n h (omega (arith, same, fits))))
            (elim (Bool-cases (n == 0)) [
              | inl e ↦ rw e (nothing (omega (arith, same, ==→≡ n 0 e)))
              | inr e ↦
                  rw (e, same)
                    (mapped-Whole (omega (arith, same, ==→≢ n 0 e)) (f.map_file 0 none) refl)
            ])

  Whole-slice :
      (res : Result MmapRegion)
      → Whole f file res
      → (r : MmapRegion) → res ≡ ok r
      → IsValid r × (as_slice r ≡ ok file)
  Whole-slice _ (whole r pos valid full view) r' e =
      subst (λ x. IsValid x × (as_slice x ≡ ok file)) (ok_inj e) (valid, view)
  Whole-slice _ (nothing h) r' e = cc e
  Whole-slice _ (denied x h) r' e = cc e

  Mapping-slice :
      (offset len : ℕ) (res : Result MmapRegion)
      → Mapping f file offset len res
      → (u : MmapRegion) → res ≡ ok u
      → as_slice u ≡ ok (take len (drop offset file))
  Mapping-slice offset len _ (mapped r pos fits valid full view) u e =
      ap as_slice (sym (ok_inj e)) ∙ view
  Mapping-slice offset len _ (empty h) u e = cc e
  Mapping-slice offset len _ (overflow h) u e = cc e
  Mapping-slice offset len _ (beyond h) u e = cc e
  Mapping-slice offset len _ (refused x h) u e = cc e

  some_inj :
      {t u : MmapRegion} → ◌≡◌ {A = Result (Option MmapRegion)} (ok (some t)) (ok (some u)) → t ≡ u
  some_inj e = cc

  Subregion-slice :
      (r : MmapRegion) (offset len : ℕ) (res : Result (Option MmapRegion))
      → Subregion r offset len res
      → as_slice r ≡ ok file
      → (t : MmapRegion) → res ≡ ok (some t)
      → as_slice t ≡ ok (take len (drop offset file))
  Subregion-slice r offset len _ (inside s fits valid full view) whole_view t e =
      ap as_slice (sym (some_inj e)) ∙ view file whole_view
  Subregion-slice r offset len _ (outside h) whole_view t e = cc e

  -- With the system's promises and a positive page size: a range of the map of the whole file and
  -- the map of the same range have the same bytes, when both are there.
  pub subregion-map_range :
      (offset len : ℕ) (r t u : MmapRegion)
      → 0 < page_size
      → len ≤ usize_max
      → map f ≡ ok r
      → subregion r offset len ≡ ok (some t)
      → map_range f page_size offset len ≡ ok u
      → as_slice t ≡ as_slice u
  subregion-map_range offset len r t u some_page word all part range =
      let (valid, view) = Whole-slice (map f) map-Whole r all in
      Subregion-slice r offset len _ (subregion-Subregion r offset len valid) view t part
      ∙ sym (
          Mapping-slice offset len _
            (map_range-Mapping f page_size offset len file laws some_page word) u range)
