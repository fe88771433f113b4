-- ===== src/Mmap/Range.antt =====
-- Mapping a range of a file (src/mmap.rs).
use fastio.Prelude.{
  ℕ, ◌+◌, ◌-◌, ◌*◌, ◌/◌, ◌≤◌, ◌<◌, ◌≡◌, ◌⊎◌, inl, inr, refl, ◌∙◌, ap, sym, leb, ltb, leb→le, leb→lt,
  ltb→lt, ltb→le, Bool-cases, ◌==◌, ==→≡, ==→≢, List, Option, some, length, take, drop, length-take,
  length-drop, arith, subst, if◌then◌else◌, if◌then◌else◌,
}
use fastio.Io.{
  Error, invalid_input, unexpected_eof, cannot_mmap_empty_range, range_end_overflow,
  range_exceeds_file_size, Result, ok, err, usize_max, u64_max, ◌>>=◌, answer,
}
use fastio.Mmap.{MmapRegion, new, as_slice, Mapper, map_range, map_aligned, mmap_error}
use fastio.Mmap.Region.{IsValid, new-ok, as_slice-ok, take-drop-take, drop-drop}

-- What the operating system promises of a file with these bytes: its length, and a mapping of a
-- part that starts at a page and lies in the file.
pub record Laws (f : Mapper) (page_size : ℕ) (file : List ℕ) : Type 0 where
  pub addressable : length file ≤ u64_max
  pub metadata_law : (n : ℕ) → f.metadata_len ≡ inr n → n ≡ length file
  pub map_law :
      (q n : ℕ) (m : List ℕ)
      → q * page_size + n ≤ length file
      → f.map_file (q * page_size) (some n) ≡ inr m
      → m ≡ take n (drop (q * page_size) file)

-- What `map_range` returns: the range of the file, or the fault of the range, or an error of the
-- operating system.
pub data Mapping (f : Mapper) (file : List ℕ) (offset len : ℕ) : Result MmapRegion → Type 0 where
  mapped :
      (r : MmapRegion)
      → 0 < len
      → offset + len ≤ length file
      → IsValid r
      → r.len ≡ len
      → as_slice r ≡ ok (take len (drop offset file))
      → Mapping f file offset len (ok r)
  empty :
      len ≡ 0 → Mapping f file offset len (err (mmap_error invalid_input cannot_mmap_empty_range))
  overflow :
      u64_max < offset + len
      → Mapping f file offset len (err (mmap_error invalid_input range_end_overflow))
  beyond :
      length file < offset + len
      → Mapping f file offset len (err (mmap_error unexpected_eof range_exceeds_file_size))
  refused :
      (e : Error)
      → (f.metadata_len ≡ inl e) ⊎ ((a : ℕ) × (n : Option ℕ) × (f.map_file a n ≡ inl e))
      → Mapping f file offset len (err e)

module _ (f : Mapper) (page_size offset len : ℕ) (file : List ℕ) (laws : Laws f page_size file)
    (some_page : 0 < page_size) (some_bytes : 0 < len) where
  abbrev page : ℕ
  page = offset / page_size * page_size

  abbrev skip : ℕ
  skip = offset - page

  -- The mapping of the pages, and the region in it.
  abbrev region : List ℕ → MmapRegion
  region inner = record { inner = inner; start = skip; len = len }

  module _ (fits : offset + len ≤ length file) where
    page_le : page ≤ offset
    page_le = omega (arith)

    map_aligned-eq :
        map_aligned f page_size offset len
        ≡ (answer (f.map_file page (some (len + skip))) >>= λ inner. new inner skip len)
    unfolding map_aligned
    map_aligned-eq = ground (arith, fits, laws.addressable, page_le)

    module _ (inner : List ℕ) (same : inner ≡ take (len + skip) (drop page file)) where
      length-inner : length inner ≡ len + skip
      length-inner =
          ap length same
          ∙ length-take (len + skip) (drop page file)
          ∙ omega (arith, length-drop page file, fits, page_le)

      region-IsValid : IsValid (region inner)
      region-IsValid = record {
        inside = omega (arith, length-inner);
        addressable = omega (arith, length-inner, fits, laws.addressable, page_le);
      }

      as_slice-region : as_slice (region inner) ≡ ok (take len (drop offset file))
      as_slice-region =
          as_slice-ok (region inner) region-IsValid
          ∙ ap (λ b. ok (take len (drop skip b))) same
          ∙ ap ok (
              take-drop-take len skip (len + skip) (drop page file) (omega arith)
              ∙ ap (take len) (drop-drop page skip file)
              ∙ ap (λ n. take len (drop n file)) {x = page + skip} (omega (arith, page_le)))

      new-Mapping : Mapping f file offset len (new inner skip len)
      new-Mapping =
          subst (Mapping f file offset len)
            (sym (new-ok inner skip len region-IsValid.inside region-IsValid.addressable))
            (mapped (region inner) some_bytes fits region-IsValid refl as_slice-region)

    aligned-Mapping : Mapping f file offset len (map_aligned f page_size offset len)
    aligned-Mapping = subst (Mapping f file offset len) (sym map_aligned-eq) (split _ refl)
      where
        split :
            (a : Error ⊎ List ℕ)
            → f.map_file page (some (len + skip)) ≡ a
            → Mapping f file offset len (answer a >>= λ inner. new inner skip len)
        split (inl e) h = refused e (inr (page, some (len + skip), h))
        split (inr inner) h =
            new-Mapping inner (
              laws.map_law (offset / page_size) (len + skip) inner (omega (arith, fits, page_le)) h)

module _ (f : Mapper) (page_size offset len : ℕ) (file : List ℕ) (laws : Laws f page_size file)
    (some_page : 0 < page_size) (word : len ≤ usize_max) where
  abbrev against_file : ℕ → Result MmapRegion
  against_file file_len =
      if ltb file_len (offset + len)
      then err (mmap_error unexpected_eof range_exceeds_file_size)
      else map_aligned f page_size offset len

  map_range-eq :
      0 < len
      → offset + len ≤ u64_max
      → map_range f page_size offset len ≡ (answer f.metadata_len >>= against_file)
  unfolding map_range
  map_range-eq pos sum = ground arith

  map_range-overflow :
      0 < len
      → u64_max < offset + len
      → map_range f page_size offset len ≡ err (mmap_error invalid_input range_end_overflow)
  unfolding map_range
  map_range-overflow pos sum = ground arith

  map_range-empty :
      len ≡ 0
      → map_range f page_size offset len ≡ err (mmap_error invalid_input cannot_mmap_empty_range)
  unfolding map_range
  map_range-empty e = ground arith

  against_file-Mapping : 0 < len → Mapping f file offset len (against_file (length file))
  against_file-Mapping pos = elim (Bool-cases (ltb (length file) (offset + len))) [
    | inl e ↦ rw e (beyond (ltb→lt _ _ e))
    | inr e ↦ rw e (aligned-Mapping f page_size offset len file laws some_page pos (ltb→le _ _ e))
  ]

  -- After the tests of the length and of the sum.
  checked-Mapping : 0 < len → Mapping f file offset len (answer f.metadata_len >>= against_file)
  checked-Mapping pos = split _ refl
    where
      split :
          (a : Error ⊎ ℕ)
          → f.metadata_len ≡ a
          → Mapping f file offset len (answer a >>= against_file)
      split (inl e) h = refused e (inl h)
      split (inr n) h =
          subst (λ k. Mapping f file offset len (against_file k)) (sym (laws.metadata_law n h))
            (against_file-Mapping pos)

  -- With the system's promises and a positive page size, `map_range` maps a non-empty range of the
  -- file to a valid region whose slice is the file's bytes in that range, and otherwise returns the
  -- error of the empty range, of the overflowing end, of the end beyond the file, or the system's.
  pub map_range-Mapping : Mapping f file offset len (map_range f page_size offset len)
  map_range-Mapping = elim (Bool-cases (len == 0)) [
    | inl e ↦
        let h = ==→≡ len 0 e in
        subst (Mapping f file offset len) (sym (map_range-empty h)) (empty h)
    | inr e ↦
        let pos : 0 < len = omega (arith, ==→≢ len 0 e) in
        elim (Bool-cases (leb (offset + len) u64_max)) [
          | inl k ↦
              subst (Mapping f file offset len) (sym (map_range-eq pos (leb→le _ _ k)))
                (checked-Mapping pos)
          | inr k ↦
              let h = leb→lt (offset + len) u64_max k in
              subst (Mapping f file offset len) (sym (map_range-overflow pos h)) (overflow h)
        ]
  ]
