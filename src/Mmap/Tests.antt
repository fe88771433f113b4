-- ===== src/Mmap/Tests.antt =====
-- Runs of the memory maps, after the tests of src/mmap.rs, with pages of four bytes.
use fastio.Prelude.{
  ℕ, ◌≡◌, ◌⊎◌, inr, refl, List, [], ◌∷◌, Option, none, some, take, drop, length, arith,
}
use fastio.Io.{
  Error, err, ok, unexpected_eof, range_exceeds_file_size, invalid_data, cannot_mmap_empty_file,
}
use fastio.Mmap.Whole.{Whole, map-Whole, subregion-map_range}
use fastio.Mmap.{MmapRegion, as_slice, subregion, Mapper, map, map_range, mmap_error}
use fastio.Mmap.Region.{IsValid, Subregion, subregion-Subregion}
use fastio.Mmap.Range.{Laws, Mapping, map_range-Mapping}

abbrev file : List ℕ
file = 10 ∷ 11 ∷ 12 ∷ 13 ∷ 14 ∷ 15 ∷ 16 ∷ []

abbrev map_part : List ℕ → ℕ → Option ℕ → Error ⊎ List ℕ
map_part bytes offset none = inr (drop offset bytes)
map_part bytes offset (some n) = inr (take n (drop offset bytes))

abbrev mapper : List ℕ → Mapper
mapper bytes = record { metadata_len = inr (length bytes); map_file = map_part bytes }

inr_inj : {A B : Type 0} {a b : B} → ◌≡◌ {A = A ⊎ B} (inr a) (inr b) → b ≡ a
inr_inj h = cc

mapper-Laws : Laws (mapper file) 4 file
mapper-Laws = record {
  addressable = omega arith;
  metadata_law = λ n h. inr_inj h;
  map_law = λ q n m h e. inr_inj e;
}

abbrev whole : MmapRegion
whole = record { inner = file; start = 1; len = 5 }

abbrev middle : MmapRegion
middle = record { inner = file; start = 3; len = 2 }

whole-IsValid : IsValid whole
whole-IsValid = record { inside = omega arith; addressable = omega arith }

map_whole : map (mapper file) ≡ ok (record { inner = file; start = 0; len = 7 })
unfolding map
map_whole = refl

map_empty : map (mapper []) ≡ err (mmap_error invalid_data cannot_mmap_empty_file)
unfolding map
map_empty = refl

map_range_inside :
    map_range (mapper file) 4 5 2 ≡ ok (record { inner = 14 ∷ 15 ∷ 16 ∷ []; start = 1; len = 2 })
unfolding map_range
map_range_inside = refl

subregion-Subregion_example : Subregion whole 2 2 (ok (some middle))
unfolding subregion
subregion-Subregion_example = subregion-Subregion whole 2 2 whole-IsValid

map_range-Mapping_example :
    Mapping (mapper file) file 5 2 (ok (record { inner = 14 ∷ 15 ∷ 16 ∷ []; start = 1; len = 2 }))
unfolding map_range
map_range-Mapping_example =
    map_range-Mapping (mapper file) 4 5 2 file mapper-Laws (omega arith) (omega arith)

map_range_beyond :
    map_range (mapper file) 4 6 2 ≡ err (mmap_error unexpected_eof range_exceeds_file_size)
unfolding map_range
map_range_beyond = refl

map-Whole_example : Whole (mapper file) file (map (mapper file))
map-Whole_example = map-Whole (mapper file) 4 file mapper-Laws (λ m h. inr_inj h)

-- Bytes three and four, through both ways.
abbrev in_file : MmapRegion
in_file = record { inner = file; start = 0; len = 7 }

abbrev in_whole : MmapRegion
in_whole = record { inner = file; start = 3; len = 2 }

abbrev in_pages : MmapRegion
in_pages = record { inner = 10 ∷ 11 ∷ 12 ∷ 13 ∷ 14 ∷ []; start = 3; len = 2 }

part_of_whole : subregion in_file 3 2 ≡ ok (some in_whole)
unfolding subregion
part_of_whole = refl

range_in_pages : map_range (mapper file) 4 3 2 ≡ ok in_pages
unfolding map_range
range_in_pages = refl

subregion-map_range_example : as_slice in_whole ≡ as_slice in_pages
subregion-map_range_example =
    subregion-map_range (mapper file) 4 file mapper-Laws (λ m h. inr_inj h) 3 2 in_file in_whole
      in_pages (omega arith) (omega arith) map_whole part_of_whole range_in_pages
