-- ===== src/Mmap.antt =====
-- Read-only memory maps (src/mmap.rs). A mapping is the list of its bytes.
pub mod Region
pub mod Range
pub mod Whole
pub mod Calls
mod Tests
use fastio.Prelude.{
  ℕ, ◌+◌, ◌-◌, ◌*◌, ◌/◌, ◌==◌, ltb, leb, if◌then◌else◌, ◌⊎◌, Bool, List, Option, none, some, length,
  take, drop,
}
use fastio.Io.{
  Error, ErrorKind, Message, invalid_input, invalid_data, unexpected_eof, file_too_large,
  cannot_mmap_empty_file, cannot_mmap_empty_range, range_end_overflow, range_exceeds_file_size,
  system_page_size_zero, mapping_length_overflow, out_of_range, Result, ok, err, panic, ◌>>=◌,
  ok_or, answer, u64_max, usize_max, checked_add, try_from,
}

pub record MmapRegion : Type 0 where
  pub inner : List ℕ
  pub start : ℕ
  pub len : ℕ

-- `MmapRegion::new`, with its debug assertion.
unfoldable pub new : List ℕ → ℕ → ℕ → Result MmapRegion
new inner start len = elim (checked_add usize_max start len) [
  | none ↦ panic
  | some end ↦
      if leb end (length inner)
      then ok (record { inner = inner; start = start; len = len })
      else panic
]

-- `Ok none` is the `None` of the source.
unfoldable pub subregion : MmapRegion → ℕ → ℕ → Result (Option MmapRegion)
unfolding new
subregion r offset len = elim (checked_add usize_max offset len) [
  | none ↦ ok none
  | some relative_end ↦
      if ltb r.len relative_end then ok none else elim (checked_add usize_max r.start offset) [
        | none ↦ ok none
        | some start ↦ new r.inner start len >>= λ s. ok (some s)
      ]
]

-- `&self.inner[self.start..self.start + self.len]`, which panics out of range.
unfoldable pub as_slice : MmapRegion → Result (List ℕ)
as_slice r =
    if leb (r.start + r.len) (length r.inner) then ok (take r.len (drop r.start r.inner)) else panic

unfoldable pub is_empty : MmapRegion → Bool
is_empty r = r.len == 0

-- What the file and `memmap2` answer: the length of the file, and a mapping from an offset on, of
-- the given length or to the end of the file.
pub record Mapper : Type 0 where
  pub metadata_len : Error ⊎ ℕ
  pub map_file : ℕ → Option ℕ → Error ⊎ List ℕ

abbrev pub mmap_error : ErrorKind → Message → Error
mmap_error k m = record { kind = k; message = m }

unfoldable pub map : Mapper → Result MmapRegion
unfolding new
map f = do
  len_u64 ← answer f.metadata_len
  len ← ok_or (try_from usize_max len_u64) (mmap_error invalid_input file_too_large)
  let mapped = answer (f.map_file 0 none) >>= λ inner. new inner 0 len
  if len == 0 then err (mmap_error invalid_data cannot_mmap_empty_file) else mapped

-- The part of `map_range` after the range is checked against the file.
unfoldable pub map_aligned : Mapper → ℕ → ℕ → ℕ → Result MmapRegion
unfolding new
map_aligned f page_size offset len = do
  let aligned_offset = offset / page_size * page_size
  start ←
      ok_or (try_from usize_max (offset - aligned_offset)) (mmap_error invalid_input out_of_range)
  map_len ←
      ok_or (checked_add usize_max len start) (mmap_error invalid_input mapping_length_overflow)
  inner ← answer (f.map_file aligned_offset (some map_len))
  new inner start len

unfoldable pub map_range : Mapper → ℕ → ℕ → ℕ → Result MmapRegion
unfolding map_aligned
map_range f page_size offset len =
    if len == 0 then err (mmap_error invalid_input cannot_mmap_empty_range) else (do
      len_u64 ← ok_or (try_from u64_max len) (mmap_error invalid_input out_of_range)
      end ← ok_or (checked_add u64_max offset len_u64) (mmap_error invalid_input range_end_overflow)
      file_len ← answer f.metadata_len
      if ltb file_len end
          then err (mmap_error unexpected_eof range_exceeds_file_size)
          else if page_size == 0
          then err (mmap_error invalid_input system_page_size_zero)
          else map_aligned f page_size offset len)
