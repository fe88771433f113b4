-- ===== src/Write.antt =====
-- Positioned write slices and validated batches of them (src/write.rs). `data` is a reserved word,
-- so the field `data` of a slice is `bytes` here.
pub mod Sorting
pub mod Verdict
pub mod Unordered
pub mod Accepts
mod Tests
use fastio.Prelude.{
  ℕ, ◌+◌, Bool, true, false, ◌||◌, ltb, ◌==◌, if◌then◌else◌, List, [], ◌∷◌, length,
}
use fastio.Io.{
  Error, Message, invalid_input, write_offset_overflow, write_slices_overlap,
  write_length_too_large, Result, ok, err, ◌>>=◌, ok_or, u64_max, checked_add, try_from,
}

pub record WriteSlice : Type 0 where
  pub offset : ℕ
  pub bytes : List ℕ

unfoldable pub new_slice : ℕ → List ℕ → WriteSlice
new_slice offset bytes = record { offset = offset; bytes = bytes }

abbrev pub invalid : Message → Error
invalid m = record { kind = invalid_input; message = m }

pub end_offset : WriteSlice → Result ℕ
end_offset w = do
  len ← ok_or (try_from u64_max (length w.bytes)) (invalid write_length_too_large)
  ok_or (checked_add u64_max w.offset len) (invalid write_offset_overflow)

-- A pair `(offset, end)` of the vector `sorted`.
pub record Range : Type 0 where
  pub start : ℕ
  pub stop : ℕ

abbrev pub is_empty_slice : WriteSlice → Bool
is_empty_slice w = length w.bytes == 0

-- `.iter().filter(..).map(..).collect::<IoResult<_>>()`: the first error ends the collection.
pub collect_ranges : List WriteSlice → Result (List Range)
unfolding end_offset
collect_ranges [] = ok []
collect_ranges (w ∷ ws) =
    let rest = collect_ranges ws in
    let with_range = (do
      end ← end_offset w
      more ← rest
      ok (record { start = w.offset; stop = end } ∷ more)) in
    if is_empty_slice w then rest else with_range

-- `sort_unstable_by_key(|&(start, _)| start)`, as an insertion sort.
pub insert_by_start : Range → List Range → List Range
insert_by_start r [] = r ∷ []
insert_by_start r (q ∷ qs) = if ltb q.start r.start then q ∷ insert_by_start r qs else r ∷ q ∷ qs

pub sort_by_start : List Range → List Range
unfolding insert_by_start
sort_by_start [] = []
sort_by_start (r ∷ rs) = insert_by_start r (sort_by_start rs)

-- Whether some `windows(2)` pair of the list has `pair[0].1 > pair[1].0`.
pub has_overlap : List Range → Bool
has_overlap [] = false
has_overlap (r ∷ []) = false
has_overlap (r ∷ q ∷ rs) = ltb q.start r.stop || has_overlap (q ∷ rs)

pub record WriteSlices : Type 0 where
  pub as_slice : List WriteSlice

unfoldable pub new : List WriteSlice → Result WriteSlices
unfolding collect_ranges sort_by_start has_overlap
new slices = do
  ranges ← collect_ranges slices
  if has_overlap (sort_by_start ranges)
      then err (invalid write_slices_overlap)
      else ok (record { as_slice = slices })

pub len : WriteSlices → ℕ
len ws = length ws.as_slice

pub is_empty : WriteSlices → Bool
is_empty ws = length ws.as_slice == 0
