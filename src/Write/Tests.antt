-- ===== src/Write/Tests.antt =====
-- Runs of the validation, after the tests of src/write.rs.
use fastio.Prelude.{◌≡◌, refl, List, [], ◌∷◌}
use fastio.Io.{ok, err, write_slices_overlap, write_offset_overflow, u64_max}
use fastio.Write.{WriteSlice, new, new_slice, invalid}
use fastio.Write.Verdict.{Verdict, new-Verdict}
use fastio.Write.Accepts.{new-Perm}
use mathlib.Core.List.{Permᴰ}

abbrev tail_first : List WriteSlice
unfolding new_slice
tail_first = new_slice 10 (1 ∷ 2 ∷ []) ∷ new_slice 0 (3 ∷ 4 ∷ []) ∷ new_slice 1 [] ∷ []

abbrev clashing : List WriteSlice
unfolding new_slice
clashing = new_slice 0 (1 ∷ 2 ∷ 3 ∷ []) ∷ new_slice 2 (4 ∷ []) ∷ []

abbrev too_far : List WriteSlice
unfolding new_slice
too_far = new_slice u64_max (1 ∷ []) ∷ []

unsorted_accepted : new tail_first ≡ ok (record { as_slice = tail_first })
unfolding new new_slice
unsorted_accepted = refl

overlap_refused : new clashing ≡ err (invalid write_slices_overlap)
unfolding new new_slice
overlap_refused = refl

overflow_refused : new too_far ≡ err (invalid write_offset_overflow)
unfolding new new_slice
overflow_refused = refl

new-Verdict_example : Verdict clashing (err (invalid write_slices_overlap))
unfolding new new_slice
new-Verdict_example = new-Verdict clashing

-- The same slices in another order.
abbrev front_first : List WriteSlice
unfolding new_slice
front_first = new_slice 0 (3 ∷ 4 ∷ []) ∷ new_slice 10 (1 ∷ 2 ∷ []) ∷ new_slice 1 [] ∷ []

new-Perm_example : new front_first ≡ ok (record { as_slice = front_first })
unfolding new_slice
new-Perm_example =
    new-Perm tail_first front_first (record { as_slice = tail_first }) ∣ Permᴰ.swap refl refl ∣₁
      unsorted_accepted
