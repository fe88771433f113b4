-- ===== src/Buffer/Tests.antt =====
-- Views of concrete buffers, after the tests of src/buffer.rs.
use fastio.Prelude.{
  ℕ, ◌+◌, ◌≡◌, refl, ap, ◌∙◌, List, [], ◌∷◌, length, replicate, length-replicate, none, arith,
}
use fastio.Samples.{free_list, free_list_laws}
use fastio.Io.{Result, ok}
use fastio.Buffer.{Bytes, from_mmap, as_mut_slice, allocate, from_vec}
use fastio.Buffer.Allocation.{Allocated, fills, allocate-Allocated}
use fastio.Buffer.View.{View, Bytes-View}

abbrev mapped_bytes : Bytes free_list
mapped_bytes = from_mmap free_list (record { inner = 7 ∷ 8 ∷ 9 ∷ []; start = 1; len = 2 })

mapped_is_immutable : as_mut_slice free_list mapped_bytes ≡ none
unfolding as_mut_slice
mapped_is_immutable = refl

-- A read of no byte does not touch the pool.
empty_allocation :
    allocate free_list {World = ℕ} 0 (λ slice w. (ok slice, w)) 5 7
    ≡ (ok (from_vec free_list []), 5, 7)
unfolding allocate
empty_allocation = refl

Bytes-View_example : View free_list free_list_laws mapped_bytes
Bytes-View_example =
    Bytes-View free_list free_list_laws mapped_bytes
      (record { inside = omega arith; addressable = omega arith })

-- A closure that fills its slice with sevens, and counts its runs in the world.
abbrev sevens : List ℕ → ℕ → Result (List ℕ) × ℕ
sevens slice w = (ok (replicate (length slice) 7), w + 1)

allocate-Allocated_example :
    Allocated free_list free_list_laws {World = ℕ}
      (λ bytes w. bytes ≡ replicate 3 7)
      (λ e w. ⊥)
      3
      5
      0
      (allocate free_list 3 sevens 5 0)
allocate-Allocated_example =
    allocate-Allocated free_list free_list_laws (λ bytes w. bytes ≡ replicate 3 7) (λ e w. ⊥) 3 5 0
      sevens
      (λ slice e.
        fills (replicate (length slice) 7) 1 (length-replicate (length slice) 7 ∙ e)
          (ap (λ n. replicate n 7) e))
