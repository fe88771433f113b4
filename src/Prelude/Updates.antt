-- ===== src/Prelude/Updates.antt =====
-- Reads after a write, in the form of a test of the two indices.
use Prim.Native.Nat.{ℕ, ◌<◌}
use mathlib.Core.Path.{◌≡◌}
use mathlib.Core.Logic.{inl, inr}
use mathlib.Core.List.{List}
use mathlib.Core.Option.{some}
use fastio.Prelude.Tests.{◌==◌, if◌then◌else◌, Bool-cases, ==→≡, ==→≢}
use fastio.Prelude.Lists.{
  length, get_elem?, get_or, set, get_elem?-set_self, get_elem?-set_ne, get_or-set_self,
  get_or-set_ne,
}

module _ {ℓ} {A : Type ℓ} (xs : List A) (i j : ℕ) (v : A) (h : i < length xs) where
  pub get_elem?-set : get_elem? (set xs i v) j ≡ (if i == j then some v else get_elem? xs j)
  get_elem?-set = elim (Bool-cases (i == j)) [
    | inl e ↦ rw (e, ← ==→≡ i j e) (get_elem?-set_self xs i v h)
    | inr e ↦ rw e (get_elem?-set_ne xs i j v (==→≢ i j e))
  ]

  pub get_or-set : (d : A) → get_or (set xs i v) j d ≡ (if i == j then v else get_or xs j d)
  get_or-set d = elim (Bool-cases (i == j)) [
    | inl e ↦ rw (e, ← ==→≡ i j e) (get_or-set_self xs i v d h)
    | inr e ↦ rw e (get_or-set_ne xs i j v d (==→≢ i j e))
  ]
