-- ===== src/Uring/Loop/Submit.antt =====
-- The `for` loop that submits requests keeps the invariant and asks for no byte outside of its
-- chunk (src/uring.rs).
use fastio.Prelude.{
  ℕ, ◌+◌, ◌-◌, ◌<◌, ◌≡◌, ◌∙◌, ap, sym, min, List, ◌∷◌, some, get_elem?, set, length-set,
  get_elem?-set, arith,
}
use fastio.Uring.Ring.{Ring, Entry, source, target}
use fastio.Uring.Loop.{Plan, Vars, idle, in_flight, done, max_io_len}
use fastio.Uring.Loop.Invariant.{PlanLaws, so_far, IsOpen, Inv}

module _ (r : Ring) (plan : Plan) (depth : ℕ) (l : PlanLaws plan) where
  open plan use {count, chunk_len}

  -- The branch `remaining == 0`.
  pub mark_done-Inv :
      (p : List Entry) (v : Vars r) (idx : ℕ)
      → idx < count
      → get_elem? v.state idx ≡ some idle
      → so_far r v idx ≡ chunk_len idx
      → Inv r plan depth l p v
      → Inv r plan depth l p (record v { state = set v.state idx done })
  mark_done-Inv p v idx h free full i = record {
    size_done = i.size_done;
    size_state = length-set v.state idx done ∙ i.size_state;
    counted = i.counted;
    deep = i.deep;
    single = λ j. ground (arith, i.single j, get_elem?-set v.state idx j done (omega arith));
    bounded = i.bounded;
    finished = λ j e. ground (arith, i.finished j, get_elem?-set v.state idx j done (omega arith));
    open_all = i.open_all;
  }

  -- The request that the loop makes for chunk `idx`.
  pub record Asks (v : Vars r) (idx : ℕ) (e : Entry) : Type 0 where
    pub numbered : e.user_data ≡ idx
    pub sized : e.len ≡ min (chunk_len idx - so_far r v idx) max_io_len
    pub reads : (k : ℕ) → source e k ≡ l.from idx (so_far r v idx + k)
    pub writes : (k : ℕ) → target e k ≡ l.to idx (so_far r v idx + k)

  Asks-IsOpen :
      (v : Vars r) (idx : ℕ) (e : Entry)
      → idx < count
      → so_far r v idx < chunk_len idx
      → Asks v idx e
      → IsOpen r plan depth l (so_far r v e.user_data) e
  Asks-IsOpen v idx e h more a =
      let same = a.numbered in
      let size = a.sized in
      record {
        in_range = rw same h;
        asks = omega arith;
        capped = omega arith;
        fits = ground (arith, same, size);
        reads = λ k. a.reads k ∙ ap (λ i. l.from i (so_far r v i + k)) (sym same);
        writes = λ k. a.writes k ∙ ap (λ i. l.to i (so_far r v i + k)) (sym same);
      }

  -- The branch that pushes a request.
  pub push-Inv :
      (p : List Entry) (v : Vars r) (idx : ℕ) (e : Entry) (w : r.World)
      → idx < count
      → get_elem? v.state idx ≡ some idle
      → so_far r v idx < chunk_len idx
      → v.flying < depth
      → Asks v idx e
      → Inv r plan depth l p v
      → Inv r plan depth l
          (e ∷ p)
          (record v { state = set v.state idx in_flight; flying = v.flying + 1; world = w })
  push-Inv p v idx e w h free more deep a i = record {
    size_done = i.size_done;
    size_state = length-set v.state idx in_flight ∙ i.size_state;
    counted = omega (arith, i.counted);
    deep = omega arith;
    single = λ j.
        ground (arith, a.numbered, i.single j, get_elem?-set v.state idx j in_flight (omega arith));
    bounded = i.bounded;
    finished =
        λ j e. ground (arith, i.finished j, get_elem?-set v.state idx j in_flight (omega arith));
    open_all = (Asks-IsOpen v idx e h more a, i.open_all);
  }
