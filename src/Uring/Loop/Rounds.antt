-- ===== src/Uring/Loop/Rounds.antt =====
-- Bounds that hold after any rounds of the submission loop (src/uring.rs).
use fastio.Prelude.{
  ℕ, ◌+◌, ◌≤◌, ◌<◌, ◌≡◌, refl, ◌∙◌, sym, subst, [], length, some, All, All-map, arith,
}
use fastio.Io.{u32_max}
use fastio.Uring.Ring.{Ring, Entry, Laws}
use fastio.Uring.Loop.{Plan, Vars, Flow, leave, init, submit_from, wait_and_reap}
use fastio.Uring.Loop.Invariant.{PlanLaws, so_far}
use fastio.Uring.Loop.Pass.{Pass, ends, submit_from-Pass}
use fastio.Uring.Loop.Bytes.{Separate, Holds, wait_and_reap-Waits}
use fastio.Uring.Loop.Start.{init-Holds}
use fastio.Uring.Loop.Drive.{Holds-Sent}

module _ (r : Ring) (plan : Plan) (depth : ℕ) (l : PlanLaws plan) (laws : Laws r)
    (s : Separate plan l) (start : r.World) where
  open plan use {count, chunk_len}
  open laws use {pending, byte_at}

  -- The variables that the loop reaches: a round submits, and then waits and takes completions.
  pub data Reached : Vars r → Type 0 where
    begins : Reached (init r plan depth start)
    submits :
        (v v' : Vars r) → Reached v → submit_from r plan depth count 0 v ≡ leave v' → Reached v'
    reaps : (v v' : Vars r) → Reached v → wait_and_reap r plan depth v ≡ some v' → Reached v'

  -- A request that asks for bytes of its chunk that are still missing, as many as fit an `u32`.
  pub record IsBounded (v : Vars r) (e : Entry) : Type 0 where
    pub in_range : e.user_data < count
    pub some_byte : 0 < e.len
    pub capped : e.len ≤ u32_max
    pub in_chunk : so_far r v e.user_data + e.len ≤ chunk_len e.user_data

  abbrev wanted : ℕ → ℕ → ℕ
  wanted i k = byte_at start (l.from i k)

  left_by : (u v : Vars r) → ◌≡◌ {A = Flow r} (leave u) (leave v) → u ≡ v
  left_by u v e = cc e

  taken : (u v : Vars r) → some u ≡ some v → u ≡ v
  taken u v e = cc e

  Reached-Holds :
      pending start ≡ []
      → depth ≤ r.sq_entries start
      → (v : Vars r) → Reached v
      → Holds r plan depth l laws s wanted start v
  Reached-Holds quiet room _ begins =
      init-Holds r plan depth l laws s wanted start quiet room (λ i k hi hk. refl)
  Reached-Holds quiet room _ (submits v v' before pass) =
      let h = Reached-Holds quiet room v before in
      after_pass h _ (submit_from-Pass r plan depth l laws count 0 v (omega arith) h.ready) pass
    where
      after_pass :
          Holds r plan depth l laws s wanted start v
          → (f : Flow r) → Pass r plan depth l laws 0 v f
          → f ≡ leave v'
          → Holds r plan depth l laws s wanted start v'
      after_pass h _ (ends u a all) e =
          subst (Holds r plan depth l laws s wanted start) (left_by u v' e)
            (Holds-Sent r plan depth l laws s wanted start 0 v u h a)
      after_pass h _ (Pass.breaks x u a declined) e = cc e
  Reached-Holds quiet room _ (reaps v v' before reap) =
      let h = Reached-Holds quiet room v before in
      let t = wait_and_reap-Waits r plan depth l laws s wanted start v h in
      subst (Holds r plan depth l laws s wanted start) (taken t.after v' (sym t.returns ∙ reap))
        t.holds

  -- For a plan whose requests move their chunks, on a ring that keeps its laws, with nothing in
  -- flight and room for `depth` requests: whatever rounds the loop makes, `in_flight` is the number
  -- of requests in flight, it never exceeds the depth, each chunk has at most its length done, and
  -- each request in flight asks for one byte at least and at most for what is missing of its chunk,
  -- as many as fit an `u32`.
  pub Reached-IsBounded :
      pending start ≡ []
      → depth ≤ r.sq_entries start
      → (v : Vars r) → Reached v
      → (v.flying ≡ length (pending v.world))
        × (v.flying ≤ depth)
        × ((i : ℕ) → so_far r v i ≤ chunk_len i)
        × All (IsBounded v) (pending v.world)
  Reached-IsBounded quiet room v here =
      let i = (Reached-Holds quiet room v here).ready.inv in
      (
        i.counted,
        i.deep,
        i.bounded,
        All-map _ (IsBounded v) (pending v.world)
            (λ e o. record {
              in_range = o.in_range;
              some_byte = o.asks;
              capped = o.capped;
              in_chunk = o.fits;
            })
            i.open_all,
      )
