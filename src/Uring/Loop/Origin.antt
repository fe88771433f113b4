-- ===== src/Uring/Loop/Origin.antt =====
-- Where an error that the loop keeps comes from (src/uring.rs).
use fastio.Prelude.{
  ℕ, zero, suc, ◌-◌, ◌<◌, ◌≡◌, ◌≢◌, ap, arith, inl, inr, refl, subst, ◌==◌, leb, Bool-cases,
  Option-cases, Option, none, some, List, [], ◌∷◌, length, get_elem?, set, false, ◌||◌, All,
}
use fastio.Prelude.Int.{ℤ, pos, negsuc, pos_part}
use fastio.Io.{Error}
use fastio.Uring.Ring.{Ring, Entry, Cqe, Laws}
use fastio.Uring.Cache.{init_error}
use fastio.Uring.Loop.{
  Plan, Vars, idle, raw_os_error, get_or_insert, take_result, complete_one, complete_all,
  wait_and_reap,
}

-- The requests ask for some byte.
abbrev pub AllAsk : List Entry → Type 0
AllAsk es = All (λ e. 0 < e.len) es

-- The ring answers with the completion, while the requests in flight ask for some byte.
pub record IsAnswer (r : Ring) (laws : Laws r) (c : Cqe) : Type 0 where
  pub world : r.World
  pub asks : AllAsk (laws.pending world)
  pub idx : ℕ
  pub among : get_elem? (r.completion world).0 idx ≡ some c

-- The errors that the ring gives, and those that are made of what it does: the code of a completion,
-- a completion without a byte, a failed wait, and a ring that cannot be made.
pub data IsRaised (r : Ring) (laws : Laws r) (depth : ℕ) (short : Error) : Error → Type 0 where
  code :
      (c : Cqe) (n : ℕ)
      → IsAnswer r laws c
      → c.result ≡ negsuc n
      → IsRaised r laws depth short (raw_os_error (suc n))
  no_byte : (c : Cqe) → IsAnswer r laws c → c.result ≡ pos 0 → IsRaised r laws depth short short
  waiting :
      (w : r.World) (e : Error) → (r.submit_and_wait w).0 ≡ some e → IsRaised r laws depth short e
  no_ring :
      (w : r.World) (e : Error)
      → r.create depth w ≡ inl e
      → IsRaised r laws depth short (init_error e)

-- A ring that raises no error: waits succeed, a completion of requests that ask for some byte moves
-- one, and a ring of this depth can be made.
pub record IsHealthy (r : Ring) (laws : Laws r) (depth : ℕ) : Type 0 where
  pub waits : (w : r.World) → (r.submit_and_wait w).0 ≡ none
  pub moves :
      (w : r.World)
      → AllAsk (laws.pending w)
      → (i : ℕ) (c : Cqe) → get_elem? (r.completion w).0 i ≡ some c
      → 0 < pos_part c.result
  pub makes : (w : r.World) (e : Error) → r.create depth w ≢ inl e

pub IsHealthy-IsRaised :
    (r : Ring) (laws : Laws r) (depth : ℕ) (short x : Error)
    → IsHealthy r laws depth
    → ¬ IsRaised r laws depth short x
IsHealthy-IsRaised r laws depth short _ healthy (code c n answer e) =
    let more = healthy.moves answer.world answer.asks answer.idx c answer.among in
    omega (arith, more, ap pos_part e)
IsHealthy-IsRaised r laws depth short _ healthy (no_byte c answer e) =
    let more = healthy.moves answer.world answer.asks answer.idx c answer.among in
    omega (arith, more, ap pos_part e)
IsHealthy-IsRaised r laws depth short _ healthy (waiting w e wrong) =
    let fine = healthy.waits w in cc (fine, wrong)
IsHealthy-IsRaised r laws depth short _ healthy (no_ring w e none_made) =
    healthy.makes w e none_made

All-of-get_elem? {ℓ} :
    (P : Cqe → Type ℓ) (cs : List Cqe)
    → ((i : ℕ) (c : Cqe) → get_elem? cs i ≡ some c → P c)
    → All P cs
All-of-get_elem? P [] h = tt
All-of-get_elem? P (c ∷ cs) h = (h 0 c refl, All-of-get_elem? P cs (λ i. h (suc i)))

module _ (r : Ring) (laws : Laws r) (plan : Plan) (depth : ℕ) where
  -- There is no error, or the ring has raised it.
  abbrev pub Clean : Option Error → Type 0
  Clean none = Unit
  Clean (some x) = IsRaised r laws depth plan.short x

  abbrev CleanVars : Option (Vars r) → Type 0
  CleanVars none = Unit
  CleanVars (some v) = Clean v.pending_error

  insert-Clean :
      (o : Option Error) (x : Error)
      → Clean o
      → IsRaised r laws depth plan.short x
      → Clean (get_or_insert o x)
  insert-Clean none x h raised = raised
  insert-Clean (some y) x h raised = h

  take_result-Clean :
      (c : Cqe) (so_far : Option ℕ) (v : Vars r)
      → IsAnswer r laws c
      → Clean v.pending_error
      → CleanVars (take_result r plan depth c so_far v)
  unfolding take_result
  take_result-Clean c so_far v answer h = by_result c.result refl so_far
    where
      by_result :
          (z : ℤ)
          → c.result ≡ z
          → (so_far : Option ℕ) → CleanVars (take_result r plan depth c so_far v)
      by_result (negsuc n) e so_far =
          rw (e, take_result)
            (insert-Clean v.pending_error (raw_os_error (suc n)) h (code c n answer e))
      by_result (pos zero) e so_far =
          rw (e, take_result) (insert-Clean v.pending_error plan.short h (no_byte c answer e))
      by_result (pos (suc n)) e none = rw (e, take_result) tt
      by_result (pos (suc n)) e (some d) = rw (e, take_result) h

  -- `in_flight -= 1; state[idx] = Idle`.
  abbrev landed : Cqe → Vars r → Vars r
  landed c v = record v { flying = v.flying - 1; state = set v.state c.user_data idle }

  complete_all-Clean :
      (cs : List Cqe) (v : Vars r)
      → All (IsAnswer r laws) cs
      → Clean v.pending_error
      → CleanVars (complete_all r plan depth cs v)
  unfolding complete_all complete_one
  complete_all-Clean [] v answers h = h
  complete_all-Clean (c ∷ cs) v answers h =
      elim (Bool-cases (v.flying == 0 || leb (length v.state) c.user_data)) [
        | inl out ↦ rw (complete_all, complete_one, out) tt
        | inr in_range ↦
            by_one _ refl
              (take_result-Clean c (get_elem? v.bytes_done c.user_data) (landed c v) answers.0 h)
              in_range (λ v'. complete_all-Clean cs v' answers.1)
      ]
    where
      by_one :
          (o : Option (Vars r))
          → take_result r plan depth c (get_elem? v.bytes_done c.user_data) (landed c v) ≡ o
          → CleanVars o
          → (v.flying == 0 || leb (length v.state) c.user_data) ≡ false
          → ((v' : Vars r) → Clean v'.pending_error → CleanVars (complete_all r plan depth cs v'))
          → CleanVars (complete_all r plan depth (c ∷ cs) v)
      by_one none e clean in_range later = rw (complete_all, complete_one, in_range, e) tt
      by_one (some v') e clean in_range later =
          rw (complete_all, complete_one, in_range, e) (later v' clean)

  -- A wait and its completions keep only errors that the ring has raised.
  pub wait_and_reap-Clean :
      (v v' : Vars r)
      → AllAsk (laws.pending (r.submit_and_wait v.world).1)
      → wait_and_reap r plan depth v ≡ some v'
      → Clean v.pending_error
      → Clean v'.pending_error
  unfolding wait_and_reap
  wait_and_reap-Clean v v' asks e h =
      let waited = r.submit_and_wait v.world in
      let cq = r.completion waited.1 in
      let answers : All (IsAnswer r laws) cq.0 =
        All-of-get_elem? (IsAnswer r laws) cq.0
          (λ i c among. record { world = waited.1; asks = asks; idx = i; among = among }) in
      let kept : CleanVars (wait_and_reap r plan depth v) = elim (Option-cases waited.0) [
        | inl fine ↦
            rw (wait_and_reap, fine) (complete_all-Clean cq.0 (record v { world = cq.1 }) answers h)
        | inr (x, wrong) ↦
            rw (wait_and_reap, wrong)
              (complete_all-Clean cq.0
                (record v { pending_error = get_or_insert v.pending_error x; world = cq.1 }) answers
                (insert-Clean v.pending_error x h (waiting v.world x wrong)))
      ] in
      subst CleanVars e kept
