-- ===== src/Uring/Loop/Reap.antt =====
-- The `for` loop over the completions keeps the invariant, and a completed transfer counts for its
-- chunk only (src/uring.rs).
use fastio.Prelude.{
  ℕ, zero, suc, ◌+◌, ◌-◌, ◌≤◌, ◌<◌, ◌≡◌, true, false, ◌||◌, refl, ◌∙◌, ap, sym, subst, ◌==◌, leb,
  if◌then◌else◌, List, some, length, get_elem?, get_or, set, length-set, get_elem?-set_self,
  get_elem?-set, get_or-set, get_or-set_ne, get_elem?-eq-get_or, arith,
}
use fastio.Prelude.Int.{ℤ, pos, negsuc, pos_part}
use fastio.Io.{Error}
use fastio.Uring.Ring.{Ring, Entry, Cqe, Picks}
use fastio.Uring.Loop.{
  Plan, Vars, idle, done, is_some, raw_os_error, advance, add_error, take_result, complete_one,
}
use fastio.Uring.Loop.Invariant.{
  occurrences-Picks, length-Picks, All-Picks, All-others, flag, PlanLaws, so_far, IsOpen, Inv,
}

module _ (r : Ring) (plan : Plan) (depth : ℕ) (l : PlanLaws plan) where
  open plan use {count, chunk_len, short}

  -- `in_flight -= 1; state[idx] = Idle`.
  abbrev landed : Vars r → ℕ → Vars r
  landed v i = record v { flying = v.flying - 1; state = set v.state i idle }

  landed-Inv :
      (v : Vars r) {e : Entry} {p q : List Entry}
      → Picks e p q
      → Inv r plan depth l p v
      → Inv r plan depth l q (landed v e.user_data)
  landed-Inv v {e} {p} {q} pick i =
      let here =
        All-Picks (λ x. IsOpen r plan depth l (so_far r v x.user_data) x) pick i.open_all in
      let shorter = length-Picks pick in
      record {
        size_done = i.size_done;
        size_state = length-set v.state e.user_data idle ∙ i.size_state;
        counted = omega (arith, i.counted);
        deep = omega (arith, i.deep);
        single = λ j. ground (
          arith,
          i.single j,
          occurrences-Picks j pick,
          get_elem?-set v.state e.user_data j idle (omega (arith, i.size_state, here.0.in_range)),
        );
        bounded = i.bounded;
        finished = λ j f. ground (
          arith,
          i.finished j,
          get_elem?-set v.state e.user_data j idle (omega (arith, i.size_state, here.0.in_range)),
        );
        open_all = here.1;
      }

  -- `done[idx] += n`, where the chunk has room for `n` bytes and no other request in flight.
  advance-Inv :
      (v : Vars r) (i total : ℕ) (q : List Entry)
      → i < count
      → get_elem? v.state i ≡ some idle
      → total ≤ chunk_len i
      → Inv r plan depth l q v
      → Inv r plan depth l q (advance r plan depth i total v)
  unfolding advance
  advance-Inv v i total q lt free fits h =
      let at : i < length v.bytes_done = omega (arith, h.size_done) in
      let in_state : i < length v.state = omega (arith, h.size_state) in
      record {
        size_done = length-set v.bytes_done i total ∙ h.size_done;
        size_state = ground (arith, length-set v.state i done, h.size_state);
        counted = h.counted;
        deep = h.deep;
        single = λ j. ground (arith, h.single j, get_elem?-set v.state i j done in_state);
        bounded = λ j. ground (arith, h.bounded j, get_or-set v.bytes_done i j total at 0);
        finished = λ j f. ground (
          arith,
          h.finished j,
          get_or-set v.bytes_done i j total at 0,
          get_elem?-set v.state i j done in_state,
        );
        open_all =
            All-others (λ e. IsOpen r plan depth l (so_far r v e.user_data) e)
              (λ e. IsOpen r plan depth l (get_or (set v.bytes_done i total) e.user_data 0) e) i q
              (λ e ne o. rw (get_or-set_ne v.bytes_done i e.user_data total 0 (λ f. ne (sym f))) o)
              (h.single i ∙ ap flag free) h.open_all;
      }

  -- What a completion with result `z` for chunk `i` changes.
  pub record Took (i : ℕ) (z : ℤ) (v v' : Vars r) : Type 0 where
    pub same_world : v'.world ≡ v.world
    pub fewer : v.flying ≡ suc v'.flying
    pub counts :
        (j : ℕ) → so_far r v' j ≡ (if i == j then so_far r v j + pos_part z else so_far r v j)
    pub keeps_error : is_some v.pending_error ≡ true → v'.pending_error ≡ v.pending_error
    pub no_error : 0 < pos_part z → v'.pending_error ≡ v.pending_error
    pub some_error : pos_part z ≡ 0 → is_some v'.pending_error ≡ true

  pub record Completes (e : Entry) (q : List Entry) (c : Cqe) (v : Vars r) : Type 0 where
    pub after : Vars r
    pub returns : complete_one r plan depth c v ≡ some after
    pub inv : Inv r plan depth l q after
    pub took : Took c.user_data c.result v after

  -- The error of a completion that moved no byte is kept unless there is one already.
  failed-Completes :
      (v : Vars r) (i : ℕ) (z : ℤ) (x : Error) (q : List Entry)
      → pos_part z ≡ 0
      → 0 < v.flying
      → Inv r plan depth l q (landed v i)
      → Inv r plan depth l q (add_error r plan depth x (landed v i))
        × Took i z v (add_error r plan depth x (landed v i))
  unfolding add_error
  failed-Completes v i z x q nothing some_flying h = (
    record {
      size_done = h.size_done;
      size_state = h.size_state;
      counted = h.counted;
      deep = h.deep;
      single = h.single;
      bounded = h.bounded;
      finished = h.finished;
      open_all = h.open_all;
    },
    record {
      same_world = refl;
      fewer = omega arith;
      counts = λ j. ground (arith, nothing);
      keeps_error = ground arith;
      no_error = λ more. absurd (omega arith);
      some_error = ground arith;
    },
  )

  moved-Took :
      (v : Vars r) (i n : ℕ)
      → i < length v.bytes_done
      → 0 < v.flying
      → Took i (pos (suc n)) v (advance r plan depth i (so_far r v i + suc n) (landed v i))
  unfolding advance
  moved-Took v i n lt some_flying = record {
    same_world = refl;
    fewer = omega arith;
    counts = λ j. ground (arith, get_or-set v.bytes_done i j (so_far r v i + suc n) lt 0);
    keeps_error = λ e. refl;
    no_error = λ e. refl;
    some_error = λ e. absurd (omega arith);
  }

  pub complete_one-Completes :
      (v : Vars r) {e : Entry} {p q : List Entry} (c : Cqe)
      → Picks e p q
      → c.user_data ≡ e.user_data
      → pos_part c.result ≤ e.len
      → Inv r plan depth l p v
      → Completes e q c v
  unfolding complete_one take_result
  complete_one-Completes v {e} {p} {q} c pick same fits i = by_result c.result refl
    where
      mine : IsOpen r plan depth l (so_far r v e.user_data) e
      mine = (All-Picks (λ x. IsOpen r plan depth l (so_far r v x.user_data) x) pick i.open_all).0

      some_flying : 0 < v.flying
      some_flying = omega (arith, i.counted, length-Picks pick)

      in_range : c.user_data < count
      in_range = subst (λ j. j < count) (sym same) mine.in_range

      room : so_far r v c.user_data + e.len ≤ chunk_len c.user_data
      room = subst (λ j. so_far r v j + e.len ≤ chunk_len j) (sym same) mine.fits

      start : Inv r plan depth l q (landed v c.user_data)
      start = subst (λ j. Inv r plan depth l q (landed v j)) (sym same) (landed-Inv v pick i)

      guard : (v.flying == 0 || leb (length v.state) c.user_data) ≡ false
      guard = ground (arith, some_flying, in_range, i.size_state)

      read : get_elem? v.bytes_done c.user_data ≡ some (so_far r v c.user_data)
      read = get_elem?-eq-get_or v.bytes_done c.user_data 0 (omega (arith, in_range, i.size_done))

      by_failure :
          (x : Error)
          → pos_part c.result ≡ 0
          → complete_one r plan depth c v ≡ some (add_error r plan depth x (landed v c.user_data))
          → Completes e q c v
      by_failure x nothing returns =
          let (inv, took) = failed-Completes v c.user_data c.result x q nothing some_flying start in
          record {
            after = add_error r plan depth x (landed v c.user_data);
            returns = returns;
            inv = inv;
            took = took;
          }

      by_result : (z : ℤ) → c.result ≡ z → Completes e q c v
      by_result (negsuc n) h = by_failure (raw_os_error (suc n)) (ap pos_part h) (rw (guard, h))
      by_result (pos zero) h = by_failure short (ap pos_part h) (rw (guard, h))
      by_result (pos (suc n)) h =
          let moved = ap pos_part h in
          record {
            after =
                advance r plan depth c.user_data (so_far r v c.user_data + suc n)
                  (landed v c.user_data);
            returns = rw (guard, h, read);
            inv =
                advance-Inv (landed v c.user_data) c.user_data (so_far r v c.user_data + suc n) q
                  in_range
                  (get_elem?-set_self v.state c.user_data idle
                    (omega (arith, in_range, i.size_state)))
                  (omega (arith, room, fits, moved)) start;
            took =
                rw h
                  (moved-Took v c.user_data n (omega (arith, in_range, i.size_done)) some_flying);
          }
