-- ===== src/Uring/Loop/Tally.antt =====
-- All the completions of a round: what they add up to (src/uring.rs).
use fastio.Prelude.{
  ℕ, zero, suc, ◌+◌, ◌-◌, ◌≤◌, ◌<◌, ◌≡◌, ◌⊎◌, inl, inr, refl, ◌∙◌, sym, subst, ◌==◌, ltb, ltb→lt,
  true, Bool-cases, ==→≡, ==→≢, if◌then◌else◌, List, ◌∷◌, some, subst₂, length, arith,
}
use fastio.Prelude.Int.{ℤ, pos_part}
use fastio.Uring.Ring.{Ring, Entry, Cqe, Reaped, none_left, one_more}
use fastio.Uring.Loop.{Plan, Vars, is_some, complete_all}
use fastio.Uring.Loop.Invariant.{All-Picks, PlanLaws, so_far, IsOpen, Inv}
use fastio.Uring.Loop.Reap.{Took, complete_one-Completes}

module _ (r : Ring) (plan : Plan) where
  open plan use {count, chunk_len}

  -- The bytes that the first `n` chunks still miss.
  abbrev pub missing : ℕ → Vars r → ℕ
  missing zero v = 0
  missing (suc n) v = (chunk_len n - so_far r v n) + missing n v

  -- Bytes of chunk `j` come in only for chunk `j`.
  missing-Took :
      (depth : ℕ) (l : PlanLaws plan) (v v' : Vars r) (i n : ℕ) (z : ℤ)
      → Took r plan depth l i z v v'
      → ((j : ℕ) → so_far r v' j ≤ chunk_len j)
      → missing n v ≡ missing n v' + (if ltb i n then pos_part z else 0)
  missing-Took depth l v v' i zero z t b = ground arith
  missing-Took depth l v v' i (suc n) z t b =
      ground (arith, t.counts n, b n, missing-Took depth l v v' i n z t b)

  missing-le :
      (v v' : Vars r) (n : ℕ)
      → ((j : ℕ) → so_far r v j ≤ so_far r v' j)
      → missing n v' ≤ missing n v
  missing-le v v' zero h = omega arith
  missing-le v v' (suc n) h = omega (arith, h n, missing-le v v' n h)

  module _ (depth : ℕ) (l : PlanLaws plan) where
    -- The completions `cs` are counted; the first error stays; without an error each of them
    -- brought a byte.
    pub record Tally (v v' : Vars r) (cs : List Cqe) : Type 0 where
      pub same_world : v'.world ≡ v.world
      pub fewer : v.flying ≡ v'.flying + length cs
      pub grows : (j : ℕ) → so_far r v j ≤ so_far r v' j
      pub keeps_error : is_some v.pending_error ≡ true → v'.pending_error ≡ v.pending_error
      pub brings :
          (is_some v'.pending_error ≡ true)
          ⊎ (missing count v' + length cs ≤ missing count v) × (v'.pending_error ≡ v.pending_error)

    module _ (G : Entry → ℤ → Type 0) (D : ℕ → ℕ → Type 0)
        (fits : (e : Entry) (z : ℤ) → G e z → pos_part z ≤ e.len)
        (lands : (e : Entry) (z : ℤ) (d : ℕ)
          → IsOpen r plan depth l d e
          → G e z
          → (k : ℕ) → k < pos_part z
          → D e.user_data (d + k)) where
      -- `D` holds of the bytes that the loop counts as done.
      abbrev pub Landed : Vars r → Type 0
      Landed v = (i k : ℕ) → k < so_far r v i → D i k

      pub record Reaping (q : List Entry) (cs : List Cqe) (v : Vars r) : Type 0 where
        pub after : Vars r
        pub returns : complete_all r plan depth cs v ≡ some after
        pub inv : Inv r plan depth l q after
        pub tally : Tally v after cs
        pub landed : Landed v → Landed after

      Tally-step :
          (v v' v'' : Vars r) (i : ℕ) (c : Cqe) (cs : List Cqe)
          → i < count
          → Took r plan depth l i c.result v v'
          → ((j : ℕ) → so_far r v' j ≤ chunk_len j)
          → Tally v' v'' cs
          → Tally v v'' (c ∷ cs)
      Tally-step v v' v'' i c cs lt t b rest = record {
        same_world = rest.same_world ∙ t.same_world;
        fewer = omega (arith, t.fewer, rest.fewer);
        grows = λ j. ground (arith, t.counts j, rest.grows j);
        keeps_error = λ e. ground (arith, t.keeps_error e, rest.keeps_error);
        brings = elim (Bool-cases (pos_part c.result == 0)) [
          | inl nothing ↦
              let set_now = t.some_error (==→≡ _ _ nothing) in
              inl (rw (rest.keeps_error set_now) set_now)
          | inr bytes ↦
              let kept = t.no_error (omega (arith, ==→≢ _ _ bytes)) in
              let less = missing-Took depth l v v' i count c.result t b in
              ground (arith, ==→≢ _ _ bytes, rest.brings, less, kept)
        ];
      }

      landed_step :
          (v v' : Vars r) (i : ℕ) (e : Entry) (z : ℤ)
          → i ≡ e.user_data
          → IsOpen r plan depth l (so_far r v e.user_data) e
          → G e z
          → Took r plan depth l i z v v'
          → Landed v
          → Landed v'
      landed_step v v' i e z same o g t f j k lt = elim (Bool-cases (ltb k (so_far r v j))) [
        | inl old ↦ f j k (ltb→lt _ _ old)
        | inr fresh ↦
            let at : e.user_data ≡ j = ground (arith, t.counts j) in
            let place : so_far r v e.user_data + (k - so_far r v e.user_data) ≡ k =
              ground (arith, at) in
            let brought : k - so_far r v e.user_data < pos_part z =
              ground (arith, at, t.counts j) in
            subst₂ D at place
              (lands e z (so_far r v e.user_data) o g (k - so_far r v e.user_data) brought)
      ]

      -- The completions of requests in flight are taken without a panic.
      pub complete_all-Reaping :
          (v : Vars r) {p q : List Entry} {cs : List Cqe}
          → Reaped G p cs q
          → Inv r plan depth l p v
          → Reaping q cs v
      unfolding complete_all
      complete_all-Reaping v (none_left p) i = record {
        after = v;
        returns = refl;
        inv = i;
        tally = record {
          same_world = refl;
          fewer = omega arith;
          grows = λ j. omega arith;
          keeps_error = λ e. refl;
          brings = inr (omega arith, refl);
        };
        landed = λ f. f;
      }
      complete_all-Reaping v (one_more e c {cs} pick same good others) i =
          let one = complete_one-Completes r plan depth l v c pick same (fits e c.result good) i in
          let rest = complete_all-Reaping one.after others one.inv in
          let mine =
            (All-Picks (λ x. IsOpen r plan depth l (so_far r v x.user_data) x) pick i.open_all).0 in
          record {
            after = rest.after;
            returns = rw (one.returns, complete_all) rest.returns;
            inv = rest.inv;
            tally =
                Tally-step v one.after rest.after c.user_data c cs
                  (subst (λ j. j < count) (sym same) mine.in_range) one.took one.inv.bounded
                  rest.tally;
            landed = λ f.
                rest.landed
                  (landed_step v one.after c.user_data e c.result same mine good one.took f);
          }
