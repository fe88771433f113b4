-- ===== src/Uring/Loop/Pass.antt =====
-- What a pass of the `for` loop that submits requests does, at every end of it (src/uring.rs).
use fastio.Prelude.{
  ℕ, zero, suc, ◌+◌, ◌≤◌, ◌<◌, ◌≡◌, ◌≢◌, inl, inr, refl, ◌∙◌, sym, ◌==◌, ==→≡, ==→≢, Bool-cases,
  none, some, get_elem?, get_elem?_total, arith,
}
use fastio.Io.{Error}
use fastio.Uring.Ring.{Ring, Laws}
use fastio.Uring.Loop.{
  Plan, Vars, Flow, go_on, leave, fail, crash, SubmissionState, idle, in_flight, done, submit_one,
  submit_from,
}
use fastio.Uring.Loop.Invariant.{occurrences-le, PlanLaws}
use fastio.Uring.Loop.Round.{
  Ready, Sent, Refuses, Round, stops, sends, refuses, Sent-refl, submit_one-Round,
}

module _ (r : Ring) (plan : Plan) (depth : ℕ) (l : PlanLaws plan) (laws : Laws r) where
  open plan use {count, chunk_len}
  open laws use {pending, byte_at}

  -- Every chunk from `idx` on is `Done`.
  abbrev pub AllDone : ℕ → Vars r → Type 0
  AllDone idx v = (i : ℕ) → idx ≤ i → i < count → get_elem? v.state i ≡ some done

  -- The ends of a pass from `idx`. With nothing in flight and no error every chunk is done.
  pub data Pass (idx : ℕ) (v : Vars r) : Flow r → Type 0 where
    ends :
        (v' : Vars r)
        → Sent r plan depth l laws idx v v'
        → (0 < depth → v'.flying ≡ 0 → v'.pending_error ≡ none → AllDone idx v')
        → Pass idx v (leave v')
    breaks :
        (x : Error) (v' : Vars r)
        → Sent r plan depth l laws idx v v'
        → Refuses r plan depth l laws x
        → Pass idx v (fail x v')

  done_of_landed :
      (v : Vars r) (i : ℕ)
      → Ready r plan depth l laws v
      → i < count
      → v.flying ≡ 0
      → get_elem? v.state i ≢ some idle
      → get_elem? v.state i ≡ some done
  done_of_landed v i h lt e ne =
      let (s, es) = get_elem?_total v.state i (omega (arith, h.inv.size_state)) in
      let none_there = occurrences-le i (pending v.world) in
      es ∙ state_done s (λ f. ne (es ∙ f)) (λ f. grind (arith, h.inv.single i, h.inv.counted))
    where
      state_done :
          (s : SubmissionState) → (some s ≢ some idle) → (s ≢ in_flight) → some s ≡ some done
      state_done idle a b = absurd (a refl)
      state_done in_flight a b = absurd (b refl)
      state_done done a b = refl

  Sent-trans :
      (idx : ℕ) {v v' v'' : Vars r}
      → Sent r plan depth l laws idx v v'
      → Sent r plan depth l laws (idx + 1) v' v''
      → Sent r plan depth l laws idx v v''
  Sent-trans idx a b = record {
    ready = b.ready;
    kept = b.kept ∙ a.kept;
    earlier = λ i lt. b.earlier i (omega arith) ∙ a.earlier i lt;
    grows = omega (arith, a.grows, b.grows);
    bytes = λ p. b.bytes p ∙ a.bytes p;
    same_error = b.same_error ∙ a.same_error;
  }

  Pass-step :
      (idx : ℕ) {v v' : Vars r} {f : Flow r}
      → idx < count
      → Sent r plan depth l laws idx v v'
      → get_elem? v'.state idx ≢ some idle
      → Pass (idx + 1) v' f
      → Pass idx v f
  Pass-step idx lt a ne (breaks x v'' b refused) = breaks x v'' (Sent-trans idx a b) refused
  Pass-step idx lt a ne (ends v'' b all) =
      ends v'' (Sent-trans idx a b) λ deep landed clean i from to. elim (Bool-cases (i == idx)) [
        | inl here ↦
            done_of_landed v'' i b.ready to landed
              (λ e. ne (sym (b.earlier idx (omega arith)) ∙ (rw (==→≡ i idx here) at e)))
        | inr there ↦ all deep landed clean i (omega (arith, ==→≢ _ _ there)) to
      ]

  pub submit_from-Pass :
      (left idx : ℕ) (v : Vars r)
      → idx + left ≡ count
      → Ready r plan depth l laws v
      → Pass idx v (submit_from r plan depth left idx v)
  unfolding submit_from
  submit_from-Pass zero idx v e h =
      ends v (Sent-refl r plan depth l laws idx v h)
        λ deep landed clean i from to. absurd (omega arith)
  submit_from-Pass (suc left) idx v e h =
      on_round (submit_one r plan depth idx v)
        (submit_one-Round r plan depth l laws idx v h (omega arith))
        (λ v' a. submit_from-Pass left (idx + 1) v' (omega arith) a.ready)
    where
      on_round :
          (f : Flow r)
          → Round r plan depth l laws idx v f
          → ((v' : Vars r)
              → Sent r plan depth l laws idx v v'
              → Pass (idx + 1) v' (submit_from r plan depth left (idx + 1) v'))
          → Pass idx v (elim f [
            | go_on v' ↦ submit_from r plan depth left (idx + 1) v'
            | leave v' ↦ leave v'
            | fail e v' ↦ fail e v'
            | crash ↦ crash
          ])
      on_round _ (stops stop) rest =
          ends v (Sent-refl r plan depth l laws idx v h)
            λ deep landed clean i from to. ground (arith, stop)
      on_round _ (sends v' a ne) rest = Pass-step idx (omega arith) a ne (rest v' a)
      on_round _ (refuses x refused) rest =
          breaks x v (Sent-refl r plan depth l laws idx v h) refused
