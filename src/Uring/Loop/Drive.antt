-- ===== src/Uring/Loop/Drive.antt =====
-- The whole loop: it ends, it does not panic, and what it returns is true of the bytes
-- (src/uring.rs).
use fastio.Prelude.{
  All-map, ℕ, zero, suc, ◌+◌, ◌≤◌, ◌<◌, ◌≡◌, ◌≢◌, inl, inr, refl, ◌∙◌, ap, sym, subst, true, false,
  Bool-cases, ◌==◌, ==→≡, ==→≢, if◌then◌else◌, Option, none, some, List, [], ◌∷◌, length, get_elem?,
  get_or, arith,
}
use fastio.Io.{Error, Result, ok, err}
use fastio.Uring.Ring.{Ring, Laws, Entry, Place}
use fastio.Uring.Loop.{
  Plan, Vars, Flow, leave, done, is_some, submit_one, submit_from, outcome, drive, init, run,
  total_len,
}
use fastio.Uring.Loop.Invariant.{PlanLaws}
use fastio.Uring.Loop.Round.{Sent, Refuses}
use fastio.Uring.Loop.Pass.{Pass, ends, breaks, submit_from-Pass}
use fastio.Uring.Loop.Tally.{missing}
use fastio.Uring.Loop.Origin.{IsRaised, AllAsk, Clean, wait_and_reap-Clean}
use fastio.Uring.Loop.Start.{init-Holds, missing-init}
use fastio.Uring.Loop.Bytes.{Separate, IsOutside, Holds, drained, Waits, wait_and_reap-Waits}

-- Every wait for a ring with a request in flight is followed by a completion.
abbrev pub Wakes : (r : Ring) → Laws r → Type 0
Wakes r laws =
    (w : r.World) → laws.pending w ≢ [] → 0 < length (r.completion (r.submit_and_wait w).1).0

module _ (r : Ring) (plan : Plan) (depth : ℕ) (l : PlanLaws plan) (laws : Laws r)
    (s : Separate plan l) (want : ℕ → ℕ → ℕ) (start : r.World) where
  open plan use {count, chunk_len}
  open laws use {pending, byte_at}

  -- What the loop may return, and what the world is then. With `Ok` every byte of every chunk has
  -- arrived. An error has been raised by the ring, unless the request of a chunk was refused; only then
  -- is anything in flight. No place
  -- but the targets has changed.
  pub data Outcome : Result (Unit {0}) × r.World → Type 0 where
    finished :
        (w : r.World)
        → pending w ≡ []
        → ((i k : ℕ) → i < count → k < chunk_len i → byte_at w (l.to i k) ≡ want i k)
        → ((p : Place)
            → IsOutside r plan depth l laws s want start p
            → byte_at w p ≡ byte_at start p)
        → Outcome (ok tt, w)
    failed :
        (x : Error) (w : r.World)
        → IsRaised r laws depth plan.short x
        → pending w ≡ []
        → ((p : Place)
            → IsOutside r plan depth l laws s want start p
            → byte_at w p ≡ byte_at start p)
        → Outcome (err x, w)
    refused :
        (x : Error) (w : r.World)
        → Refuses r plan depth l laws x
        → ((p : Place)
            → IsOutside r plan depth l laws s want start p
            → byte_at w p ≡ byte_at start p)
        → Outcome (err x, w)

  -- Rounds that may still come, at most.
  abbrev pub potential : Vars r → ℕ
  potential v = if is_some v.pending_error then v.flying else missing r plan count v + depth + 1

  abbrev IsHeld : Vars r → Type 0
  IsHeld = Holds r plan depth l laws s want start

  pub Holds-Sent :
      (idx : ℕ) (v v' : Vars r) → IsHeld v → Sent r plan depth l laws idx v v' → IsHeld v'
  Holds-Sent idx v v' h a = record {
    ready = a.ready;
    sources = λ i k hi hk. a.bytes (l.from i k) ∙ h.sources i k hi hk;
    arrived =
        λ i k lt. a.bytes (l.to i k) ∙ h.arrived i k (subst (λ xs. k < get_or xs i 0) a.kept lt);
    outside = λ p o. a.bytes p ∙ h.outside p o;
  }

  missing_same :
      (n : ℕ) (v v' : Vars r)
      → v'.bytes_done ≡ v.bytes_done
      → missing r plan n v' ≡ missing r plan n v
  missing_same zero v v' e = refl
  missing_same (suc n) v v' e = omega (arith, ap (λ xs. get_or xs n 0) e, missing_same n v v' e)

  potential-Sent :
      (idx : ℕ) (v v' : Vars r)
      → Sent r plan depth l laws idx v v'
      → is_some v.pending_error ≡ false
      → potential v' ≡ potential v
  potential-Sent idx v v' a e = ground (arith, a.same_error, missing_same count v v' a.kept)

  -- A pending error ends the submissions at once.
  submit_from_stopped :
      (left idx : ℕ) (v : Vars r)
      → is_some v.pending_error ≡ true
      → submit_from r plan depth left idx v ≡ leave v
  unfolding submit_from
  submit_from_stopped zero idx v e = refl
  submit_from_stopped (suc left) idx v e = rw (e, submit_one, submit_from)

  -- A round with a completion lowers the potential.
  potential-Waits :
      (v : Vars r) (h : IsHeld v) (t : Waits r plan depth l laws s want start v h)
      → 0 < length (r.completion (r.submit_and_wait v.world).1).0
      → potential t.after < potential v
  potential-Waits v h t some_cqe = ground (
    arith,
    t.tally.fewer,
    missing_same count v (drained r plan depth l laws s want start v h) refl,
    t.tally.brings,
    t.tally.keeps_error,
    h.ready.inv.deep,
  )

  -- The end of the loop, with nothing in flight.
  at_rest :
      (v : Vars r)
      → IsHeld v
      → Clean r laws plan depth v.pending_error
      → v.flying ≡ 0
      → (v.pending_error ≡ none → (i : ℕ) → i < count → get_elem? v.state i ≡ some done)
      → Outcome (outcome r plan depth v.pending_error, v.world)
  at_rest v h clean landed all = by_error v.pending_error refl clean
    where
      empty : (p : List Entry) → length p ≡ 0 → p ≡ []
      empty [] e = refl
      empty (x ∷ p) e = absurd (omega arith)

      rest : pending v.world ≡ []
      rest = empty _ (omega (arith, h.ready.inv.counted))

      by_error :
          (x : Option Error)
          → v.pending_error ≡ x
          → Clean r laws plan depth x
          → Outcome (outcome r plan depth x, v.world)
      by_error (some x) e raised = failed x v.world raised rest h.outside
      by_error none e raised =
          finished v.world rest
            (λ i k hi hk. h.arrived i k (omega (arith, h.ready.inv.finished i (all e i hi))))
            h.outside

  -- A pass of submissions keeps the potential.
  potential-Pass :
      (v v' : Vars r)
      → submit_from r plan depth count 0 v ≡ leave v'
      → Sent r plan depth l laws 0 v v'
      → potential v' ≡ potential v
  potential-Pass v v' e a = elim (Bool-cases (is_some v.pending_error)) [
    | inl stop ↦
        let same : leave v ≡ leave v' = sym (submit_from_stopped count 0 v stop) ∙ e in
        ap potential {x = v'} {y = v} (cc same)
    | inr go ↦ potential-Sent 0 v v' a go
  ]

  nothing_flying : (v : Vars r) → IsHeld v → v.flying ≢ 0 → pending v.world ≢ []
  nothing_flying v h ne e = ne (h.ready.inv.counted ∙ ap length e)

  -- The requests in flight ask for some byte, also after a wait.
  asking : (v : Vars r) → IsHeld v → AllAsk (pending (r.submit_and_wait v.world).1)
  asking v h =
      subst AllAsk (sym (laws.wait_pending v.world))
        (All-map _ _ (pending v.world) (λ e open_one. open_one.asks) h.ready.inv.open_all)

  -- With more fuel than the potential the loop ends by a return.
  pub drive-Outcome :
      Wakes r laws
      → 0 < depth
      → (fuel : ℕ) (v : Vars r) → potential v < fuel
      → IsHeld v
      → Clean r laws plan depth v.pending_error
      → Outcome (drive r plan depth fuel v)
  unfolding drive
  drive-Outcome wakes deep zero v lt h clean = elim lt [ ]
  drive-Outcome wakes deep (suc fuel) v lt h clean =
      on_pass (submit_from r plan depth count 0 v) refl
        (submit_from-Pass r plan depth l laws count 0 v (omega arith) h.ready)
        (drive-Outcome wakes deep fuel)
    where
      on_pass :
          (f : Flow r)
          → submit_from r plan depth count 0 v ≡ f
          → Pass r plan depth l laws 0 v f
          → ((v' : Vars r)
              → potential v' < fuel
              → IsHeld v'
              → Clean r laws plan depth v'.pending_error
              → Outcome (drive r plan depth fuel v'))
          → Outcome (drive r plan depth (suc fuel) v)
      on_pass _ e (breaks x v' a declined) again =
          rw (e, drive) (refused x v'.world declined (Holds-Sent 0 v v' h a).outside)
      on_pass _ e (ends v' a all) again = elim (Bool-cases (v'.flying == 0)) [
        | inl landed ↦
            let zero_left = ==→≡ _ _ landed in
            rw (e, drive, landed)
              (at_rest v' (Holds-Sent 0 v v' h a)
                (subst (Clean r laws plan depth) (sym a.same_error) clean) zero_left
                (λ no_error i hi. all deep zero_left no_error i (omega arith) hi))
        | inr more ↦
            let h' = Holds-Sent 0 v v' h a in
            let t = wait_and_reap-Waits r plan depth l laws s want start v' h' in
            let less =
              potential-Waits v' h' t (wakes v'.world (nothing_flying v' h' (==→≢ _ _ more))) in
            rw (e, drive, more, t.returns)
              (again t.after (omega (arith, potential-Pass v v' e a)) t.holds (
                wait_and_reap-Clean r laws plan depth v' t.after (asking v' h') t.returns
                  (subst (Clean r laws plan depth) (sym a.same_error) clean)))
      ]

  -- On an idle ring with room for `depth` requests the loop ends by a return, and what it returns
  -- is true of the bytes.
  pub run-Outcome :
      Wakes r laws
      → 0 < depth
      → pending start ≡ []
      → depth ≤ r.sq_entries start
      → ((i k : ℕ) → i < count → k < chunk_len i → byte_at start (l.from i k) ≡ want i k)
      → Outcome (run r plan depth start)
  unfolding run
  run-Outcome wakes deep quiet room given =
      drive-Outcome wakes deep (total_len r plan depth count + depth + 2) (init r plan depth start)
        (omega (arith, missing-init r plan depth l laws s want start count))
        (init-Holds r plan depth l laws s want start quiet room given) tt
