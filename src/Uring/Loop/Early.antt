-- ===== src/Uring/Loop/Early.antt =====
-- The early return out of the `for` loop that submits requests (src/uring.rs).
use fastio.Prelude.{
  ℕ, suc, ◌+◌, ◌-◌, ◌≤◌, ◌<◌, ◌≡◌, inl, inr, refl, ◌∙◌, ap, sym, subst, replicate, List, ◌==◌, ltb,
  leb, Option-cases, min, none, some, false, [], ◌∷◌, arith,
}
use fastio.Io.{Error, ok, err}
use fastio.Uring.Ring.{Ring, Entry, Laws}
use fastio.Uring.Loop.{
  Plan, Vars, SubmissionState, idle, in_flight, fail, init, max_io_len, push_entry, submit_idle,
  submit_at, submit_one, submit_from, drive, run, total_len,
}

module _ (r : Ring) (plan : Plan) (depth : ℕ) (laws : Laws r) (start : r.World) where
  open plan use {count, chunk_len, entry}
  open laws use {pending}

  -- The variables before any request: chunks with no byte yet, all idle.
  abbrev none_sent : List ℕ → List SubmissionState → Vars r
  none_sent so_far free = record {
    bytes_done = so_far;
    state = free;
    flying = 0;
    pending_error = none;
    world = start;
  }

  -- A pass pushes the request of the first chunk, and returns the error for the second one.
  pass-early :
      (n : ℕ) (so_far : List ℕ) (free : List SubmissionState) (e : Entry) (x : Error) (w : r.World)
      → 1 < depth
      → 0 < chunk_len 0
      → 0 < chunk_len 1
      → entry 0 0 (min (chunk_len 0) max_io_len) ≡ ok e
      → entry 1 0 (min (chunk_len 1) max_io_len) ≡ err x
      → r.push e start ≡ some w
      → (v : Vars r) × (submit_from r plan depth
            (suc (suc n))
            0
            (none_sent (0 ∷ 0 ∷ so_far) (idle ∷ idle ∷ free))
          ≡ fail x v)
        × (v.world ≡ w)
  unfolding submit_from submit_one submit_at submit_idle push_entry
  pass-early n so_far free e x w deep one other made refused put =
      let deep0 : leb depth 0 ≡ false = ground (arith, deep) in
      let deep1 : leb depth 1 ≡ false = ground (arith, deep) in
      let len0 : (chunk_len 0 == 0) ≡ false = ground (arith, one) in
      let len1 : (chunk_len 1 == 0) ≡ false = ground (arith, other) in
      let whole0 : chunk_len 0 - 0 ≡ chunk_len 0 = omega arith in
      let whole1 : chunk_len 1 - 0 ≡ chunk_len 1 = omega arith in
      let below0 : ltb (chunk_len 0) 0 ≡ false = ground arith in
      let below1 : ltb (chunk_len 1) 0 ≡ false = ground arith in
      (
        record {
          bytes_done = 0 ∷ 0 ∷ so_far;
          state = in_flight ∷ idle ∷ free;
          flying = 1;
          pending_error = none;
          world = w;
        },
        rw
            (
              submit_from, submit_one, deep0, submit_idle, below0, whole0, len0, made, push_entry,
              put, submit_one, deep1, submit_idle, below1, whole1, len1, refused,
            )
            refl,
        refl,
      )

  drive-early :
      (fuel less : ℕ) (v v' : Vars r) {x : Error}
      → fuel ≡ suc less
      → submit_from r plan depth count 0 v ≡ fail x v'
      → drive r plan depth fuel v ≡ (err x, v'.world)
  unfolding drive
  drive-early fuel less v v' some_fuel pass = rw (some_fuel, drive, pass) refl

  -- The loop pushes the request of the first chunk, and returns the error for the second chunk at
  -- once, with the request in flight.
  pub run-early :
      (n : ℕ) (e : Entry) (x : Error)
      → count ≡ suc (suc n)
      → 1 < depth
      → 0 < chunk_len 0
      → 0 < chunk_len 1
      → entry 0 0 (min (chunk_len 0) max_io_len) ≡ ok e
      → entry 1 0 (min (chunk_len 1) max_io_len) ≡ err x
      → pending start ≡ []
      → depth ≤ r.sq_entries start
      → (w : r.World) × (run r plan depth start ≡ (err x, w)) × (pending w ≡ e ∷ [])
  unfolding run drive
  run-early n e x two deep one other made refused quiet room =
      elim (Option-cases (r.push e start)) [
        | inl full ↦ absurd (laws.push_room e start (rw quiet (omega (arith, room))) full)
        | inr (w, put) ↦
            let (v, pass, same) =
              pass-early n (replicate n 0) (replicate n idle) e x w deep one other made refused
                put in
            let whole : submit_from r plan depth count 0 (init r plan depth start) ≡ fail x v =
              subst
                (λ c.
                  submit_from r plan depth c 0 (none_sent (replicate c 0) (replicate c idle))
                  ≡ fail x v)
                (sym two) pass in
            (
              w,
              drive-early (total_len r plan depth count + depth + 2)
                    (total_len r plan depth count + depth + 1) _ v (omega arith) whole
                  ∙ ap (λ (u : r.World). (err x, u)) same,
              laws.push_pending e start w put ∙ rw quiet refl,
            )
      ]
