-- ===== src/Uring/Loop/Round.antt =====
-- What one round of the `for` loop that submits requests does, at every end of it (src/uring.rs).
use fastio.Prelude.{
  ℕ, ◌+◌, ◌-◌, ◌≤◌, ◌<◌, ◌≡◌, ◌≢◌, inl, inr, refl, true, ◌||◌, ◌==◌, ltb, leb, ==→≡, ==→≢, ltb→le,
  ltb→lt, Bool-cases, Option-cases, min, some, length, get_elem?, set, get_elem?-set,
  get_elem?-set_self, get_elem?_total, get_elem?-eq-get_or, arith,
}
use fastio.Io.{Error, err}
use fastio.Uring.Ring.{Ring, Entry, Place, Laws}
use fastio.Uring.Loop.{
  Plan, Vars, Flow, go_on, leave, fail, SubmissionState, idle, in_flight, done, is_some, max_io_len,
  push_entry, submit_idle, submit_at, submit_one,
}
use fastio.Uring.Loop.Invariant.{PlanLaws, so_far, Inv}
use fastio.Uring.Loop.Submit.{Asks, mark_done-Inv, push-Inv}

module _ (r : Ring) (plan : Plan) (depth : ℕ) (l : PlanLaws plan) (laws : Laws r) where
  open plan use {count, chunk_len}
  open laws use {pending, byte_at}

  -- The invariant, and a submission queue that has room for `depth` requests.
  pub record Ready (v : Vars r) : Type 0 where
    pub inv : Inv r plan depth l (pending v.world) v
    pub room : depth ≤ r.sq_entries v.world

  -- What a part of the pass from chunk `idx` on leaves as it was.
  pub record Sent (idx : ℕ) (v v' : Vars r) : Type 0 where
    pub ready : Ready v'
    pub kept : v'.bytes_done ≡ v.bytes_done
    pub earlier : (i : ℕ) → i < idx → get_elem? v'.state i ≡ get_elem? v.state i
    pub grows : v.flying ≤ v'.flying
    pub bytes : (p : Place) → byte_at v'.world p ≡ byte_at v.world p
    pub same_error : v'.pending_error ≡ v.pending_error

  -- The plan refuses a request with the error.
  pub record Refuses (x : Error) : Type 0 where
    pub idx : ℕ
    pub from_byte : ℕ
    pub len : ℕ
    pub in_range : idx < count
    pub in_chunk : from_byte < chunk_len idx
    pub refused : plan.entry idx from_byte len ≡ err x

  pub data Round (idx : ℕ) (v : Vars r) : Flow r → Type 0 where
    stops : (is_some v.pending_error || leb depth v.flying) ≡ true → Round idx v (leave v)
    sends :
        (v' : Vars r) → Sent idx v v' → get_elem? v'.state idx ≢ some idle → Round idx v (go_on v')
    refuses : (x : Error) → Refuses x → Round idx v (fail x v)

  pub Sent-refl : (idx : ℕ) (v : Vars r) → Ready v → Sent idx v v
  Sent-refl idx v h = record {
    ready = h;
    kept = refl;
    earlier = λ i lt. refl;
    grows = omega arith;
    bytes = λ p. refl;
    same_error = refl;
  }

  pushed :
      (idx : ℕ) (v : Vars r) (e : Entry) (w : r.World)
      → Ready v
      → idx < count
      → get_elem? v.state idx ≡ some idle
      → so_far r v idx < chunk_len idx
      → v.flying < depth
      → Asks r plan depth l v idx e
      → r.push e v.world ≡ some w
      → Sent idx v
          (record v { state = set v.state idx in_flight; flying = v.flying + 1; world = w })
  pushed idx v e w h lt free more deep a put =
      let i = push-Inv r plan depth l (pending v.world) v idx e w lt free more deep a h.inv in
      record {
        ready = record {
          inv = rw (laws.push_pending e v.world w put) i;
          room = omega (arith, h.room, laws.push_entries e v.world w put);
        };
        kept = refl;
        earlier = λ j below.
            ground (arith, get_elem?-set v.state idx j in_flight (omega (arith, h.inv.size_state)));
        grows = omega arith;
        bytes = λ p. laws.push_bytes e v.world w p put;
        same_error = refl;
      }

  marked :
      (idx : ℕ) (v : Vars r)
      → Ready v
      → idx < count
      → get_elem? v.state idx ≡ some idle
      → so_far r v idx ≡ chunk_len idx
      → Sent idx v (record v { state = set v.state idx done })
  marked idx v h lt free full = record {
    ready = record {
      inv = mark_done-Inv r plan depth l (pending v.world) v idx lt free full h.inv;
      room = h.room;
    };
    kept = refl;
    earlier = λ j below.
        ground (arith, get_elem?-set v.state idx j done (omega (arith, h.inv.size_state)));
    grows = omega arith;
    bytes = λ p. refl;
    same_error = refl;
  }

  left_idle :
      (idx : ℕ) (v : Vars r) (s : SubmissionState)
      → idx < length v.state
      → s ≢ idle
      → get_elem? (set v.state idx s) idx ≢ some idle
  left_idle idx v s lt ne e = ne (cc (get_elem?-set_self v.state idx s lt))

  idle-Round :
      (idx : ℕ) (v : Vars r)
      → Ready v
      → idx < count
      → v.flying < depth
      → get_elem? v.state idx ≡ some idle
      → Round idx v (submit_idle r plan depth idx (so_far r v idx) v)
  unfolding submit_idle
  idle-Round idx v h lt deep free = elim (Bool-cases (ltb (chunk_len idx) (so_far r v idx))) [
    | inl over ↦ absurd (omega (arith, ltb→lt _ _ over, h.inv.bounded idx))
    | inr fits ↦ elim (Bool-cases (chunk_len idx - so_far r v idx == 0)) [
      | inl none_left ↦
          let full : so_far r v idx ≡ chunk_len idx =
            omega (arith, ==→≡ _ _ none_left, ltb→le _ _ fits) in
          rw (fits, none_left)
            (sends _ (marked idx v h lt free full)
              (left_idle idx v done (omega (arith, h.inv.size_state)) (λ e. cc)))
      | inr some_left ↦
          let more : so_far r v idx < chunk_len idx = omega (arith, ==→≢ _ _ some_left) in
          elim (l.entry_cases idx (so_far r v idx)
            (min (chunk_len idx - so_far r v idx) max_io_len)) [
              | inr (x, e) ↦
                  rw (fits, some_left, e)
                    (refuses x (record {
                      idx = idx;
                      from_byte = so_far r v idx;
                      len = min (chunk_len idx - so_far r v idx) max_io_len;
                      in_range = lt;
                      in_chunk = more;
                      refused = e;
                    }))
              | inl (e, made, numbered, sized, reads, writes) ↦
                  elim (Option-cases (r.push e v.world)) [
                    | inl full ↦
                        absurd
                          (laws.push_room e v.world (omega (arith, h.inv.counted, h.room)) full)
                    | inr (w, put) ↦
                        rw (fits, some_left, made, put, push_entry)
                          (sends _
                            (pushed idx v e w h lt free more deep
                              (record {
                                numbered = numbered;
                                sized = sized;
                                reads = reads;
                                writes = writes;
                              })
                              put)
                            (left_idle idx v in_flight (omega (arith, h.inv.size_state)) (λ e. cc)))
                  ]
            ]
    ]
  ]

  at-Round :
      (idx : ℕ) (v : Vars r) (s : SubmissionState)
      → Ready v
      → idx < count
      → v.flying < depth
      → get_elem? v.state idx ≡ some s
      → Round idx v (submit_at r plan depth idx (some s) (some (so_far r v idx)) v)
  unfolding submit_at
  at-Round idx v idle h lt deep e = idle-Round idx v h lt deep e
  at-Round idx v in_flight h lt deep e = sends v (Sent-refl idx v h) (λ f. cc)
  at-Round idx v done h lt deep e = sends v (Sent-refl idx v h) (λ f. cc)

  pub submit_one-Round :
      (idx : ℕ) (v : Vars r) → Ready v → idx < count → Round idx v (submit_one r plan depth idx v)
  unfolding submit_one
  submit_one-Round idx v h lt = elim (Bool-cases (is_some v.pending_error || leb depth v.flying)) [
    | inl stop ↦ rw stop (stops stop)
    | inr go ↦
        let size : idx < length v.bytes_done = omega (arith, h.inv.size_done) in
        let (s, e) = get_elem?_total v.state idx (omega (arith, h.inv.size_state)) in
        rw (go, get_elem?-eq-get_or v.bytes_done idx 0 size, e)
          (at-Round idx v s h lt (ground arith) e)
  ]
