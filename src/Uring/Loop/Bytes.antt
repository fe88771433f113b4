-- ===== src/Uring/Loop/Bytes.antt =====
-- Which bytes a round of the submission loop changes (src/uring.rs).
use fastio.Prelude.{
  ℕ, zero, suc, ◌+◌, ◌≤◌, ◌<◌, ◌≡◌, ◌≢◌, ◌∙◌, ap, sym, subst, none, some, List, [], ◌∷◌, length,
  All, All-map, get_or, arith,
}
use fastio.Prelude.Int.{ℤ, pos_part}
use fastio.Uring.Ring.{Ring, Laws, Entry, Place, Untouched, source, target}
use fastio.Uring.Loop.{Plan, Vars, get_or_insert, wait_and_reap}
use fastio.Uring.Loop.Invariant.{PlanLaws, so_far, IsOpen, Inv}
use fastio.Uring.Loop.Round.{Ready}
use fastio.Uring.Loop.Tally.{Tally, Reaping, complete_all-Reaping}

-- No two bytes of the chunks go to one place, and none comes from where another goes.
pub record Separate (plan : Plan) (l : PlanLaws plan) : Type 0 where
  pub apart :
      (i k j m : ℕ)
      → i < plan.count
      → k < plan.chunk_len i
      → j < plan.count
      → m < plan.chunk_len j
      → l.to i k ≡ l.to j m
      → (i ≡ j) × (k ≡ m)
  pub elsewhere :
      (i k j m : ℕ)
      → i < plan.count
      → k < plan.chunk_len i
      → j < plan.count
      → m < plan.chunk_len j
      → l.from i k ≢ l.to j m

lt-of-get_or : (xs : List ℕ) (i : ℕ) → 0 < get_or xs i 0 → i < length xs
lt-of-get_or [] i h = absurd (omega arith)
lt-of-get_or (x ∷ xs) zero h = omega arith
lt-of-get_or (x ∷ xs) (suc i) h = omega (arith, lt-of-get_or xs i h)

module _ (r : Ring) (plan : Plan) (depth : ℕ) (l : PlanLaws plan) (laws : Laws r)
    (s : Separate plan l) (want : ℕ → ℕ → ℕ) (start : r.World) where
  open plan use {count, chunk_len}
  open laws use {pending, byte_at}

  -- `p` is none of the places that the chunks go to.
  abbrev pub IsOutside : Place → Type 0
  IsOutside p = (i k : ℕ) → i < count → k < chunk_len i → l.to i k ≢ p

  -- The sources have the bytes that are wanted, the bytes counted as done have arrived, and no
  -- place but the targets has changed since `start`.
  pub record Holds (v : Vars r) : Type 0 where
    pub ready : Ready r plan depth l laws v
    pub sources : (i k : ℕ) → i < count → k < chunk_len i → byte_at v.world (l.from i k) ≡ want i k
    pub arrived : (i k : ℕ) → k < so_far r v i → byte_at v.world (l.to i k) ≡ want i k
    pub outside : (p : Place) → IsOutside p → byte_at v.world p ≡ byte_at start p

  -- A place is safe from the requests in flight if no missing byte of a chunk goes there.
  Untouched_lem :
      (v : Vars r) (p : Place) (es : List Entry)
      → ((i m : ℕ) → i < count → so_far r v i ≤ m → m < chunk_len i → l.to i m ≢ p)
      → All (λ e. IsOpen r plan depth l (so_far r v e.user_data) e) es
      → Untouched p es
  Untouched_lem v p es h =
      All-map (λ e. IsOpen r plan depth l (so_far r v e.user_data) e)
        (λ e. (k : ℕ) → k < e.len → target e k ≢ p) es
        λ e o k lt same.
          h e.user_data (so_far r v e.user_data + k) o.in_range (omega arith)
            (omega (arith, o.fits)) (sym (o.writes k) ∙ same)

  module _ (v : Vars r) (h : Holds v) where
    open h.ready use {inv}

    Untouched-source :
        (i k : ℕ) → i < count → k < chunk_len i → Untouched (l.from i k) (pending v.world)
    Untouched-source i k hi hk =
        Untouched_lem v (l.from i k) (pending v.world)
          (λ j m hj from hm e. s.elsewhere i k j m hi hk hj hm (sym e)) inv.open_all

    Untouched-outside : (p : Place) → IsOutside p → Untouched p (pending v.world)
    Untouched-outside p o =
        Untouched_lem v p (pending v.world) (λ j m hj from hm. o j m hj hm) inv.open_all

    Untouched-arrived : (i k : ℕ) → k < so_far r v i → Untouched (l.to i k) (pending v.world)
    Untouched-arrived i k lt =
        let hi : i < count = omega (arith, lt-of-get_or v.bytes_done i, inv.size_done) in
        let hk : k < chunk_len i = omega (arith, inv.bounded i) in
        Untouched_lem v (l.to i k) (pending v.world)
          (λ j m hj from hm e. ground (arith, s.apart j m i k hj hm hi hk e)) inv.open_all

    abbrev waited : r.World
    waited = (r.submit_and_wait v.world).1

    abbrev reaped : r.World
    reaped = (r.completion waited).1

    same_byte : (p : Place) → Untouched p (pending v.world) → byte_at reaped p ≡ byte_at v.world p
    same_byte p u =
        laws.completion_bytes waited p (rw (laws.wait_pending v.world) u)
        ∙ laws.wait_bytes v.world p u

    -- The variables when the completions are drained.
    abbrev pub drained : Vars r
    drained = record v {
      pending_error = elim (r.submit_and_wait v.world).0 [
        | none ↦ v.pending_error
        | some e ↦ get_or_insert v.pending_error e
      ];
      world = reaped;
    }

    -- What `submit_and_wait` and the completions of a round do: no panic, and the bytes stay right.
    pub record Waits : Type 0 where
      pub after : Vars r
      pub returns : wait_and_reap r plan depth v ≡ some after
      pub holds : Holds after
      pub tally : Tally r plan depth l drained after (r.completion waited).0

    abbrev Moved : Entry → ℤ → Type 0
    Moved e z =
        (pos_part z ≤ e.len)
        × ((k : ℕ)
            → k < pos_part z
            → Untouched (source e k) (pending waited)
            → byte_at reaped (target e k) ≡ byte_at waited (source e k))

    abbrev Arrives : ℕ → ℕ → Type 0
    Arrives i k = byte_at reaped (l.to i k) ≡ want i k

    Moved-Arrives :
        (e : Entry) (z : ℤ) (d : ℕ)
        → IsOpen r plan depth l d e
        → Moved e z
        → (k : ℕ) → k < pos_part z
        → Arrives e.user_data (d + k)
    Moved-Arrives e z d o (fits, moved) k lt =
        let in_chunk : d + k < chunk_len e.user_data = omega (arith, o.fits) in
        let safe = Untouched-source e.user_data (d + k) o.in_range in_chunk in
        let safe_here =
          subst (λ p. Untouched p (pending waited)) (sym (o.reads k))
            (rw (laws.wait_pending v.world) safe) in
        ap (byte_at reaped) (sym (o.writes k))
        ∙ moved k lt safe_here
        ∙ ap (byte_at waited) (o.reads k)
        ∙ laws.wait_bytes v.world (l.from e.user_data (d + k)) safe
        ∙ h.sources e.user_data (d + k) o.in_range in_chunk

    drained-Inv : Inv r plan depth l (pending waited) drained
    drained-Inv = rw (laws.wait_pending v.world) (record {
      size_done = inv.size_done;
      size_state = inv.size_state;
      counted = inv.counted;
      deep = inv.deep;
      single = inv.single;
      bounded = inv.bounded;
      finished = inv.finished;
      open_all = inv.open_all;
    })

    pub wait_and_reap-Waits : Waits
    unfolding wait_and_reap
    wait_and_reap-Waits = record {
      after = run.after;
      returns = run.returns;
      holds = record {
        ready = record {
          inv =
              subst (λ w. Inv r plan depth l (pending w) run.after) (sym run.tally.same_world)
                run.inv;
          room = omega (
            arith,
            h.ready.room,
            ap r.sq_entries run.tally.same_world,
            laws.completion_entries waited,
            laws.wait_entries v.world,
          );
        };
        sources =
            λ i k hi hk. at_end (l.from i k) (Untouched-source i k hi hk) ∙ h.sources i k hi hk;
        arrived = λ i k lt.
            ap (λ w. byte_at w (l.to i k)) run.tally.same_world
            ∙ run.landed
                (λ j m below.
                  same_byte (l.to j m) (Untouched-arrived j m below) ∙ h.arrived j m below)
                i k lt;
        outside = λ p o. at_end p (Untouched-outside p o) ∙ h.outside p o;
      };
      tally = run.tally;
    }
      where
        run :
            Reaping r plan depth l Moved Arrives
              (λ e z m. m.0)
              Moved-Arrives
              (pending reaped)
              (r.completion waited).0
              drained
        run =
            complete_all-Reaping r plan depth l Moved Arrives (λ e z m. m.0) Moved-Arrives drained
              (laws.completion_reaps waited) drained-Inv

        at_end :
            (p : Place)
            → Untouched p (pending v.world)
            → byte_at run.after.world p ≡ byte_at v.world p
        at_end p u = ap (λ w. byte_at w p) run.tally.same_world ∙ same_byte p u
