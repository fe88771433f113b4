-- ===== src/Uring/Once/Reply.antt =====
-- What one submitted request does (`submit_read_at`, `submit_write_at` of src/uring.rs).
use fastio.Prelude.{
  ℕ, suc, ◌≤◌, ◌<◌, ◌≡◌, ◌≢◌, inl, inr, refl, ◌∙◌, sym, ap, subst, subst₂, List, [], ◌∷◌, Option,
  none, some, length, ◌==◌, Bool-cases, arith,
}
use fastio.Prelude.Int.{ℤ, pos, negsuc, pos_part}
use fastio.Io.{Error, Message, Result, ok, err, read_no_cqe, write_no_cqe}
use fastio.Uring.Ring.{
  Ring, Laws, Entry, Cqe, Place, Opcode, read_op, write_op, source, target, Untouched, Picks, first,
  later, Reaped, none_left, one_more, to_list,
}
use fastio.Uring.Loop.{raw_os_error}
use fastio.Uring.Cache.{File, init_error, with_ring, with_ring-cases}
use fastio.Uring.Exact.{Slice}
use fastio.Uring.Once.{once_entry, cqe_result, submit_once, submit_read_at, submit_write_at}

-- A request reads from the other side than it writes to.
pub source-Untouched : (e : Entry) (k : ℕ) → Untouched (source e k) (e ∷ [])
source-Untouched e k = (by_opcode e.opcode refl, tt)
  where
    by_opcode : (o : Opcode) → e.opcode ≡ o → (m : ℕ) → m < e.len → target e m ≢ source e k
    by_opcode read_op h m lt same = ground arith
    by_opcode write_op h m lt same = ground arith

no_Picks : {e : Entry} {p q : List Entry} → Picks e p q → p ≢ []
no_Picks (first p) h = cc
no_Picks (later x rest) h = cc

Picks-one : {e x : Entry} {p q : List Entry} → Picks e p q → p ≡ x ∷ [] → (e ≡ x) × (q ≡ [])
Picks-one (first p) h = (cc, cc)
Picks-one (later y rest) h = absurd (no_Picks rest (cc))

module _ (G : Entry → ℤ → Type 0) where
  -- With one request in flight: it is still there, or it was answered.
  abbrev pub Answer : Entry → List Entry → Option Cqe → Type 0
  Answer e s none = s ≡ e ∷ []
  Answer e s (some c) = (s ≡ []) × G e c.result

  Reaped-nil : {p s : List Entry} {cs : List Cqe} → Reaped G p cs s → cs ≡ [] → s ≡ p
  Reaped-nil (none_left p) h = refl
  Reaped-nil (one_more e c picked same good rest) h = cc

  pub Reaped-Answer :
      {p s : List Entry} {cs : List Cqe} (e : Entry) (o : Option Cqe)
      → Reaped G p cs s
      → p ≡ e ∷ []
      → cs ≡ to_list o
      → Answer e s o
  Reaped-Answer e none (none_left p) h k = h
  Reaped-Answer e (some c) (none_left p) h k = cc
  Reaped-Answer e none (one_more x c picked same good rest) h k = cc
  Reaped-Answer e (some d) (one_more x c picked same good rest) h k =
      let one = Picks-one picked h in
      let same_cqe : c ≡ d = cc in
      let nil = Reaped-nil rest (cc) in
      (nil ∙ one.1, subst₂ (λ y z. G y (Cqe.result z)) one.0 same_cqe good)

module _ (r : Ring) (laws : Laws r) where
  open laws use {pending, byte_at}

  -- No byte but the targets of the request has changed.
  abbrev pub Elsewhere : Entry → r.World → r.World → Type 0
  Elsewhere e w w' = (p : Place) → Untouched p (e ∷ []) → byte_at w' p ≡ byte_at w p

  -- What a single request leads to: `n` bytes are moved; or the kernel reports an error, or
  -- no ring could be made; or the call returns while the request is in flight, since the wait failed or left no completion.
  pub data Reply (e : Entry) (w : r.World) : Result ℕ × r.World → Type 0 where
    moved :
        (n : ℕ) (w' : r.World)
        → n ≤ e.len
        → pending w' ≡ []
        → ((k : ℕ) → k < n → byte_at w' (target e k) ≡ byte_at w (source e k))
        → Elsewhere e w w'
        → Reply e w (ok n, w')
    refused :
        (x : Error) (w' : r.World) → pending w' ≡ [] → Elsewhere e w w' → Reply e w (err x, w')
    left_over :
        (x : Error) (w' : r.World) → pending w' ≡ e ∷ [] → Elsewhere e w w' → Reply e w (err x, w')

  module _ (m : Message) (e : Entry) (w : r.World) (quiet : pending w ≡ []) where
    -- The rest of the closure, with the request pushed.
    module _ (pushed : r.World) (h : r.push e w ≡ some pushed) where
      abbrev waited : r.World
      waited = (r.submit_and_wait pushed).1

      abbrev reaped : r.World
      reaped = (r.next waited).1

      one_pending : pending pushed ≡ e ∷ []
      one_pending = laws.push_pending e w pushed h ∙ ap (e ∷◌) quiet

      one_waited : pending waited ≡ e ∷ []
      one_waited = laws.wait_pending pushed ∙ one_pending

      waited-Elsewhere : Elsewhere e w waited
      waited-Elsewhere p far =
          laws.wait_bytes pushed p (subst (Untouched p) (sym one_pending) far)
          ∙ laws.push_bytes e w pushed p h

      reaped-Elsewhere : Elsewhere e w reaped
      reaped-Elsewhere p far =
          laws.next_bytes waited p (subst (Untouched p) (sym one_waited) far)
          ∙ waited-Elsewhere p far

      abbrev Moved : Entry → ℤ → Type 0
      Moved x z =
          (pos_part z ≤ x.len)
          × ((k : ℕ)
              → k < pos_part z
              → Untouched (source x k) (pending waited)
              → byte_at reaped (target x k) ≡ byte_at waited (source x k))

      result-Reply :
          (z : ℤ)
          → Moved e z
          → pending reaped ≡ []
          → (u : ℕ) → Reply e w (cqe_result m (some (record { user_data = u; result = z })), reaped)
      result-Reply (pos n) good nil u =
          moved n reaped good.0 nil
            (λ k lt.
              good.1 k lt (subst (Untouched (source e k)) (sym one_waited) (source-Untouched e k))
              ∙ waited-Elsewhere (source e k) (source-Untouched e k))
            reaped-Elsewhere
      result-Reply (negsuc n) good nil u =
          refused (raw_os_error (suc n)) reaped nil reaped-Elsewhere

      reaped-Reply : Reply e w (cqe_result m (r.next waited).0, reaped)
      reaped-Reply =
          by_cqe (r.next waited).0
            (Reaped-Answer Moved e (r.next waited).0 (laws.next_reaps waited) one_waited refl)
        where
          by_cqe :
              (o : Option Cqe)
              → Answer Moved e (pending reaped) o
              → Reply e w (cqe_result m o, reaped)
          by_cqe none still = left_over _ reaped still reaped-Elsewhere
          by_cqe (some c) answered = result-Reply c.result answered.1 answered.0 c.user_data

      pushed-Reply :
          (o : Option Error)
          → Reply e w (elim o [
            | some x ↦ (err x, waited)
            | none ↦ (cqe_result m (r.next waited).0, reaped)
          ])
      pushed-Reply none = reaped-Reply
      pushed-Reply (some x) = left_over x waited one_waited waited-Elsewhere

    -- With an empty queue that has room, the closure has one of these outcomes.
    pub submit_once-Reply : 0 < r.sq_entries w → Reply e w (submit_once r m e w)
    unfolding submit_once
    submit_once-Reply room = by_push (r.push e w) refl
      where
        by_push : (o : Option r.World) → r.push e w ≡ o → Reply e w (submit_once r m e w)
        by_push none h = absurd (laws.push_room e w (omega (arith, ap length quiet, room)) h)
        by_push (some pushed) h =
            rw (h, submit_once) (pushed-Reply pushed h (r.submit_and_wait pushed).0)

  -- The bytes as they were before the ring was made.
  Reply-rebase :
      (e : Entry) (w v : r.World) (res : Result ℕ × r.World)
      → ((p : Place) → byte_at v p ≡ byte_at w p)
      → Reply e v res
      → Reply e w res
  Reply-rebase e w v _ same (moved n w' le quiet arrived far) =
      moved n w' le quiet (λ k lt. arrived k lt ∙ same (source e k)) (λ p out. far p out ∙ same p)
  Reply-rebase e w v _ same (refused x w' quiet far) =
      refused x w' quiet (λ p out. far p out ∙ same p)
  Reply-rebase e w v _ same (left_over x w' still far) =
      left_over x w' still (λ p out. far p out ∙ same p)

  with_ring-Reply :
      (m : Message) (file : File) (e : Entry) (w : r.World)
      → 0 < file.ring_depth
      → pending w ≡ []
      → Reply e w (with_ring r file (submit_once r m e) w)
  with_ring-Reply m file e w deep quiet =
      elim (with_ring-cases r laws file (submit_once r m e) w quiet) [
        | inl made ↦ subst (Reply e w) (sym made.2) (
            Reply-rebase e w made.0 _ made.1.bytes
              (submit_once-Reply m e made.0 made.1.quiet (omega (arith, deep, made.1.room))))
        | inr failed ↦
            subst (Reply e w) (sym failed.2) (refused (init_error failed.0) w quiet (λ p out. refl))
      ]

  nothing_moved : (e : Entry) (w : r.World) → pending w ≡ [] → Reply e w (ok 0, w)
  nothing_moved e w quiet =
      moved 0 w (omega arith) quiet (λ k lt. absurd (omega (arith, lt))) (λ p out. refl)

  module _ (file : File) (offset : ℕ) (buf : Slice) (w : r.World) (deep : 0 < file.ring_depth)
      (quiet : pending w ≡ []) where
    pub submit_read_at-Reply :
        Reply (once_entry read_op file offset buf) w (submit_read_at r file offset buf w)
    unfolding submit_read_at
    submit_read_at-Reply = elim (Bool-cases (buf.size == 0)) [
      | inl e ↦ rw e (nothing_moved (once_entry read_op file offset buf) w quiet)
      | inr e ↦
          rw e (with_ring-Reply read_no_cqe file (once_entry read_op file offset buf) w deep quiet)
    ]

    pub submit_write_at-Reply :
        Reply (once_entry write_op file offset buf) w (submit_write_at r file offset buf w)
    unfolding submit_write_at
    submit_write_at-Reply = elim (Bool-cases (buf.size == 0)) [
      | inl e ↦ rw e (nothing_moved (once_entry write_op file offset buf) w quiet)
      | inr e ↦
          rw e
            (with_ring-Reply write_no_cqe file (once_entry write_op file offset buf) w deep quiet)
    ]
