-- ===== src/Uring/Tests/Simulated.antt =====
-- A ring that keeps the laws: it Answers the newest request first, with two bytes at most.
use fastio.Prelude.{
  ℕ, zero, suc, subst, get_elem?, Bool, false, ltb→lt, ◌+◌, ◌-◌, ◌≤◌, ◌<◌, ◌≡◌, ◌≢◌, inl, inr, refl,
  ap, ◌∙◌, Bool-cases, ◌==◌, ltb, leb, true, ◌&&◌, if◌then◌else◌, min, List, [], ◌∷◌, Option, none,
  some, length, arith,
}
use fastio.Prelude.Int.{ℤ, pos, pos_part}
use fastio.Uring.Ring.{
  Ring, Laws, Entry, Cqe, Place, memory, contents, Opcode, read_op, write_op, source, target,
  Untouched, Reaped, none_left, one_more, first, to_list,
}
use mathlib.Core.Option.{some-injective}
use fastio.Io.{Error}
use fastio.Uring.Loop.{raw_os_error}
use fastio.Uring.Loop.Drive.{Wakes}
use fastio.Uring.Loop.Origin.{AllAsk, IsHealthy}

pub record Kernel : Type 0 where
  pub queue : List Entry
  pub bytes : Place → ℕ
  pub entries : ℕ

abbrev pub granted : Entry → ℕ
granted e = min e.len 2

-- The first `n` bytes of the request are moved.
abbrev pub moved_read : Entry → ℕ → (Place → ℕ) → Place → ℕ
moved_read e n f (memory a) =
    if leb e.address a && ltb a (e.address + n)
    then f (contents e.fd (e.offset + (a - e.address)))
    else f (memory a)
moved_read e n f (contents d a) = f (contents d a)

abbrev pub moved_write : Entry → ℕ → (Place → ℕ) → Place → ℕ
moved_write e n f (memory a) = f (memory a)
moved_write e n f (contents d a) =
    if d == e.fd && (leb e.offset a && ltb a (e.offset + n))
    then f (memory (e.address + (a - e.offset)))
    else f (contents d a)

abbrev pub moved_by : Opcode → Entry → ℕ → (Place → ℕ) → Place → ℕ
moved_by read_op e n f p = moved_read e n f p
moved_by write_op e n f p = moved_write e n f p

abbrev pub take_newest : Kernel → List Entry → List Cqe × Kernel
take_newest w [] = ([], w)
take_newest w (e ∷ es) = (
  record { user_data = e.user_data; result = pos (granted e) } ∷ [],
  record { queue = es; bytes = moved_by e.opcode e (granted e) w.bytes; entries = w.entries },
)

abbrev pub first_of : List Cqe → Option Cqe
first_of [] = none
first_of (c ∷ cs) = some c

-- The most entries that a ring may have.
abbrev too_deep : Error
too_deep = raw_os_error 22

abbrev pub simulated : Ring
simulated = record {
  World = Kernel;
  push = λ e w.
      if ltb (length w.queue) w.entries then some (record w { queue = e ∷ w.queue }) else none;
  submit_and_wait = λ w. (none, w);
  completion = λ w. take_newest w w.queue;
  next = λ w. (first_of (take_newest w w.queue).0, (take_newest w w.queue).1);
  sq_entries = λ w. w.entries;
  is_cached = λ w. true;
  create = λ depth w. if ltb 32768 depth then inl too_deep else inr (record w { entries = depth });
}

pub moved_lem :
    (o : Opcode) (e : Entry) (n k : ℕ) (f : Place → ℕ)
    → e.opcode ≡ o
    → k < n
    → moved_by o e n f (target e k) ≡ f (source e k)
moved_lem read_op e n k f h lt = ground arith
moved_lem write_op e n k f h lt = ground arith

pub moved_other :
    (o : Opcode) (e : Entry) (n : ℕ) (f : Place → ℕ) (p : Place)
    → e.opcode ≡ o
    → ((k : ℕ) → k < n → target e k ≢ p)
    → moved_by o e n f p ≡ f p
moved_other read_op e n f (memory a) h far = ground (arith, far (a - e.address))
moved_other read_op e n f (contents d a) h far = refl
moved_other write_op e n f (memory a) h far = refl
moved_other write_op e n f (contents d a) h far = ground (arith, far (a - e.offset))

abbrev pub Answers : Kernel → Kernel → Entry → ℤ → Type 0
Answers w w' e z =
    (pos_part z ≤ e.len)
    × ((k : ℕ)
        → k < pos_part z
        → Untouched (source e k) w.queue
        → w'.bytes (target e k) ≡ w.bytes (source e k))

pub take_newest-Reaped :
    (w : Kernel) (es : List Entry)
    → w.queue ≡ es
    → Reaped (Answers w (take_newest w es).1) es (take_newest w es).0 (take_newest w es).1.queue
take_newest-Reaped w [] h = rw h (none_left [])
take_newest-Reaped w (e ∷ es) h =
    one_more e _ (first es) refl
      (omega arith, λ k lt safe. moved_lem e.opcode e (granted e) k w.bytes refl lt) (none_left es)

pub take_next-Reaped :
    (w : Kernel) (es : List Entry)
    → w.queue ≡ es
    → Reaped
        (Answers w (take_newest w es).1)
        es
        (to_list (first_of (take_newest w es).0))
        (take_newest w es).1.queue
take_next-Reaped w [] h = take_newest-Reaped w [] h
take_next-Reaped w (e ∷ es) h = take_newest-Reaped w (e ∷ es) h

pub take_newest-bytes :
    (w : Kernel) (es : List Entry) (p : Place)
    → Untouched p es
    → (take_newest w es).1.bytes p ≡ w.bytes p
take_newest-bytes w [] p u = refl
take_newest-bytes w (e ∷ es) p u =
    moved_other e.opcode e (granted e) w.bytes p refl (λ k lt. u.0 k (omega arith))

pub take_newest-entries : (w : Kernel) (es : List Entry) → (take_newest w es).1.entries ≡ w.entries
take_newest-entries w [] = refl
take_newest-entries w (e ∷ es) = refl

pub pushed :
    (e : Entry) (w w' : Kernel)
    → simulated.push e w ≡ some w'
    → w' ≡ record w { queue = e ∷ w.queue }
pushed e w w' h = elim (Bool-cases (ltb (length w.queue) w.entries)) [
  | inl room ↦ let same = rw room at h in cc same
  | inr full ↦ let same = rw full at h in cc same
]

pub created :
    (depth : ℕ) (w w' : Kernel)
    → simulated.create depth w ≡ inr w'
    → w' ≡ record w { entries = depth }
created depth w w' h = elim (Bool-cases (ltb 32768 depth)) [
  | inl deep ↦ let none_made = rw deep at h in cc none_made
  | inr fine ↦ let made = rw fine at h in cc made
]

pub has_room : (e : Entry) (w : Kernel) → length w.queue < w.entries → simulated.push e w ≢ none
has_room e w lt h = ground arith

abbrev pub simulated_laws : Laws simulated
simulated_laws = record {
  pending = λ w. w.queue;
  byte_at = λ w. w.bytes;
  push_pending = λ e w w' h. ap (λ (k : Kernel). k.queue) (pushed e w w' h);
  push_room = has_room;
  push_bytes = λ e w w' p h. ap (λ (k : Kernel). k.bytes p) (pushed e w w' h);
  push_entries = λ e w w' h. ap (λ (k : Kernel). k.entries) (pushed e w w' h);
  wait_pending = λ w. refl;
  wait_bytes = λ w p u. refl;
  wait_entries = λ w. refl;
  completion_reaps = λ w. take_newest-Reaped w w.queue refl;
  completion_bytes = λ w p u. take_newest-bytes w w.queue p u;
  completion_entries = λ w. take_newest-entries w w.queue;
  next_reaps = λ w. take_next-Reaped w w.queue refl;
  next_bytes = λ w p u. take_newest-bytes w w.queue p u;
  create_pending = λ depth w w' h q. ap (λ (k : Kernel). k.queue) (created depth w w' h) ∙ q;
  create_entries =
      λ depth w w' h. omega (arith, ap (λ (k : Kernel). k.entries) (created depth w w' h));
  create_bytes = λ depth w w' p h. ap (λ (k : Kernel). k.bytes p) (created depth w w' h);
}

pub simulated-Wakes : Wakes simulated simulated_laws
simulated-Wakes w some_request = by_queue w.queue refl
  where
    by_queue : (es : List Entry) → w.queue ≡ es → 0 < length (take_newest w w.queue).0
    by_queue [] h = absurd (some_request h)
    by_queue (e ∷ es) h = ground (arith, h)

pub simulated-IsHealthy : (depth : ℕ) → depth ≤ 32768 → IsHealthy simulated simulated_laws depth
simulated-IsHealthy depth few = record {
  waits = λ w. refl;
  moves = λ w asks i c among. by_queue w w.queue asks i c among;
  makes = λ w e none_made. not_made w e (ltb 32768 depth) none_made refl;
}
  where
    by_queue :
        (w : Kernel) (es : List Entry)
        → AllAsk es
        → (i : ℕ) (c : Cqe) → get_elem? (take_newest w es).0 i ≡ some c
        → 0 < pos_part c.result
    by_queue w [] asks i c among = cc
    by_queue w (e ∷ es) asks zero c among =
        subst (λ (a : Cqe). 0 < pos_part a.result) (some-injective _ c among)
          (omega (arith, asks.0))
    by_queue w (e ∷ es) asks (suc i) c among = cc

    not_made :
        (w : Kernel) (e : Error) (b : Bool)
        → simulated.create depth w ≡ inl e
        → ltb 32768 depth ≡ b
        → ⊥
    not_made w e true h deep = absurd (omega (arith, ltb→lt _ _ deep, few))
    not_made w e false h fine = let made = rw fine at h in cc made
