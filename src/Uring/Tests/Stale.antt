-- ===== src/Uring/Tests/Stale.antt =====
-- A ring that keeps the laws and answers the oldest request first. A request that one call left in
-- flight is then taken for one of the next call (src/uring.rs).
use fastio.Prelude.{ℕ, ◌+◌, ◌*◌, ◌<◌, ◌≡◌, ◌≢◌, refl, map, ap, ◌∙◌, List, [], ◌∷◌, All, arith}
use fastio.Prelude.Int.{pos}
use fastio.Io.{Result, ok, err, u64_max}
use fastio.Uring.Ring.{
  Ring, Laws, Entry, Cqe, Place, memory, contents, target, Untouched, Picks, first, later, Reaped,
  none_left, one_more, to_list,
}
use fastio.Uring.Cache.{File}
use fastio.Uring.Exact.{submit_read_exact_at, reading, overflow_error}
use fastio.Uring.Tests.Simulated.{
  Kernel, granted, moved_by, moved_lem, moved_other, Answers, first_of, simulated, pushed, created,
  has_room,
}

abbrev oldest : Entry → List Entry → Entry
oldest e [] = e
oldest e (f ∷ es) = oldest f es

abbrev newer : Entry → List Entry → List Entry
newer e [] = []
newer e (f ∷ es) = e ∷ newer f es

oldest-Picks : (e : Entry) (es : List Entry) → Picks (oldest e es) (e ∷ es) (newer e es)
oldest-Picks e [] = first []
oldest-Picks e (f ∷ es) = later e (oldest-Picks f es)

All-oldest {ℓ} :
    (P : Entry → Type ℓ) (e : Entry) (es : List Entry) → All P (e ∷ es) → P (oldest e es)
All-oldest P e [] h = h.0
All-oldest P e (f ∷ es) h = All-oldest P f es h.1

abbrev take_oldest : Kernel → List Entry → List Cqe × Kernel
take_oldest w [] = ([], w)
take_oldest w (e ∷ es) =
    let o = oldest e es in
    (
      record { user_data = o.user_data; result = pos (granted o) } ∷ [],
      record {
        queue = newer e es;
        bytes = moved_by o.opcode o (granted o) w.bytes;
        entries = w.entries;
      },
    )

abbrev in_order : Ring
in_order = record simulated {
  completion = λ w. take_oldest w w.queue;
  next = λ w. (first_of (take_oldest w w.queue).0, (take_oldest w w.queue).1);
}

take_oldest-Reaped :
    (w : Kernel) (es : List Entry)
    → w.queue ≡ es
    → Reaped (Answers w (take_oldest w es).1) es (take_oldest w es).0 (take_oldest w es).1.queue
take_oldest-Reaped w [] h = rw h (none_left [])
take_oldest-Reaped w (e ∷ es) h =
    let o = oldest e es in
    one_more o _ (oldest-Picks e es) refl
      (omega arith, λ k lt safe. moved_lem o.opcode o (granted o) k w.bytes refl lt)
      (none_left (newer e es))

take_next-Reaped :
    (w : Kernel) (es : List Entry)
    → w.queue ≡ es
    → Reaped
        (Answers w (take_oldest w es).1)
        es
        (to_list (first_of (take_oldest w es).0))
        (take_oldest w es).1.queue
take_next-Reaped w [] h = take_oldest-Reaped w [] h
take_next-Reaped w (e ∷ es) h = take_oldest-Reaped w (e ∷ es) h

take_oldest-bytes :
    (w : Kernel) (es : List Entry) (p : Place)
    → Untouched p es
    → (take_oldest w es).1.bytes p ≡ w.bytes p
take_oldest-bytes w [] p u = refl
take_oldest-bytes w (e ∷ es) p u =
    let o = oldest e es in
    moved_other o.opcode o (granted o) w.bytes p refl
      (λ k lt. All-oldest (λ x. (m : ℕ) → m < x.len → target x m ≢ p) e es u k (omega arith))

take_oldest-entries : (w : Kernel) (es : List Entry) → (take_oldest w es).1.entries ≡ w.entries
take_oldest-entries w [] = refl
take_oldest-entries w (e ∷ es) = refl

abbrev in_order_laws : Laws in_order
in_order_laws = record {
  pending = λ w. w.queue;
  byte_at = λ w. w.bytes;
  push_pending = λ e w w' h. ap (λ (k : Kernel). k.queue) (pushed e w w' h);
  push_room = has_room;
  push_bytes = λ e w w' p h. ap (λ (k : Kernel). k.bytes p) (pushed e w w' h);
  push_entries = λ e w w' h. ap (λ (k : Kernel). k.entries) (pushed e w w' h);
  wait_pending = λ w. refl;
  wait_bytes = λ w p u. refl;
  wait_entries = λ w. refl;
  completion_reaps = λ w. take_oldest-Reaped w w.queue refl;
  completion_bytes = λ w p u. take_oldest-bytes w w.queue p u;
  completion_entries = λ w. take_oldest-entries w w.queue;
  next_reaps = λ w. take_next-Reaped w w.queue refl;
  next_bytes = λ w p u. take_oldest-bytes w w.queue p u;
  create_pending = λ depth w w' h q. ap (λ (k : Kernel). k.queue) (created depth w w' h) ∙ q;
  create_entries =
      λ depth w w' h. omega (arith, ap (λ (k : Kernel). k.entries) (created depth w w' h));
  create_bytes = λ depth w w' p h. ap (λ (k : Kernel). k.bytes p) (created depth w w' h);
}

-- Byte `a` of file `d` is 100 * d + a, and byte `a` of the memory is a.
abbrev fresh_bytes : Place → ℕ
fresh_bytes (memory a) = a
fresh_bytes (contents d a) = 100 * d + a

abbrev idle_kernel : Kernel
idle_kernel = record { queue = []; bytes = fresh_bytes; entries = 2 }

abbrev reader : File
reader = record { fd = 7; ring_depth = 2; chunk_size = 3 }

-- The second chunk does not start at a `u64`, so the call returns with its first request in flight.
abbrev first_call : Result (Unit {0}) × Kernel
first_call =
    submit_read_exact_at in_order reader u64_max (record { address = 40; size = 4 }) idle_kernel

-- The next call reads two bytes.
abbrev second_call : Result (Unit {0}) × Kernel
second_call =
    submit_read_exact_at in_order reader 20 (record { address = 60; size = 2 }) first_call.1

first_fails : first_call.0 ≡ err (overflow_error reading)
unfolding submit_read_exact_at
first_fails = refl

-- The next call returns `Ok` with the completion of the first request; its own is in flight, and
-- its buffer has not been filled.
second_misled : second_call.0 ≡ ok tt
unfolding submit_read_exact_at
second_misled = refl

own_in_flight : map (λ (e : Entry). e.address) second_call.1.queue ≡ 60 ∷ []
unfolding submit_read_exact_at
own_in_flight = refl

not_filled : (second_call.1.bytes (memory 60) ≡ 60) × (second_call.1.bytes (contents 7 20) ≡ 720)
unfolding submit_read_exact_at
not_filled = (refl, refl)
