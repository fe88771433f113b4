-- ===== src/Uring/Exact/Chunks.antt =====
-- The chunks of a buffer tile it, and a request of a chunk asks for its bytes (src/uring.rs).
use fastio.Prelude.{
  ℕ, ◌+◌, ◌*◌, ◌/◌, ◌%◌, ◌≤◌, ◌<◌, ◌≡◌, ◌≢◌, ◌⊎◌, inl, inr, refl, ◌∙◌, ◌==◌, leb, leb→lt, ap, ==→≡,
  Bool-cases, ltb, ltb→lt, ltb→le, arith,
}
use fastio.Io.{Error, ok, err, ok-ne-err, err_inj, u64_max}
use fastio.Uring.Ring.{Entry, Place, memory, contents, read_op, write_op, Opcode, source, target}
use fastio.Uring.Loop.{Plan}
use fastio.Uring.Loop.Invariant.{PlanLaws}
use fastio.Uring.Loop.Bytes.{Separate}
use fastio.Uring.Cache.{File}
use fastio.Uring.Exact.{
  Slice, Direction, div_ceil, chunk_len_at, chunk_size_for, exact_plan, exact_entry, overflow_error,
}

-- A position inside of a buffer lies in one chunk, at one place.
pub chunk_unique : (c i j k m : ℕ) → k < c → m < c → i * c + k ≡ j * c + m → (i ≡ j) × (k ≡ m)
chunk_unique c i j k m hk hm e = elim (Bool-cases (ltb i j)) [
  | inl lt ↦ absurd (next i j k (ltb→lt _ _ lt) hk (omega arith))
  | inr le ↦ elim (Bool-cases (ltb j i)) [
    | inl lt ↦ absurd (next j i m (ltb→lt _ _ lt) hm (omega arith))
    | inr ge ↦
        let same : i ≡ j = omega (arith, ltb→le _ _ le, ltb→le _ _ ge) in
        (same, omega (arith, ap (λ (x : ℕ). x * c) same))
  ]
]
  where
    next : (i j k : ℕ) → i < j → k < c → j * c ≤ i * c + k → ⊥
    next i j k lt hk h = grind arith

pub chunk-lt : (c total i k : ℕ) → k < chunk_len_at c total i → (k < c) × (i * c + k < total)
chunk-lt c total i k h = omega arith

-- Every position lies in a chunk.
pub chunk_of :
    (c total n : ℕ)
    → 0 < c
    → n < total
    → (n / c < div_ceil total c) × (n % c < chunk_len_at c total (n / c)) × (n / c * c + n % c ≡ n)
chunk_of c total n pos lt = (in_count, ground (arith, split, small), split)
  where
    small : n % c < c
    small = omega arith

    split : n / c * c + n % c ≡ n
    split = omega arith

    whole : total / c * c + total % c ≡ total
    whole = omega arith

    beyond : (q t : ℕ) → t ≤ q → t * c ≤ q * c
    beyond q t h = grind arith

    in_count : n / c < div_ceil total c
    in_count = elim (Bool-cases (total % c == 0)) [
      | inl even ↦ elim (Bool-cases (ltb (n / c) (total / c))) [
        | inl below ↦ rw even (omega (arith, ltb→lt _ _ below))
        | inr ge ↦ absurd (omega (arith, ==→≡ _ _ even, beyond (n / c) (total / c) (ltb→le _ _ ge)))
      ]
      | inr odd ↦ elim (Bool-cases (ltb (n / c) (total / c + 1))) [
        | inl below ↦ rw odd (ltb→lt _ _ below)
        | inr ge ↦ absurd (omega (arith, beyond (n / c) (total / c + 1) (ltb→le _ _ ge)))
      ]
    ]

-- The two ends of a direction: `near` is the memory, `far` the file.
abbrev pub ends : Opcode → Place → Place → Place × Place
ends read_op near far = (far, near)
ends write_op near far = (near, far)

source_lem :
    (o : Opcode) (fd a n f u k : ℕ)
    → source (record { opcode = o; fd = fd; address = a; len = n; offset = f; user_data = u }) k
      ≡ (ends o (memory (a + k)) (contents fd (f + k))).0
source_lem read_op fd a n f u k = refl
source_lem write_op fd a n f u k = refl

target_lem :
    (o : Opcode) (fd a n f u k : ℕ)
    → target (record { opcode = o; fd = fd; address = a; len = n; offset = f; user_data = u }) k
      ≡ (ends o (memory (a + k)) (contents fd (f + k))).1
target_lem read_op fd a n f u k = refl
target_lem write_op fd a n f u k = refl

to_inj :
    (o : Opcode) (a fd f n m : ℕ)
    → (ends o (memory (a + n)) (contents fd (f + n))).1
      ≡ (ends o (memory (a + m)) (contents fd (f + m))).1
    → n ≡ m
to_inj read_op a fd f n m e = ground arith
to_inj write_op a fd f n m e = ground arith

from-ne-to :
    (o : Opcode) (a fd f n m : ℕ)
    → (ends o (memory (a + n)) (contents fd (f + n))).0
      ≢ (ends o (memory (a + m)) (contents fd (f + m))).1
from-ne-to read_op a fd f n m e = cc
from-ne-to write_op a fd f n m e = cc

module _ (d : Direction) (file : File) (offset : ℕ) (buf : Slice) where
  abbrev pub size : ℕ
  size = chunk_size_for file buf

  -- The places of byte `n` of the buffer: where it comes from, and where it goes.
  abbrev pub byte_from : ℕ → Place
  byte_from n = (ends d.opcode (memory (buf.address + n)) (contents file.fd (offset + n))).0

  abbrev pub byte_to : ℕ → Place
  byte_to n = (ends d.opcode (memory (buf.address + n)) (contents file.fd (offset + n))).1

  pub exact_entry-cases :
      (idx so_far len : ℕ)
      → ((e : Entry) × (exact_entry d file offset buf idx so_far len ≡ ok e)
          × (e.user_data ≡ idx)
          × (e.len ≡ len)
          × ((k : ℕ) → source e k ≡ byte_from (idx * size + (so_far + k)))
          × ((k : ℕ) → target e k ≡ byte_to (idx * size + (so_far + k))))
        ⊎ ((x : Error) × (exact_entry d file offset buf idx so_far len ≡ err x))
  unfolding exact_entry
  exact_entry-cases idx so_far len = elim (Bool-cases (leb (offset + at) u64_max)) [
    | inr over ↦ inr (overflow_error d, rw over)
    | inl fits ↦ inl (
      record {
        opcode = d.opcode;
        fd = file.fd;
        address = buf.address + at;
        len = len;
        offset = offset + at;
        user_data = idx;
      },
      rw fits,
      refl,
      refl,
      (λ k.
          source_lem d.opcode file.fd (buf.address + at) len (offset + at) idx k
          ∙ ap (λ (x : ℕ × ℕ). (ends d.opcode (memory x.0) (contents file.fd x.1)).0) (places k)),
      (λ k.
          target_lem d.opcode file.fd (buf.address + at) len (offset + at) idx k
          ∙ ap (λ (x : ℕ × ℕ). (ends d.opcode (memory x.0) (contents file.fd x.1)).1) (places k)),
    )
  ]
    where
      at : ℕ
      at = idx * size + so_far

      places :
          (k : ℕ)
          → ◌≡◌ {A = ℕ × ℕ}
              (buf.address + at + k, offset + at + k)
              (buf.address + (idx * size + (so_far + k)), offset + (idx * size + (so_far + k)))
      places k = ground arith

  abbrev pub plan : Plan
  plan = exact_plan d file offset buf

  abbrev pub plan_laws : PlanLaws plan
  plan_laws = record {
    from = λ idx k. byte_from (idx * size + k);
    to = λ idx k. byte_to (idx * size + k);
    entry_cases = exact_entry-cases;
  }

  pub separate : Separate plan plan_laws
  separate = record {
    apart = λ i k j m hi hk hj hm e.
        chunk_unique size i j k m (chunk-lt size buf.size i k hk).0
          (chunk-lt size buf.size j m hm).0
          (to_inj d.opcode buf.address file.fd offset (i * size + k) (j * size + m) e);
    elsewhere = λ i k j m hi hk hj hm.
        from-ne-to d.opcode buf.address file.fd offset (i * size + k) (j * size + m);
  }

  -- A refused request means that the range does not end at a `u64`.
  pub refused_overflow :
      (idx so_far len : ℕ) (x : Error)
      → so_far < plan.chunk_len idx
      → plan.entry idx so_far len ≡ err x
      → (u64_max < offset + buf.size) × (x ≡ overflow_error d)
  unfolding exact_entry
  refused_overflow idx so_far len x lt e =
      let inside = chunk-lt size buf.size idx so_far lt in
      elim (Bool-cases (leb (offset + (idx * size + so_far)) u64_max)) [
        | inl fits ↦ absurd (ok-ne-err (rw fits at e))
        | inr over ↦ (omega (arith, leb→lt _ _ over), err_inj (rw over at e))
      ]
