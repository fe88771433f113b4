-- ===== src/Uring/Ring.antt =====
-- What the backend uses of the `io-uring` crate and of the kernel behind it (src/uring.rs calls
-- them; they are not part of the repository). `World` is all that they keep: the queues, the
-- memory that requests point into, and the files.
use fastio.Prelude.{
  ℕ, ◌+◌, ◌≤◌, ◌<◌, ◌≡◌, ◌≢◌, ◌⊎◌, inr, List, [], ◌∷◌, Bool, Option, none, some, length, All,
}
use fastio.Prelude.Int.{ℤ, pos_part}
use fastio.Io.{Error}

-- `opcode::Read` and `opcode::Write`.
pub data Opcode : Type 0 where
  read_op write_op : Opcode

-- A submission queue entry: `len` bytes between the memory at `address` and the file at `offset`.
pub record Entry : Type 0 where
  pub opcode : Opcode
  pub fd : ℕ
  pub address : ℕ
  pub len : ℕ
  pub offset : ℕ
  pub user_data : ℕ

-- A completion queue entry.
pub record Cqe : Type 0 where
  pub user_data : ℕ
  pub result : ℤ

-- `push` refuses on a full queue; `submit_and_wait` waits for one completion and may report an
-- error; `completion` drains the completion queue, and `next` takes one completion from it.
-- `is_cached` tells whether the thread has a ring, and `create` puts a new one in its place
-- (`IoUring::new`).
pub record Ring : Type 1 where
  pub World : Type 0
  pub push : Entry → World → Option World
  pub submit_and_wait : World → Option Error × World
  pub completion : World → List Cqe × World
  pub next : World → Option Cqe × World
  pub sq_entries : World → ℕ
  pub is_cached : World → Bool
  pub create : ℕ → World → Error ⊎ World

-- `Picks e p q`: `q` is `p` less one occurrence of `e`.
pub data Picks (e : Entry) : List Entry → List Entry → Type 0 where
  first : (p : List Entry) → Picks e (e ∷ p) p
  later : (x : Entry) {p q : List Entry} → Picks e p q → Picks e (x ∷ p) (x ∷ q)

-- Each completion of the list answers one request in flight, with what `G` says of the two; `q` is
-- what stays in flight.
pub data Reaped (G : Entry → ℤ → Type 0) : List Entry → List Cqe → List Entry → Type 0 where
  none_left : (p : List Entry) → Reaped G p [] p
  one_more :
      (e : Entry) (c : Cqe) {p q s : List Entry} {cs : List Cqe}
      → Picks e p q
      → c.user_data ≡ e.user_data
      → G e c.result
      → Reaped G q cs s
      → Reaped G p (c ∷ cs) s

abbrev pub to_list {ℓ} : {A : Type ℓ} → Option A → List A
to_list none = []
to_list (some a) = a ∷ []

-- A byte of memory, or a byte of a file.
pub data Place : Type 0 where
  memory : ℕ → Place
  contents : ℕ → ℕ → Place

-- Where the `k`-th byte of a request comes from, and where it goes.
abbrev pub source : Entry → ℕ → Place
source e k = elim e.opcode [
  | read_op ↦ contents e.fd (e.offset + k)
  | write_op ↦ memory (e.address + k)
]

abbrev pub target : Entry → ℕ → Place
target e k = elim e.opcode [
  | read_op ↦ memory (e.address + k)
  | write_op ↦ contents e.fd (e.offset + k)
]

-- No request of the list may write at `p`.
abbrev pub Untouched : Place → List Entry → Type 0
Untouched p es = All (λ e. (k : ℕ) → k < e.len → target e k ≢ p) es

module _ (r : Ring) where
  open r use {World, push, submit_and_wait, completion, next, sq_entries, create}

  -- The documented behaviour that the backend relies on. `pending` are the requests handed over and
  -- not yet reaped. A completion with a positive result `n` means that `n` bytes were moved, if no
  -- request in flight could write their source meanwhile; a negative result is an error code. The
  -- kernel writes nowhere but at the targets of requests in flight.
  pub record Laws : Type 1 where
    pub pending : World → List Entry
    pub byte_at : World → Place → ℕ
    pub push_pending : (e : Entry) (w w' : World) → push e w ≡ some w' → pending w' ≡ e ∷ pending w
    pub push_room : (e : Entry) (w : World) → length (pending w) < sq_entries w → push e w ≢ none
    pub push_bytes :
        (e : Entry) (w w' : World) (p : Place) → push e w ≡ some w' → byte_at w' p ≡ byte_at w p
    pub push_entries :
        (e : Entry) (w w' : World) → push e w ≡ some w' → sq_entries w' ≡ sq_entries w
    pub wait_pending : (w : World) → pending (submit_and_wait w).1 ≡ pending w
    pub wait_bytes :
        (w : World) (p : Place)
        → Untouched p (pending w)
        → byte_at (submit_and_wait w).1 p ≡ byte_at w p
    pub wait_entries : (w : World) → sq_entries (submit_and_wait w).1 ≡ sq_entries w
    pub completion_reaps :
        (w : World)
        → Reaped
            (λ e z.
              (pos_part z ≤ e.len)
              × ((k : ℕ)
                  → k < pos_part z
                  → Untouched (source e k) (pending w)
                  → byte_at (completion w).1 (target e k) ≡ byte_at w (source e k)))
            (pending w)
            (completion w).0
            (pending (completion w).1)
    pub completion_bytes :
        (w : World) (p : Place) → Untouched p (pending w) → byte_at (completion w).1 p ≡ byte_at w p
    pub completion_entries : (w : World) → sq_entries (completion w).1 ≡ sq_entries w
    pub next_reaps :
        (w : World)
        → Reaped
            (λ e z.
              (pos_part z ≤ e.len)
              × ((k : ℕ)
                  → k < pos_part z
                  → Untouched (source e k) (pending w)
                  → byte_at (next w).1 (target e k) ≡ byte_at w (source e k)))
            (pending w)
            (to_list (next w).0)
            (pending (next w).1)
    pub next_bytes :
        (w : World) (p : Place) → Untouched p (pending w) → byte_at (next w).1 p ≡ byte_at w p
    pub create_pending :
        (depth : ℕ) (w w' : World) → create depth w ≡ inr w' → pending w ≡ [] → pending w' ≡ []
    pub create_entries :
        (depth : ℕ) (w w' : World) → create depth w ≡ inr w' → depth ≤ sq_entries w'
    pub create_bytes :
        (depth : ℕ) (w w' : World) (p : Place)
        → create depth w ≡ inr w'
        → byte_at w' p ≡ byte_at w p
