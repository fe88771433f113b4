-- ===== src/Uring/Loop/Invariant.antt =====
-- The invariant of the submission loop (src/uring.rs): the vectors, the counter and the requests
-- in flight agree.
use fastio.Prelude.{
  ℕ, suc, ◌+◌, ◌≤◌, ◌<◌, ◌≡◌, ◌≢◌, ◌⊎◌, refl, ◌==◌, if◌then◌else◌, List, [], ◌∷◌, Option, none,
  some, length, All, get_elem?, get_or, arith,
}
use fastio.Io.{Error, ok, err}
use fastio.Uring.Ring.{Ring, Entry, Place, Picks, first, later, source, target}
use fastio.Uring.Loop.{Plan, Vars, SubmissionState, idle, in_flight, done, max_io_len}

-- How often chunk `i` is among the requests.
abbrev pub occurrences : ℕ → List Entry → ℕ
occurrences i [] = 0
occurrences i (e ∷ es) = (if e.user_data == i then 1 else 0) + occurrences i es

abbrev pub flag : Option SubmissionState → ℕ
flag (some in_flight) = 1
flag (some idle) = 0
flag (some done) = 0
flag none = 0

pub occurrences-Picks :
    (i : ℕ) {e : Entry} {p q : List Entry}
    → Picks e p q
    → occurrences i p ≡ (if e.user_data == i then 1 else 0) + occurrences i q
occurrences-Picks i (first p) = refl
occurrences-Picks i (later x h) = omega (arith, occurrences-Picks i h)

pub occurrences-le : (i : ℕ) (p : List Entry) → occurrences i p ≤ length p
occurrences-le i [] = omega arith
occurrences-le i (e ∷ p) = ground (arith, occurrences-le i p)

pub length-Picks : {e : Entry} {p q : List Entry} → Picks e p q → length p ≡ suc (length q)
length-Picks (first p) = refl
length-Picks (later x h) = omega (arith, length-Picks h)

pub All-Picks {ℓ} :
    (P : Entry → Type ℓ) {e : Entry} {p q : List Entry} → Picks e p q → All P p → P e × All P q
All-Picks P (first p) h = h
All-Picks P (later x k) h = let rest = All-Picks P k h.1 in (rest.0, (h.0, rest.1))

-- A property of all requests changes into another for those of the other chunks.
pub All-others {ℓ κ} :
    (P : Entry → Type ℓ) (Q : Entry → Type κ) (i : ℕ) (p : List Entry)
    → ((e : Entry) → e.user_data ≢ i → P e → Q e)
    → occurrences i p ≡ 0
    → All P p
    → All Q p
All-others P Q i [] f z h = tt
All-others P Q i (e ∷ p) f z h =
    (f e (λ same. ground arith) h.0, All-others P Q i p f (omega arith) h.1)

-- What a plan promises: a request for the chunk, or an error, never a panic; a request has the
-- chunk for its `user_data`, and moves bytes from `from idx so_far` on to `to idx so_far` on.
pub record PlanLaws (plan : Plan) : Type 0 where
  pub from : ℕ → ℕ → Place
  pub to : ℕ → ℕ → Place
  pub entry_cases :
      (idx so_far len : ℕ)
      → ((e : Entry) × (plan.entry idx so_far len ≡ ok e)
          × (e.user_data ≡ idx)
          × (e.len ≡ len)
          × ((k : ℕ) → source e k ≡ from idx (so_far + k))
          × ((k : ℕ) → target e k ≡ to idx (so_far + k)))
        ⊎ ((x : Error) × (plan.entry idx so_far len ≡ err x))

module _ (r : Ring) where
  abbrev pub so_far : Vars r → ℕ → ℕ
  so_far v i = get_or v.bytes_done i 0

  module _ (plan : Plan) (depth : ℕ) (l : PlanLaws plan) where
    open plan use {count, chunk_len}

    -- A request in flight asks for bytes of its chunk from the first one missing.
    pub record IsOpen (d : ℕ) (e : Entry) : Type 0 where
      pub in_range : e.user_data < count
      pub asks : 0 < e.len
      pub capped : e.len ≤ max_io_len
      pub fits : d + e.len ≤ chunk_len e.user_data
      pub reads : (k : ℕ) → source e k ≡ l.from e.user_data (d + k)
      pub writes : (k : ℕ) → target e k ≡ l.to e.user_data (d + k)

    -- `p` are the requests in flight.
    pub record Inv (p : List Entry) (v : Vars r) : Type 0 where
      pub size_done : length v.bytes_done ≡ count
      pub size_state : length v.state ≡ count
      pub counted : v.flying ≡ length p
      pub deep : v.flying ≤ depth
      pub single : (i : ℕ) → occurrences i p ≡ flag (get_elem? v.state i)
      pub bounded : (i : ℕ) → so_far v i ≤ chunk_len i
      pub finished : (i : ℕ) → get_elem? v.state i ≡ some done → so_far v i ≡ chunk_len i
      pub open_all : All (λ e. IsOpen (so_far v e.user_data) e) p
