-- ===== src/Uring/Loop.antt =====
-- The submission loop of src/uring.rs. Four functions have it with other requests in it
-- (`read_at_batch`, `submit_read_exact_at`, `submit_write_exact_at`, `submit_write_slices_at`); what
-- differs is a `Plan`. Each `for` and `loop` is a function over the loop's variables, the `Vars`.
pub mod Invariant
pub mod Submit
pub mod Round
pub mod Pass
pub mod Reap
pub mod Tally
pub mod Bytes
pub mod Start
pub mod Drive
pub mod Early
pub mod Rounds
pub mod Origin
use fastio.Prelude.{
  ℕ, zero, suc, ◌+◌, ◌-◌, ◌==◌, ltb, leb, if◌then◌else◌, min, Bool, true, false, ◌||◌, List, [],
  ◌∷◌, Option, none, some, length, get_elem?, set, replicate,
}
use fastio.Prelude.Int.{pos, negsuc}
use fastio.Io.{Error, os, other, from_os, sq_full, Result, ok, err, panic, stuck, u32_max}
use fastio.Uring.Ring.{Ring, Entry, Cqe}

abbrev pub max_io_len : ℕ
max_io_len = u32_max

pub data SubmissionState : Type 0 where
  idle in_flight done : SubmissionState

-- What a function puts in the loop: the number of its chunks, their lengths, the request for
-- `len` bytes of chunk `idx` after the first `so_far`, and the error for a transfer of no byte.
pub record Plan : Type 0 where
  pub count : ℕ
  pub chunk_len : ℕ → ℕ
  pub entry : ℕ → ℕ → ℕ → Result Entry
  pub short : Error

abbrev pub sq_full_error : Error
sq_full_error = record { kind = other; message = sq_full }

abbrev pub raw_os_error : ℕ → Error
raw_os_error code = record { kind = os code; message = from_os }

-- `Option::get_or_insert`: the first error stays.
abbrev pub get_or_insert : Option Error → Error → Option Error
get_or_insert none e = some e
get_or_insert (some e') e = some e'

abbrev pub is_some {ℓ} : {A : Type ℓ} → Option A → Bool
is_some none = false
is_some (some a) = true

module _ (r : Ring) where
  open r use {World, push, submit_and_wait, completion}

  -- The variables of the loop: the vectors `done` and `state`, the counter, the pending error, and
  -- the world that the ring changes.
  pub record Vars : Type 0 where
    pub bytes_done : List ℕ
    pub state : List SubmissionState
    pub flying : ℕ
    pub pending_error : Option Error
    pub world : World

  -- How a round of the `for` loop ends: by its end or `continue`, by `break`, by a `?` that returns
  -- the error, or by a panic.
  pub data Flow : Type 0 where
    go_on leave : Vars → Flow
    fail : Error → Vars → Flow
    crash : Flow

  module _ (plan : Plan) (depth : ℕ) where
    open plan use {count, chunk_len, entry, short}

    abbrev pub init : World → Vars
    init w = record {
      bytes_done = replicate count 0;
      state = replicate count idle;
      flying = 0;
      pending_error = none;
      world = w;
    }

    -- The request is built and pushed. A full queue is an error that ends the `for` loop.
    unfoldable pub push_entry : ℕ → Result Entry → Vars → Flow
    push_entry idx (ok e) v = elim (push e v.world) [
      | none ↦ leave (record v { pending_error = get_or_insert v.pending_error sq_full_error })
      | some w ↦
          go_on (record v { state = set v.state idx in_flight; flying = v.flying + 1; world = w })
    ]
    push_entry idx (err e) v = fail e v
    push_entry idx panic v = crash
    push_entry idx stuck v = crash

    unfoldable pub submit_idle : ℕ → ℕ → Vars → Flow
    unfolding push_entry
    submit_idle idx so_far v =
        if ltb (chunk_len idx) so_far
        then crash
        else if chunk_len idx - so_far == 0
        then go_on (record v { state = set v.state idx done })
        else push_entry idx (entry idx so_far (min (chunk_len idx - so_far) max_io_len)) v

    unfoldable pub submit_at : ℕ → Option SubmissionState → Option ℕ → Vars → Flow
    unfolding submit_idle
    submit_at idx (some idle) (some so_far) v = submit_idle idx so_far v
    submit_at idx (some idle) none v = crash
    submit_at idx (some in_flight) d v = go_on v
    submit_at idx (some done) d v = go_on v
    submit_at idx none d v = crash

    -- One round of `for idx in 0..count`.
    unfoldable pub submit_one : ℕ → Vars → Flow
    unfolding submit_at
    submit_one idx v =
        if is_some v.pending_error || leb depth v.flying
        then leave v
        else submit_at idx (get_elem? v.state idx) (get_elem? v.bytes_done idx) v

    -- The `for` loop from `idx`, with `left` rounds to go.
    unfoldable pub submit_from : ℕ → ℕ → Vars → Flow
    unfolding submit_one
    submit_from zero idx v = leave v
    submit_from (suc left) idx v = elim (submit_one idx v) [
      | go_on v' ↦ submit_from left (idx + 1) v'
      | leave v' ↦ leave v'
      | fail e v' ↦ fail e v'
      | crash ↦ crash
    ]

    -- `done[idx] += n`, and `Done` where the chunk is complete.
    pub advance : ℕ → ℕ → Vars → Vars
    advance idx total v = record v {
      bytes_done = set v.bytes_done idx total;
      state = if leb (chunk_len idx) total then set v.state idx done else v.state;
    }

    pub add_error : Error → Vars → Vars
    add_error e v = record v { pending_error = get_or_insert v.pending_error e }

    -- The result of a completion, for the request with index `idx`.
    pub take_result : Cqe → Option ℕ → Vars → Option Vars
    unfolding advance add_error
    take_result c so_far v = elim c.result [
      | negsuc n ↦ some (add_error (raw_os_error (suc n)) v)
      | pos zero ↦ some (add_error short v)
      | pos (suc n) ↦ elim so_far [
        | none ↦ none
        | some d ↦ some (advance c.user_data (d + suc n) v)
      ]
    ]

    -- One round of `for cqe in cq`; `none` is a panic.
    pub complete_one : Cqe → Vars → Option Vars
    unfolding take_result
    complete_one c v =
        if v.flying == 0 || leb (length v.state) c.user_data
        then none
        else take_result c (get_elem? v.bytes_done c.user_data)
            (record v { flying = v.flying - 1; state = set v.state c.user_data idle })

    pub complete_all : List Cqe → Vars → Option Vars
    unfolding complete_one
    complete_all [] v = some v
    complete_all (c ∷ cs) v = elim (complete_one c v) [ none ↦ none | some v' ↦ complete_all cs v' ]

    -- `submit_and_wait(1)`, whose error is kept, and the completions that are there then.
    pub wait_and_reap : Vars → Option Vars
    unfolding complete_all
    wait_and_reap v =
        let waited = submit_and_wait v.world in
        let cq = completion waited.1 in
        complete_all cq.0 (record v {
          pending_error = elim waited.0 [
            | none ↦ v.pending_error
            | some e ↦ get_or_insert v.pending_error e
          ];
          world = cq.1;
        })

    -- After the loop: the pending error, or `Ok`.
    abbrev pub outcome : Option Error → Result (Unit {0})
    outcome none = ok tt
    outcome (some e) = err e

    -- `loop { .. }`. The world is given back with every result.
    pub drive : ℕ → Vars → Result (Unit {0}) × World
    unfolding submit_from wait_and_reap
    drive zero v = (stuck, v.world)
    drive (suc fuel) v = elim (submit_from count 0 v) [
      | crash ↦ (panic, v.world)
      | fail e v' ↦ (err e, v'.world)
      | go_on v' ↦ (panic, v'.world)
      | leave v' ↦ elim (v'.flying == 0) [
        | true ↦ (outcome v'.pending_error, v'.world)
        | false ↦ elim (wait_and_reap v') [ none ↦ (panic, v'.world) | some v'' ↦ drive fuel v'' ]
      ]
    ]

    -- The lengths of the first `n` chunks together.
    abbrev pub total_len : ℕ → ℕ
    total_len zero = 0
    total_len (suc n) = chunk_len n + total_len n

    -- The loop from its start, with a fuel that `run-Outcome` shows to be enough.
    unfoldable pub run : World → Result (Unit {0}) × World
    unfolding drive
    run w = drive (total_len count + depth + 2) (init w)
