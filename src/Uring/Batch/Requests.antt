-- ===== src/Uring/Batch/Requests.antt =====
-- The requests for a batch of regions (src/uring.rs).
use fastio.Prelude.{
  ℕ, ◌+◌, ◌<◌, ◌≡◌, ◌⊎◌, inl, inr, refl, ap, leb, leb→lt, Bool-cases, Option-cases, Option, none,
  some, List, length, arith,
}
use fastio.Io.{Error, ok, err, err_inj, ok-ne-err, u64_max}
use fastio.Uring.Ring.{Entry, memory, contents, source, target, read_op}
use fastio.Uring.Loop.{Plan}
use fastio.Uring.Loop.Invariant.{PlanLaws}
use fastio.Uring.Loop.Bytes.{Separate}
use fastio.Uring.Cache.{File}
use fastio.Uring.Batch.{Region, region_at, region_overflow, not_mutable, region_entry, regions_plan}

-- The address of buffer `idx`.
abbrev pub address : (ℕ → Option ℕ) → ℕ → ℕ
address buffer_ptr idx = elim (buffer_ptr idx) [ none ↦ 0 | some a ↦ a ]

-- No two bytes of the buffers of the batch are at one address.
abbrev pub IsApart : List Region → (ℕ → Option ℕ) → Type 0
IsApart regions buffer_ptr =
    (i k j m : ℕ)
    → i < length regions
    → k < (region_at regions i).len
    → j < length regions
    → m < (region_at regions j).len
    → address buffer_ptr i + k ≡ address buffer_ptr j + m
    → (i ≡ j) × (k ≡ m)

module _ (file : File) (regions : List Region) (buffer_ptr : ℕ → Option ℕ) where
  pub region_entry-cases :
      (idx so_far len : ℕ)
      → ((e : Entry) × (region_entry file regions buffer_ptr idx so_far len ≡ ok e)
          × (e.user_data ≡ idx)
          × (e.len ≡ len)
          × ((k : ℕ)
              → source e k ≡ contents file.fd ((region_at regions idx).offset + (so_far + k)))
          × ((k : ℕ) → target e k ≡ memory (address buffer_ptr idx + (so_far + k))))
        ⊎ ((x : Error) × (region_entry file regions buffer_ptr idx so_far len ≡ err x))
  unfolding region_entry
  region_entry-cases idx so_far len = elim (Option-cases (buffer_ptr idx)) [
    | inl no_buf ↦ inr (not_mutable, rw no_buf refl)
    | inr (buf, has_buf) ↦
        elim (Bool-cases (leb ((region_at regions idx).offset + so_far) u64_max)) [
          | inr over ↦ inr (region_overflow, rw (has_buf, over) refl)
          | inl fits ↦ inl (
            record {
              opcode = read_op;
              fd = file.fd;
              address = buf + so_far;
              len = len;
              offset = (region_at regions idx).offset + so_far;
              user_data = idx;
            },
            rw (has_buf, fits) refl,
            refl,
            refl,
            (λ k. ap (contents file.fd) (omega arith)),
            (λ k. rw (has_buf, address) (ap memory (omega arith))),
          )
        ]
  ]

  abbrev pub plan : Plan
  plan = regions_plan file regions buffer_ptr

  abbrev pub plan_laws : PlanLaws plan
  plan_laws = record {
    from = λ idx k. contents file.fd ((region_at regions idx).offset + k);
    to = λ idx k. memory (address buffer_ptr idx + k);
    entry_cases = region_entry-cases;
  }

  pub separate : IsApart regions buffer_ptr → Separate plan plan_laws
  separate h = record {
    apart = λ i k j m hi hk hj hm e. h i k j m hi hk hj hm (cc e);
    elsewhere = λ i k j m hi hk hj hm e. cc;
  }

  -- Why a request can be refused.
  pub refused_why :
      (idx so_far len : ℕ) (x : Error)
      → so_far < (region_at regions idx).len
      → region_entry file regions buffer_ptr idx so_far len ≡ err x
      → ((x ≡ region_overflow)
          × (u64_max < (region_at regions idx).offset + (region_at regions idx).len))
        ⊎ ((x ≡ not_mutable) × (buffer_ptr idx ≡ none))
  unfolding region_entry
  refused_why idx so_far len x inside e = elim (Option-cases (buffer_ptr idx)) [
    | inl no_buf ↦ inr (err_inj (rw no_buf at e), no_buf)
    | inr (buf, has_buf) ↦
        elim (Bool-cases (leb ((region_at regions idx).offset + so_far) u64_max)) [
          | inl fits ↦ absurd (ok-ne-err (rw (has_buf, fits) at e))
          | inr over ↦
              inl (err_inj (rw (has_buf, over) at e), omega (arith, leb→lt _ _ over, inside))
        ]
  ]
