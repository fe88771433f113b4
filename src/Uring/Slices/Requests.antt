-- ===== src/Uring/Slices/Requests.antt =====
-- The requests for a batch of writes, and what its validation gives for them (src/uring.rs, with
-- src/write.rs).
use fastio.Prelude.{
  ℕ, zero, suc, ◌+◌, ◌<◌, ◌≡◌, ◌≢◌, ◌⊎◌, inl, inr, refl, ap, ltb, ltb→lt, ltb→le, leb, leb→lt,
  Bool-cases, List, [], ◌∷◌, length, All, AllPairs, arith,
}
use fastio.Io.{Error, ok, err, ok-ne-err, u64_max}
use fastio.Write.{WriteSlice}
use fastio.Write.Verdict.{IsDisjoint, Fits}
use fastio.Uring.Ring.{Entry, memory, contents, source, target, write_op}
use fastio.Uring.Loop.{Plan}
use fastio.Uring.Loop.Invariant.{PlanLaws}
use fastio.Uring.Loop.Bytes.{Separate}
use fastio.Uring.Cache.{File}
use fastio.Uring.Slices.{slice_at, slice_overflow, slice_entry, slices_plan}

All-slice_at {ℓ} :
    (P : WriteSlice → Type ℓ) (ws : List WriteSlice) (i : ℕ)
    → All P ws
    → i < length ws
    → P (slice_at ws i)
All-slice_at P [] i h lt = elim lt [ ]
All-slice_at P (w ∷ ws) zero h lt = h.0
All-slice_at P (w ∷ ws) (suc i) h lt = All-slice_at P ws i h.1 (omega arith)

AllPairs-slice_at {ℓ} :
    (R : WriteSlice → WriteSlice → Type ℓ) (ws : List WriteSlice) (i j : ℕ)
    → AllPairs R ws
    → i < j
    → j < length ws
    → R (slice_at ws i) (slice_at ws j)
AllPairs-slice_at R [] i j h lt below = elim below [ ]
AllPairs-slice_at R (w ∷ ws) i zero h lt below = elim lt [ ]
AllPairs-slice_at R (w ∷ ws) zero (suc j) h lt below = All-slice_at (R w) ws j h.0 (omega arith)
AllPairs-slice_at R (w ∷ ws) (suc i) (suc j) h lt below =
    AllPairs-slice_at R ws i j h.1 (omega arith) (omega arith)

module _ (file : File) (writes : List WriteSlice) (data_ptr : ℕ → ℕ) where
  pub slice_entry-cases :
      (idx so_far len : ℕ)
      → ((e : Entry) × (slice_entry file writes data_ptr idx so_far len ≡ ok e)
          × (e.user_data ≡ idx)
          × (e.len ≡ len)
          × ((k : ℕ) → source e k ≡ memory (data_ptr idx + (so_far + k)))
          × ((k : ℕ) → target e k ≡ contents file.fd ((slice_at writes idx).offset + (so_far + k))))
        ⊎ ((x : Error) × (slice_entry file writes data_ptr idx so_far len ≡ err x))
  unfolding slice_entry
  slice_entry-cases idx so_far len =
      elim (Bool-cases (leb ((slice_at writes idx).offset + so_far) u64_max)) [
        | inr over ↦ inr (slice_overflow, rw over)
        | inl fits ↦ inl (
          record {
            opcode = write_op;
            fd = file.fd;
            address = data_ptr idx + so_far;
            len = len;
            offset = (slice_at writes idx).offset + so_far;
            user_data = idx;
          },
          rw fits,
          refl,
          refl,
          (λ k. ap memory (omega arith)),
          (λ k. ap (contents file.fd) (omega arith)),
        )
      ]

  abbrev pub plan : Plan
  plan = slices_plan file writes data_ptr

  abbrev pub plan_laws : PlanLaws plan
  plan_laws = record {
    from = λ idx k. memory (data_ptr idx + k);
    to = λ idx k. contents file.fd ((slice_at writes idx).offset + k);
    entry_cases = slice_entry-cases;
  }

  -- The slices of a validated batch go to different places.
  pub separate : AllPairs IsDisjoint writes → Separate plan plan_laws
  separate h = record {
    apart = λ i k j m hi hk hj hm e.
        let same_byte : (slice_at writes i).offset + k ≡ (slice_at writes j).offset + m =
          ground arith in
        elim (Bool-cases (ltb i j)) [
          | inl lt ↦ absurd (
              AllPairs-slice_at IsDisjoint writes i j h (ltb→lt _ _ lt) hj
                ((slice_at writes i).offset + k) (omega arith))
          | inr le ↦ elim (Bool-cases (ltb j i)) [
            | inl lt ↦ absurd (
                AllPairs-slice_at IsDisjoint writes j i h (ltb→lt _ _ lt) hi
                  ((slice_at writes i).offset + k) (omega arith))
            | inr ge ↦
                let same : i ≡ j = omega (arith, ltb→le _ _ le, ltb→le _ _ ge) in
                (same, omega (arith, ap (λ n. (slice_at writes n).offset) same))
          ]
        ];
    elsewhere = λ i k j m hi hk hj hm e. cc;
  }

  -- In a validated batch no request is refused.
  pub never_refused :
      All Fits writes
      → (idx so_far len : ℕ) (x : Error) → idx < length writes
      → so_far < length (slice_at writes idx).bytes
      → slice_entry file writes data_ptr idx so_far len ≢ err x
  unfolding slice_entry
  never_refused h idx so_far len x lt inside e =
      let fit = All-slice_at Fits writes idx h lt (omega arith) in
      elim (Bool-cases (leb ((slice_at writes idx).offset + so_far) u64_max)) [
        | inl fits ↦ ok-ne-err (rw fits at e)
        | inr over ↦ omega (arith, leb→lt _ _ over)
      ]
