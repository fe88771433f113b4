-- ===== src/Sync/Windows/Tests.antt =====
-- A handle whose transfers move two bytes at most and move the cursor, after the tests of
-- src/sync/windows.rs.
use fastio.Prelude.{
  ℕ, zero, suc, ◌+◌, ◌-◌, ◌≤◌, ◌<◌, ◌≡◌, ◌≢◌, ◌⊎◌, inr, refl, ◌∙◌, ap, leb, ltb, ◌&&◌,
  if◌then◌else◌, min, List, [], ◌∷◌, length, get_or, arith,
}
use fastio.Io.{ok}
use fastio.Sync.Windows.Contract.{exact_calls-Restored}
use fastio.Sync.Windows.{Handle, read_exact_at, write_all_at}
use fastio.Sync.Windows.Promises.{Laws}
use fastio.Sync.Windows.ReadExact.{Restored}
use fastio.Sync.Windows.WriteAll.{Stored}

pub record Disk : Type 0 where
  pub bytes : ℕ → ℕ
  pub cursor : ℕ

abbrev read_bytes : (ℕ → ℕ) → ℕ → ℕ → List ℕ
read_bytes f o zero = []
read_bytes f o (suc n) = f o ∷ read_bytes f (o + 1) n

abbrev overwrite : (ℕ → ℕ) → List ℕ → ℕ → ℕ → ℕ → ℕ
overwrite f buf o n p = if leb o p && ltb p (o + n) then get_or buf (p - o) 0 else f p

abbrev pub two_at_most : Handle
two_at_most = record {
  World = Disk;
  metadata_len = λ w. inr 20;
  stream_position = λ w. (inr w.cursor, w);
  seek_start = λ p w. (inr p, record w { cursor = p });
  seek_read = λ n o w. (inr (read_bytes w.bytes o (min n 2)), record w { cursor = o + min n 2 });
  seek_write = λ buf o w. (
    inr (min (length buf) 2),
    record {
      bytes = overwrite w.bytes buf o (min (length buf) 2);
      cursor = o + min (length buf) 2;
    },
  );
}

length-read_bytes : (f : ℕ → ℕ) (o n : ℕ) → length (read_bytes f o n) ≡ n
length-read_bytes f o zero = refl
length-read_bytes f o (suc n) = ap suc (length-read_bytes f (o + 1) n)

get_or-read_bytes : (f : ℕ → ℕ) (o n k : ℕ) → k < n → get_or (read_bytes f o n) k 0 ≡ f (o + k)
get_or-read_bytes f o zero k h = elim h [ ]
get_or-read_bytes f o (suc n) zero h = ap f (omega arith)
get_or-read_bytes f o (suc n) (suc k) h =
    get_or-read_bytes f (o + 1) n k (omega arith) ∙ ap f (omega arith)

inr_inj : {A B : Type 0} {a b : B} → ◌≡◌ {A = A ⊎ B} (inr a) (inr b) → b ≡ a
inr_inj h = cc

two_at_most-read :
    (w : Disk) (n o : ℕ) (bytes : List ℕ)
    → bytes ≡ read_bytes w.bytes o (min n 2)
    → (length bytes ≤ n) × ((k : ℕ) → k < length bytes → get_or bytes k 0 ≡ w.bytes (o + k))
two_at_most-read w n o bytes e =
    let size = ap length e ∙ length-read_bytes w.bytes o (min n 2) in
    (
      omega (arith, size),
      λ k lt.
          ap (λ b. get_or b k 0) e
          ∙ get_or-read_bytes w.bytes o (min n 2) k (omega (arith, size, lt)),
    )

two_at_most-write :
    (w : Disk) (buf : List ℕ) (o n : ℕ)
    → n ≡ min (length buf) 2
    → (n ≤ length buf)
      × ((k : ℕ) → k < n → overwrite w.bytes buf o (min (length buf) 2) (o + k) ≡ get_or buf k 0)
two_at_most-write w buf o n e = (omega (arith, e), λ k lt. inside k (omega (arith, e, lt)))
  where
    inside :
        (k : ℕ)
        → k < min (length buf) 2
        → overwrite w.bytes buf o (min (length buf) 2) (o + k) ≡ get_or buf k 0
    inside k lt = ground (arith, ap (λ i. get_or buf i 0) {x = o + k - o} {y = k} (omega arith))

overwrite-outside :
    (f : ℕ → ℕ) (buf : List ℕ) (o n p : ℕ)
    → n ≤ length buf
    → ((k : ℕ) → k < length buf → o + k ≢ p)
    → overwrite f buf o n p ≡ f p
overwrite-outside f buf o n p le out = ground (arith, out (p - o))

pub two_at_most-Laws : Laws two_at_most
two_at_most-Laws = record {
  byte_at = λ w. w.bytes;
  position = λ w. w.cursor;
  size = λ w. 20;
  metadata_law = λ w n e. inr_inj e;
  position_law = λ w p e. inr_inj e;
  position_bytes = λ w k. refl;
  seek_law = λ w p q e. refl;
  seek_bytes = λ w p k. refl;
  read_law = λ w n o bytes e. two_at_most-read w n o bytes (inr_inj e);
  read_bytes = λ w n o k. refl;
  write_law = λ w buf o n e. two_at_most-write w buf o n (inr_inj e);
  write_elsewhere =
      λ w buf o p out. overwrite-outside w.bytes buf o (min (length buf) 2) p (omega arith) out;
}

abbrev pub disk : Disk
disk = record { bytes = λ p. p; cursor = 2 }

read_restores : read_exact_at two_at_most 10 5 disk ≡ (ok (10 ∷ 11 ∷ 12 ∷ 13 ∷ 14 ∷ []), disk)
unfolding read_exact_at
read_restores = refl

exact_calls-Restored_example :
    Restored two_at_most two_at_most-Laws 10 5 disk (read_exact_at two_at_most 10 5 disk)
    × Stored two_at_most two_at_most-Laws 10
        (7 ∷ 8 ∷ 9 ∷ [])
        disk
        (write_all_at two_at_most 10 (7 ∷ 8 ∷ 9 ∷ []) disk)
exact_calls-Restored_example =
    exact_calls-Restored two_at_most two_at_most-Laws 10 5 (7 ∷ 8 ∷ 9 ∷ []) disk
