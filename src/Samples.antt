-- ===== src/Samples.antt =====
-- A file in memory with all that callers rely on, and a pool of buffers that are lists, for the runs
-- of the backends. Reads and writes past the end of the file fail.
use fastio.Prelude.{
  ℕ, ◌+◌, ◌-◌, ◌<◌, ◌≡◌, ◌≢◌, ◌⊎◌, inr, refl, ap, leb, ltb, ◌&&◌, if◌then◌else◌, Bool-cases, inl,
  List, length, get_or, replicate, length-replicate, bytes_from, length-bytes_from,
  get_or-bytes_from, arith,
}
use fastio.Io.{Error, Result, ok, err, unexpected_eof, write_zero, from_os}
use fastio.Buffer.{Pool, PoolLaws}
use fastio.Positioned.{
  Positioned, Laws, Reads, Writes, read_all, read_failed, wrote_all, write_failed,
}

-- A file of twenty bytes.
abbrev pub Disk : Type 0
Disk = ℕ → ℕ

abbrev pub stored : Disk → ℕ → List ℕ → Disk
stored w o bytes p = if leb o p && ltb p (o + length bytes) then get_or bytes (p - o) 0 else w p

abbrev pub eof : Error
eof = record { kind = unexpected_eof; message = from_os }

abbrev pub full : Error
full = record { kind = write_zero; message = from_os }

abbrev pub read_disk : ℕ → ℕ → Disk → Result (List ℕ) × Disk
read_disk o n w = (if leb (o + n) 20 then ok (bytes_from w o n) else err eof, w)

abbrev pub write_disk : ℕ → List ℕ → Disk → Result (Unit {0}) × Disk
write_disk o bytes w =
    if leb (o + length bytes) 20 then (ok tt, stored w o bytes) else (err full, w)

abbrev pub disk_file : Positioned
disk_file = record {
  World = Disk;
  metadata_len = λ w. inr 20;
  read_exact_at = read_disk;
  write_all_at = write_disk;
}

pub read_disk-Reads : (w : Disk) (o n : ℕ) → Reads (λ v. v) w o n (read_disk o n w)
read_disk-Reads w o n = elim (Bool-cases (leb (o + n) 20)) [
  | inl e ↦
      rw (e, read_disk)
        (read_all (bytes_from w o n) w (length-bytes_from w o n)
          (λ k lt. get_or-bytes_from w o n k (omega (arith, lt, length-bytes_from w o n)))
          (λ p. refl))
  | inr e ↦ rw (e, read_disk) (read_failed eof w (λ p. refl))
]

stored-inside :
    (w : Disk) (o : ℕ) (bytes : List ℕ) (k : ℕ)
    → k < length bytes
    → get_or bytes k 0 ≡ stored w o bytes (o + k)
stored-inside w o bytes k lt =
    ground (arith, ap (λ i. get_or bytes i 0) {x = o + k - o} {y = k} (omega arith))

stored-outside :
    (w : Disk) (o : ℕ) (bytes : List ℕ) (p : ℕ)
    → ((k : ℕ) → k < length bytes → o + k ≢ p)
    → stored w o bytes p ≡ w p
stored-outside w o bytes p out = ground (arith, out (p - o))

pub write_disk-Writes :
    (w : Disk) (o : ℕ) (bytes : List ℕ) → Writes (λ v. v) w o bytes (write_disk o bytes w)
write_disk-Writes w o bytes = elim (Bool-cases (leb (o + length bytes) 20)) [
  | inl e ↦
      rw (e, write_disk)
        (wrote_all (stored w o bytes) (stored-inside w o bytes) (stored-outside w o bytes))
  | inr e ↦ rw (e, write_disk) (write_failed full w (λ p out. refl))
]

pub inr_inj : {a b : ℕ} → ◌≡◌ {A = Error ⊎ ℕ} (inr a) (inr b) → b ≡ a
inr_inj h = cc

abbrev pub disk_laws : Laws disk_file
disk_laws = record {
  byte_at = λ w. w;
  size = λ w. 20;
  metadata_law = λ w n e. inr_inj e;
  read_law = read_disk-Reads;
  write_law = write_disk-Writes;
}

abbrev pub free_list : Pool
free_list = record {
  Buf = List ℕ;
  Store = ℕ;
  alloc_uninit = λ n s. (replicate n 170, s - 1);
  give_back = λ b s. s + 1;
  assume_init = λ bytes b. bytes;
  contents = λ b. b;
  len = λ b. length b;
  into_inner = λ b. b;
}

pub free_list_laws : PoolLaws free_list
free_list_laws = record {
  len_law = λ b. refl;
  into_inner_law = λ b. refl;
  alloc_law = λ n s. length-replicate n 170;
  init_law = λ bytes b h. refl;
}
