-- ===== src/Io.antt =====
-- Errors and results of `std::io`, and the checked conversions and sums of machine integers that
-- every part of the crate uses (src/lib.rs re-exports `std::io::Error` and `std::io::Result`).
use fastio.Prelude.{ℕ, ◌+◌, ◌≡◌, ◌≢◌, ◌⊎◌, inl, inr, leb, if◌then◌else◌, Option, none, some}

-- The kinds of `std::io::ErrorKind` that the crate makes itself; `os` is a raw OS error code.
pub data ErrorKind : Type 0 where
  invalid_input invalid_data unexpected_eof write_zero unsupported other : ErrorKind
  os : ℕ → ErrorKind

-- The message of an error, where the crate writes one.
pub data Message : Type 0 where
  write_offset_overflow write_slices_overlap write_length_too_large : Message
  file_too_large cannot_mmap_empty_file cannot_mmap_empty_range range_end_overflow : Message
  range_exceeds_file_size system_page_size_zero mapping_length_overflow out_of_range : Message
  read_offset_overflow sq_full read_no_cqe write_no_cqe short_io short_write short_seek_read
        short_seek_write short_batch_read eof_in_positioned_read batch_buffer_not_mutable
        worker_panicked task_failed :
      Message
  position_lock_poisoned file_position_overflow invalid_negative_file_position : Message
  ring_depth_zero chunk_size_zero append_unsupported failed_to_initialize_io_uring : Message
  from_os : Message

pub record Error : Type 0 where
  pub kind : ErrorKind
  pub message : Message

-- `panic` is a Rust panic: an index out of range, or an overflow of unchecked arithmetic.
-- `stuck` is a loop of the model that ran out of fuel.
pub data Result {ℓ} (A : Type ℓ) : Type ℓ where
  ok : A → Result A
  err : Error → Result A
  panic : Result A
  stuck : Result A

infixl 5 ◌>>=◌ ◌>>◌
abbrev pub ◌>>=◌ {ℓ κ} : {A : Type ℓ} {B : Type κ} → Result A → (A → Result B) → Result B
ok a >>= f = f a
err e >>= f = err e
panic >>= f = panic
stuck >>= f = stuck

abbrev pub ◌>>◌ {ℓ} : {B : Type ℓ} → Result (Unit {0}) → Result B → Result B
m >> k = m >>= λ _. k

abbrev pub ok_or {ℓ} : {A : Type ℓ} → Option A → Error → Result A
ok_or none e = err e
ok_or (some a) e = ok a

abbrev pub u32_max : ℕ
u32_max = 4_294_967_295

abbrev pub u64_max : ℕ
u64_max = 18_446_744_073_709_551_615

-- `usize` has 64 bits.
abbrev pub usize_max : ℕ
usize_max = u64_max

-- The answer of code outside of the crate, which returns an error or a value.
abbrev pub answer {ℓ} : {A : Type ℓ} → Error ⊎ A → Result A
answer (inl e) = err e
answer (inr a) = ok a

-- `checked_add` at the integer type whose greatest value is `limit`.
abbrev pub checked_add : ℕ → ℕ → ℕ → Option ℕ
checked_add limit a b = if leb (a + b) limit then some (a + b) else none

-- `try_from` into the integer type whose greatest value is `limit`.
abbrev pub try_from : ℕ → ℕ → Option ℕ
try_from limit n = if leb n limit then some n else none

pub ok-ne-err {ℓ} : {A : Type ℓ} {a : A} {e : Error} → ok a ≢ err e
ok-ne-err h = cc

pub ok_inj {ℓ} : {A : Type ℓ} {a b : A} → ok a ≡ ok b → a ≡ b
ok_inj h = cc

pub err_inj {ℓ} : {A : Type ℓ} {e f : Error} → ◌≡◌ {A = Result A} (err e) (err f) → f ≡ e
err_inj h = cc
