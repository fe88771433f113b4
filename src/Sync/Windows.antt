-- ===== src/Sync/Windows.antt =====
-- The positioned operations of src/sync/windows.rs: a loop of `seek_read` or `seek_write` between
-- saving the cursor and putting it back.
pub mod Promises
pub mod Reading
pub mod ReadExact
pub mod WriteAll
pub mod Writing
pub mod Contract
pub mod Backend
pub mod Calls
pub mod Tests
use fastio.Prelude.{
  ℕ, zero, suc, ◌+◌, ◌-◌, true, false, ltb, if◌then◌else◌, ◌⊎◌, inl, inr, List, [], ◌∷◌, ◌++◌,
  Option, none, some, length, drop,
}
use fastio.Io.{
  Error, invalid_input, unexpected_eof, write_zero, read_offset_overflow, write_offset_overflow,
  short_seek_read, short_seek_write, Result, ok, err, panic, stuck, checked_add, u64_max,
}
use fastio.Positioned.{Positioned}

-- What the backend uses of `std::fs::File`. `seek_read` reads at most so many bytes at an offset,
-- `seek_write` takes some of the bytes; both may move the cursor.
pub record Handle : Type 1 where
  pub World : Type 0
  pub metadata_len : World → Error ⊎ ℕ
  pub stream_position : World → (Error ⊎ ℕ) × World
  pub seek_start : ℕ → World → (Error ⊎ ℕ) × World
  pub seek_read : ℕ → ℕ → World → (Error ⊎ List ℕ) × World
  pub seek_write : List ℕ → ℕ → World → (Error ⊎ ℕ) × World

abbrev pub read_overflow : Error
read_overflow = record { kind = invalid_input; message = read_offset_overflow }

abbrev pub write_overflow : Error
write_overflow = record { kind = invalid_input; message = write_offset_overflow }

abbrev pub no_byte_read : Error
no_byte_read = record { kind = unexpected_eof; message = short_seek_read }

abbrev pub no_byte_written : Error
no_byte_written = record { kind = write_zero; message = short_seek_write }

module _ (h : Handle) where
  open h use {World, stream_position, seek_start, seek_read, seek_write}

  -- The `while` loop of `seek_read_exact`: `read` is what has been read. Each round reads a byte or
  -- more, so `len` rounds are enough. The bytes of the buffer come back with `Ok`.
  -- `short` is the error for a read of no byte, which src/tokio/mod.rs words in another way.
  pub read_loop : Error → ℕ → ℕ → ℕ → List ℕ → World → Result (List ℕ) × World
  read_loop short zero offset len read w = (if ltb (length read) len then stuck else ok read, w)
  read_loop short (suc fuel) offset len read w = elim (ltb (length read) len) [
    | false ↦ (ok read, w)
    | true ↦ elim (checked_add u64_max offset (length read)) [
      | none ↦ (err read_overflow, w)
      | some read_offset ↦
          let n = seek_read (len - length read) read_offset w in
          elim n.0 [
            | inl e ↦ (err e, n.1)
            | inr [] ↦ (err short, n.1)
            | inr (b ∷ bytes) ↦ read_loop short fuel offset len (read ++ (b ∷ bytes)) n.1
          ]
    ]
  ]

  unfoldable pub seek_read_exact : ℕ → ℕ → World → Result (List ℕ) × World
  unfolding read_loop
  seek_read_exact offset len w = read_loop no_byte_read len offset len [] w

  -- The `while` loop of `seek_write_exact`: `written` bytes have been written.
  pub write_loop : ℕ → ℕ → List ℕ → ℕ → World → Result (Unit {0}) × World
  write_loop zero offset buf written w = (if ltb written (length buf) then stuck else ok tt, w)
  write_loop (suc fuel) offset buf written w = elim (ltb written (length buf)) [
    | false ↦ (ok tt, w)
    | true ↦ elim (checked_add u64_max offset written) [
      | none ↦ (err write_overflow, w)
      | some write_offset ↦
          let n = seek_write (drop written buf) write_offset w in
          elim n.0 [
            | inl e ↦ (err e, n.1)
            | inr zero ↦ (err no_byte_written, n.1)
            | inr (suc k) ↦ write_loop fuel offset buf (written + suc k) n.1
          ]
    ]
  ]

  unfoldable pub seek_write_exact : ℕ → List ℕ → World → Result (Unit {0}) × World
  unfolding write_loop
  seek_write_exact offset buf w = write_loop (length buf) offset buf 0 w

  -- The result after the cursor was put back: an error of the transfer comes first.
  abbrev pub restored {ℓ} : {A : Type ℓ} → Result A → Error ⊎ ℕ → Result A
  restored (ok a) (inr p) = ok a
  restored (ok a) (inl e) = err e
  restored (err e) restore = err e
  restored panic restore = panic
  restored stuck restore = stuck

  -- `stream_position`, the transfer, and the seek back.
  abbrev pub keep_cursor {ℓ} : {A : Type ℓ} → (World → Result A × World) → World → Result A × World
  keep_cursor transfer w =
      let saved = stream_position w in
      elim saved.0 [
        | inl e ↦ (err e, saved.1)
        | inr original_position ↦
            let result = transfer saved.1 in
            let restore = seek_start original_position result.1 in
            (restored result.0 restore.0, restore.1)
      ]

  unfoldable pub read_exact_at : ℕ → ℕ → World → Result (List ℕ) × World
  unfolding seek_read_exact
  read_exact_at offset len w = keep_cursor (seek_read_exact offset len) w

  unfoldable pub write_all_at : ℕ → List ℕ → World → Result (Unit {0}) × World
  unfolding seek_write_exact
  write_all_at offset buf w = keep_cursor (seek_write_exact offset buf) w

  -- The calls as a positioned file, for `read_all`, `read_at` and `write_slices_at`.
  abbrev pub positioned : Positioned
  positioned = record {
    World = World;
    metadata_len = h.metadata_len;
    read_exact_at = read_exact_at;
    write_all_at = write_all_at;
  }
