-- ===== src/Uring/Tests/Cursor.antt =====
-- The cursor on the simulated ring, and seeks.
use fastio.Prelude.{ℕ, ◌+◌, ◌*◌, ◌≡◌, inr, refl, List, bytes_from, [], ◌∷◌, false, arith}
use fastio.Prelude.Int.{pos, negsuc}
use fastio.Io.{Result, ok, err, u64_max}
use fastio.Uring.Ring.{Place, memory, contents, read_op, write_op}
use fastio.Uring.Loop.{raw_os_error}
use fastio.Uring.Cache.{File, init_error}
use fastio.Uring.Exact.{Slice}
use fastio.Uring.Once.{submit_read_at, submit_write_at}
use fastio.StdFile.{current, from_end}
use fastio.Uring.Cursor.{Position, read, write, seek, seek_target, negative_position}
use fastio.Uring.Cursor.Progress.{Progress, transfers-Progress}
use fastio.Uring.Cursor.Sequential.{
  Event, put, sought, seek_failed, Follows, tape, nothing, reads, writes, seeks, seek_fails,
}
use fastio.Uring.Cursor.Sequential.Refines.{Ran-Follows}
use fastio.Uring.Cursor.Clones.{Call, Appended, no_call, returned, failed, Wrote-Appended}
use fastio.Uring.Cursor.Target.{Landing, seek-Landing}
use fastio.Uring.Tests.Simulated.{Kernel, simulated, simulated_laws}

abbrev stored : Place → ℕ
stored (memory a) = a
stored (contents d a) = 100 * d + a

abbrev quiet_kernel : Kernel
quiet_kernel = record { queue = []; bytes = stored; entries = 4 }

abbrev cursor_file : File
cursor_file = record { fd = 3; ring_depth = 4; chunk_size = 8 }

abbrev room_for_five : Slice
room_for_five = record { address = 60; size = 5 }

abbrev ten : Position
ten = record { poisoned = false; at = 10 }

-- Two bytes come at once, and the position follows.
read_advances :
    (read simulated cursor_file room_for_five ten quiet_kernel).1
    ≡ record { poisoned = false; at = 12 }
unfolding read submit_read_at
read_advances = refl

seek_back : seek (inr 100) (current (negsuc 2)) ten ≡ (ok 7, record { poisoned = false; at = 7 })
unfolding seek seek_target
seek_back = refl

seek_before_start : seek (inr 100) (current (negsuc 10)) ten ≡ (err negative_position, ten)
unfolding seek seek_target
seek_before_start = refl

-- A position that is too large is reported as a negative one.
seek_too_far : seek (inr u64_max) (from_end (pos 1)) ten ≡ (err negative_position, ten)
unfolding seek seek_target
seek_too_far = refl

transfers-Progress_example :
    Progress simulated simulated_laws cursor_file room_for_five ten quiet_kernel read_op
      (read simulated cursor_file room_for_five ten quiet_kernel)
    × Progress simulated simulated_laws cursor_file room_for_five ten quiet_kernel write_op
        (write simulated cursor_file room_for_five ten quiet_kernel)
transfers-Progress_example =
    transfers-Progress simulated simulated_laws cursor_file room_for_five ten quiet_kernel refl
      (omega arith) refl

seek-Landing_example :
    Landing (inr 100) ten (current (negsuc 2)) (seek (inr 100) (current (negsuc 2)) ten)
seek-Landing_example =
    seek-Landing (inr 100) (current (negsuc 2)) ten refl (omega arith) (omega arith, omega arith)

abbrev wrote : Result ℕ × Position × Kernel
wrote = write simulated cursor_file room_for_five ten quiet_kernel

abbrev space : Slice
space = record { address = 80; size = 7 }

abbrev got : Result ℕ × Position × Kernel
got = read simulated cursor_file space ten wrote.2

two_written : wrote ≡ (ok 2, record { poisoned = false; at = 12 }, wrote.2)
unfolding write submit_write_at
two_written = refl

two_back : seek (inr 100) (current (negsuc 1)) (record { poisoned = false; at = 12 }) ≡ (ok 10, ten)
unfolding seek seek_target
two_back = refl

abbrev twelve : Position
twelve = record { poisoned = false; at = 12 }

none_back : seek (inr 100) (current (negsuc 19)) twelve ≡ (err negative_position, twelve)
unfolding seek seek_target
none_back = refl

two_read : got ≡ (ok 2, record { poisoned = false; at = 12 }, got.2)
unfolding read submit_read_at write submit_write_at
two_read = refl

abbrev other_clone : File
other_clone = record { fd = 3; ring_depth = 2; chunk_size = 4 }

-- The system makes no ring of this depth.
abbrev deep_clone : File
deep_clone = record { fd = 3; ring_depth = 40000; chunk_size = 4 }

abbrev three_calls : List Call
three_calls =
    record { file = cursor_file; buf = room_for_five }
    ∷ record { file = deep_clone; buf = space }
    ∷ record { file = other_clone; buf = space }
    ∷ []

-- Clones write one after the other: the second call fails, and the third goes on where the first has
-- ended.
abbrev not_wrote : Result ℕ × Position × Kernel
not_wrote = write simulated deep_clone space twelve wrote.2

not_written : not_wrote ≡ (err (init_error (raw_os_error 22)), twelve, not_wrote.2)
unfolding write submit_write_at
not_written = refl

abbrev wrote_next : Result ℕ × Position × Kernel
wrote_next = write simulated other_clone space twelve not_wrote.2

next_written : wrote_next ≡ (ok 2, record { poisoned = false; at = 14 }, wrote_next.2)
unfolding write submit_write_at
next_written = refl

Wrote-Appended_example :
    Appended simulated simulated_laws 3 three_calls ten quiet_kernel
      (2 ∷ 0 ∷ 2 ∷ [])
      (record { poisoned = false; at = 14 })
      wrote_next.2
unfolding write submit_write_at
Wrote-Appended_example =
    Wrote-Appended simulated simulated_laws 3 three_calls ten quiet_kernel (2 ∷ 0 ∷ 2 ∷ [])
      (record { poisoned = false; at = 14 }) wrote_next.2 refl refl
      ((refl, omega arith), ((refl, omega arith), ((refl, omega arith), tt)))
      (returned cursor_file room_for_five _ ten quiet_kernel 2 _ wrote.2 (0 ∷ 2 ∷ []) _ _
        two_written
        (failed deep_clone space _ twelve wrote.2 _ twelve not_wrote.2 (2 ∷ []) _ _ not_written refl
          (returned other_clone space [] _ not_wrote.2 2 _ wrote_next.2 [] _ _ next_written
            (no_call _ _))))

-- What is seen of the write, a seek before the start, the seek back and the read.
abbrev seen_events : List Event
seen_events =
    put (bytes_from (λ a. simulated_laws.byte_at quiet_kernel (memory a)) 60 2) 5
    ∷ seek_failed (inr 100) (current (negsuc 19))
    ∷ sought (inr 100) (current (negsuc 1)) 10
    ∷ Event.got (bytes_from (λ a. simulated_laws.byte_at got.2 (memory a)) 80 2)
    ∷ []

Ran-Follows_example :
    Follows
      (tape simulated simulated_laws 3 ten quiet_kernel)
      seen_events
      (tape simulated simulated_laws 3 (record { poisoned = false; at = 12 }) got.2)
Ran-Follows_example =
    Ran-Follows simulated simulated_laws 3 ten quiet_kernel seen_events
      (record { poisoned = false; at = 12 }) got.2
      (record { lock = refl; word = omega arith; quiet = refl })
      (writes cursor_file room_for_five ten quiet_kernel 2 _ wrote.2 _ _ _ (refl, omega arith)
        two_written
        (seek_fails (inr 100) (current (negsuc 19)) twelve wrote.2 _ twelve _ _ _
          (omega arith, omega arith) none_back
          (seeks (inr 100) (current (negsuc 1)) _ wrote.2 10 ten _ _ _ (omega arith, omega arith)
            two_back
            (reads cursor_file space ten wrote.2 2 _ got.2 [] _ _ (refl, omega arith) two_read
              (nothing _ _)))))
