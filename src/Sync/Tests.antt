-- ===== src/Sync/Tests.antt =====
-- Whole reads and batches on a file in memory.
use fastio.Prelude.{◌≡◌, refl, [], ◌∷◌, List, All, length}
use fastio.Io.{ok, err}
use fastio.Write.{WriteSlice, new}
use fastio.Sync.Whole.Unordered.{Overlaid, write_slices_at-Overlaid}
use fastio.Buffer.{allocate}
use fastio.Sync.Whole.{read_at, read_all, write_slices_at}
use fastio.Sync.Whole.Fetch.{Fetched, reads-Fetched}
use fastio.Sync.Whole.RoundTrip.{GivesBack, write_slices_at-read_at}
use fastio.Sync.Whole.First.{StopsAt, write_slices_at-StopsAt}
use fastio.Samples.{Disk, full, disk_file, disk_laws, free_list, free_list_laws, eof}

abbrev counting : Disk
counting p = p

past_the_end : (read_at disk_file free_list 18 3 5 counting).0 ≡ err eof
unfolding read_at allocate
past_the_end = refl

reads-Fetched_example :
    Fetched disk_file disk_laws free_list free_list_laws 4 3 counting
      (read_at disk_file free_list 4 3 5 counting)
    × Fetched disk_file disk_laws free_list free_list_laws 0 20 counting
        (read_all disk_file free_list 5 counting)
reads-Fetched_example = reads-Fetched disk_file disk_laws free_list free_list_laws 4 3 5 counting

abbrev two_slices : List WriteSlice
two_slices = record { offset = 6; bytes = 7 ∷ 8 ∷ [] } ∷ record { offset = 0; bytes = 5 ∷ [] } ∷ []

batch_ok : (write_slices_at disk_file (record { as_slice = two_slices }) counting).0 ≡ ok tt
unfolding write_slices_at
batch_ok = refl

write_slices_at-read_at_example :
    All
      (λ v. GivesBack disk_file disk_laws free_list free_list_laws v.bytes (
        read_at disk_file free_list v.offset
          (length v.bytes)
          5
          (write_slices_at disk_file (record { as_slice = two_slices }) counting).1))
      two_slices
unfolding new
write_slices_at-read_at_example =
    write_slices_at-read_at disk_file disk_laws free_list free_list_laws two_slices
      (record { as_slice = two_slices }) counting refl batch_ok 5

-- The second slice ends beyond the file.
abbrev long_slices : List WriteSlice
long_slices =
    record { offset = 6; bytes = 7 ∷ 8 ∷ [] }
    ∷ record { offset = 19; bytes = 5 ∷ 4 ∷ [] }
    ∷ record { offset = 0; bytes = 1 ∷ [] }
    ∷ []

abbrev first_only : Disk
first_only = (write_slices_at disk_file (record { as_slice = long_slices }) counting).1

second_fails :
    write_slices_at disk_file (record { as_slice = long_slices }) counting ≡ (err full, first_only)
unfolding write_slices_at
second_fails = refl

write_slices_at-StopsAt_example : StopsAt disk_file disk_laws long_slices counting full first_only
unfolding new
write_slices_at-StopsAt_example =
    write_slices_at-StopsAt disk_file disk_laws long_slices (record { as_slice = long_slices })
      counting full first_only refl second_fails

write_slices_at-Overlaid_example :
    Overlaid disk_file disk_laws two_slices counting
      (write_slices_at disk_file (record { as_slice = two_slices }) counting)
unfolding new
write_slices_at-Overlaid_example =
    write_slices_at-Overlaid disk_file disk_laws two_slices (record { as_slice = two_slices })
      counting refl
