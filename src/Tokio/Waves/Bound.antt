-- ===== src/Tokio/Waves/Bound.antt =====
-- Some order of the threads of a wave succeeds (src/tokio/mod.rs).
use fastio.Prelude.{ℕ, suc, ◌+◌, ◌≡◌, refl, List, [], ◌∷◌, length, take, map, All, arith}
use fastio.Io.{ok}
use fastio.Write.{WriteSlice}
use fastio.Tokio.Waves.{
  Disk, writing, finished, Thread, spawn, stored, transfer, complete, here, there, Turns, stop,
  turn, join_all, IsEnded, Waves, no_more, next_wave,
}

-- The bytes of the slices together.
abbrev pub total : List WriteSlice → ℕ
total [] = 0
total (s ∷ ss) = length s.bytes + total ss

under :
    (n : ℕ) (t : Thread) (d : Disk) (ts : List Thread) (d' : Disk) (ts' : List Thread)
    → Turns n d ts d' ts'
    → Turns n d (t ∷ ts) d' (t ∷ ts')
under _ t d _ _ _ (stop _ ts) = stop d (t ∷ ts)
under _ t d _ _ _ (turn n _ ts d1 ts1 d2 ts2 one rest) =
    turn n d (t ∷ ts) d1 (t ∷ ts1) d2 (t ∷ ts2) (there t ts d1 ts1 one)
      (under n t d1 ts1 d2 ts2 rest)

-- An order in which all threads of a wave finish, one after the other.
pub record Success (wave : List WriteSlice) (d : Disk) : Type 0 where
  pub turns : ℕ
  pub after : Disk
  pub threads : List Thread
  pub run : Turns turns d (map spawn wave) after threads
  pub ended : All IsEnded threads
  pub joined : join_all threads ≡ ok tt

abbrev done : WriteSlice → Thread
done s = record { slice = s; worker = finished }

-- A thread that runs to its end, byte by byte, before anything else.
finish :
    (s : WriteSlice) (others : List Thread) (o : ℕ) (rest : List ℕ) (d : Disk)
    → (d' : Disk) × ((n : ℕ) (e : Disk) (ts : List Thread)
        → Turns n d' (done s ∷ others) e ts
        → (m : ℕ) × Turns m d (record { slice = s; worker = writing o rest } ∷ others) e ts)
finish s others o [] d = (
  d,
  λ n e ts run.
      (suc n, turn n d _ d _ e ts (here s (writing o []) d finished others (complete o)) run),
)
finish s others o (b ∷ bytes) d =
    let d1 = stored d o (take 1 (b ∷ bytes)) in
    let later = finish s others (o + 1) bytes d1 in
    (
      later.0,
      λ n e ts run.
          let whole = later.1 n e ts run in
          (
            suc whole.0,
            turn whole.0 d _ d1 _ e ts
                (here s (writing o (b ∷ bytes)) d1 (writing (o + 1) bytes) others
                  (transfer o 1 (b ∷ bytes) (omega arith) (omega arith)))
                whole.1,
          ),
    )

pub wave-Success : (wave : List WriteSlice) (d : Disk) → Success wave d
unfolding join_all
wave-Success [] d = record {
  turns = 0;
  after = d;
  threads = [];
  run = stop d [];
  ended = tt;
  joined = refl;
}
wave-Success (s ∷ wave) d =
    let first = finish s (map spawn wave) s.offset s.bytes d in
    let rest = wave-Success wave first.0 in
    let whole =
      first.1 rest.turns rest.after (done s ∷ rest.threads)
        (under rest.turns (done s) first.0 (map spawn wave) rest.after rest.threads rest.run) in
    record {
      turns = whole.0;
      after = rest.after;
      threads = done s ∷ rest.threads;
      run = whole.1;
      ended = (tt, rest.ended);
      joined = rest.joined;
    }

-- From any file, some order of the threads lets all waves succeed.
pub Waves-possible :
    (waves : List (List WriteSlice)) (d : Disk) → (d' : Disk) × Waves waves d (ok tt) d'
Waves-possible [] d = (d, no_more d)
Waves-possible (wave ∷ waves) d =
    let s = wave-Success wave d in
    let rest = Waves-possible waves s.after in
    (
      rest.0,
      next_wave s.turns wave waves d s.after rest.0 s.threads (ok tt) s.run s.ended s.joined rest.1,
    )
