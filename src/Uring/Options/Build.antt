-- ===== src/Uring/Options/Build.antt =====
-- What a chain of calls on new options opens (src/uring.rs).
use fastio.Prelude.{ℕ, Bool, List, [], ◌∷◌}
use fastio.Open.{
  Std, Flag, read_flag, write_flag, append_flag, truncate_flag, create_flag, create_new_flag, chain,
}
use fastio.Uring.Options.{OpenOptions, set_option, set_ring_depth, set_chunk_size}

-- A call of a setter.
pub data Call : Type 0 where
  flag : Flag → Bool → Call
  depth chunk : ℕ → Call

-- The arguments of the last calls, or the value before them.
abbrev pub last_depth : List Call → ℕ → ℕ
last_depth [] d = d
last_depth (depth n ∷ cs) d = last_depth cs n
last_depth (chunk n ∷ cs) d = last_depth cs d
last_depth (flag f b ∷ cs) d = last_depth cs d

abbrev pub last_chunk : List Call → ℕ → ℕ
last_chunk [] d = d
last_chunk (depth n ∷ cs) d = last_chunk cs d
last_chunk (chunk n ∷ cs) d = last_chunk cs n
last_chunk (flag f b ∷ cs) d = last_chunk cs d

-- The calls that set flags.
abbrev pub flag_calls : List Call → List (Flag × Bool)
flag_calls [] = []
flag_calls (depth n ∷ cs) = flag_calls cs
flag_calls (chunk n ∷ cs) = flag_calls cs
flag_calls (flag f b ∷ cs) = (f, b) ∷ flag_calls cs

abbrev pub last_append : List (Flag × Bool) → Bool → Bool
last_append [] a = a
last_append ((append_flag, b) ∷ cs) a = last_append cs b
last_append ((read_flag, b) ∷ cs) a = last_append cs a
last_append ((write_flag, b) ∷ cs) a = last_append cs a
last_append ((truncate_flag, b) ∷ cs) a = last_append cs a
last_append ((create_flag, b) ∷ cs) a = last_append cs a
last_append ((create_new_flag, b) ∷ cs) a = last_append cs a

module _ (std : Std) where
  abbrev pub call : Call → OpenOptions std → OpenOptions std
  call (flag f b) o = set_option std f b o
  call (depth n) o = set_ring_depth std n o
  call (chunk n) o = set_chunk_size std n o

  abbrev pub calls : List Call → OpenOptions std → OpenOptions std
  calls [] o = o
  calls (c ∷ cs) o = calls cs (call c o)

  -- What the options are after the calls.
  abbrev pub called : List Call → OpenOptions std → OpenOptions std
  called cs o = record {
    inner = chain std.set_flag (flag_calls cs) o.inner;
    ring_depth = last_depth cs o.ring_depth;
    chunk_size = last_chunk cs o.chunk_size;
    append = last_append (flag_calls cs) o.append;
  }
