-- ===== src/Open/Tests.antt =====
-- The options of the backends on a standard library that keeps the six flags in a record.
use fastio.Prelude.{ℕ, ◌≡◌, ◌≢◌, inr, refl, Bool, true, false, List, [], ◌∷◌}
use fastio.Open.{
  Std, Laws, Flag, read_flag, write_flag, append_flag, truncate_flag, create_flag, create_new_flag,
  chain,
}
use fastio.Tokio.Options
use fastio.Tokio.Same.{tokio_fd, sync_fd, open_with-chain}
use fastio.Sync.Options as SyncOptions
use fastio.Uring.Options as UringOptions
use fastio.Uring.Options.Build.{Call, flag, depth}

abbrev flags_std : Std
flags_std = record {
  Options = Options.OpenOptions;
  FilePath = ℕ;
  World = ℕ;
  blank = Options.new;
  set_flag = Options.set_option;
  open_path = λ o path w. (inr path, w);
}

flags_again :
    (f : Flag) (a b : Bool) (o : Options.OpenOptions)
    → Options.set_option f a (Options.set_option f b o) ≡ Options.set_option f a o
flags_again read_flag a b o = refl
flags_again write_flag a b o = refl
flags_again append_flag a b o = refl
flags_again truncate_flag a b o = refl
flags_again create_flag a b o = refl
flags_again create_new_flag a b o = refl

flags_apart :
    (f g : Flag) (a b : Bool) (o : Options.OpenOptions)
    → f ≢ g
    → Options.set_option f a (Options.set_option g b o)
      ≡ Options.set_option g b (Options.set_option f a o)
flags_apart read_flag read_flag a b o h = absurd (h refl)
flags_apart read_flag write_flag a b o h = refl
flags_apart read_flag append_flag a b o h = refl
flags_apart read_flag truncate_flag a b o h = refl
flags_apart read_flag create_flag a b o h = refl
flags_apart read_flag create_new_flag a b o h = refl
flags_apart write_flag read_flag a b o h = refl
flags_apart write_flag write_flag a b o h = absurd (h refl)
flags_apart write_flag append_flag a b o h = refl
flags_apart write_flag truncate_flag a b o h = refl
flags_apart write_flag create_flag a b o h = refl
flags_apart write_flag create_new_flag a b o h = refl
flags_apart append_flag read_flag a b o h = refl
flags_apart append_flag write_flag a b o h = refl
flags_apart append_flag append_flag a b o h = absurd (h refl)
flags_apart append_flag truncate_flag a b o h = refl
flags_apart append_flag create_flag a b o h = refl
flags_apart append_flag create_new_flag a b o h = refl
flags_apart truncate_flag read_flag a b o h = refl
flags_apart truncate_flag write_flag a b o h = refl
flags_apart truncate_flag append_flag a b o h = refl
flags_apart truncate_flag truncate_flag a b o h = absurd (h refl)
flags_apart truncate_flag create_flag a b o h = refl
flags_apart truncate_flag create_new_flag a b o h = refl
flags_apart create_flag read_flag a b o h = refl
flags_apart create_flag write_flag a b o h = refl
flags_apart create_flag append_flag a b o h = refl
flags_apart create_flag truncate_flag a b o h = refl
flags_apart create_flag create_flag a b o h = absurd (h refl)
flags_apart create_flag create_new_flag a b o h = refl
flags_apart create_new_flag read_flag a b o h = refl
flags_apart create_new_flag write_flag a b o h = refl
flags_apart create_new_flag append_flag a b o h = refl
flags_apart create_new_flag truncate_flag a b o h = refl
flags_apart create_new_flag create_flag a b o h = refl
flags_apart create_new_flag create_new_flag a b o h = absurd (h refl)

flags_blank : (f : Flag) → Options.set_option f false Options.new ≡ Options.new
flags_blank read_flag = refl
flags_blank write_flag = refl
flags_blank append_flag = refl
flags_blank truncate_flag = refl
flags_blank create_flag = refl
flags_blank create_new_flag = refl

flags_laws : Laws flags_std
flags_laws = record { set_again = flags_again; set_apart = flags_apart; set_blank = flags_blank }

abbrev two_calls : List (Flag × Bool)
two_calls = (write_flag, true) ∷ (append_flag, true) ∷ (write_flag, false) ∷ []

open_with-chain_example :
    tokio_fd flags_std
      (Options.open_with flags_std (chain Options.set_option two_calls Options.new) 5 0)
    ≡ sync_fd flags_std (
        SyncOptions.open_with flags_std
          (chain (SyncOptions.set_option flags_std) two_calls (SyncOptions.new flags_std))
          5
          0)
open_with-chain_example = open_with-chain flags_std flags_laws two_calls 5 0

abbrev shallow : List Call
shallow = depth 8 ∷ flag write_flag true ∷ depth 0 ∷ []
