-- ===== src/LogFile/Tests.antt =====
-- Runs of the definitions of flute/common/LogFile.cc.
use flute.Prelude.{◌≡◌, refl, true, false, none, some, [], ◌∷◌, ◌++◌, arith}
use flute.LogFile.{LogFile, new_file, write, write_rest, append, roll_file, new, append_unlocked}
use flute.LogFile.Inv.{IsOpen, all_bytes}
use flute.LogFile.Runs.{
  Call, line, lines, append_call, Appended, append_call-Appended, run, run-IsOpen,
}

-- A log with files of three bytes, made on the second of January 1970.
abbrev small : LogFile
small = record {
  rollsize = 3;
  flush_interval = 3;
  check_every_n_appends = 2;
  count = 0;
  start_time = 86400;
  last_roll = 90000;
  last_flush = 90000;
  file = some new_file;
  old_files = [];
}

does_open : new 3 3 2 90000 true ≡ some small
unfolding new roll_file
does_open = refl

-- Without its file no log is made.
does_not_open : new 3 3 2 90000 false ≡ none
unfolding new roll_file
does_not_open = refl

small-IsOpen : IsOpen small
small-IsOpen = record {
  file = new_file;
  is_open = refl;
  counted = refl;
  flushed = omega arith;
  in_period = refl;
  few = λ k. k;
}

-- The first line is taken in two pieces.
abbrev two_pieces : Call
two_pieces = record {
  first = 1 ∷ 2 ∷ [];
  others = (3 ∷ 4 ∷ []) ∷ [];
  non_empty = (omega arith, tt);
  now = 90001;
  later = 90001;
  opens = true;
}

abbrev one_piece : Call
one_piece = record {
  first = 5 ∷ [];
  others = [];
  non_empty = tt;
  now = 90002;
  later = 90002;
  opens = true;
}

rolls_by_size :
    run (two_pieces ∷ []) small
    ≡ some (record small {
      last_roll = 90001;
      last_flush = 90001;
      file = some (record { content = []; flushed = 0; written_bytes = 0 });
      old_files = record { content = 1 ∷ 2 ∷ 3 ∷ 4 ∷ []; flushed = 0; written_bytes = 4 } ∷ [];
    })
unfolding run append_unlocked append write write_rest new roll_file
rolls_by_size = refl

append_call-Appended_example :
    (l' : LogFile) × (append_call two_pieces small ≡ some l')
    × Appended (line two_pieces) 90001 small l'
append_call-Appended_example = append_call-Appended two_pieces small small-IsOpen refl

run-IsOpen_example :
    (l' : LogFile) × (run (two_pieces ∷ one_piece ∷ []) small ≡ some l')
    × IsOpen l'
    × (all_bytes l' ≡ all_bytes small ++ lines (two_pieces ∷ one_piece ∷ []))
run-IsOpen_example = run-IsOpen (two_pieces ∷ one_piece ∷ []) small small-IsOpen (refl, (refl, tt))
