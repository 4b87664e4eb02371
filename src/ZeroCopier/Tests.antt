-- ===== src/ZeroCopier/Tests.antt =====
-- The transfers of flute/common/ZeroCopier.cc at concrete files and answers.
use flute.Prelude.{
  map, replicate, ◌++◌, ℕ, ◌≡◌, refl, true, false, none, some, List, [], ◌∷◌, arith,
}
use flute.ZeroCopier.ReadWrite.{Sent, answer, run-stuck}
use flute.ZeroCopier.{
  ZeroCopier, Globals, Answers, k_zero_copy, k_m_map, k_read_write, send_one_chunk, send_by_mode,
  send_one_chunk_zerocopy, count_failure, globals_after, new,
}
use flute.ZeroCopier.Stream.{by_sendfile}
use flute.ZeroCopier.Finish.{run, launch, run-launch_whole}

abbrev file : List ℕ
file = 1 ∷ 2 ∷ 3 ∷ 4 ∷ 5 ∷ []

abbrev mem : ZeroCopier
mem = record {
  source = [];
  file_pos = 0;
  source_available = false;
  target_fd = none;
  failure_counter = 7;
  total_bytes = 99;
  offset = 3;
  started = true;
}

abbrev by_four : Globals
by_four = record { chunk_size = 4; copy_mode = k_zero_copy }

abbrev mapped : Globals
mapped = record { chunk_size = 4; copy_mode = k_m_map }

abbrev copied : Globals
copied = record { chunk_size = 4; copy_mode = k_read_write }

abbrev moves : ℕ → Answers
moves n = record {
  sendfile = some n;
  mmap_ok = true;
  send = some n;
  munmap_ok = true;
  read = some n;
  write = some n;
}

abbrev fails : Answers
fails = record {
  sendfile = none;
  mmap_ok = false;
  send = none;
  munmap_ok = true;
  read = none;
  write = none;
}

abbrev started_copier : ZeroCopier
started_copier = record mem {
  source = file;
  source_available = true;
  target_fd = some 5;
  failure_counter = 0;
  total_bytes = 5;
  offset = 0;
}

run-launch_whole_example : (run by_four (launch mem file 5) (moves 3 ∷ moves 2 ∷ [])).1 ≡ file
unfolding new run send_one_chunk send_by_mode send_one_chunk_zerocopy count_failure globals_after
run-launch_whole_example =
    run-launch_whole by_four mem file 5 (moves 3 ∷ moves 2 ∷ []) by_sendfile (omega arith) refl refl

-- The socket takes one byte of the three that were read.
run-stuck_example :
    Sent started_copier
      ((run copied started_copier
        (map (answer (moves 3)) (((3, 1) ∷ (2, 2) ∷ []) ++ replicate 4 (0, 0)))).0)
      ((run copied started_copier
        (map (answer (moves 3)) (((3, 1) ∷ (2, 2) ∷ []) ++ replicate 4 (0, 0)))).1)
      ((3, 1) ∷ (2, 2) ∷ [])
run-stuck_example =
    run-stuck copied started_copier (moves 3) ((3, 1) ∷ (2, 2) ∷ []) 4 (ground arith) (omega arith)
