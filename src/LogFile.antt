-- ===== src/LogFile.antt =====
-- flute/common/LogFile.h and LogFile.cc, with the AppendFile of FileUtil.cc: the files of a log. The
-- answers of `fwrite` are a list, and so are the bytes of a file; the lock only keeps the calls apart.
-- `none` is a file that is not open or that cannot be opened, or an answer that is missing or more
-- than was asked for.
pub mod Writes
pub mod Inv
pub mod Runs
mod Tests
use flute.Prelude.{
  ℕ, zero, suc, ◌+◌, ◌-◌, ◌*◌, ◌/◌, Bool, true, false, not, leb, ltb, ◌==◌, if◌then◌else◌, Option,
  none, some, ◌>>=◌, ◌>>◌, assert, List, [], ◌∷◌, ◌++◌, length, take, drop,
}

-- The bytes that were given to the file, and how many of them are out of the buffer.
pub record AppendFile : Type 0 where
  pub content : List ℕ
  pub flushed : ℕ
  pub written_bytes : ℕ

abbrev pub new_file : AppendFile
new_file = record { content = []; flushed = 0; written_bytes = 0 }

-- One `fwrite_unlocked`, by its answer: the bytes that are left of the line.
unfoldable pub write : ℕ → List ℕ → AppendFile → Option (List ℕ × AppendFile)
write x line f = do
  assert (leb x (length line))
  some (drop x line, record f { content = f.content ++ take x line })

-- The loop over what remains; an answer of 0 ends it.
unfoldable pub write_rest : List ℕ → List ℕ → AppendFile → Option AppendFile
write_rest answers [] f = some f
write_rest [] (b ∷ bs) f = none
write_rest (x ∷ answers) (b ∷ bs) f = do
  (remain, f') ← write x (b ∷ bs) f
  if x == 0 then some f' else write_rest answers remain f'

unfoldable pub append : List ℕ → List ℕ → AppendFile → Option AppendFile
append [] line f = none
append (x ∷ answers) line f = do
  (remain, f₁) ← write x line f
  f₂ ← write_rest answers remain f₁
  some (record f₂ { written_bytes = f₂.written_bytes + length line })

abbrev pub flush_file : AppendFile → AppendFile
flush_file f = record f { flushed = length f.content }

abbrev pub k_roll_per_seconds : ℕ
k_roll_per_seconds = 60 * 60 * 24

-- `old_files` are the files that were closed, in their order.
pub record LogFile : Type 0 where
  pub rollsize : ℕ
  pub flush_interval : ℕ
  pub check_every_n_appends : ℕ
  pub count : ℕ
  pub start_time : ℕ
  pub last_roll : ℕ
  pub last_flush : ℕ
  pub file : Option AppendFile
  pub old_files : List AppendFile

abbrev pub closed : Option AppendFile → List AppendFile
closed none = []
closed (some f) = f ∷ []

abbrev pub period : ℕ → ℕ
period now = now / k_roll_per_seconds * k_roll_per_seconds

-- With the time of the new file's name, and whether `fopen` succeeds, which is asserted.
unfoldable pub roll_file : ℕ → Bool → LogFile → Option (Bool × LogFile)
roll_file now opens l =
    if ltb l.last_roll now
    then (do
      assert opens
      some (
        true,
        record l {
          last_roll = now;
          last_flush = now;
          start_time = period now;
          old_files = l.old_files ++ closed l.file;
          file = some new_file;
        },
      ))
    else some (false, l)

-- The call where its result is not used.
abbrev pub roll : ℕ → Bool → LogFile → Option LogFile
roll now opens l = do (_, l') ← roll_file now opens l; some l'

unfoldable pub new : ℕ → ℕ → ℕ → ℕ → Bool → Option LogFile
new rollsize flush_interval check_every_n now opens =
    let l : LogFile = record {
      rollsize = rollsize;
      flush_interval = flush_interval;
      check_every_n_appends = check_every_n;
      count = 0;
      start_time = 0;
      last_roll = 0;
      last_flush = 0;
      file = none;
      old_files = [];
    } in
    roll now opens l

unfoldable pub flush : LogFile → Option LogFile
flush l = do f ← l.file; some (record l { file = some (flush_file f) })

-- After as many lines as are checked: a new file in a new period, a flush after some time. The clock
-- is read at `now`, and at `later` for a file's name.
unfoldable pub check : ℕ → ℕ → Bool → LogFile → Option LogFile
check now later opens l =
    if not (period now == l.start_time)
    then roll later opens l
    else if ltb l.flush_interval (now - l.last_flush)
    then flush (record l { last_flush = now })
    else some l

unfoldable pub count_append : ℕ → ℕ → Bool → LogFile → Option LogFile
count_append now later opens l =
    if leb l.check_every_n_appends (l.count + 1)
    then check now later opens (record l { count = 0 })
    else some (record l { count = l.count + 1 })

unfoldable pub append_unlocked : List ℕ → ℕ → ℕ → Bool → List ℕ → LogFile → Option LogFile
append_unlocked answers now later opens line l = do
  f ← l.file
  f' ← append answers line f
  let appended : LogFile = record l { file = some f' }
  if ltb l.rollsize f'.written_bytes
      then roll later opens appended
      else count_append now later opens appended
