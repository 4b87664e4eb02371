-- ===== src/LogFile/Runs.antt =====
-- Lines appended to the files of a log, in flute/common/LogFile.cc.
use flute.Prelude.{
  ℕ, ◌+◌, ◌≤◌, ◌<◌, ◌≡◌, refl, ap, ◌∙◌, sym, ◌⊎◌, inl, inr, lt→ltb, ltb, if◌then◌else◌, Option,
  some, ◌>>=◌, Bool, true, Bool-cases, List, [], ◌∷◌, ◌++◌, append_assoc, append-nil, map, length,
  length-append, concat, All, arith,
}
use flute.LogFile.{LogFile, new_file, period, roll_file, roll, new, count_append, append_unlocked}
use flute.LogFile.Writes.{NonEmpty, append-pieces}
use flute.LogFile.Inv.{
  contents, all_bytes, IsOpen, open_size, all_bytes-open, roll-Keeps, count_append-Keeps,
}

-- A line that comes in pieces, as `fwrite` takes it, the times that are read, and whether `fopen` of a new file would
-- succeed.
pub record Call : Type 0 where
  pub first : List ℕ
  pub others : List (List ℕ)
  pub non_empty : All NonEmpty others
  pub now : ℕ
  pub later : ℕ
  pub opens : Bool

abbrev pub line : Call → List ℕ
line c = c.first ++ concat c.others

abbrev pub append_call : Call → LogFile → Option LogFile
append_call c l =
    append_unlocked (length c.first ∷ map length c.others) c.now c.later c.opens (line c) l

-- The log with a line in its open file.
abbrev with_line : List ℕ → (l : LogFile) → IsOpen l → LogFile
with_line bytes l v = record l {
  file = some (record (v.file) {
    content = v.file.content ++ bytes;
    written_bytes = v.file.written_bytes + length bytes;
  });
}

with_line-IsOpen : (bytes : List ℕ) (l : LogFile) (v : IsOpen l) → IsOpen (with_line bytes l v)
with_line-IsOpen bytes l v = record {
  file = record (v.file) {
    content = v.file.content ++ bytes;
    written_bytes = v.file.written_bytes + length bytes;
  };
  is_open = refl;
  counted = omega (arith, v.counted, length-append v.file.content bytes);
  flushed = omega (arith, v.flushed, length-append v.file.content bytes);
  in_period = v.in_period;
  few = v.few;
}

with_line-bytes :
    (bytes : List ℕ) (l : LogFile) (v : IsOpen l)
    → all_bytes (with_line bytes l v) ≡ all_bytes l ++ bytes
unfolding with_line-IsOpen
with_line-bytes bytes l v =
    all_bytes-open (with_line bytes l v) (with_line-IsOpen bytes l v)
    ∙ sym (append_assoc (contents l.old_files) v.file.content bytes)
    ∙ ap (λ x. x ++ bytes) (sym (all_bytes-open l v))

-- A line is in the log, which is still open.
pub record Appended (bytes : List ℕ) (later : ℕ) (l l' : LogFile) : Type 0 where
  pub still_open : IsOpen l'
  pub appended : all_bytes l' ≡ all_bytes l ++ bytes
  pub rolled : (open_size l' ≤ l.rollsize) ⊎ (later ≤ l.last_roll)

append_call-eq :
    (c : Call) (l : LogFile) (v : IsOpen l)
    → append_call c l ≡ (
        if ltb l.rollsize (v.file.written_bytes + length (line c))
        then roll c.later c.opens (with_line (line c) l v)
        else count_append c.now c.later c.opens (with_line (line c) l v))
unfolding append_unlocked
append_call-eq c l v = simp (v.is_open, append-pieces c.first c.others v.file c.non_empty) refl

-- A line that `fwrite` takes in pieces, of which only the first may be empty, is appended to an open
-- log, if `fopen` succeeds where a new file is opened: all bytes of all its files are those before and
-- the line, and the open file has been asked to take no more bytes than `rollsize`, but where the time
-- that is read for its name is not past the last roll before the call.
pub append_call-Appended :
    (c : Call) (l : LogFile)
    → IsOpen l
    → c.opens ≡ true
    → (l' : LogFile) × (append_call c l ≡ some l') × Appended (line c) c.later l l'
append_call-Appended c l v opens =
    elim (Bool-cases (ltb l.rollsize (v.file.written_bytes + length (line c)))) [
      | inl e ↦
          let (l', run, k, small) = roll-Keeps c.later m w in
          (
            l',
            append_call-eq c l v ∙ rw (e, opens) run,
            record {
              still_open = k.still_open;
              appended = k.bytes ∙ with_line-bytes (line c) l v;
              rolled = small l.rollsize;
            },
          )
      | inr e ↦
          let (l', run, k) = count_append-Keeps c.now c.later m w in
          (
            l',
            append_call-eq c l v ∙ rw (e, opens) run,
            record {
              still_open = k.still_open;
              appended = k.bytes ∙ with_line-bytes (line c) l v;
              rolled = inl (ground (arith, e, k.size));
            },
          )
    ]
  where
    m : LogFile
    m = with_line (line c) l v

    w : IsOpen m
    w = with_line-IsOpen (line c) l v

-- Lines one after the other.
unfoldable pub run : List Call → LogFile → Option LogFile
run [] l = some l
run (c ∷ cs) l = do l' ← append_call c l; run cs l'

abbrev pub lines : List Call → List ℕ
lines [] = []
lines (c ∷ cs) = line c ++ lines cs

-- Any lines that `fwrite` takes in pieces, of which only the first may be empty, are appended one after
-- the other to an open log, if `fopen` succeeds wherever a new file is opened: the log is still open,
-- and the bytes of all its files, in their order, are those before and then the lines, each whole and
-- in its order.
pub run-IsOpen :
    (cs : List Call) (l : LogFile)
    → IsOpen l
    → All (λ c. c.opens ≡ true) cs
    → (l' : LogFile) × (run cs l ≡ some l') × IsOpen l' × (all_bytes l' ≡ all_bytes l ++ lines cs)
unfolding run
run-IsOpen [] l v opens = (l, refl, v, sym (append-nil (all_bytes l)))
run-IsOpen (c ∷ cs) l v (opens, all_open) =
    let (m, first, a) = append_call-Appended c l v opens in
    let (l', others, w, e) = run-IsOpen cs m a.still_open all_open in
    (
      l',
      rw first others,
      w,
      e ∙ ap (λ x. x ++ lines cs) a.appended ∙ append_assoc (all_bytes l) (line c) (lines cs),
    )

-- A log that is made at some time after 1970, with a file that opens, is open.
pub new-IsOpen :
    (rollsize flush_interval check_every_n now : ℕ)
    → 0 < now
    → (l : LogFile) × (new rollsize flush_interval check_every_n now true ≡ some l) × IsOpen l
unfolding new roll_file
new-IsOpen rollsize flush_interval check_every_n now h = (
  record {
    rollsize = rollsize;
    flush_interval = flush_interval;
    check_every_n_appends = check_every_n;
    count = 0;
    start_time = period now;
    last_roll = now;
    last_flush = now;
    file = some new_file;
    old_files = [];
  },
  rw (new, roll_file, lt→ltb 0 now h) refl,
  record {
    file = new_file;
    is_open = refl;
    counted = refl;
    flushed = omega arith;
    in_period = refl;
    few = λ k. k;
  },
)
