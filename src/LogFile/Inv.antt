-- ===== src/LogFile/Inv.antt =====
-- What every call keeps of a log of flute/common/LogFile.cc: an open file and all bytes.
use flute.Prelude.{
  ℕ, ◌+◌, ◌-◌, ◌≤◌, ◌<◌, ◌≡◌, refl, ap, ◌∙◌, sym, ◌⊎◌, inl, inr, true, leb, ltb, ◌==◌, none, some,
  Bool-cases, List, [], ◌∷◌, ◌++◌, append_assoc, append-nil, length, arith,
}
use flute.LogFile.{
  AppendFile, LogFile, new_file, flush_file, closed, period, roll_file, roll, flush, check,
  count_append,
}

-- The bytes of all files of the log.
abbrev pub contents : List AppendFile → List ℕ
contents [] = []
contents (f ∷ fs) = f.content ++ contents fs

abbrev pub all_bytes : LogFile → List ℕ
all_bytes l = contents (l.old_files ++ closed l.file)

-- A file is open, whose bytes are counted; it was opened in its period; and the lines since the last
-- check are fewer than are checked.
pub record IsOpen (l : LogFile) : Type 0 where
  pub file : AppendFile
  pub is_open : l.file ≡ some file
  pub counted : file.written_bytes ≡ length file.content
  pub flushed : file.flushed ≤ length file.content
  pub in_period : l.start_time ≡ period l.last_roll
  pub few : (0 < l.check_every_n_appends) → l.count < l.check_every_n_appends

-- How many bytes the open file has been asked to take.
abbrev pub open_size : LogFile → ℕ
open_size l = elim (l.file) [ some f ↦ f.written_bytes | none ↦ 0 ]

-- A call keeps the log open, its bytes and its limits.
pub record Keeps (l l' : LogFile) : Type 0 where
  pub still_open : IsOpen l'
  pub bytes : all_bytes l' ≡ all_bytes l
  pub rollsize : l'.rollsize ≡ l.rollsize
  pub size : open_size l' ≤ open_size l

pub contents-append : (xs ys : List AppendFile) → contents (xs ++ ys) ≡ contents xs ++ contents ys
contents-append [] ys = refl
contents-append (x ∷ xs) ys =
    ap (◌++◌ x.content) (contents-append xs ys)
    ∙ sym (append_assoc x.content (contents xs) (contents ys))

contents-new_file : (fs : List AppendFile) → contents (fs ++ new_file ∷ []) ≡ contents fs
contents-new_file fs = contents-append fs (new_file ∷ []) ∙ append-nil (contents fs)

-- A roll that succeeds, as it does where the new file is opened.
pub roll-Keeps :
    (now : ℕ) (l : LogFile)
    → IsOpen l
    → (l' : LogFile) × (roll now true l ≡ some l')
      × Keeps l l'
      × ((n : ℕ) → (open_size l' ≤ n) ⊎ (now ≤ l.last_roll))
unfolding roll_file
roll-Keeps now l v = elim (Bool-cases (ltb l.last_roll now)) [
  | inl e ↦ (
    record l {
      last_roll = now;
      last_flush = now;
      start_time = period now;
      old_files = l.old_files ++ closed l.file;
      file = some new_file;
    },
    rw e refl,
    record {
      still_open = record {
        file = new_file;
        is_open = refl;
        counted = refl;
        flushed = omega arith;
        in_period = refl;
        few = v.few;
      };
      bytes = contents-new_file (l.old_files ++ closed l.file);
      rollsize = refl;
      size = omega arith;
    },
    λ n. inl (omega arith),
  )
  | inr e ↦ (
    l,
    rw e refl,
    record { still_open = v; bytes = refl; rollsize = refl; size = omega arith },
    λ n. inr (ground (arith, e)),
  )
]

-- The open file by name.
pub all_bytes-open :
    (l : LogFile) (v : IsOpen l) → all_bytes l ≡ contents l.old_files ++ v.file.content
all_bytes-open l v =
    ap (λ o. contents (l.old_files ++ closed o)) v.is_open
    ∙ contents-append l.old_files (v.file ∷ [])
    ∙ ap (◌++◌ (contents l.old_files)) (append-nil v.file.content)

flush-Keeps : (l : LogFile) → IsOpen l → (l' : LogFile) × (flush l ≡ some l') × Keeps l l'
unfolding flush
flush-Keeps l v = (
  record l { file = some (flush_file v.file) },
  rw v.is_open refl,
  record {
    still_open = record {
      file = flush_file v.file;
      is_open = refl;
      counted = v.counted;
      flushed = omega arith;
      in_period = v.in_period;
      few = v.few;
    };
    bytes =
        contents-append l.old_files (flush_file v.file ∷ [])
        ∙ ap (◌++◌ (contents l.old_files)) (append-nil v.file.content)
        ∙ sym (all_bytes-open l v);
    rollsize = refl;
    size = ground (arith, v.is_open);
  },
)

same_bytes :
    {l l' : LogFile} {n time : ℕ}
    → Keeps (record l { count = n; last_flush = time }) l'
    → Keeps l l'
same_bytes k = record {
  still_open = k.still_open;
  bytes = k.bytes;
  rollsize = k.rollsize;
  size = k.size;
}

-- With another count and another time of the last flush.
recounted :
    (n time : ℕ) (l : LogFile)
    → IsOpen l
    → (0 < l.check_every_n_appends → n < l.check_every_n_appends)
    → IsOpen (record l { count = n; last_flush = time })
recounted n time l v few = record {
  file = v.file;
  is_open = v.is_open;
  counted = v.counted;
  flushed = v.flushed;
  in_period = v.in_period;
  few = few;
}

check-Keeps :
    (now later : ℕ) (l : LogFile)
    → IsOpen l
    → (l' : LogFile) × (check now later true l ≡ some l') × Keeps l l'
unfolding check
check-Keeps now later l v = elim (Bool-cases (period now == l.start_time)) [
  | inl e ↦ elim (Bool-cases (ltb l.flush_interval (now - l.last_flush))) [
    | inl f ↦
        let (l', run, k) =
          flush-Keeps (record l { last_flush = now }) (recounted l.count now l v v.few) in
        (l', rw (e, f) run, same_bytes k)
    | inr f ↦ (
      l,
      rw (e, f) refl,
      record { still_open = v; bytes = refl; rollsize = refl; size = omega arith },
    )
  ]
  | inr e ↦ let (l', run, k, _) = roll-Keeps later l v in (l', rw e run, k)
]

pub count_append-Keeps :
    (now later : ℕ) (l : LogFile)
    → IsOpen l
    → (l' : LogFile) × (count_append now later true l ≡ some l') × Keeps l l'
unfolding count_append
count_append-Keeps now later l v = elim (Bool-cases (leb l.check_every_n_appends (l.count + 1))) [
  | inl e ↦
      let (l', run, k) =
        check-Keeps now later (record l { count = 0 }) (recounted 0 l.last_flush l v (λ h. h)) in
      (l', rw e run, same_bytes k)
  | inr e ↦ (
    record l { count = l.count + 1 },
    rw e refl,
    record {
      still_open = recounted (l.count + 1) l.last_flush l v (λ h. ground (arith, e));
      bytes = refl;
      rollsize = refl;
      size = omega arith;
    },
  )
]
