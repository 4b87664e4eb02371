-- ===== src/Timezone/File.antt =====
-- The reading of a zone file in flute/common/Timezone.cc. A file is the list of its bytes, and none is
-- a file that `fopen` does not open. A `logic_error` ends the reading, and what was read stays.
use flute.Prelude.{
  ℕ, zero, suc, ◌==◌, leb, not, Bool, true, if◌then◌else◌, Option, none, some, assert, ◌>>=◌, ◌>>◌,
  List, [], ◌∷◌, ◌++◌, length, get_elem?, take, drop, ℤ, pos, pos_part, ltb_ℤ, ◌+ℤ◌, from_int32,
}
use flute.Buffer.{be_value}
use flute.Http.{str_eq}
use flute.Timezone.{Transition, Localtime, TimeData, Timezone, empty_data}

-- `none` is a `logic_error`.
unfoldable pub read_bytes : ℕ → List ℕ → Option (List ℕ × List ℕ)
read_bytes n file = if leb n (length file) then some (take n file, drop n file) else none

unfoldable pub read_int32 : List ℕ → Option (ℤ × List ℕ)
read_int32 file = do (bytes, rest) ← read_bytes 4 file; some (from_int32 (be_value 0 bytes), rest)

unfoldable pub read_uint8 : List ℕ → Option (ℕ × List ℕ)
read_uint8 file = do (bytes, rest) ← read_bytes 1 file; some (be_value 0 bytes, rest)

-- One item after the other, as the loops do up to a count.
unfoldable pub read_items {ℓ} :
    {A : Type ℓ} → (List ℕ → Option (A × List ℕ)) → ℕ → List ℕ → Option (List A × List ℕ)
read_items read zero file = some ([], file)
read_items read (suc n) file = do
  (x, rest) ← read file
  (xs, rest') ← read_items read n rest
  some (x ∷ xs, rest')

-- The counts that the code uses, and the times and indices that follow them.
pub record Head : Type 0 where
  pub typecnt : ℤ
  pub charcnt : ℤ
  pub trans : List ℤ
  pub indices : List ℕ

-- "TZif"
abbrev pub magic : List ℕ
magic = 84 ∷ 90 ∷ 105 ∷ 102 ∷ []

-- The reading up to the local times, before which the data are not touched. `reserve` of a count
-- below zero throws a `length_error`, which is a `logic_error`.
unfoldable pub read_head : List ℕ → Option (Head × List ℕ)
read_head f₀ = do
  (head, f₁) ← read_bytes 4 f₀
  assert (str_eq head magic)
  (version, f₂) ← read_bytes 1 f₁
  (reserved, f₃) ← read_bytes 15 f₂
  (isgmtcnt, f₄) ← read_int32 f₃
  (isstdcnt, f₅) ← read_int32 f₄
  (leapcnt, f₆) ← read_int32 f₅
  (timecnt, f₇) ← read_int32 f₆
  (typecnt, f₈) ← read_int32 f₇
  (charcnt, f₉) ← read_int32 f₈
  assert (not (ltb_ℤ timecnt (pos 0)))
  (trans, f') ← read_items read_int32 (pos_part timecnt) f₉
  (indices, f'') ← read_items read_uint8 (pos_part timecnt) f'
  some (record { typecnt = typecnt; charcnt = charcnt; trans = trans; indices = indices }, f'')

unfoldable pub read_localtime : List ℕ → Option (Localtime × List ℕ)
read_localtime file = do
  (gmtoff, f₁) ← read_int32 file
  (isdst, f₂) ← read_uint8 f₁
  (abbrind, f₃) ← read_uint8 f₂
  some (record { gmt_offset = gmtoff; is_dst = not (isdst == 0); arrb_idx = abbrind }, f₃)

abbrev pub push_localtime : TimeData → Localtime → TimeData
push_localtime d l = record d { localtimes = d.localtimes ++ l ∷ [] }

-- The data with the local times that were read, and the rest of the file where all of them were.
unfoldable pub read_localtimes : ℕ → TimeData → List ℕ → TimeData × Option (List ℕ)
read_localtimes zero d file = (d, some file)
read_localtimes (suc n) d file = elim (read_localtime file) [
  | some (l, rest) ↦ read_localtimes n (push_localtime d l) rest
  | none ↦ (d, none)
]

-- The transitions of the times and the indices; `none` is an index beyond the local times, which the
-- code does not look for.
unfoldable pub push_transitions : List ℤ → List ℕ → TimeData → Option TimeData
push_transitions (t ∷ ts) (i ∷ is) d = do
  l ← get_elem? (d.localtimes) i
  let new : Transition = record { gmttime = t; localtime = t +ℤ l.gmt_offset; localtime_idx = i }
  push_transitions ts is (record d { transitions = d.transitions ++ new ∷ [] })
push_transitions _ _ d = some d

-- The abbreviation, at last. A `charcnt` below zero would be the size of an array.
unfoldable pub read_abbreviation : ℤ → List ℕ → TimeData → Option TimeData
read_abbreviation charcnt file d =
    if ltb_ℤ charcnt (pos 0) then none else elim (read_bytes (pos_part charcnt) file) [
      | some (chars, rest) ↦ some (record d { abbreviation = chars })
      | none ↦ some d
    ]

-- What follows the local times.
unfoldable pub read_rest : Head → TimeData × Option (List ℕ) → Option TimeData
read_rest head (d, some file) =
    push_transitions head.trans head.indices d >>= read_abbreviation head.charcnt file
read_rest head (d, none) = some d

unfoldable pub read_body : Head → TimeData → List ℕ → Option TimeData
read_body head d file = read_rest head (read_localtimes (pos_part head.typecnt) d file)

-- The result with the data, where nothing is read out of bounds.
unfoldable pub read_timezone_file : Option (List ℕ) → TimeData → Option (Bool × TimeData)
read_timezone_file none d = some (true, d)
read_timezone_file (some file) d = elim (read_head file) [
  | some (head, rest) ↦ do d' ← read_body head d rest; some (true, d')
  | none ↦ some (true, d)
]

-- The constructor from the name of a file.
unfoldable pub open_zone : Option (List ℕ) → Option Timezone
open_zone file = do
  (ok, d) ← read_timezone_file file empty_data
  some (record { data_of = if ok then some d else none })
