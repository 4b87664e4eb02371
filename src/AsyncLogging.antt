-- ===== src/AsyncLogging.antt =====
-- flute/common/AsyncLogging.h and AsyncLogging.cc, with the buffers of flute/common/FixedBuffer.h: the
-- threads that log fill a current buffer, and the backend thread swaps the full ones out and writes
-- them. What is done under the lock is one step. `none` is a failed `assert`.
pub mod Turns
mod Tests
use flute.Prelude.{
  concat, ℕ, ◌+◌, ◌-◌, Bool, true, false, Option, none, some, List, [], ◌∷◌, ◌++◌, length, take,
  leb, ltb, ◌==◌, if◌then◌else◌, ◌>>=◌, ◌>>◌, assert,
}

abbrev pub k_log_buffer_size : ℕ
k_log_buffer_size = 1000

-- A fixed buffer is the bytes before `m_cur`.
abbrev pub avail : List ℕ → ℕ
avail bytes = k_log_buffer_size - length bytes

abbrev pub fixed_append : List ℕ → List ℕ → List ℕ
fixed_append bytes buf = if ltb (length buf) (avail bytes) then bytes ++ buf else bytes

-- What the lock guards.
pub record AsyncLogging : Type 0 where
  pub cur_buffer : List ℕ
  pub reserved_buffer : Option (List ℕ)
  pub used_buffers : List (List ℕ)

abbrev pub new : AsyncLogging
new = record { cur_buffer = []; reserved_buffer = some []; used_buffers = [] }

abbrev pub or_fresh : Option (List ℕ) → List ℕ
or_fresh none = []
or_fresh (some buffer) = buffer

unfoldable pub append : List ℕ → AsyncLogging → AsyncLogging
append logline a =
    if ltb (length logline) (avail a.cur_buffer)
    then record a { cur_buffer = fixed_append a.cur_buffer logline }
    else record {
      cur_buffer = fixed_append (or_fresh a.reserved_buffer) logline;
      reserved_buffer = none;
      used_buffers = a.used_buffers ++ (a.cur_buffer ∷ []);
    }

-- The locals of the backend thread, and the bytes of the log file.
pub record Backend : Type 0 where
  pub new_buffer1 : Option (List ℕ)
  pub new_buffer2 : Option (List ℕ)
  pub buffers_to_write : List (List ℕ)
  pub output : List ℕ

abbrev pub start : Backend
start = record { new_buffer1 = some []; new_buffer2 = some []; buffers_to_write = []; output = [] }

abbrev pub is_empty_buffer : Option (List ℕ) → Bool
is_empty_buffer none = false
is_empty_buffer (some bytes) = length bytes == 0

-- The part of a turn of the backend's loop that is under the lock, with the assertions before it.
unfoldable pub swap_buffers : AsyncLogging → Backend → Option (AsyncLogging × Backend)
swap_buffers a k = do
  assert (is_empty_buffer k.new_buffer1)
  assert (is_empty_buffer k.new_buffer2)
  assert (length k.buffers_to_write == 0)
  some (
    record {
      cur_buffer = or_fresh k.new_buffer1;
      reserved_buffer = elim a.reserved_buffer [ none ↦ k.new_buffer2 | some r ↦ some r ];
      used_buffers = [];
    },
    record k {
      new_buffer1 = none;
      new_buffer2 = elim a.reserved_buffer [ none ↦ none | some r ↦ k.new_buffer2 ];
      buffers_to_write = a.used_buffers ++ (a.cur_buffer ∷ []);
    },
  )

-- `note` is the text about so many dropped buffers.
unfoldable pub drop_extra : (ℕ → List ℕ) → Backend → Backend
drop_extra note k =
    if ltb 2 (length k.buffers_to_write)
    then record k {
      output = k.output ++ note (length k.buffers_to_write - 2);
      buffers_to_write = take 2 k.buffers_to_write;
    }
    else k

abbrev pub pop_back : List (List ℕ) → List (List ℕ)
pop_back [] = []
pop_back (x ∷ []) = []
pop_back (x ∷ y ∷ xs) = x ∷ pop_back (y ∷ xs)

-- A missing buffer is made of the last written one, with its cursor reset.
unfoldable pub refill1 : Backend → Option Backend
refill1 k = elim k.new_buffer1 [
  | some _ ↦ some k
  | none ↦ do
    assert (ltb 0 (length k.buffers_to_write))
    some (record k { new_buffer1 = some []; buffers_to_write = pop_back k.buffers_to_write })
]

unfoldable pub refill2 : Backend → Option Backend
refill2 k = elim k.new_buffer2 [
  | some _ ↦ some k
  | none ↦ do
    assert (ltb 0 (length k.buffers_to_write))
    some (record k { new_buffer2 = some []; buffers_to_write = pop_back k.buffers_to_write })
]

-- The part of a turn behind the lock.
unfoldable pub write_buffers : (ℕ → List ℕ) → Backend → Option Backend
write_buffers note k = do
  assert (ltb 0 (length k.buffers_to_write))
  let k₁ = drop_extra note k
  k₂ ← refill1 (record k₁ { output = k₁.output ++ concat k₁.buffers_to_write })
  k₃ ← refill2 k₂
  some (record k₃ { buffers_to_write = [] })
