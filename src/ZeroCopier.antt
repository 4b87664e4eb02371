-- ===== src/ZeroCopier.antt =====
-- flute/common/ZeroCopier.h and ZeroCopier.cc: a file sent to a socket chunk by chunk. The globals
-- `g_chunk_size` and `g_copy_mode` are a record that is passed along; what the kernel answers to the
-- calls of one chunk is an argument.
pub mod Stream
pub mod Finish
pub mod ReadWrite
mod Tests
use flute.Prelude.{
  ℕ, ◌+◌, ◌-◌, ◌*◌, ◌/◌, min, Bool, true, false, not, ◌&&◌, ◌||◌, Option, none, some, List, [],
  ◌++◌, length, take, drop, leb, ltb, ◌==◌, if◌then◌else◌,
}

pub data CopyMode : Type 0 where
  k_zero_copy k_m_map k_read_write : CopyMode

pub record Globals : Type 0 where
  pub chunk_size : ℕ
  pub copy_mode : CopyMode

-- `source` is the content of the file behind `m_source_fd`, and `file_pos` the kernel's position in
-- it, which only `read` moves. A `target_fd` of -1 is `none`.
pub record ZeroCopier : Type 0 where
  pub source : List ℕ
  pub file_pos : ℕ
  pub source_available : Bool
  pub target_fd : Option ℕ
  pub failure_counter : ℕ
  pub total_bytes : ℕ
  pub offset : ℕ
  pub started : Bool

abbrev pub k_max_trial : ℕ
k_max_trial = 100

-- What `open` and `fstat64` answer.
pub data Opened : Type 0 where
  cannot_open cannot_stat : Opened
  opened : List ℕ → Opened

-- The constructor over the memory `mem`: a file that cannot be opened leaves its later fields as
-- they stand there.
unfoldable pub new : ZeroCopier → Opened → ZeroCopier
new mem cannot_open = record mem { failure_counter = 0; started = false; source_available = false }
new mem cannot_stat = record mem { failure_counter = 0; started = false; source_available = false }
new mem (opened file) = record {
  source = file;
  file_pos = 0;
  source_available = true;
  target_fd = none;
  failure_counter = 0;
  total_bytes = length file;
  offset = 0;
  started = false;
}

abbrev pub is_some {ℓ} : {A : Type ℓ} → Option A → Bool
is_some none = false
is_some (some _) = true

abbrev pub is_valid : ZeroCopier → Bool
is_valid z = z.source_available && is_some z.target_fd

abbrev pub has_finished : ZeroCopier → Bool
has_finished z =
    if not (is_valid z) then true else if not z.started then true else z.offset == z.total_bytes

-- `static_cast<size_t>(remaining_bytes())`, which is read only while bytes remain.
abbrev pub remaining_bytes : ZeroCopier → ℕ
remaining_bytes z = z.total_bytes - z.offset

abbrev pub set_target_fd : ℕ → ZeroCopier → ZeroCopier
set_target_fd fd z = record z { target_fd = some fd }

abbrev pub start : ZeroCopier → ZeroCopier
start z = record z { started = true }

abbrev pub mark_abort : ZeroCopier → ZeroCopier
mark_abort z = record z { total_bytes = 0; offset = 0 }

abbrev pub to_abort : ZeroCopier → Bool
to_abort z = (z.total_bytes == 0) && (z.offset == 0)

-- The kernel's answers: `none` is -1 with `errno` set.
pub record Answers : Type 0 where
  pub sendfile : Option ℕ
  pub mmap_ok : Bool
  pub send : Option ℕ
  pub munmap_ok : Bool
  pub read : Option ℕ
  pub write : Option ℕ

-- What one chunk does: its result (`none` is -1), the copier after it, and the bytes that it handed
-- to the socket.
pub record Chunk : Type 0 where
  pub result : Option ℕ
  pub copier : ZeroCopier
  pub handed : List ℕ

abbrev pub sends_nothing : Option ℕ → ZeroCopier → Chunk
sends_nothing r z = record { result = r; copier = z; handed = [] }

-- `sendfile` moves the offset that it is given.
unfoldable pub send_one_chunk_zerocopy : ZeroCopier → Answers → Chunk
send_one_chunk_zerocopy z a = elim a.sendfile [
  | none ↦ sends_nothing none z
  | some n ↦ record {
    result = some n;
    copier = record z { offset = z.offset + n };
    handed = take n (drop z.offset z.source);
  }
]

abbrev pub page_size : ℕ
page_size = 4096

-- The mapped portion from the gap on, as far as it was sent.
unfoldable pub mapped_bytes : ZeroCopier → ℕ → ℕ → List ℕ
mapped_bytes z bytes_to_send n =
    let page_offset = z.offset / page_size * page_size in
    let gap = z.offset - page_offset in
    let portion = take (gap + bytes_to_send) (drop page_offset z.source) in
    take n (drop gap portion)

-- A failed `munmap` is reported as a failure, after the bytes were sent.
unfoldable pub send_one_chunk_mmap : ZeroCopier → ℕ → Answers → Chunk
send_one_chunk_mmap z bytes_to_send a =
    if not a.mmap_ok then sends_nothing none z else elim a.send [
      | none ↦ sends_nothing none z
      | some n ↦ if n == 0 then sends_nothing none z else record {
        result = if a.munmap_ok then some n else none;
        copier = record z { offset = z.offset + n };
        handed = mapped_bytes z bytes_to_send n;
      }
    ]

-- `read` fills the buffer from the file's own position, and moves it by all that it read.
unfoldable pub send_one_chunk_rw : ZeroCopier → Answers → Chunk
send_one_chunk_rw z a = elim a.read [
  | none ↦ sends_nothing none z
  | some bytes_read ↦
      let z' = record z { file_pos = z.file_pos + bytes_read } in
      elim a.write [
        | none ↦ sends_nothing none z'
        | some n ↦ record {
          result = some n;
          copier = record z' { offset = z.offset + n };
          handed = take n (take bytes_read (drop z.file_pos z.source));
        }
      ]
]

unfoldable pub send_by_mode : CopyMode → ZeroCopier → ℕ → Answers → Chunk
send_by_mode k_zero_copy z bytes_to_send a = send_one_chunk_zerocopy z a
send_by_mode k_m_map z bytes_to_send a = send_one_chunk_mmap z bytes_to_send a
send_by_mode k_read_write z bytes_to_send a = send_one_chunk_rw z a

-- A failure counts; at `k_max_trial` of them in a row the copier gives up.
unfoldable pub count_failure : Chunk → Chunk
count_failure c = elim c.result [
  | none ↦
      let z = record (c.copier) { failure_counter = c.copier.failure_counter + 1 } in
      record c { copier = if leb k_max_trial z.failure_counter then mark_abort z else z }
  | some n ↦ record c { copier = record (c.copier) { failure_counter = 0 } }
]

-- The chunk size asked of the kernel.
abbrev pub bytes_to_send : Globals → ZeroCopier → ℕ
bytes_to_send g z = min g.chunk_size (remaining_bytes z)

-- `send_one_chunk`; its result -1 is `none` also where the source converts it to `size_t`.
unfoldable pub send_one_chunk : Globals → ZeroCopier → Answers → Chunk
send_one_chunk g z a =
    if not (is_valid z) || not z.started
    then sends_nothing none z
    else if leb z.total_bytes z.offset
    then sends_nothing (some 0) z
    else count_failure (send_by_mode g.copy_mode z (bytes_to_send g z) a)

-- `send_one_chunk_mmap` sets the chunk size.
unfoldable pub globals_after : Globals → ZeroCopier → Globals
globals_after g z =
    if not (is_valid z) || not z.started
    then g
    else if leb z.total_bytes z.offset
    then g
    else elim g.copy_mode [ k_m_map ↦ record g { chunk_size = 1024 } | _ ↦ g ]
