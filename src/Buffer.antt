-- ===== src/Buffer.antt =====
-- flute/net/Buffer.h: the byte buffer of a connection, over one `std::vector<char>` and two indexes.
-- A `const char*` into the buffer is an index into `bytes`; `none` is a failed `assert`, a copy
-- outside the vector, or the `std::length_error` of a vector that cannot grow.
pub mod Inv
pub mod Slide
pub mod Fifo
pub mod Consume
pub mod Laws
pub mod Room
pub mod Refines
pub mod Search
pub mod Ints
mod Tests
use flute.Prelude.{
  ℕ, zero, suc, ◌+◌, ◌-◌, ◌*◌, ◌/◌, ◌%◌, ◌^◌, ◌&&◌, Option, none, some, List, [], ◌∷◌, ◌++◌, length,
  take, drop, replicate, ltb, leb, ◌==◌, if◌then◌else◌, ◌>>=◌, ◌>>◌, assert, add_size, sub_size,
}

pub record Buffer : Type 0 where
  pub bytes : List ℕ
  pub read_idx : ℕ
  pub write_idx : ℕ

abbrev pub k_cheap_prepend : ℕ
k_cheap_prepend = 8

abbrev pub k_initial_size : ℕ
k_initial_size = 1024

-- `std::vector<char>::max_size()`.
abbrev pub max_size : ℕ
max_size = 2 ^ 63 - 1

abbrev pub content_bytes_len : Buffer → ℕ
content_bytes_len b = sub_size b.write_idx b.read_idx

abbrev pub writable_bytes_len : Buffer → ℕ
writable_bytes_len b = sub_size (length b.bytes) b.write_idx

abbrev pub prependable_bytes_len : Buffer → ℕ
prependable_bytes_len b = b.read_idx

-- The bytes of `[i, j)`.
abbrev pub range : Buffer → ℕ → ℕ → List ℕ
range b i j = take (j - i) (drop i b.bytes)

-- The bytes of `[peek_base(), write_base())`.
abbrev pub contents : Buffer → List ℕ
contents b = take (content_bytes_len b) (drop b.read_idx b.bytes)

-- A vector longer than `max_size` is refused by `std::length_error`.
pub resize : List ℕ → ℕ → Option (List ℕ)
resize xs n = if leb n max_size then some (take n xs ++ replicate (n - length xs) 0) else none

unfoldable pub new : ℕ → Option Buffer
new initial_size = do
  zeros ← resize [] (add_size k_cheap_prepend initial_size)
  let b : Buffer = record { bytes = zeros; read_idx = k_cheap_prepend; write_idx = k_cheap_prepend }
  assert (content_bytes_len b == 0)
  assert (writable_bytes_len b == initial_size)
  assert (prependable_bytes_len b == k_cheap_prepend)
  some b

-- The first place of "\r\n" from `i` on, and the end of the bytes if there is none (`std::search`).
unfoldable pub search_crlf : List ℕ → ℕ → ℕ
search_crlf [] i = i
search_crlf (x ∷ []) i = suc i
search_crlf (x ∷ y ∷ rest) i =
    let later = search_crlf (y ∷ rest) (suc i) in if (x == 13) && (y == 10) then i else later

-- `find_CRLF(start)`; `none` outside is a failed `assert`, inside it is `NULL`.
unfoldable pub find_crlf_from : Buffer → ℕ → Option (Option ℕ)
find_crlf_from b start = do
  assert (leb b.read_idx start)
  assert (leb start b.write_idx)
  let crlf = search_crlf (range b start b.write_idx) start
  some (if crlf == b.write_idx then none else some crlf)

unfoldable pub find_crlf : Buffer → Option ℕ
find_crlf b =
    let crlf = search_crlf (range b b.read_idx b.write_idx) b.read_idx in
    if crlf == b.write_idx then none else some crlf

-- `memchr`
pub memchr : ℕ → List ℕ → ℕ → Option ℕ
memchr c [] i = none
memchr c (x ∷ xs) i = if x == c then some i else memchr c xs (suc i)

unfoldable pub find_eol : Buffer → Option ℕ
find_eol b = memchr 10 (contents b) b.read_idx

unfoldable pub find_eol_from : Buffer → ℕ → Option (Option ℕ)
find_eol_from b start = do
  assert (leb b.read_idx start)
  assert (leb start b.write_idx)
  some (memchr 10 (range b start b.write_idx) start)

unfoldable pub retrieve_all : Buffer → Buffer
retrieve_all b = record b { read_idx = k_cheap_prepend; write_idx = k_cheap_prepend }

unfoldable pub retrieve : Buffer → ℕ → Option Buffer
retrieve b len = do
  assert (leb len (content_bytes_len b))
  some (
      if ltb len (content_bytes_len b)
      then record b { read_idx = add_size b.read_idx len }
      else retrieve_all b)

unfoldable pub retrieve_until : Buffer → ℕ → Option Buffer
retrieve_until b end = do
  assert (leb b.read_idx end)
  assert (leb end b.write_idx)
  retrieve b (sub_size end b.read_idx)

unfoldable pub readout_as_string : Buffer → ℕ → Option (List ℕ × Buffer)
readout_as_string b len = do
  assert (leb len (content_bytes_len b))
  let result = take len (drop b.read_idx b.bytes)
  b' ← retrieve b len
  some (result, b')

unfoldable pub readout_all_as_string : Buffer → Option (List ℕ × Buffer)
readout_all_as_string b = readout_as_string b (content_bytes_len b)

unfoldable pub peek_last_as_string : Buffer → ℕ → List ℕ
peek_last_as_string b len =
    if ltb (content_bytes_len b) len
    then []
    else take len (drop (b.read_idx + (content_bytes_len b - len)) b.bytes)

-- `std::copy` of a source over the bytes from the start of `xs` on.
pub overlay : List ℕ → List ℕ → List ℕ
overlay [] src = []
overlay (x ∷ xs) [] = x ∷ xs
overlay (x ∷ xs) (s ∷ src) = s ∷ overlay xs src

pub overlay_at : List ℕ → ℕ → List ℕ → List ℕ
overlay_at xs zero src = overlay xs src
overlay_at [] (suc i) src = []
overlay_at (x ∷ xs) (suc i) src = x ∷ overlay_at xs i src

-- `std::copy` to `begin() + i`; a copy that leaves the vector is a fault.
pub copy_to : List ℕ → ℕ → List ℕ → Option (List ℕ)
copy_to xs i src = if leb (i + length src) (length xs) then some (overlay_at xs i src) else none

-- The two branches of `make_space`: grow the vector, or move the content to the front.
pub grow : Buffer → ℕ → Option Buffer
grow b len = do grown ← resize b.bytes (add_size b.write_idx len); some (record b { bytes = grown })

pub slide : Buffer → Option Buffer
slide b = do
  assert (ltb k_cheap_prepend b.read_idx)
  let readable = content_bytes_len b
  moved ← copy_to b.bytes k_cheap_prepend (range b b.read_idx b.write_idx)
  let w = add_size k_cheap_prepend readable
  assert (readable == sub_size w k_cheap_prepend)
  some (record { bytes = moved; read_idx = k_cheap_prepend; write_idx = w })

pub make_space : Buffer → ℕ → Option Buffer
make_space b len =
    if ltb (add_size (writable_bytes_len b) (prependable_bytes_len b))
      (add_size len k_cheap_prepend)
    then grow b len
    else slide b

unfoldable pub ensure_writable_len : Buffer → ℕ → Option Buffer
ensure_writable_len b len = do
  b' ← if ltb (writable_bytes_len b) len then make_space b len else some b
  assert (leb len (writable_bytes_len b'))
  some b'

unfoldable pub mark_written : Buffer → ℕ → Option Buffer
mark_written b len = do
  assert (leb len (writable_bytes_len b))
  some (record b { write_idx = add_size b.write_idx len })

unfoldable pub unwrite : Buffer → ℕ → Option Buffer
unwrite b len = do
  assert (leb len (content_bytes_len b))
  some (record b { write_idx = sub_size b.write_idx len })

unfoldable pub append : Buffer → List ℕ → Option Buffer
append b str = do
  b' ← ensure_writable_len b (length str)
  copied ← copy_to b'.bytes b'.write_idx str
  mark_written (record b' { bytes = copied }) (length str)

unfoldable pub prepend : Buffer → List ℕ → Option Buffer
prepend b str = do
  assert (leb (length str) (prependable_bytes_len b))
  let b' = record b { read_idx = sub_size b.read_idx (length str) }
  copied ← copy_to b'.bytes b'.read_idx str
  some (record b' { bytes = copied })

-- A length as a `StringPiece` keeps it, converted to `int`, and as `append` gets it from there, converted
-- to `size_t`.
abbrev pub piece_size : ℕ → ℕ
piece_size n = let m = n % 2 ^ 32 in if ltb m (2 ^ 31) then m else m + (2 ^ 64 - 2 ^ 32)

-- `append` of a `StringPiece` over `str`; more bytes than there are cannot be copied.
unfoldable pub append_piece : Buffer → List ℕ → Option Buffer
append_piece b str = do
  let size = piece_size (length str)
  assert (leb size (length str))
  append b (take size str)

-- The buffer that `swap` leaves in place of the old one.
unfoldable pub shrink : Buffer → ℕ → Option Buffer
shrink b reserve = do
  other ← new k_initial_size
  other' ← ensure_writable_len other (add_size (content_bytes_len b) reserve)
  append_piece other' (contents b)

-- An integer of `w` bytes in network order (`htobe16/32/64` and the copy of its bytes).
pub be_bytes : ℕ → ℕ → List ℕ
be_bytes zero x = []
be_bytes (suc w) x = be_bytes w (x / 256) ++ (x % 256) ∷ []

unfoldable pub be_value : ℕ → List ℕ → ℕ
be_value acc [] = acc
be_value acc (x ∷ xs) = be_value (acc * 256 + x) xs

-- `append_int64_net`, `append_int32_net`, `append_int16_net`, `append_int8_net` at `w` = 8, 4, 2, 1.
-- An integer is its bit pattern.
unfoldable pub append_int_net : ℕ → Buffer → ℕ → Option Buffer
append_int_net w b x = append b (be_bytes w x)

unfoldable pub prepend_int_net : ℕ → Buffer → ℕ → Option Buffer
prepend_int_net w b x = prepend b (be_bytes w x)

unfoldable pub peek_int_host : ℕ → Buffer → Option ℕ
peek_int_host w b = do
  assert (leb w (content_bytes_len b))
  some (be_value 0 (take w (drop b.read_idx b.bytes)))

unfoldable pub readout_int_host : ℕ → Buffer → Option (ℕ × Buffer)
readout_int_host w b = do result ← peek_int_host w b; b' ← retrieve b w; some (result, b')

-- flute/net/Buffer.cc. `readv` fills the writable bytes first and then, if they are fewer than
-- `extra_size`, an array of that size on the stack.
abbrev pub extra_size : ℕ
extra_size = 65536

-- The most bytes that one `readv` can bring.
abbrev pub read_size : Buffer → ℕ
read_size b =
    if ltb (writable_bytes_len b) extra_size
    then writable_bytes_len b + extra_size
    else writable_bytes_len b

-- The kernel's answer: the bytes that arrived, or `errno`.
pub data Arrived : Type 0 where
  got : List ℕ → Arrived
  failed : ℕ → Arrived

pub store_in_place : Buffer → List ℕ → Option Buffer
store_in_place b str = do
  copied ← copy_to b.bytes b.write_idx str
  mark_written (record b { bytes = copied }) (length str)

pub store_and_append : Buffer → List ℕ → Option Buffer
store_and_append b str = do
  copied ← copy_to b.bytes b.write_idx (take (writable_bytes_len b) str)
  append (record b { bytes = copied; write_idx = length copied }) (drop (writable_bytes_len b) str)

pub store_arrived : Buffer → List ℕ → Option Buffer
store_arrived b str =
    if leb (length str) (writable_bytes_len b) then store_in_place b str else store_and_append b str

unfoldable pub read_all_from : Buffer → Arrived → Option (Arrived × Buffer)
read_all_from b (failed errno) = some (failed errno, b)
read_all_from b (got str) = do b' ← store_arrived b str; some (got str, b')
