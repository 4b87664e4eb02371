-- ===== src/Buffer/Fifo.antt =====
-- The buffer of flute/net/Buffer.h as a queue of bytes: what each operation does to the content.
use flute.Prelude.{
  Bool, ltb→lt, ℕ, ◌+◌, ◌-◌, ◌^◌, ◌≤◌, ◌<◌, ◌≡◌, refl, take_all, Option, some, List, ◌++◌, arith,
  length, take, drop, length-append, length-take, take-append, drop-append, append_assoc, drop-drop,
  le→leb, ltb, inl, inr, Bool-cases, add_size, sub_size,
}
use flute.Buffer.{
  Buffer, max_size, k_cheap_prepend, writable_bytes_len, make_space, ensure_writable_len,
  mark_written, append, piece_size, append_piece, prepend, store_in_place,
}
use flute.Buffer.Inv.{
  IsValid, Holds, Holds-IsValid, length-split, copy_to-eq, length-copied, writable_len,
}
use flute.Buffer.Slide.{grow-Holds, slide-Holds}

-- Room for `len` more bytes.
abbrev pub HasRoom : Buffer → List ℕ → ℕ → Option Buffer → Type 0
HasRoom b xs len r =
    (b' : Buffer) × (r ≡ some b') × Holds b' xs × (b'.write_idx + len ≤ length b'.bytes)

make_space-HasRoom :
    {b : Buffer} {xs : List ℕ} (len : ℕ)
    → Holds b xs
    → writable_bytes_len b < len
    → b.write_idx + len ≤ max_size
    → HasRoom b xs len (make_space b len)
unfolding make_space
make_space-HasRoom {b} {xs} len h less fits = elim (Bool-cases must_grow) [
  | inl e ↦ rw e (
      let (b', run, held, w, room) = grow-Holds len h less fits in
      (b', run, held, omega (arith, w, room)))
  | inr e ↦ rw e (
      let (b', run, held, w, same) =
        slide-Holds h (ground (arith, writable_len valid, less, fits)) in
      (b', run, held, ground (arith, w, same, length-split h, h.ends, writable_len valid)))
]
  where
    must_grow : Bool
    must_grow = ltb (add_size (writable_bytes_len b) b.read_idx) (add_size len k_cheap_prepend)

    valid : IsValid b
    valid = Holds-IsValid h

-- `ensure_writable_len` keeps the content, and makes room for `len` bytes after it.
pub ensure_writable_len-HasRoom :
    {b : Buffer} {xs : List ℕ} (len : ℕ)
    → Holds b xs
    → b.write_idx + len ≤ max_size
    → HasRoom b xs len (ensure_writable_len b len)
unfolding ensure_writable_len
ensure_writable_len-HasRoom {b} {xs} len h fits =
    elim (Bool-cases (ltb (writable_bytes_len b) len)) [
      | inr enough ↦ (
        b,
        rw enough (rw (le→leb len (writable_bytes_len b) (ground arith))),
        h,
        ground (arith, writable_len (Holds-IsValid h)),
      )
      | inl less ↦
          let (b', run, held, room) = make_space-HasRoom len h (ltb→lt _ _ less) fits in
          (
            b',
            rw (less, run)
                (rw (
                  le→leb len (writable_bytes_len b')
                    (omega (arith, room, writable_len (Holds-IsValid held))))),
            held,
            room,
          )
    ]

-- The bytes up to the write index are the front part and the content.
take-write_idx :
    {b : Buffer} {xs : List ℕ} (h : Holds b xs) → take b.write_idx b.bytes ≡ h.front ++ xs
take-write_idx {b} {xs} h =
    rw (h.split, ← append_assoc)
      (take-append b.write_idx (h.front ++ xs) h.back
        (omega (arith, length-append h.front xs, h.starts, h.ends)))

-- What a copy of `str` behind the content leaves in the vector.
abbrev pub copied_behind : Buffer → List ℕ → List ℕ
copied_behind b str =
    take b.write_idx b.bytes ++ (str ++ drop (length str) (drop b.write_idx b.bytes))

pub copied_behind-Holds :
    {b : Buffer} {xs : List ℕ} (str : List ℕ)
    → Holds b xs
    → b.write_idx + length str ≤ length b.bytes
    → Holds
        (record b { bytes = copied_behind b str; write_idx = b.write_idx + length str })
        (xs ++ str)
copied_behind-Holds {b} {xs} str h room = record {
  front = h.front;
  back = drop (length str) (drop b.write_idx b.bytes);
  split = rw (take-write_idx h) (simp append_assoc);
  starts = h.starts;
  ends = omega (arith, length-append xs str, h.ends);
  room = omega (arith, length-copied b.bytes b.write_idx str room, h.room);
  bounded = omega (arith, length-copied b.bytes b.write_idx str room, h.bounded);
}

-- Bytes copied behind the content and marked as written are appended to it.
pub store_in_place-Holds :
    {b : Buffer} {xs : List ℕ} (str : List ℕ)
    → Holds b xs
    → b.write_idx + length str ≤ length b.bytes
    → (b' : Buffer) × (store_in_place b str ≡ some b') × Holds b' (xs ++ str)
unfolding store_in_place mark_written
store_in_place-Holds {b} {xs} str h room = (
  record b { bytes = copied_behind b str; write_idx = b.write_idx + length str },
  rw (copy_to-eq b.bytes b.write_idx str room)
      (ground (arith, length-copied b.bytes b.write_idx str room, room, h.bounded)),
  copied_behind-Holds str h room,
)

-- `append` puts the bytes behind the content, making room first.
pub append-Holds :
    {b : Buffer} {xs : List ℕ} (str : List ℕ)
    → Holds b xs
    → b.write_idx + length str ≤ max_size
    → (b' : Buffer) × (append b str ≡ some b') × Holds b' (xs ++ str)
unfolding append
append-Holds {b} {xs} str h fits =
    let (b₁, run, held, room) = ensure_writable_len-HasRoom (length str) h fits in
    let (b₂, run', held') = store_in_place-Holds str held room in
    (b₂, rw run (unfold store_in_place in run'), held')

-- `prepend` puts the bytes in front of the content.
pub prepend-Holds :
    {b : Buffer} {xs : List ℕ} (str : List ℕ)
    → Holds b xs
    → length str ≤ b.read_idx
    → (b' : Buffer) × (prepend b str ≡ some b')
      × Holds b' (str ++ xs)
      × (b'.read_idx + length str ≡ b.read_idx)
unfolding prepend
prepend-Holds {b} {xs} str h room = (
  record { bytes = copied; read_idx = start; write_idx = b.write_idx },
  rw (le→leb _ _ room, no_wrap, copy_to-eq b.bytes start str fits),
  record {
    front = take start b.bytes;
    back = h.back;
    split = rw (
      drop-drop start (length str) b.read_idx b.bytes (omega arith),
      append_assoc,
      h.split,
      drop-append b.read_idx h.front (xs ++ h.back) h.starts,
    );
    starts = omega (arith, length-take start b.bytes, fits);
    ends = omega (arith, length-append str xs, h.ends);
    room = omega (arith, same, h.room);
    bounded = omega (arith, same, h.bounded);
  },
  omega arith,
)
  where
    start : ℕ
    start = b.read_idx - length str

    copied : List ℕ
    copied = take start b.bytes ++ (str ++ drop (length str) (drop start b.bytes))

    fits : start + length str ≤ length b.bytes
    fits = omega (arith, length-split h, h.ends)

    no_wrap : sub_size b.read_idx (length str) ≡ start
    no_wrap = omega (arith, length-split h, h.ends, h.bounded)

    same : length copied ≡ length b.bytes
    same = length-copied b.bytes start str fits

-- A piece of less than 2^31 bytes is appended whole.
pub append_piece-append :
    (b : Buffer) (str : List ℕ) → length str < 2 ^ 31 → append_piece b str ≡ append b str
unfolding append_piece
append_piece-append b str small =
    let size : piece_size (length str) ≡ length str = ground (arith, small) in
    rw
      (
        size,
        le→leb (length str) (length str) (omega arith),
        take_all (length str) str (omega arith),
      )
      refl
