-- ===== src/Buffer/Slide.antt =====
-- The bytes of flute/net/Buffer.h moved to the front of its vector.
use flute.Prelude.{
  ℕ, ◌+◌, ◌-◌, ◌≤◌, ◌<◌, ◌≡◌, refl, some, List, ◌++◌, arith, length, take, drop, replicate,
  length-append, length-take, length-replicate, take-append, drop-append, append_assoc, take_all,
  le→leb, lt→ltb, add_size,
}
use flute.Buffer.{Buffer, max_size, k_cheap_prepend, writable_bytes_len, range, resize, grow, slide}
use flute.Buffer.Inv.{
  Holds, Holds-IsValid, Holds-length, length-split, copy_to-eq, length-copied, writable_len,
}

-- The bytes between the two indexes of a buffer.
pub range-eq : {b : Buffer} {xs : List ℕ} → Holds b xs → range b b.read_idx b.write_idx ≡ xs
range-eq {b} {xs} h =
    rw (h.split, drop-append b.read_idx h.front (xs ++ h.back) h.starts)
      (take-append (b.write_idx - b.read_idx) xs h.back (omega (arith, h.ends)))

pub resize-longer :
    (xs : List ℕ) (n : ℕ)
    → length xs ≤ n
    → n ≤ max_size
    → resize xs n ≡ some (xs ++ replicate (n - length xs) 0)
unfolding resize
resize-longer xs n h k = rw (le→leb _ _ k, take_all n xs h)

-- Growing the vector keeps the content and makes the room.
pub grow-Holds :
    {b : Buffer} {xs : List ℕ} (len : ℕ)
    → Holds b xs
    → writable_bytes_len b < len
    → b.write_idx + len ≤ max_size
    → (b' : Buffer) × (grow b len ≡ some b')
      × Holds b' xs
      × (b'.write_idx ≡ b.write_idx)
      × (b.write_idx + len ≤ length b'.bytes)
unfolding grow
grow-Holds {b} {xs} len h less fits = (
  record b { bytes = b.bytes ++ extra },
  rw (no_wrap, resize-longer b.bytes (b.write_idx + len) grows fits),
  record {
    front = h.front;
    back = h.back ++ extra;
    split = rw (h.split, append_assoc, append_assoc);
    starts = h.starts;
    ends = h.ends;
    room = omega (arith, longer, h.room);
    bounded = omega (arith, longer);
  },
  refl,
  omega (arith, longer),
)
  where
    extra : List ℕ
    extra = replicate (b.write_idx + len - length b.bytes) 0

    no_wrap : add_size b.write_idx len ≡ b.write_idx + len
    no_wrap = omega arith

    grows : length b.bytes ≤ b.write_idx + len
    grows = omega (arith, writable_len (Holds-IsValid h))

    longer : length (b.bytes ++ extra) ≡ b.write_idx + len
    longer = omega (
      arith,
      grows,
      length-append b.bytes extra,
      length-replicate {0} {A = ℕ} (b.write_idx + len - length b.bytes) 0,
    )

-- Sliding moves the content down to `k_cheap_prepend` in a vector of the same size.
pub slide-Holds :
    {b : Buffer} {xs : List ℕ}
    → Holds b xs
    → k_cheap_prepend < b.read_idx
    → (b' : Buffer) × (slide b ≡ some b')
      × Holds b' xs
      × (b'.write_idx ≡ k_cheap_prepend + length xs)
      × (length b'.bytes ≡ length b.bytes)
unfolding slide
slide-Holds {b} {xs} h pre = (
  record { bytes = moved; read_idx = k_cheap_prepend; write_idx = k_cheap_prepend + length xs },
  rw (lt→ltb _ _ pre, range-eq h, copy_to-eq b.bytes k_cheap_prepend xs fits)
      (ground (arith, Holds-length h, fits, h.bounded)),
  record {
    front = take k_cheap_prepend b.bytes;
    back = drop (length xs) (drop k_cheap_prepend b.bytes);
    split = refl;
    starts = omega (arith, length-take k_cheap_prepend b.bytes, h.room);
    ends = refl;
    room = omega (arith, same, h.room);
    bounded = omega (arith, same, h.bounded);
  },
  refl,
  same,
)
  where
    moved : List ℕ
    moved = take k_cheap_prepend b.bytes ++ (xs ++ drop (length xs) (drop k_cheap_prepend b.bytes))

    fits : k_cheap_prepend + length xs ≤ length b.bytes
    fits = omega (arith, h.ends, length-split h, pre)

    same : length moved ≡ length b.bytes
    same = length-copied b.bytes k_cheap_prepend xs fits
