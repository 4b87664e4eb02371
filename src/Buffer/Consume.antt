-- ===== src/Buffer/Consume.antt =====
-- The reading side of flute/net/Buffer.h: what `retrieve` and its callers take from the content.
use flute.Prelude.{
  ℕ, suc, ◌+◌, ◌-◌, ◌≤◌, ◌≡◌, refl, sym, some, List, [], ◌∷◌, ◌++◌, arith, length, take, drop,
  length-append, length-take, take-append, drop-append, take-append-drop, append_assoc, append-nil,
  le→leb, sub_size,
}
use flute.Buffer.{
  Buffer, k_cheap_prepend, content_bytes_len, retrieve, retrieve_all, retrieve_until,
  readout_as_string, unwrite,
}
use flute.Buffer.Inv.{IsValid, Holds, Holds-IsValid, Holds-length, length-split}

-- `retrieve_all` leaves no content.
pub retrieve_all-Holds : {b : Buffer} → IsValid b → Holds (retrieve_all b) []
unfolding retrieve_all
retrieve_all-Holds {b} v = record {
  front = take k_cheap_prepend b.bytes;
  back = drop k_cheap_prepend b.bytes;
  split = sym (take-append-drop k_cheap_prepend b.bytes);
  starts = omega (arith, length-take k_cheap_prepend b.bytes, v.cheap);
  ends = refl;
  room = v.cheap;
  bounded = v.small;
}

-- Moving the read index forward leaves the rest of the content.
advance-Holds :
    {b : Buffer} (xs ys : List ℕ)
    → Holds b (xs ++ ys)
    → Holds (record b { read_idx = b.read_idx + length xs }) ys
advance-Holds {b} xs ys h = record {
  front = h.front ++ xs;
  back = h.back;
  split = rw (append_assoc, ← append_assoc xs ys h.back) h.split;
  starts = omega (arith, length-append h.front xs, h.starts);
  ends = omega (arith, length-append xs ys, h.ends);
  room = h.room;
  bounded = h.bounded;
}

-- `retrieve` takes a prefix of the content away, and resets the indexes when nothing is left.
pub retrieve-Holds :
    {b : Buffer} (xs ys : List ℕ)
    → Holds b (xs ++ ys)
    → (b' : Buffer) × (retrieve b (length xs) ≡ some b') × Holds b' ys
unfolding retrieve
retrieve-Holds {b} xs [] h = (
  retrieve_all b,
  rw (Holds-length h, append-nil) (ground arith),
  retrieve_all-Holds (Holds-IsValid h),
)
retrieve-Holds {b} xs (y ∷ ys) h = (
  record b { read_idx = b.read_idx + length xs },
  ground (arith, Holds-length h, longer, h.ends, length-split h, h.bounded),
  advance-Holds xs (y ∷ ys) h,
)
  where
    longer : length (xs ++ y ∷ ys) ≡ length xs + suc (length ys)
    longer = length-append xs (y ∷ ys)

pub retrieve_until-Holds :
    {b : Buffer} (xs ys : List ℕ)
    → Holds b (xs ++ ys)
    → (b' : Buffer) × (retrieve_until b (b.read_idx + length xs) ≡ some b') × Holds b' ys
unfolding retrieve_until
retrieve_until-Holds {b} xs ys h =
    let (b', run, held) = retrieve-Holds xs ys h in
    (
      b',
      rw (le→leb b.read_idx _ low, le→leb (b.read_idx + length xs) b.write_idx high, exact) run,
      held,
    )
  where
    low : b.read_idx ≤ b.read_idx + length xs
    low = omega arith

    high : b.read_idx + length xs ≤ b.write_idx
    high = omega (arith, h.ends, length-append xs ys)

    exact : sub_size (b.read_idx + length xs) b.read_idx ≡ length xs
    exact = omega (arith, high, length-split h, h.bounded)

-- The bytes that stand first.
pub first_bytes :
    {b : Buffer} (xs ys : List ℕ)
    → Holds b (xs ++ ys)
    → take (length xs) (drop b.read_idx b.bytes) ≡ xs
first_bytes {b} xs ys h =
    rw (h.split, drop-append b.read_idx h.front ((xs ++ ys) ++ h.back) h.starts, append_assoc)
      (take-append (length xs) xs (ys ++ h.back) refl)

-- `readout_as_string` returns the prefix that it takes away.
pub readout_as_string-Holds :
    {b : Buffer} (xs ys : List ℕ)
    → Holds b (xs ++ ys)
    → (b' : Buffer) × (readout_as_string b (length xs) ≡ some (xs, b')) × Holds b' ys
unfolding readout_as_string
readout_as_string-Holds {b} xs ys h =
    let (b', run, held) = retrieve-Holds xs ys h in
    (b', rw (le→leb (length xs) (content_bytes_len b) fits, run, first_bytes xs ys h), held)
  where
    fits : length xs ≤ content_bytes_len b
    fits = omega (arith, Holds-length h, length-append xs ys)

-- `unwrite` takes a suffix of the content away.
pub unwrite-Holds :
    {b : Buffer} (xs ys : List ℕ)
    → Holds b (xs ++ ys)
    → (b' : Buffer) × (unwrite b (length ys) ≡ some b') × Holds b' xs
unfolding unwrite
unwrite-Holds {b} xs ys h = (
  record b { write_idx = b.write_idx - length ys },
  ground (arith, Holds-length h, lengths, h.ends, length-split h, h.bounded),
  record {
    front = h.front;
    back = ys ++ h.back;
    split = rw (← append_assoc xs ys h.back) h.split;
    starts = h.starts;
    ends = omega (arith, lengths, h.ends);
    room = h.room;
    bounded = h.bounded;
  },
)
  where
    lengths : length (xs ++ ys) ≡ length xs + length ys
    lengths = length-append xs ys
