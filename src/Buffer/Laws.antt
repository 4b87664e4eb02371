-- ===== src/Buffer/Laws.antt =====
-- The operations of flute/net/Buffer.h and Buffer.cc on a valid buffer, stated on its content.
use flute.Prelude.{
  ℕ, ◌+◌, ◌-◌, ◌^◌, ◌≤◌, ◌<◌, ◌≡◌, refl, ◌∙◌, sym, ap, subst, Option, none, some, List, [], ◌++◌,
  arith, length, take, drop, replicate, length-take, length-drop, length-replicate,
  take-append-drop, append_assoc, leb, leb→le, inl, inr, Bool-cases, add_size,
}
use flute.Buffer.{
  Buffer, got, max_size, k_cheap_prepend, k_initial_size, extra_size, content_bytes_len,
  writable_bytes_len, contents, read_size, new, append, prepend, retrieve, readout_as_string,
  unwrite, shrink, store_and_append, store_arrived, read_all_from,
}
use flute.Buffer.Inv.{
  IsValid, Holds, Holds-IsValid, IsValid-Holds, contents-eq, length-contents, writable_len,
  copy_to-eq, length-copied,
}
use flute.Buffer.Slide.{resize-longer}
use flute.Buffer.Fifo.{
  append-Holds, append_piece-append, prepend-Holds, store_in_place-Holds,
  ensure_writable_len-HasRoom, copied_behind, copied_behind-Holds,
}
use flute.Buffer.Consume.{retrieve-Holds, readout_as_string-Holds, unwrite-Holds}

-- The operation succeeds, keeps the buffer valid and leaves `xs` as its content.
abbrev pub Leaves : List ℕ → Option Buffer → Type 0
Leaves xs r = (b' : Buffer) × (r ≡ some b') × IsValid b' × (contents b' ≡ xs)

Holds-Leaves :
    {r : Option Buffer} {xs : List ℕ} (b' : Buffer) → r ≡ some b' → Holds b' xs → Leaves xs r
Holds-Leaves b' run held = (b', run, Holds-IsValid held, contents-eq held)

pub new-Holds :
    (n : ℕ)
    → k_cheap_prepend + n ≤ max_size
    → (b : Buffer) × (new n ≡ some b) × Holds b [] × (b.write_idx ≡ k_cheap_prepend)
unfolding new
new-Holds n fits = (
  record { bytes = replicate (8 + n) 0; read_idx = 8; write_idx = 8 },
  rw (no_wrap, resize-longer [] (8 + n) (omega arith) fits) (ground (arith, fits, size)),
  record {
    front = take 8 (replicate (8 + n) 0);
    back = drop 8 (replicate (8 + n) 0);
    split = sym (take-append-drop 8 (replicate (8 + n) 0));
    starts = omega (arith, size, length-take 8 (replicate {A = ℕ} (8 + n) 0));
    ends = refl;
    room = omega (arith, size);
    bounded = omega (arith, size, fits);
  },
  refl,
)
  where
    size : length (replicate {A = ℕ} (8 + n) 0) ≡ 8 + n
    size = length-replicate (8 + n) 0

    no_wrap : add_size 8 n ≡ 8 + n
    no_wrap = omega arith

-- A new buffer of any initial size that a vector can have is valid and empty.
pub new-Leaves : (n : ℕ) → k_cheap_prepend + n ≤ max_size → Leaves [] (new n)
new-Leaves n fits = let (b, run, held, _) = new-Holds n fits in Holds-Leaves b run held

-- On a valid buffer `append` succeeds while the vector can grow, and its content is the old content
-- followed by the new bytes.
pub append-Leaves :
    {b : Buffer} (str : List ℕ)
    → IsValid b
    → b.write_idx + length str ≤ max_size
    → Leaves (contents b ++ str) (append b str)
append-Leaves str v fits =
    let (b', run, held) = append-Holds str (IsValid-Holds v) fits in Holds-Leaves b' run held

-- On a valid buffer `prepend` succeeds while the front part has room, and puts the bytes before the
-- content.
pub prepend-Leaves :
    {b : Buffer} (str : List ℕ)
    → IsValid b
    → length str ≤ b.read_idx
    → Leaves (str ++ contents b) (prepend b str)
prepend-Leaves str v room =
    let (b', run, held, _) = prepend-Holds str (IsValid-Holds v) room in Holds-Leaves b' run held

-- A content cut at `len`.
cut-Holds :
    {b : Buffer} (len : ℕ) → IsValid b → Holds b (take len (contents b) ++ drop len (contents b))
cut-Holds {b} len v = rw (take-append-drop len (contents b)) (IsValid-Holds v)

cut-length :
    {b : Buffer} (len : ℕ)
    → IsValid b
    → len ≤ content_bytes_len b
    → length (take len (contents b)) ≡ len
cut-length {b} len v h = omega (arith, length-take len (contents b), length-contents b v)

-- `retrieve` drops `len` bytes from the front of the content.
pub retrieve-Leaves :
    {b : Buffer} (len : ℕ)
    → IsValid b
    → len ≤ content_bytes_len b
    → Leaves (drop len (contents b)) (retrieve b len)
retrieve-Leaves {b} len v h =
    let (b', run, held) =
      retrieve-Holds (take len (contents b)) (drop len (contents b)) (cut-Holds len v) in
    Holds-Leaves b' (rw (cut-length len v h) at run) held

-- `readout_as_string` returns the first `len` bytes of the content and leaves the others.
pub readout_as_string-contents :
    {b : Buffer} (len : ℕ)
    → IsValid b
    → len ≤ content_bytes_len b
    → (b' : Buffer) × (readout_as_string b len ≡ some (take len (contents b), b'))
      × IsValid b'
      × (contents b' ≡ drop len (contents b))
readout_as_string-contents {b} len v h =
    let (b', run, held) =
      readout_as_string-Holds (take len (contents b)) (drop len (contents b)) (cut-Holds len v) in
    (
      b',
      rw (← run) (ap (readout_as_string b) (sym (cut-length len v h))),
      Holds-IsValid held,
      contents-eq held,
    )

-- `unwrite` drops `len` bytes from the end of the content.
pub unwrite-Leaves :
    {b : Buffer} (len : ℕ)
    → IsValid b
    → len ≤ content_bytes_len b
    → Leaves (take (content_bytes_len b - len) (contents b)) (unwrite b len)
unwrite-Leaves {b} len v h =
    let (b', run, held) =
      unwrite-Holds (take keep (contents b)) (drop keep (contents b)) (cut-Holds keep v) in
    Holds-Leaves b' (rw tail_length at run) held
  where
    keep : ℕ
    keep = content_bytes_len b - len

    tail_length : length (drop keep (contents b)) ≡ len
    tail_length = omega (arith, length-drop keep (contents b), length-contents b v)

-- Asked for more bytes than there are, `retrieve`, `readout_as_string` and `unwrite` fail their
-- assertion.
pub over_long_fails :
    (b : Buffer) (len : ℕ)
    → content_bytes_len b < len
    → (retrieve b len ≡ none) × (readout_as_string b len ≡ none) × (unwrite b len ≡ none)
unfolding retrieve readout_as_string unwrite
over_long_fails b len h = ground arith

-- `shrink` keeps a content of less than 2^31 bytes and leaves room for `reserve` more.
pub shrink-Leaves :
    {b : Buffer} (reserve : ℕ)
    → IsValid b
    → k_cheap_prepend + k_initial_size + content_bytes_len b + reserve ≤ max_size
    → content_bytes_len b < 2 ^ 31
    → Leaves (contents b) (shrink b reserve)
unfolding shrink
shrink-Leaves {b} reserve v fits short =
    let (b₁, run₁, held₁, w) = new-Holds k_initial_size (omega arith) in
    let (b₂, run₂, held₂, room) =
      ensure_writable_len-HasRoom (content_bytes_len b + reserve) held₁ (omega (arith, w, fits)) in
    let (b₃, run₃, held₃) =
      append-Holds (contents b) held₂ (omega (arith, room, held₂.bounded, length-contents b v)) in
    Holds-Leaves b₃ (rw (run₁, no_wrap, run₂) (append_piece-append b₂ (contents b) small ∙ run₃))
      held₃
  where
    small : length (contents b) < 2 ^ 31
    small = omega (arith, short, length-contents b v)

    no_wrap : add_size (content_bytes_len b) reserve ≡ content_bytes_len b + reserve
    no_wrap = omega (arith, fits)

store_and_append-Holds :
    {b : Buffer} {xs : List ℕ} (str : List ℕ)
    → Holds b xs
    → writable_bytes_len b < length str
    → length str ≤ read_size b
    → length b.bytes + extra_size ≤ max_size
    → (b' : Buffer) × (store_and_append b str ≡ some b') × Holds b' (xs ++ str)
unfolding store_and_append
store_and_append-Holds {b} {xs} str h more fits small =
    let (b', run, held) = append-Holds rest filled (omega (arith, size, rest_small, small)) in
    (
      b',
      rw (copy_to-eq b.bytes b.write_idx here room) run,
      rw (append_assoc xs here rest, take-append-drop writable str) at held,
    )
  where
    writable : ℕ
    writable = writable_bytes_len b

    here : List ℕ
    here = take writable str

    rest : List ℕ
    rest = drop writable str

    room : b.write_idx + length here ≤ length b.bytes
    room = omega (arith, length-take writable str, writable_len (Holds-IsValid h))

    size : length (copied_behind b here) ≡ length b.bytes
    size = length-copied b.bytes b.write_idx here room

    rest_length : length rest + writable ≡ length str
    rest_length = omega (arith, length-drop writable str, more)

    rest_small : length rest ≤ extra_size
    rest_small = ground (arith, rest_length, fits, writable_len (Holds-IsValid h))

    full : b.write_idx + length here ≡ length (copied_behind b here)
    full = omega (arith, size, length-take writable str, writable_len (Holds-IsValid h), more)

    filled :
        Holds
          (record b { bytes = copied_behind b here; write_idx = length (copied_behind b here) })
          (xs ++ here)
    filled =
        subst (λ w. Holds (record b { bytes = copied_behind b here; write_idx = w }) (xs ++ here))
          full (copied_behind-Holds here h room)

store_arrived-Holds :
    {b : Buffer} {xs : List ℕ} (str : List ℕ)
    → Holds b xs
    → length str ≤ read_size b
    → length b.bytes + extra_size ≤ max_size
    → (b' : Buffer) × (store_arrived b str ≡ some b') × Holds b' (xs ++ str)
unfolding store_arrived
store_arrived-Holds {b} {xs} str h fits small =
    elim (Bool-cases (leb (length str) (writable_bytes_len b))) [
      | inl e ↦ rw e (
          let (b', run, held) =
            store_in_place-Holds str h (omega (arith, leb→le _ _ e, writable_len v)) in
          (b', run, held))
      | inr e ↦ rw e (store_and_append-Holds str h (ground (arith, e)) fits small)
    ]
  where
    v : IsValid b
    v = Holds-IsValid h

-- Whatever `readv` brings, within the size that it was asked for, is appended to the content: what
-- overflows the writable bytes comes through the array on the stack.
pub read_all_from-contents :
    {b : Buffer} (str : List ℕ)
    → IsValid b
    → length str ≤ read_size b
    → length b.bytes + extra_size ≤ max_size
    → (b' : Buffer) × (read_all_from b (got str) ≡ some (got str, b'))
      × IsValid b'
      × (contents b' ≡ contents b ++ str)
unfolding read_all_from
read_all_from-contents {b} str v fits small =
    let (b', run, held) = store_arrived-Holds str (IsValid-Holds v) fits small in
    (b', rw run, Holds-IsValid held, contents-eq held)
