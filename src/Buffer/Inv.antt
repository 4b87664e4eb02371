-- ===== src/Buffer/Inv.antt =====
-- The representation of flute/net/Buffer.h: where its content stands in the vector, and what the
-- copies of `std::copy` do to the three parts.
use flute.Prelude.{
  ℕ, zero, suc, ◌+◌, ◌≤◌, ◌≡◌, refl, sym, ap, ◌∙◌, some, List, [], ◌∷◌, ◌++◌, arith, length, take,
  drop, length-append, length-take, length-drop, take-append, drop-append, take-append-drop, le→leb,
}
use flute.Buffer.{
  Buffer, max_size, k_cheap_prepend, content_bytes_len, writable_bytes_len, contents, overlay,
  overlay_at, copy_to,
}

-- `0 <= read_idx <= write_idx <= size`, and the room that `retrieve_all` falls back on.
pub record IsValid (b : Buffer) : Type 0 where
  pub ordered : b.read_idx ≤ b.write_idx
  pub inside : b.write_idx ≤ length b.bytes
  pub cheap : k_cheap_prepend ≤ length b.bytes
  pub small : length b.bytes ≤ max_size

-- The content is `xs`, between `front` and `back`.
pub record Holds (b : Buffer) (xs : List ℕ) : Type 0 where
  pub front : List ℕ
  pub back : List ℕ
  pub split : b.bytes ≡ front ++ (xs ++ back)
  pub starts : length front ≡ b.read_idx
  pub ends : b.read_idx + length xs ≡ b.write_idx
  pub room : k_cheap_prepend ≤ length b.bytes
  pub bounded : length b.bytes ≤ max_size

pub length-split :
    {b : Buffer} {xs : List ℕ} (h : Holds b xs) → length b.bytes ≡ b.write_idx + length h.back
length-split {b} {xs} h = omega (
  arith,
  ap length h.split,
  length-append h.front (xs ++ h.back),
  length-append xs h.back,
  h.starts,
  h.ends,
)

pub Holds-IsValid : {b : Buffer} {xs : List ℕ} → Holds b xs → IsValid b
Holds-IsValid h = omega (arith, length-split h, h.ends, h.room, h.bounded)

pub content_len : {b : Buffer} → IsValid b → content_bytes_len b + b.read_idx ≡ b.write_idx
content_len v = omega arith

pub writable_len : {b : Buffer} → IsValid b → writable_bytes_len b + b.write_idx ≡ length b.bytes
writable_len v = omega arith

pub Holds-length : {b : Buffer} {xs : List ℕ} → Holds b xs → content_bytes_len b ≡ length xs
Holds-length {b} h = omega (arith, content_len (Holds-IsValid h), h.ends)

pub contents-eq : {b : Buffer} {xs : List ℕ} → Holds b xs → contents b ≡ xs
contents-eq {b} {xs} h =
    rw (h.split, drop-append b.read_idx h.front (xs ++ h.back) h.starts)
      (take-append (content_bytes_len b) xs h.back (sym (Holds-length h)))

pub length-contents : (b : Buffer) → IsValid b → length (contents b) ≡ content_bytes_len b
length-contents b v = omega (
  arith,
  length-take (content_bytes_len b) (drop b.read_idx b.bytes),
  length-drop b.read_idx b.bytes,
)

pub IsValid-Holds : {b : Buffer} → IsValid b → Holds b (contents b)
IsValid-Holds {b} v = record {
  front = take b.read_idx b.bytes;
  back = drop (content_bytes_len b) (drop b.read_idx b.bytes);
  split = sym (
      ap (◌++◌ (take b.read_idx b.bytes))
        (take-append-drop (content_bytes_len b) (drop b.read_idx b.bytes))
      ∙ take-append-drop b.read_idx b.bytes);
  starts = omega (arith, length-take b.read_idx b.bytes);
  ends = omega (arith, length-contents b v);
  room = v.cheap;
  bounded = v.small;
}

-- What a copy inside the vector leaves.
overlay-eq :
    (xs src : List ℕ) → length src ≤ length xs → overlay xs src ≡ src ++ drop (length src) xs
unfolding overlay
overlay-eq [] [] h = refl
overlay-eq [] (s ∷ src) h = absurd (omega arith)
overlay-eq (x ∷ xs) [] h = refl
overlay-eq (x ∷ xs) (s ∷ src) h = ap (◌∷◌ s) (overlay-eq xs src (omega arith))

overlay_at-eq :
    (xs : List ℕ) (i : ℕ) (src : List ℕ)
    → i + length src ≤ length xs
    → overlay_at xs i src ≡ take i xs ++ (src ++ drop (length src) (drop i xs))
unfolding overlay_at
overlay_at-eq xs zero src h = overlay-eq xs src (omega arith)
overlay_at-eq [] (suc i) src h = absurd (omega arith)
overlay_at-eq (x ∷ xs) (suc i) src h = ap (◌∷◌ x) (overlay_at-eq xs i src (omega arith))

pub copy_to-eq :
    (xs : List ℕ) (i : ℕ) (src : List ℕ)
    → i + length src ≤ length xs
    → copy_to xs i src ≡ some (take i xs ++ (src ++ drop (length src) (drop i xs)))
unfolding copy_to
copy_to-eq xs i src h = rw (le→leb _ _ h, overlay_at-eq xs i src h)

pub length-copied :
    (xs : List ℕ) (i : ℕ) (src : List ℕ)
    → i + length src ≤ length xs
    → length (take i xs ++ (src ++ drop (length src) (drop i xs))) ≡ length xs
length-copied xs i src h = omega (
  arith,
  length-append (take i xs) (src ++ drop (length src) (drop i xs)),
  length-append src (drop (length src) (drop i xs)),
  length-take i xs,
  length-drop (length src) (drop i xs),
  length-drop i xs,
)
