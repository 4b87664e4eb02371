-- ===== src/Buffer/Room.antt =====
-- Where the content of flute/net/Buffer.h starts after `append`, so that pieces can be appended one
-- after the other.
use flute.Prelude.{
  ℕ, ◌+◌, ◌≤◌, ◌<◌, ◌^◌, ◌≡◌, refl, ◌∙◌, Bool, true, false, Option, some, List, ◌++◌, append_assoc,
  arith, length, length-append, ltb, leb, sub_size, ◌==◌, subst, if_either, add_size, >>=-eq-some,
  ◌>>=◌, assert, if◌then◌else◌,
}
use flute.Buffer.{
  Buffer, max_size, append, append_piece, ensure_writable_len, make_space, grow, slide,
  mark_written, copy_to, range, resize, content_bytes_len, k_cheap_prepend, writable_bytes_len,
}
use mathlib.Core.Option.{some-injective}
use flute.Buffer.Inv.{Holds}
use flute.Buffer.Fifo.{append-Holds, append_piece-append}

-- No later than it did.
abbrev StartsBy : ℕ → Option Buffer → Type 0
StartsBy i r = (b : Buffer) → r ≡ some b → b.read_idx ≤ i

bind-StartsBy {ℓ} :
    {A : Type ℓ} {i : ℕ} (m : Option A) (f : A → Option Buffer)
    → ((a : A) → m ≡ some a → StartsBy i (f a))
    → StartsBy i (m >>= f)
bind-StartsBy m f h b run = let (a, e, g) = >>=-eq-some m f run in h a e b g

some-StartsBy : {i : ℕ} (b : Buffer) → b.read_idx ≤ i → StartsBy i (some b)
some-StartsBy {i} b h b' run = subst (λ (x : Buffer). x.read_idx ≤ i) (some-injective b b' run) h

assert-true : (c : Bool) → (u : Unit {0}) → assert c ≡ some u → c ≡ true
assert-true true u h = refl
assert-true false u h = cc

slide-StartsBy : (b : Buffer) → StartsBy b.read_idx (slide b)
unfolding slide
slide-StartsBy b = bind-StartsBy (assert (ltb k_cheap_prepend b.read_idx)) _ (λ u e.
    bind-StartsBy (copy_to b.bytes k_cheap_prepend (range b b.read_idx b.write_idx)) _ (λ moved f.
      bind-StartsBy
        (assert (
          content_bytes_len b
          == sub_size (add_size k_cheap_prepend (content_bytes_len b)) k_cheap_prepend))
        (λ v. some (moved_to moved))
        (λ v g. some-StartsBy (moved_to moved) (ground (arith, assert-true _ u e)))))
  where
    moved_to : List ℕ → Buffer
    moved_to moved = record {
      bytes = moved;
      read_idx = k_cheap_prepend;
      write_idx = add_size k_cheap_prepend (content_bytes_len b);
    }

grow-StartsBy : (b : Buffer) (len : ℕ) → StartsBy b.read_idx (grow b len)
unfolding grow
grow-StartsBy b len =
    bind-StartsBy (resize b.bytes (add_size b.write_idx len)) _
      (λ grown e. some-StartsBy _ (omega arith))

make_space-StartsBy : (b : Buffer) (len : ℕ) → StartsBy b.read_idx (make_space b len)
unfolding make_space
make_space-StartsBy b len =
    if_either (StartsBy b.read_idx) _ (grow b len) (slide b) (λ e. grow-StartsBy b len)
      (λ e. slide-StartsBy b)

ensure_writable_len-StartsBy :
    (b : Buffer) (len : ℕ) → StartsBy b.read_idx (ensure_writable_len b len)
unfolding ensure_writable_len
ensure_writable_len-StartsBy b len =
    bind-StartsBy (if ltb (writable_bytes_len b) len then make_space b len else some b) _ (λ b' e.
      bind-StartsBy (assert (leb len (writable_bytes_len b'))) _
        (λ u f. some-StartsBy b' (made b' e)))
  where
    made : StartsBy b.read_idx (if ltb (writable_bytes_len b) len then make_space b len else some b)
    made =
        if_either (StartsBy b.read_idx) _ (make_space b len) (some b)
          (λ e. make_space-StartsBy b len) (λ e. some-StartsBy b (omega arith))

append-StartsBy : (b : Buffer) (str : List ℕ) → StartsBy b.read_idx (append b str)
unfolding append mark_written
append-StartsBy b str = bind-StartsBy (ensure_writable_len b (length str)) _ (λ b' e.
    bind-StartsBy (copy_to b'.bytes b'.write_idx str) _ (λ copied f.
      bind-StartsBy (assert (leb (length str) (writable_bytes_len (record b' { bytes = copied }))))
        (λ u. some (behind b' copied))
        (λ u g.
          some-StartsBy (behind b' copied) (ensure_writable_len-StartsBy b (length str) b' e))))
  where
    behind : Buffer → List ℕ → Buffer
    behind b' copied = record {
      bytes = copied;
      read_idx = b'.read_idx;
      write_idx = add_size b'.write_idx (length str);
    }

-- A buffer that holds `xs` from `i` on or before, with room for `rest` behind it, whose length is an
-- `int`.
pub record HasRoom (i : ℕ) (b : Buffer) (xs rest : List ℕ) : Type 0 where
  pub holds : Holds b xs
  pub starts_by : b.read_idx ≤ i
  pub fits : i + length (xs ++ rest) ≤ max_size
  pub short : length rest < 2 ^ 31

-- The call leaves `xs`.
abbrev pub LeavesBy : ℕ → List ℕ → Option Buffer → Type 0
LeavesBy i xs r = (b : Buffer) × (r ≡ some b) × Holds b xs × (b.read_idx ≤ i)

pub append_piece-LeavesBy :
    {i : ℕ} {b : Buffer} {xs : List ℕ} (str : List ℕ)
    → HasRoom i b xs str
    → LeavesBy i (xs ++ str) (append_piece b str)
append_piece-LeavesBy {i} {b} {xs} str h =
    let (b', run, held) =
      append-Holds str h.holds
        (omega (arith, h.holds.ends, h.starts_by, h.fits, length-append xs str)) in
    let later : b'.read_idx ≤ b.read_idx = append-StartsBy b str b' run in
    (b', append_piece-append b str h.short ∙ run, held, omega (arith, later, h.starts_by))

-- The room for the first of two pieces.
pub HasRoom-first :
    {i : ℕ} {b : Buffer} {xs : List ℕ} (str rest : List ℕ)
    → HasRoom i b xs (str ++ rest)
    → HasRoom i b xs str
HasRoom-first {i} {b} {xs} str rest h = record {
  holds = h.holds;
  starts_by = h.starts_by;
  fits =
      omega (
        arith,
        h.fits,
        length-append xs (str ++ rest),
        length-append str rest,
        length-append xs str,
      );
  short = omega (arith, h.short, length-append str rest);
}

-- One call appends a piece, and the next one the rest.
pub bind-LeavesBy :
    {i : ℕ} {b : Buffer} {xs : List ℕ} (str rest : List ℕ) (m : Option Buffer)
    (f : Buffer → Option Buffer)
    → HasRoom i b xs (str ++ rest)
    → LeavesBy i (xs ++ str) m
    → ((b' : Buffer) → HasRoom i b' (xs ++ str) rest → LeavesBy i ((xs ++ str) ++ rest) (f b'))
    → LeavesBy i (xs ++ (str ++ rest)) (m >>= f)
bind-LeavesBy {i} {b} {xs} str rest m f h (b', run, held, start) k =
    let (b'', runs, held', start') = k b' (record {
      holds = held;
      starts_by = start;
      fits = rw (append_assoc xs str rest) h.fits;
      short = omega (arith, h.short, length-append str rest);
    }) in
    (b'', rw run runs, rw (append_assoc xs str rest) at held', start')

-- The same, with `append_piece` for the first.
pub append_piece-then-LeavesBy :
    {i : ℕ} {b : Buffer} {xs : List ℕ} (str rest : List ℕ) (f : Buffer → Option Buffer)
    → HasRoom i b xs (str ++ rest)
    → ((b' : Buffer) → HasRoom i b' (xs ++ str) rest → LeavesBy i ((xs ++ str) ++ rest) (f b'))
    → LeavesBy i (xs ++ (str ++ rest)) (append_piece b str >>= f)
append_piece-then-LeavesBy {i} {b} {xs} str rest f h k =
    bind-LeavesBy str rest (append_piece b str) f h
      (append_piece-LeavesBy str (HasRoom-first str rest h)) k
