-- ===== src/Buffer/Refines.antt =====
-- The operations of flute/net/Buffer.h and Buffer.cc refine those of a list of bytes.
use flute.Prelude.{
  ℕ, ◌+◌, ◌-◌, ◌^◌, ◌<◌, ◌≤◌, ◌≡◌, refl, Option, some, List, [], ◌++◌, length, take, drop, ◌>>=◌,
}
use flute.Buffer.{
  Buffer, max_size, k_cheap_prepend, k_initial_size, content_bytes_len, contents, append, prepend,
  retrieve, readout_as_string, unwrite, shrink,
}
use flute.Buffer.Inv.{IsValid, length-contents}
use flute.Buffer.Laws.{
  Leaves, append-Leaves, prepend-Leaves, retrieve-Leaves, readout_as_string-contents,
  unwrite-Leaves, shrink-Leaves,
}

pub data Op : Type 0 where
  appends prepends : List ℕ → Op
  retrieves reads_out unwrites shrinks : ℕ → Op

-- What an operation returns and leaves.
abbrev pub quietly : Option Buffer → Option (List ℕ × Buffer)
quietly r = r >>= λ b. some ([], b)

abbrev pub apply : Op → Buffer → Option (List ℕ × Buffer)
apply (appends str) b = quietly (append b str)
apply (prepends str) b = quietly (prepend b str)
apply (retrieves len) b = quietly (retrieve b len)
apply (reads_out len) b = readout_as_string b len
apply (unwrites len) b = quietly (unwrite b len)
apply (shrinks reserve) b = quietly (shrink b reserve)

-- The same on the bytes alone.
abbrev pub returned : Op → List ℕ → List ℕ
returned (reads_out len) xs = take len xs
returned _ xs = []

abbrev pub applied : Op → List ℕ → List ℕ
applied (appends str) xs = xs ++ str
applied (prepends str) xs = str ++ xs
applied (retrieves len) xs = drop len xs
applied (reads_out len) xs = drop len xs
applied (unwrites len) xs = take (length xs - len) xs
applied (shrinks reserve) xs = xs

-- When an operation may be called: the vector can grow as far as it asks, the front part has room for
-- what is put there, there are as many bytes as are taken, and what is shrunk has less than 2^31.
abbrev pub Fits : Op → Buffer → Type 0
Fits (appends str) b = b.write_idx + length str ≤ max_size
Fits (prepends str) b = length str ≤ b.read_idx
Fits (retrieves len) b = len ≤ content_bytes_len b
Fits (reads_out len) b = len ≤ content_bytes_len b
Fits (unwrites len) b = len ≤ content_bytes_len b
Fits (shrinks reserve) b =
    (k_cheap_prepend + k_initial_size + content_bytes_len b + reserve ≤ max_size)
    × (content_bytes_len b < 2 ^ 31)

abbrev pub Gives : List ℕ → List ℕ → Option (List ℕ × Buffer) → Type 0
Gives out xs r = (b' : Buffer) × (r ≡ some (out, b')) × IsValid b' × (contents b' ≡ xs)

Leaves-Gives : {xs : List ℕ} (r : Option Buffer) → Leaves xs r → Gives [] xs (quietly r)
Leaves-Gives r (b', run, valid, content) = (b', rw run refl, valid, content)

-- On a valid buffer each of append, prepend, retrieve, readout_as_string, unwrite and shrink, where it
-- fits (and what is shrunk has less than 2^31 bytes), succeeds, returns what the same operation on the list of its bytes returns, and leaves
-- a valid buffer of the bytes that this one leaves.
pub apply-Gives :
    (op : Op) (b : Buffer)
    → IsValid b
    → Fits op b
    → Gives (returned op (contents b)) (applied op (contents b)) (apply op b)
apply-Gives (appends str) b v fits = Leaves-Gives (append b str) (append-Leaves str v fits)
apply-Gives (prepends str) b v fits = Leaves-Gives (prepend b str) (prepend-Leaves str v fits)
apply-Gives (retrieves len) b v fits = Leaves-Gives (retrieve b len) (retrieve-Leaves len v fits)
apply-Gives (reads_out len) b v fits = readout_as_string-contents len v fits
apply-Gives (unwrites len) b v fits =
    Leaves-Gives (unwrite b len) (rw (length-contents b v) (unwrite-Leaves len v fits))
apply-Gives (shrinks reserve) b v (fits, short) =
    Leaves-Gives (shrink b reserve) (shrink-Leaves reserve v fits short)
