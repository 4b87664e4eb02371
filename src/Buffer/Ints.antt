-- ===== src/Buffer/Ints.antt =====
-- Integers in network order in flute/net/Buffer.h.
use flute.Prelude.{
  ℕ, zero, suc, ◌+◌, ◌*◌, ◌/◌, ◌%◌, ◌^◌, ◌≤◌, ◌<◌, ◌≡◌, refl, sym, ap, ◌∙◌, some, List, [], ◌∷◌,
  ◌++◌, arith, length, take, drop, length-append, append-nil, le→leb,
}
use native.Mathlib.Nat.{pow-suc}
use flute.Buffer.{
  Buffer, max_size, content_bytes_len, contents, be_bytes, be_value, append_int_net,
  prepend_int_net, peek_int_host, readout_int_host, retrieve,
}
use flute.Buffer.Inv.{IsValid, Holds, Holds-IsValid, IsValid-Holds, Holds-length, contents-eq}
use flute.Buffer.Fifo.{append-Holds, prepend-Holds}
use flute.Buffer.Consume.{retrieve-Holds, first_bytes}

be_value-snoc :
    (acc : ℕ) (xs : List ℕ) (x : ℕ) → be_value acc (xs ++ x ∷ []) ≡ be_value acc xs * 256 + x
unfolding be_value
be_value-snoc acc [] x = refl
be_value-snoc acc (y ∷ xs) x = be_value-snoc (acc * 256 + y) xs x

pub length-be_bytes : (w x : ℕ) → length (be_bytes w x) ≡ w
unfolding be_bytes
length-be_bytes zero x = refl
length-be_bytes (suc w) x =
    omega
      (arith, length-append (be_bytes w (x / 256)) ((x % 256) ∷ []), length-be_bytes w (x / 256))

pub be_value-be_bytes : (w x : ℕ) → x < 256 ^ w → be_value 0 (be_bytes w x) ≡ x
unfolding be_bytes be_value
be_value-be_bytes zero x h = omega arith
be_value-be_bytes (suc w) x h =
    be_value-snoc 0 (be_bytes w (x / 256)) (x % 256)
    ∙ omega (arith, be_value-be_bytes w (x / 256) (omega (arith, pow-suc 256 w)))

-- An integer of `w` bytes at the front of the content is read, and taken away.
readout_int_host-Holds :
    {b : Buffer} (w x : ℕ) (rest : List ℕ)
    → x < 256 ^ w
    → Holds b (be_bytes w x ++ rest)
    → (b' : Buffer) × (readout_int_host w b ≡ some (x, b')) × Holds b' rest
unfolding readout_int_host peek_int_host
readout_int_host-Holds {b} w x rest h held =
    let (b', run, held') = retrieve-Holds (be_bytes w x) rest held in
    (
      b',
      rw (
        le→leb w (content_bytes_len b) fits,
        first,
        be_value-be_bytes w x h,
        ap (retrieve b) (sym (length-be_bytes w x)),
        run,
      ),
      held',
    )
  where
    fits : w ≤ content_bytes_len b
    fits = omega (arith, Holds-length held, length-append (be_bytes w x) rest, length-be_bytes w x)

    first : take w (drop b.read_idx b.bytes) ≡ be_bytes w x
    first =
        ap (λ n. take n (drop b.read_idx b.bytes)) (sym (length-be_bytes w x))
        ∙ first_bytes (be_bytes w x) rest held

-- An integer of `w` bytes appended to an empty valid buffer is the one that is read back, and
-- nothing is left.
pub readout_int_host-append_int_net :
    {b : Buffer} (w x : ℕ)
    → x < 256 ^ w
    → IsValid b
    → contents b ≡ []
    → b.write_idx + w ≤ max_size
    → (b₁ : Buffer) × (b₂ : Buffer) × (append_int_net w b x ≡ some b₁)
      × (readout_int_host w b₁ ≡ some (x, b₂))
      × (contents b₂ ≡ [])
unfolding append_int_net
readout_int_host-append_int_net {b} w x h v empty fits =
    let (b₁, run₁, held₁) =
      append-Holds (be_bytes w x) (rw empty at (IsValid-Holds v))
        (omega (arith, length-be_bytes w x, fits)) in
    let (b₂, run₂, held₂) = readout_int_host-Holds w x [] h (rw append-nil held₁) in
    (b₁, b₂, run₁, run₂, contents-eq held₂)

-- An integer of `w` bytes prepended to a valid buffer is the one that is read back, and the content
-- is then what it was.
pub readout_int_host-prepend_int_net :
    {b : Buffer} (w x : ℕ)
    → x < 256 ^ w
    → IsValid b
    → w ≤ b.read_idx
    → (b₁ : Buffer) × (b₂ : Buffer) × (prepend_int_net w b x ≡ some b₁)
      × (readout_int_host w b₁ ≡ some (x, b₂))
      × IsValid b₂
      × (contents b₂ ≡ contents b)
unfolding prepend_int_net
readout_int_host-prepend_int_net {b} w x h v room =
    let (b₁, run₁, held₁, _) =
      prepend-Holds (be_bytes w x) (IsValid-Holds v) (omega (arith, length-be_bytes w x, room)) in
    let (b₂, run₂, held₂) = readout_int_host-Holds w x (contents b) h held₁ in
    (b₁, b₂, run₁, run₂, Holds-IsValid held₂, contents-eq held₂)
