-- ===== src/ZeroCopier/Stream.antt =====
-- What the chunks of flute/common/ZeroCopier.cc hand to the socket, put together.
use flute.Prelude.{
  ℕ, zero, suc, ◌+◌, ◌-◌, ◌*◌, ◌/◌, ◌≤◌, max, true, not, ◌||◌, ◌≡◌, refl, ap, inl, inr, Option,
  none, some, List, [], ◌∷◌, arith, take, drop, leb, Bool-cases, Option-cases, drop-drop,
}
use flute.ZeroCopier.{
  ZeroCopier, Globals, Answers, Chunk, CopyMode, k_zero_copy, k_m_map, is_valid, to_abort,
  k_max_trial, bytes_to_send, mapped_bytes, page_size, send_one_chunk_zerocopy, send_one_chunk_mmap,
  send_by_mode, count_failure, send_one_chunk,
}

-- The kernel reports no more bytes than it was asked to move.
abbrev pub AtMost : ℕ → Option ℕ → Type 0
AtMost m none = Unit
AtMost m (some n) = n ≤ m

-- What the manual pages promise of `sendfile` and of `send` for a request of `m` bytes.
pub record Honest (m : ℕ) (a : Answers) : Type 0 where
  pub sendfile_le : AtMost m a.sendfile
  pub send_le : AtMost m a.send

-- The chunk moved the offset by `n`, over exactly the bytes that it handed on.
abbrev Moves : ZeroCopier → ℕ → Chunk → Type 0
Moves z m c =
    (n : ℕ) × (n ≤ m)
    × (c.copier ≡ record z { offset = z.offset + n })
    × (c.handed ≡ take n (drop z.offset z.source))

take-take : (n m : ℕ) (xs : List ℕ) → n ≤ m → take n (take m xs) ≡ take n xs
take-take zero m xs h = refl
take-take (suc n) zero xs h = absurd (omega arith)
take-take (suc n) (suc m) [] h = refl
take-take (suc n) (suc m) (x ∷ xs) h = ap (◌∷◌ x) (take-take n m xs (omega arith))

drop-take : (k m j : ℕ) (xs : List ℕ) → k + m ≡ j → drop k (take j xs) ≡ take m (drop k xs)
drop-take zero m j xs h = ap (λ i. take i xs) (omega arith)
drop-take (suc k) m zero xs h = absurd (omega arith)
drop-take (suc k) zero (suc j) [] h = refl
drop-take (suc k) (suc m) (suc j) [] h = refl
drop-take (suc k) m (suc j) (x ∷ xs) h = drop-take k m j xs (omega arith)

-- The bytes from the gap on in the mapped pages are those at the offset.
mapped_bytes_lem :
    (z : ZeroCopier) (m n : ℕ) → n ≤ m → mapped_bytes z m n ≡ take n (drop z.offset z.source)
unfolding mapped_bytes
mapped_bytes_lem z m n h = rw (
  drop-take gap m (gap + m) (drop page z.source) refl,
  drop-drop page gap z.offset z.source (omega arith),
  take-take n m (drop z.offset z.source) h,
)
  where
    page : ℕ
    page = z.offset / page_size * page_size

    gap : ℕ
    gap = z.offset - page

zerocopy-Moves :
    (z : ZeroCopier) (m : ℕ) (a : Answers)
    → AtMost m a.sendfile
    → Moves z m (send_one_chunk_zerocopy z a)
unfolding send_one_chunk_zerocopy
zerocopy-Moves z m a h = elim (Option-cases a.sendfile) [
  | inl e ↦ (0, omega arith, ground arith, ground arith)
  | inr (n, e) ↦ (n, ground arith, ground arith, ground arith)
]

mmap-Moves :
    (z : ZeroCopier) (m : ℕ) (a : Answers) → AtMost m a.send → Moves z m (send_one_chunk_mmap z m a)
unfolding send_one_chunk_mmap
mmap-Moves z m a h = elim (Bool-cases a.mmap_ok) [
  | inr e ↦ (0, omega arith, ground arith, ground arith)
  | inl e ↦ elim (Option-cases a.send) [
    | inl s ↦ (0, omega arith, ground arith, ground arith)
    | inr (n, s) ↦ (n, ground arith, ground arith, ground (arith, mapped_bytes_lem z m n))
  ]
]

-- The two modes that read the file at the copier's own offset.
pub data ByOffset : CopyMode → Type 0 where
  by_sendfile : ByOffset k_zero_copy
  by_mmap : ByOffset k_m_map

send_by_mode-Moves :
    (mode : CopyMode) (z : ZeroCopier) (m : ℕ) (a : Answers)
    → ByOffset mode
    → Honest m a
    → Moves z m (send_by_mode mode z m a)
unfolding send_by_mode
send_by_mode-Moves mode z m a by_sendfile h = zerocopy-Moves z m a h.sendfile_le
send_by_mode-Moves mode z m a by_mmap h = mmap-Moves z m a h.send_le

-- A failure that is the last of `k_max_trial` in a row, after which there is nothing to send.
abbrev pub GaveUp : ZeroCopier → Chunk → Type 0
GaveUp z c = (k_max_trial ≤ z.failure_counter + 1) × (c.result ≡ none) × (to_abort c.copier ≡ true)

-- What one chunk leaves: the offset moved over the bytes handed on, or the copier gave up.
pub data After (z : ZeroCopier) (c : Chunk) : Type 0 where
  moved :
      (n failures : ℕ)
      → z.offset + n ≤ max z.offset z.total_bytes
      → c.copier ≡ record z { offset = z.offset + n; failure_counter = failures }
      → c.handed ≡ take n (drop z.offset z.source)
      → After z c
  gave_up :
      (n failures : ℕ)
      → c.copier ≡ record z { offset = 0; total_bytes = 0; failure_counter = failures }
      → GaveUp z c
      → c.handed ≡ take n (drop z.offset z.source)
      → After z c

count_failure-After :
    (z : ZeroCopier) (m : ℕ) (c : Chunk)
    → z.offset + m ≤ max z.offset z.total_bytes
    → Moves z m c
    → After z (count_failure c)
unfolding count_failure
count_failure-After z m c fits (n, le, e, h) = elim (Option-cases c.result) [
  | inr (k, r) ↦ moved n 0 (omega arith) (ground arith) (ground arith)
  | inl r ↦ elim (Bool-cases (leb k_max_trial (c.copier.failure_counter + 1))) [
    | inl give_up ↦
        gave_up n (c.copier.failure_counter + 1) (ground arith)
          (ground arith, ground arith, ground arith) (ground arith)
    | inr go_on ↦ moved n (c.copier.failure_counter + 1) (omega arith) (ground arith) (ground arith)
  ]
]

pub send_one_chunk-After :
    (g : Globals) (z : ZeroCopier) (a : Answers)
    → ByOffset g.copy_mode
    → Honest (bytes_to_send g z) a
    → After z (send_one_chunk g z a)
unfolding send_one_chunk
send_one_chunk-After g z a mode h = elim (Bool-cases (not (is_valid z) || not z.started)) [
  | inl idle ↦ rw idle (moved 0 z.failure_counter (omega arith) (ground arith) refl)
  | inr ready ↦ rw ready (elim (Bool-cases (leb z.total_bytes z.offset)) [
    | inl done ↦ rw done (moved 0 z.failure_counter (omega arith) (ground arith) refl)
    | inr more ↦ rw more (
        count_failure-After z (bytes_to_send g z) _ (ground arith)
          (send_by_mode-Moves g.copy_mode z (bytes_to_send g z) a mode h))
  ])
]
