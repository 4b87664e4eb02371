-- ===== src/Connection/Chunks.antt =====
-- What one chunk of a file does to the bytes that a connection still owes its peer.
use flute.Prelude.{
  ℕ, ◌+◌, ◌≤◌, max, ◌≡◌, refl, ◌⊎◌, inl, inr, true, false, List, [], ◌++◌, arith, length, drop,
  if◌then◌else◌, Bool-cases, drop-drop, take-append-drop, drop_all,
}
use flute.ZeroCopier.{
  ZeroCopier, Globals, Answers, Chunk, has_finished, bytes_to_send, send_one_chunk,
}
use flute.ZeroCopier.Stream.{Honest, ByOffset, After, GaveUp, moved, gave_up, send_one_chunk-After}

-- The part of the file that is still to come.
abbrev pub pending_file : ZeroCopier → List ℕ
pending_file z = if has_finished z then [] else drop z.offset z.source

-- The copier counts the bytes of its file.
pub record IsSound (z : ZeroCopier) : Type 0 where
  pub counted : z.total_bytes ≡ length z.source
  pub within : z.offset ≤ z.total_bytes

finished_idle :
    (g : Globals) (z : ZeroCopier) (a : Answers)
    → has_finished z ≡ true
    → ((send_one_chunk g z a).copier ≡ z) × ((send_one_chunk g z a).handed ≡ [])
unfolding send_one_chunk
finished_idle g z a e = ground arith

-- The chunk's bytes are the next of the file, and what remains is what was not handed on; or the
-- copier gave up after a part of them.
abbrev pub Keeps : List ℕ → ZeroCopier → Chunk → Type 0
Keeps before z c =
    ((c.handed ++ pending_file c.copier ≡ before) × IsSound c.copier)
    ⊎ ((rest : List ℕ) × (has_finished c.copier ≡ true) × (c.handed ++ rest ≡ before) × GaveUp z c)

pending_moved :
    (z : ZeroCopier) (n f : ℕ)
    → IsSound z
    → has_finished z ≡ false
    → z.offset + n ≤ max z.offset z.total_bytes
    → pending_file (record z { offset = z.offset + n; failure_counter = f })
      ≡ drop n (drop z.offset z.source)
pending_moved z n f s e fits =
    rw (drop-drop z.offset n (z.offset + n) z.source refl)
      (ground (arith, drop_all (z.offset + n) z.source))

unfinished-Keeps :
    (z : ZeroCopier) (c : Chunk)
    → IsSound z
    → has_finished z ≡ false
    → After z c
    → Keeps (drop z.offset z.source) z c
unfinished-Keeps z c s e (moved n f fits same bytes) = inl (
  rw (bytes, same, pending_moved z n f s e fits) (take-append-drop n (drop z.offset z.source)),
  ground arith,
)
unfinished-Keeps z c s e (gave_up n f same gone bytes) =
    inr (drop n (drop z.offset z.source), ground arith, rw bytes (take-append-drop n _), gone)

pub send_one_chunk-Keeps :
    (g : Globals) (z : ZeroCopier) (a : Answers)
    → ByOffset g.copy_mode
    → Honest (bytes_to_send g z) a
    → IsSound z
    → Keeps (pending_file z) z (send_one_chunk g z a)
send_one_chunk-Keeps g z a mode h s = elim (Bool-cases (has_finished z)) [
  | inl e ↦ let (same, nothing) = finished_idle g z a e in inl (rw (same, nothing) refl, rw same s)
  | inr e ↦ rw e (unfinished-Keeps z (send_one_chunk g z a) s e (send_one_chunk-After g z a mode h))
]
