-- ===== src/ZeroCopier/Finish.antt =====
-- A whole transfer of flute/common/ZeroCopier.cc: chunk after chunk, as the socket becomes writable.
use flute.Prelude.{
  ℕ, ◌+◌, ◌≤◌, max, ◌≡◌, refl, ap, ◌∙◌, true, false, List, [], ◌∷◌, ◌++◌, arith, take, drop,
  drop-drop, append-nil, take_all, take-add,
}
use flute.ZeroCopier.{
  ZeroCopier, Globals, Answers, Chunk, opened, new, set_target_fd, start, has_finished, to_abort,
  bytes_to_send, send_one_chunk, globals_after,
}
use flute.ZeroCopier.Stream.{Honest, ByOffset, After, moved, gave_up, send_one_chunk-After}

-- The copier after a list of answers, and all the bytes handed to the socket.
unfoldable pub run : Globals → ZeroCopier → List Answers → ZeroCopier × List ℕ
run g z [] = (z, [])
run g z (a ∷ more) =
    let c = send_one_chunk g z a in
    let (z', rest) = run (globals_after g z) c.copier more in (z', c.handed ++ rest)

abbrev pub AllHonest : Globals → ZeroCopier → List Answers → Type 0
AllHonest g z [] = Unit
AllHonest g z (a ∷ more) =
    Honest (bytes_to_send g z) a × AllHonest (globals_after g z) (send_one_chunk g z a).copier more

-- A copier that gave up hands on nothing more.
run-gave_up :
    (g : Globals) (z : ZeroCopier) (more : List Answers)
    → z.total_bytes ≡ 0
    → ((run g z more).0 ≡ z) × ((run g z more).1 ≡ [])
unfolding run send_one_chunk
run-gave_up g z [] e = (refl, refl)
run-gave_up g z (a ∷ more) e = ground (arith, run-gave_up (globals_after g z) z more e)

copy_mode-globals_after :
    (g : Globals) (z : ZeroCopier) → (globals_after g z).copy_mode ≡ g.copy_mode
unfolding globals_after
copy_mode-globals_after g z = ground arith

-- What a run leaves: the offset moved over the bytes handed on, or the copier gave up.
data AfterRun (z z' : ZeroCopier) (handed : List ℕ) : Type 0 where
  ran :
      (n failures : ℕ)
      → z.offset + n ≤ max z.offset z.total_bytes
      → z' ≡ record z { offset = z.offset + n; failure_counter = failures }
      → handed ≡ take n (drop z.offset z.source)
      → AfterRun z z' handed
  aborted :
      (n : ℕ)
      → z'.total_bytes ≡ 0
      → z'.offset ≡ 0
      → handed ≡ take n (drop z.offset z.source)
      → AfterRun z z' handed

chain :
    (z : ZeroCopier) (n k : ℕ) (rest : List ℕ)
    → rest ≡ take k (drop (z.offset + n) z.source)
    → take n (drop z.offset z.source) ++ rest ≡ take (n + k) (drop z.offset z.source)
chain z n k rest e =
    rw (e, ← drop-drop z.offset n (z.offset + n) z.source refl)
      (take-add n k (n + k) (drop z.offset z.source) refl)

join :
    (z : ZeroCopier) (c : Chunk) (z' : ZeroCopier) (rest : List ℕ)
    → After z c
    → AfterRun c.copier z' rest
    → (c.copier.total_bytes ≡ 0 → (z' ≡ c.copier) × (rest ≡ []))
    → AfterRun z z' (c.handed ++ rest)
join z c z' rest (moved n f fits e bytes) (ran k f' fits' e' bytes') stop =
    ran (n + k) f' (ground (arith, ap ZeroCopier.offset e)) (ground arith)
      (rw bytes (chain z n k rest (ground arith)))
join z c z' rest (moved n f fits e bytes) (aborted k t o bytes') stop =
    aborted (n + k) t o (rw bytes (chain z n k rest (ground arith)))
join z c z' rest (gave_up n f e _ bytes) later stop =
    let (same, none_left) = stop (ap ZeroCopier.total_bytes e) in
    aborted n (ground (arith, same, e)) (ground (arith, same, e)) (rw (none_left, append-nil) bytes)

run-After :
    (g : Globals) (z : ZeroCopier) (more : List Answers)
    → ByOffset g.copy_mode
    → AllHonest g z more
    → AfterRun z (run g z more).0 (run g z more).1
unfolding run
run-After g z [] mode h = ran 0 z.failure_counter (omega arith) (ground arith) refl
run-After g z (a ∷ more) mode (h, hs) =
    join z (send_one_chunk g z a) _ _ (send_one_chunk-After g z a mode h)
      (run-After (globals_after g z) (send_one_chunk g z a).copier more
        (rw copy_mode-globals_after mode) hs)
      (run-gave_up (globals_after g z) (send_one_chunk g z a).copier more)

-- A copier of `file` as `TcpConnection::enable_zero_copy` starts it.
abbrev pub launch : ZeroCopier → List ℕ → ℕ → ZeroCopier
launch mem file fd = start (set_target_fd fd (new mem (opened file)))

-- By `sendfile` or `mmap`, whatever fails on the way, the bytes that reach the socket are a prefix
-- of the file: none is skipped, repeated or reordered.
pub run-launch_prefix :
    (g : Globals) (mem : ZeroCopier) (file : List ℕ) (fd : ℕ) (more : List Answers)
    → ByOffset g.copy_mode
    → AllHonest g (launch mem file fd) more
    → (n : ℕ) × ((run g (launch mem file fd) more).1 ≡ take n file)
unfolding new
run-launch_prefix g mem file fd more mode h = elim (run-After g (launch mem file fd) more mode h) [
  | ran n f fits e bytes ↦ (n, bytes)
  | aborted n t o bytes ↦ (n, bytes)
]

-- By `sendfile` or `mmap`, a copier that reports that it has finished without giving up has handed
-- on the whole file.
pub run-launch_whole :
    (g : Globals) (mem : ZeroCopier) (file : List ℕ) (fd : ℕ) (more : List Answers)
    → ByOffset g.copy_mode
    → AllHonest g (launch mem file fd) more
    → has_finished (run g (launch mem file fd) more).0 ≡ true
    → to_abort (run g (launch mem file fd) more).0 ≡ false
    → (run g (launch mem file fd) more).1 ≡ file
unfolding new
run-launch_whole g mem file fd more mode h done ok =
    elim (run-After g (launch mem file fd) more mode h) [
      | ran n f fits e bytes ↦ bytes ∙ take_all n file (ground arith)
      | aborted n t o bytes ↦ absurd (ground arith)
    ]
