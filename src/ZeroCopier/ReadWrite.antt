-- ===== src/ZeroCopier/ReadWrite.antt =====
-- The `read`/`write` mode of flute/common/ZeroCopier.cc.
use flute.Prelude.{
  ℕ, zero, suc, ◌+◌, ◌<◌, ◌≡◌, refl, ap, sym, subst, ◌∙◌, false, true, some, List, [], ◌∷◌, ◌++◌,
  arith, take, drop, map, replicate,
}
use flute.ZeroCopier.{
  ZeroCopier, Globals, Answers, k_read_write, is_some, has_finished, send_one_chunk_rw,
  send_by_mode, count_failure, send_one_chunk, globals_after,
}
use flute.ZeroCopier.Finish.{run}

pub record IsReading (g : Globals) (z : ZeroCopier) : Type 0 where
  pub mode : g.copy_mode ≡ k_read_write
  pub available : z.source_available ≡ true
  pub targeted : is_some z.target_fd ≡ true
  pub running : z.started ≡ true
  pub unfinished : z.offset < z.total_bytes

-- A chunk that reads and writes so many bytes; what the other calls would answer does not matter.
abbrev pub answer : Answers → ℕ × ℕ → Answers
answer a (r, k) = record a { read = some r; write = some k }

abbrev pub written : List (ℕ × ℕ) → ℕ
written [] = 0
written ((r, k) ∷ counts) = k + written counts

-- What the chunks send of a file: from each piece that was read its first bytes, and then the next piece.
abbrev pub pieces : List ℕ → ℕ → List (ℕ × ℕ) → List ℕ
pieces source pos [] = []
pieces source pos ((r, k) ∷ counts) =
    take k (take r (drop pos source)) ++ pieces source (pos + r) counts

abbrev after_chunk : ℕ → ℕ → ZeroCopier → ZeroCopier
after_chunk r k z = record z {
  offset = z.offset + k;
  file_pos = z.file_pos + r;
  failure_counter = 0;
}

chunk-eq :
    (g : Globals) (z : ZeroCopier) (a : Answers) (r k : ℕ)
    → IsReading g z
    → (send_one_chunk g z (answer a (r, k))).copier ≡ after_chunk r k z
unfolding send_one_chunk send_by_mode send_one_chunk_rw count_failure
chunk-eq g z a r k s = ground arith

chunk-handed :
    (g : Globals) (z : ZeroCopier) (a : Answers) (r k : ℕ)
    → IsReading g z
    → (send_one_chunk g z (answer a (r, k))).handed ≡ take k (take r (drop z.file_pos z.source))
unfolding send_one_chunk send_by_mode send_one_chunk_rw count_failure
chunk-handed g z a r k s = ground arith

chunk-globals : (g : Globals) (z : ZeroCopier) → IsReading g z → globals_after g z ≡ g
unfolding globals_after
chunk-globals g z s = ground arith

-- What a run has sent, and where it is.
pub record Sent (z z' : ZeroCopier) (handed : List ℕ) (counts : List (ℕ × ℕ)) : Type 0 where
  pub bytes : handed ≡ pieces z.source z.file_pos counts
  pub offset : z'.offset ≡ z.offset + written counts
  pub going_on : has_finished z' ≡ false

run-chunk :
    (g : Globals) (z : ZeroCopier) (a : Answers) (r k : ℕ) (more : List Answers)
    → IsReading g z
    → run g z (answer a (r, k) ∷ more) ≡ (
      (run g (after_chunk r k z) more).0,
      take k (take r (drop z.file_pos z.source)) ++ (run g (after_chunk r k z) more).1,
    )
unfolding run
run-chunk g z a r k more s =
    rw (run, chunk-globals g z s, chunk-eq g z a r k s, chunk-handed g z a r k s) refl

run-Sent :
    (g : Globals) (z : ZeroCopier) (a : Answers) (counts : List (ℕ × ℕ))
    → IsReading g z
    → z.offset + written counts < z.total_bytes
    → Sent z ((run g z (map (answer a) counts)).0) ((run g z (map (answer a) counts)).1) counts
unfolding run
run-Sent g z a [] s left = record { bytes = refl; offset = omega arith; going_on = ground arith }
run-Sent g z a ((r, k) ∷ counts) s left =
    let s' : IsReading g (after_chunk r k z) = record {
      mode = s.mode;
      available = s.available;
      targeted = s.targeted;
      running = s.running;
      unfinished = omega (arith, left);
    } in
    let rest = run-Sent g (after_chunk r k z) a counts s' (omega (arith, left)) in
    subst (λ (p : ZeroCopier × List ℕ). Sent z (p.0) (p.1) ((r, k) ∷ counts))
      (sym (run-chunk g z a r k (map (answer a) counts) s))
      (record {
        bytes = ap (λ x. take k (take r (drop z.file_pos z.source)) ++ x) rest.bytes;
        offset = omega (arith, rest.offset);
        going_on = rest.going_on;
      })

written-at_end :
    (counts : List (ℕ × ℕ)) (n : ℕ) → written (counts ++ replicate n (0, 0)) ≡ written counts
written-at_end [] zero = refl
written-at_end [] (suc n) = omega (arith, written-at_end [] n)
written-at_end ((r, k) ∷ counts) n = omega (arith, written-at_end counts n)

pieces-at_end :
    (source : List ℕ) (counts : List (ℕ × ℕ)) (pos n : ℕ)
    → pieces source pos (counts ++ replicate n (0, 0)) ≡ pieces source pos counts
pieces-at_end source [] pos zero = refl
pieces-at_end source [] pos (suc n) = pieces-at_end source [] (pos + 0) n
pieces-at_end source ((r, k) ∷ counts) pos n =
    ap (λ x. take k (take r (drop pos source)) ++ x) (pieces-at_end source counts (pos + r) n)

-- In `read`/`write` mode, where the chunks read pieces of whatever sizes, and the socket takes some of the
-- first bytes of each, fewer in all than are left of the file: just these bytes are sent, and those
-- between are not, since each chunk reads on from the end of the piece before. When the file is read
-- to its end, where further chunks read and write nothing, their number does not matter: nothing
-- more is sent, the offset stays short of the size, and the transfer never reports that it has finished.
pub run-stuck :
    (g : Globals) (z : ZeroCopier) (a : Answers) (counts : List (ℕ × ℕ)) (n : ℕ)
    → IsReading g z
    → z.offset + written counts < z.total_bytes
    → Sent z
        ((run g z (map (answer a) (counts ++ replicate n (0, 0)))).0)
        ((run g z (map (answer a) (counts ++ replicate n (0, 0)))).1)
        counts
run-stuck g z a counts n s left =
    let k =
      run-Sent g z a (counts ++ replicate n (0, 0)) s
        (omega (arith, left, written-at_end counts n)) in
    record {
      bytes = k.bytes ∙ pieces-at_end z.source counts z.file_pos n;
      offset = omega (arith, k.offset, written-at_end counts n);
      going_on = k.going_on;
    }
