-- ===== src/Http/Lines.antt =====
-- The lines of a buffer, as flute/net/http/HttpContext.cc takes them.
use flute.Prelude.{
  ℕ, suc, ◌+◌, ◌-◌, ◌≡◌, ap, ◌∙◌, some, List, [], ◌∷◌, ◌++◌, arith, length, length-append,
  append_assoc, take-append, drop-append,
}
use flute.Buffer.{Buffer, range, search_crlf, find_crlf, retrieve_until}
use flute.Buffer.Inv.{Holds}
use flute.Buffer.Slide.{range-eq}
use flute.Buffer.Consume.{retrieve_until-Holds}
use flute.Buffer.Search.{crlf, IsLine}

search_crlf-line :
    (line rest : List ℕ) (i : ℕ)
    → IsLine line
    → search_crlf (line ++ (crlf ++ rest)) i ≡ i + length line
unfolding search_crlf
search_crlf-line [] rest i l = ground arith
search_crlf-line (x ∷ []) rest i l = ground arith
search_crlf-line (x ∷ y ∷ line) rest i l =
    ground (arith, search_crlf-line (y ∷ line) rest (suc i) (ground (arith, l)), l)

-- A buffer that begins with a line: where it ends, its text, and the buffer behind it.
pub find_crlf-line :
    {b : Buffer} (line rest : List ℕ)
    → IsLine line
    → Holds b (line ++ (crlf ++ rest))
    → find_crlf b ≡ some (b.read_idx + length line)
unfolding find_crlf
find_crlf-line {b} line rest l h =
    rw (range-eq h, search_crlf-line line rest b.read_idx l)
      (ground (arith, h.ends, length-append line (crlf ++ rest)))

pub range-line :
    {b : Buffer} (line rest : List ℕ)
    → Holds b (line ++ (crlf ++ rest))
    → range b b.read_idx (b.read_idx + length line) ≡ line
range-line {b} line rest h =
    rw
      (
        h.split,
        drop-append b.read_idx h.front ((line ++ (crlf ++ rest)) ++ h.back) h.starts,
        append_assoc line (crlf ++ rest) h.back,
      )
      (take-append (b.read_idx + length line - b.read_idx) line ((crlf ++ rest) ++ h.back)
        (omega arith))

pub retrieve_until-line :
    {b : Buffer} (line rest : List ℕ)
    → Holds b (line ++ (crlf ++ rest))
    → (b' : Buffer) × (retrieve_until b (b.read_idx + length line + 2) ≡ some b') × Holds b' rest
retrieve_until-line {b} line rest h =
    let (b', run, held) =
      retrieve_until-Holds (line ++ crlf) rest (rw (append_assoc line crlf rest) h) in
    (b', ap (retrieve_until b) place ∙ run, held)
  where
    place : b.read_idx + length line + 2 ≡ b.read_idx + length (line ++ crlf)
    place = omega (arith, length-append line crlf)
