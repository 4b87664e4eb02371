-- ===== src/LogFile/Writes.antt =====
-- The loop of `AppendFile::append` in flute/common/FileUtil.cc.
use flute.Prelude.{
  ℕ, suc, ◌+◌, ◌<◌, ◌≡◌, refl, ap, ◌∙◌, le→leb, ◌==◌, false, some, List, [], ◌∷◌, ◌++◌,
  append_assoc, append-nil, map, length, length-append, concat, take-append, drop-append, All,
  arith,
}
use flute.LogFile.{AppendFile, write, write_rest, append}

-- What a file is after some bytes more.
abbrev pub after : List ℕ → AppendFile → AppendFile
after bytes f = record f { content = f.content ++ bytes }

abbrev pub NonEmpty : List ℕ → Type 0
NonEmpty piece = 0 < length piece

write-piece :
    (piece rest : List ℕ) (f : AppendFile)
    → write (length piece) (piece ++ rest) f ≡ some (rest, after piece f)
unfolding write
write-piece piece rest f =
    rw
      (
        le→leb (length piece) (length (piece ++ rest)) (omega (arith, length-append piece rest)),
        take-append (length piece) piece rest refl,
        drop-append (length piece) piece rest refl,
      )
      refl

suc_not_zero : (n : ℕ) → (suc n == 0) ≡ false
suc_not_zero n = ground arith

write_rest-pieces :
    (pieces : List (List ℕ)) (f : AppendFile)
    → All NonEmpty pieces
    → write_rest (map length pieces) (concat pieces) f ≡ some (after (concat pieces) f)
unfolding write_rest
write_rest-pieces [] f h = rw (append-nil f.content) refl
write_rest-pieces ([] ∷ ps) f (first, h) = absurd (omega (arith, first))
write_rest-pieces ((b ∷ bs) ∷ ps) f (first, h) =
    rw (write-piece (b ∷ bs) (concat ps) f, suc_not_zero (length bs))
      (write_rest-pieces ps (after (b ∷ bs) f) h
        ∙ ap (λ x. some (record f { content = x })) (append_assoc f.content (b ∷ bs) (concat ps)))

-- Where `fwrite` takes a line in some pieces, of which only the first may be empty, the loop ends and
-- the file has the whole line.
pub append-pieces :
    (piece : List ℕ) (pieces : List (List ℕ)) (f : AppendFile)
    → All NonEmpty pieces
    → append (length piece ∷ map length pieces) (piece ++ concat pieces) f
      ≡ some (record f {
        content = f.content ++ (piece ++ concat pieces);
        written_bytes = f.written_bytes + length (piece ++ concat pieces);
      })
unfolding append
append-pieces piece pieces f h =
    rw (write-piece piece (concat pieces) f, write_rest-pieces pieces (after piece f) h)
      (ap
        (λ x. some (record f {
          content = x;
          written_bytes = f.written_bytes + length (piece ++ concat pieces);
        }))
        (append_assoc f.content piece (concat pieces)))
