-- ===== src/Buffer/Tests.antt =====
-- Runs of the buffer of flute/net/Buffer.h, and the laws at concrete buffers.
use flute.Prelude.{ℕ, List, [], ◌∷◌, ◌++◌, arith, replicate}
use flute.Buffer.{Buffer}
use flute.Buffer.Inv.{IsValid}
use flute.Buffer.Refines.{Gives, apply, appends, apply-Gives}

-- "GE\r\n" behind twelve read bytes, in a vector of twenty.
abbrev used : Buffer
used = record {
  bytes = replicate 12 0 ++ (71 ∷ 69 ∷ 13 ∷ 10 ∷ 0 ∷ 0 ∷ 0 ∷ 0 ∷ []);
  read_idx = 12;
  write_idx = 16;
}

abbrev drained : Buffer
drained = record used { read_idx = 16 }

abbrev word : List ℕ
word = 71 ∷ 69 ∷ 13 ∷ 10 ∷ []

used-IsValid : IsValid used
used-IsValid = omega arith

drained-IsValid : IsValid drained
drained-IsValid = omega arith

apply-Gives_example :
    Gives []
      (word ++ (1 ∷ 2 ∷ 3 ∷ 4 ∷ 5 ∷ 6 ∷ []))
      (apply (appends (1 ∷ 2 ∷ 3 ∷ 4 ∷ 5 ∷ 6 ∷ [])) used)
apply-Gives_example =
    apply-Gives (appends (1 ∷ 2 ∷ 3 ∷ 4 ∷ 5 ∷ 6 ∷ [])) used used-IsValid (omega arith)
