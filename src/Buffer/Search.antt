-- ===== src/Buffer/Search.antt =====
-- `find_CRLF` of flute/net/Buffer.h: the first "\r\n" of the content.
use flute.Prelude.{
  Bool, false, ◌&&◌, ◌||◌, ℕ, suc, ◌+◌, ◌≡◌, refl, ap, ◌⊎◌, inl, inr, none, some, List, [], ◌∷◌,
  ◌++◌, arith, length, length-append, ◌==◌, Bool-cases,
}
use flute.Buffer.{Buffer, contents, search_crlf, find_crlf}
use flute.Buffer.Inv.{IsValid, IsValid-Holds, length-contents, content_len}
use flute.Buffer.Slide.{range-eq}

abbrev pub crlf : List ℕ
crlf = 13 ∷ 10 ∷ []

abbrev pub has_crlf : List ℕ → Bool
has_crlf [] = false
has_crlf (x ∷ []) = false
has_crlf (x ∷ y ∷ rest) = ((x == 13) && (y == 10)) || has_crlf (y ∷ rest)

-- A text before whose end, and also across it, no "\r\n" begins.
abbrev pub IsLine : List ℕ → Type 0
IsLine line = has_crlf (line ++ 13 ∷ []) ≡ false

abbrev pub Found : List ℕ → ℕ → ℕ → Type 0
Found xs i n =
    ((has_crlf xs ≡ false) × (n ≡ i + length xs))
    ⊎ ((line : List ℕ) × (rest : List ℕ) × (xs ≡ line ++ (crlf ++ rest))
        × IsLine line
        × (n ≡ i + length line))

IsLine-cons :
    (x y : ℕ) (line rest after : List ℕ)
    → ((x == 13) && (y == 10)) ≡ false
    → y ∷ rest ≡ line ++ (crlf ++ after)
    → IsLine line
    → IsLine (x ∷ line)
IsLine-cons x y [] rest after e split is_line = ground arith
IsLine-cons x y (z ∷ line) rest after e split is_line = ground arith

pub search_crlf-Found : (xs : List ℕ) (i : ℕ) → Found xs i (search_crlf xs i)
unfolding search_crlf
search_crlf-Found [] i = inl (refl, omega arith)
search_crlf-Found (x ∷ []) i = inl (refl, omega arith)
search_crlf-Found (x ∷ y ∷ rest) i = elim (Bool-cases ((x == 13) && (y == 10))) [
  | inl e ↦ rw e (inr ([], rest, ground arith, refl, omega arith))
  | inr e ↦ rw e (elim (search_crlf-Found (y ∷ rest) (suc i)) [
    | inl (no_more, n) ↦ inl (no_more, omega (arith, n))
    | inr (line, after, split, is_line, n) ↦ inr (
      x ∷ line,
      after,
      ap (◌∷◌ x) split,
      IsLine-cons x y line rest after e split is_line,
      omega (arith, n),
    )
  ])
]

-- What `find_CRLF` returns on a valid buffer: `NULL` if the content holds no "\r\n", and otherwise
-- the place of the first one.
pub find_crlf-content :
    {b : Buffer}
    → IsValid b
    → ((has_crlf (contents b) ≡ false) × (find_crlf b ≡ none))
      ⊎ ((line : List ℕ) × (rest : List ℕ) × (contents b ≡ line ++ (crlf ++ rest))
          × IsLine line
          × (find_crlf b ≡ some (b.read_idx + length line)))
unfolding find_crlf
find_crlf-content {b} v =
    rw (range-eq (IsValid-Holds v)) (elim (search_crlf-Found (contents b) b.read_idx) [
      | inl (no_crlf, n) ↦ inl (no_crlf, ground (arith, n, length-contents b v, content_len v))
      | inr (line, rest, split, is_line, n) ↦ inr (
        line,
        rest,
        split,
        is_line,
        ground (
          arith,
          n,
          length-contents b v,
          content_len v,
          ap length split,
          length-append line (crlf ++ rest),
        ),
      )
    ])
