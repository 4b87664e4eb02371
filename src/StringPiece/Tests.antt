-- ===== src/StringPiece/Tests.antt =====
-- Runs of the definitions of flute/common/StringPiece.h.
use flute.Prelude.{◌≡◌, refl, true, not, some, List, ℕ, [], ◌∷◌}
use flute.StringPiece.{
  from_chars, binary_predicate, first_difference, memcmp, compare_to, equals, less, less_or_equal,
  greater_or_equal, greater, is_eq, is_lt, is_gt, empty_piece,
}
use flute.StringPiece.Order.{piece, lex, comparisons-lex}

abbrev abc : List ℕ
abc = 97 ∷ 98 ∷ 99 ∷ []

abbrev ab : List ℕ
ab = 97 ∷ 98 ∷ []

up_to_nul : from_chars (97 ∷ 98 ∷ 0 ∷ 99 ∷ 0 ∷ []) ≡ some (piece ab (0 ∷ 99 ∷ 0 ∷ []))
unfolding from_chars
up_to_nul = refl

empty_is_less : less empty_piece (piece ab []) ≡ some true
unfolding binary_predicate memcmp first_difference
empty_is_less = refl

comparisons-lex_example :
    (compare_to (piece abc []) (piece ab abc) ≡ some (lex abc ab))
    × (equals (piece abc []) (piece ab abc) ≡ some (is_eq (lex abc ab)))
    × (less (piece abc []) (piece ab abc) ≡ some (is_lt (lex abc ab)))
    × (less_or_equal (piece abc []) (piece ab abc) ≡ some (not (is_gt (lex abc ab))))
    × (greater_or_equal (piece abc []) (piece ab abc) ≡ some (not (is_lt (lex abc ab))))
    × (greater (piece abc []) (piece ab abc) ≡ some (is_gt (lex abc ab)))
comparisons-lex_example = comparisons-lex abc ab [] abc
