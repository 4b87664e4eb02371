-- ===== src/StringPiece.antt =====
-- flute/common/StringPiece.h: a pointer into some text with a length. The pointer is the list of the
-- bytes from it on, the null pointer that of none, and the length an `int`. The answer of `memcmp` is
-- its sign. `none` is a read outside of the text.
pub mod Order
pub mod Prefix
mod Tests
use flute.Prelude.{
  ℕ, zero, suc, ◌+◌, ◌-◌, Bool, true, false, not, ◌&&◌, ◌||◌, leb, ◌==◌, if◌then◌else◌, Option,
  none, some, ◌>>=◌, List, [], ◌∷◌, length, get_elem?, take, drop, ℤ, pos, negsuc, ◌-ℤ◌, ltb_ℤ,
  eqb_ℤ, from_int32, to_int32,
}
use Prim.Native.Nat.{compare, Ordering}

pub record StringPiece : Type 0 where
  pub ptr : List ℕ
  pub length_ : ℤ

abbrev pub empty_piece : StringPiece
empty_piece = record { ptr = []; length_ = pos 0 }

-- A length that does not fit is cast to an `int`.
abbrev pub int_of : ℕ → ℤ
int_of n = from_int32 (to_int32 (pos n))

-- `strlen` of a text that ends with a NUL.
abbrev pub strlen : List ℕ → Option ℕ
strlen [] = none
strlen (x ∷ xs) = let rest = strlen xs in if x == 0 then some 0 else (do n ← rest; some (suc n))

unfoldable pub from_chars : List ℕ → Option StringPiece
from_chars str = do n ← strlen str; some (record { ptr = str; length_ = int_of n })

unfoldable pub from_string : List ℕ → StringPiece
from_string str = record { ptr = str; length_ = int_of (length str) }

abbrev pub from_range : List ℕ → ℤ → StringPiece
from_range ptr len = record { ptr = ptr; length_ = len }

abbrev pub is_empty : StringPiece → Bool
is_empty p = eqb_ℤ p.length_ (pos 0)

-- A length below zero is a `size_t` beyond every text.
abbrev pub size_of : ℤ → Option ℕ
size_of (pos n) = some n
size_of (negsuc n) = none

-- The first two bytes that differ decide.
unfoldable pub first_difference : ℕ → List ℕ → List ℕ → Ordering
first_difference (suc n) (x ∷ xs) (y ∷ ys) =
    let rest = first_difference n xs ys in
    elim (compare x y) [
      | Ordering.eq ↦ rest
      | Ordering.lt ↦ Ordering.lt
      | Ordering.gt ↦ Ordering.gt
    ]
first_difference _ _ _ = Ordering.eq

unfoldable pub memcmp : List ℕ → List ℕ → ℤ → Option Ordering
memcmp s t len = do
  n ← size_of len
  if leb n (length s) && leb n (length t) then some (first_difference n s t) else none

-- At the pointer; past the end of the text nothing can be read.
unfoldable pub at : StringPiece → ℕ → Option ℕ
at p i = get_elem? p.ptr i

-- A pointer is not moved beyond the text, nor before it.
unfoldable pub remove_prefix : ℤ → StringPiece → Option StringPiece
remove_prefix n p = do
  k ← size_of n
  if leb k (length p.ptr)
      then some (record { ptr = drop k p.ptr; length_ = p.length_ -ℤ n })
      else none

unfoldable pub remove_suffix : ℤ → StringPiece → StringPiece
remove_suffix n p = record p { length_ = p.length_ -ℤ n }

abbrev pub is_eq : Ordering → Bool
is_eq Ordering.eq = true
is_eq _ = false

abbrev pub is_lt : Ordering → Bool
is_lt Ordering.lt = true
is_lt _ = false

abbrev pub is_gt : Ordering → Bool
is_gt Ordering.gt = true
is_gt _ = false

unfoldable pub equals : StringPiece → StringPiece → Option Bool
equals p x =
    if eqb_ℤ p.length_ x.length_
    then memcmp p.ptr x.ptr p.length_ >>= (λ r. some (is_eq r))
    else some false

unfoldable pub differs : StringPiece → StringPiece → Option Bool
differs p x = do e ← equals p x; some (not e)

abbrev pub shorter : ℤ → ℤ → ℤ
shorter m n = if ltb_ℤ m n then m else n

-- `STRINGPIECE_BINARY_PREDICATE(cmp, auxcmp)`.
unfoldable pub binary_predicate :
    (ℤ → ℤ → Bool) → (Ordering → Bool) → StringPiece → StringPiece → Option Bool
binary_predicate cmp auxcmp p x = do
  r ← memcmp p.ptr x.ptr (shorter p.length_ x.length_)
  some (auxcmp r || (is_eq r && cmp p.length_ x.length_))

abbrev pub less : StringPiece → StringPiece → Option Bool
less p x = binary_predicate ltb_ℤ is_lt p x

abbrev pub less_or_equal : StringPiece → StringPiece → Option Bool
less_or_equal p x = binary_predicate (λ m n. not (ltb_ℤ n m)) is_lt p x

abbrev pub greater_or_equal : StringPiece → StringPiece → Option Bool
greater_or_equal p x = binary_predicate (λ m n. not (ltb_ℤ m n)) is_gt p x

abbrev pub greater : StringPiece → StringPiece → Option Bool
greater p x = binary_predicate (λ m n. ltb_ℤ n m) is_gt p x

abbrev pub by_length : ℤ → ℤ → Ordering
by_length m n = if ltb_ℤ m n then Ordering.lt else if ltb_ℤ n m then Ordering.gt else Ordering.eq

unfoldable pub compare_to : StringPiece → StringPiece → Option Ordering
compare_to p x = do
  r ← memcmp p.ptr x.ptr (shorter p.length_ x.length_)
  some (if is_eq r then by_length p.length_ x.length_ else r)

unfoldable pub as_string : StringPiece → Option (List ℕ)
as_string p = do n ← size_of p.length_; if leb n (length p.ptr) then some (take n p.ptr) else none

unfoldable pub starts_with : StringPiece → StringPiece → Option Bool
starts_with p x =
    if ltb_ℤ p.length_ x.length_
    then some false
    else memcmp p.ptr x.ptr x.length_ >>= (λ r. some (is_eq r))
