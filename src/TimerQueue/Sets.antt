-- ===== src/TimerQueue/Sets.antt =====
-- The sets of flute/net/TimerQueue.h: a `std::set` of pairs is the list of its elements in order.
use flute.Prelude.{
  ℕ, suc, ◌≡◌, refl, inl, inr, Bool, true, false, not, ◌&&◌, ◌||◌, List, [], ◌∷◌, length, All,
  arith, ltb, ◌==◌, if◌then◌else◌, Bool-cases,
}

-- `Entry` is (expiration, pointer) and `ActiveTimer` is (pointer, global id); both are ordered as pairs.
pub record Entry : Type 0 where
  pub first : ℕ
  pub second : ℕ

abbrev pub less : Entry → Entry → Bool
less x y = ltb x.first y.first || ((x.first == y.first) && ltb x.second y.second)

abbrev pub same : Entry → Entry → Bool
same x y = (x.first == y.first) && (x.second == y.second)

abbrev pub contains : Entry → List Entry → Bool
contains x [] = false
contains x (y ∷ s) = same x y || contains x s

abbrev pub set_insert : Entry → List Entry → List Entry
set_insert x [] = x ∷ []
set_insert x (y ∷ s) =
    let rest = set_insert x s in
    if less x y then x ∷ (y ∷ s) else if less y x then y ∷ rest else y ∷ s

abbrev pub erase : Entry → List Entry → List Entry
erase x [] = []
erase x (y ∷ s) = let rest = erase x s in if same x y then rest else y ∷ rest

-- The elements before `lower_bound(x)`, and those from it on.
abbrev pub before_bound : Entry → List Entry → List Entry
before_bound x [] = []
before_bound x (y ∷ s) = let rest = before_bound x s in if less y x then y ∷ rest else []

abbrev pub from_bound : Entry → List Entry → List Entry
from_bound x [] = []
from_bound x (y ∷ s) = let rest = from_bound x s in if less y x then rest else y ∷ s

abbrev pub IsBefore : Entry → Entry → Type 0
IsBefore x y = less x y ≡ true

-- The order of a set.
abbrev pub IsSorted : List Entry → Type 0
IsSorted [] = Unit {0}
IsSorted (x ∷ s) = All (IsBefore x) s × IsSorted s

less_trans : (x y z : Entry) → IsBefore x y → IsBefore y z → IsBefore x z
less_trans x y z h k = ground (arith, h, k)

All-IsBefore_trans :
    (x y : Entry) (s : List Entry) → IsBefore x y → All (IsBefore y) s → All (IsBefore x) s
All-IsBefore_trans x y [] h a = tt
All-IsBefore_trans x y (z ∷ s) h (k, a) = (less_trans x y z h k, All-IsBefore_trans x y s h a)

pub contains-set_insert :
    (y x : Entry) (s : List Entry) → contains y (set_insert x s) ≡ (same y x || contains y s)
contains-set_insert y x [] = refl
contains-set_insert y x (z ∷ s) = ground (arith, contains-set_insert y x s)

All-set_insert :
    (w x : Entry) (s : List Entry)
    → IsBefore w x
    → All (IsBefore w) s
    → All (IsBefore w) (set_insert x s)
All-set_insert w x [] h a = (h, tt)
All-set_insert w x (z ∷ s) h (k, a) = elim (Bool-cases (less x z)) [
  | inl e ↦ rw e (h, (k, a))
  | inr e ↦ elim (Bool-cases (less z x)) [
    | inl f ↦ rw (e, f) (k, All-set_insert w x s h a)
    | inr f ↦ rw (e, f) (k, a)
  ]
]

pub set_insert-IsSorted : (x : Entry) (s : List Entry) → IsSorted s → IsSorted (set_insert x s)
set_insert-IsSorted x [] h = (tt, tt)
set_insert-IsSorted x (z ∷ s) (a, h) = elim (Bool-cases (less x z)) [
  | inl e ↦ rw e ((e, All-IsBefore_trans x z s e a), (a, h))
  | inr e ↦ elim (Bool-cases (less z x)) [
    | inl f ↦ rw (e, f) (All-set_insert z x s f a, set_insert-IsSorted x s h)
    | inr f ↦ rw (e, f) (a, h)
  ]
]

pub length-set_insert :
    (x : Entry) (s : List Entry) → contains x s ≡ false → length (set_insert x s) ≡ suc (length s)
length-set_insert x [] h = refl
length-set_insert x (z ∷ s) h = ground (arith, h, length-set_insert x s)

-- What stands before all of a set is not in it.
pub before-not_in : (x : Entry) (s : List Entry) → All (IsBefore x) s → contains x s ≡ false
before-not_in x [] a = refl
before-not_in x (z ∷ s) (h, a) = ground (arith, h, before-not_in x s a)

pub contains-erase :
    (y x : Entry) (s : List Entry) → contains y (erase x s) ≡ (contains y s && not (same y x))
contains-erase y x [] = refl
contains-erase y x (z ∷ s) = ground (arith, contains-erase y x s)

All-erase : (w x : Entry) (s : List Entry) → All (IsBefore w) s → All (IsBefore w) (erase x s)
All-erase w x [] a = tt
All-erase w x (z ∷ s) (h, a) = elim (Bool-cases (same x z)) [
  | inl e ↦ rw e (All-erase w x s a)
  | inr e ↦ rw e (h, All-erase w x s a)
]

pub erase-IsSorted : (x : Entry) (s : List Entry) → IsSorted s → IsSorted (erase x s)
erase-IsSorted x [] h = tt
erase-IsSorted x (z ∷ s) (a, h) = elim (Bool-cases (same x z)) [
  | inl e ↦ rw e (erase-IsSorted x s h)
  | inr e ↦ rw e (All-erase z x s a, erase-IsSorted x s h)
]

erase-not_in : (x : Entry) (s : List Entry) → contains x s ≡ false → length (erase x s) ≡ length s
erase-not_in x [] h = refl
erase-not_in x (z ∷ s) h = ground (arith, h, erase-not_in x s)

pub length-erase :
    (x : Entry) (s : List Entry)
    → IsSorted s
    → contains x s ≡ true
    → suc (length (erase x s)) ≡ length s
length-erase x [] h c = absurd (ground (arith, c))
length-erase x (z ∷ s) (a, h) c = elim (Bool-cases (same x z)) [
  | inl e ↦ ground (arith, e, erase-not_in x s (same_not_in e))
  | inr e ↦ ground (arith, e, c, length-erase x s h)
]
  where
    same_not_in : same x z ≡ true → contains x s ≡ false
    same_not_in e = before-not_in x s (All_before-same e s a)
      where
        All_before-same :
            same x z ≡ true → (s : List Entry) → All (IsBefore z) s → All (IsBefore x) s
        All_before-same e [] a = tt
        All_before-same e (y ∷ s) (k, a) = (ground (arith, e, k), All_before-same e s a)
