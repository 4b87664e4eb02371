-- ===== src/TimerQueue/Split.antt =====
-- The set of flute/net/TimerQueue.h split at a bound.
use flute.Prelude.{
  ℕ, ◌≡◌, refl, sym, ap, ◌∙◌, inl, inr, Bool, true, false, not, ◌&&◌, ◌||◌, List, [], ◌∷◌, ◌++◌,
  All, arith, ◌==◌, Bool-cases,
}
use flute.TimerQueue.Sets.{
  Entry, less, same, contains, before_bound, from_bound, IsBefore, IsSorted, before-not_in,
}

pub before-from_bound : (x : Entry) (s : List Entry) → before_bound x s ++ from_bound x s ≡ s
before-from_bound x [] = refl
before-from_bound x (z ∷ s) = elim (Bool-cases (less z x)) [
  | inl e ↦ rw e (ap (◌∷◌ z) (before-from_bound x s))
  | inr e ↦ rw e refl
]

-- Behind an element that is not before the bound, none is.
behind-not_before :
    (y x z : Entry) (s : List Entry)
    → less z x ≡ false
    → All (IsBefore z) s
    → contains y s ≡ true
    → less y x ≡ false
behind-not_before y x z [] e a c = absurd (ground (arith, c))
behind-not_before y x z (w ∷ s) e (h, a) c = elim (Bool-cases (same y w)) [
  | inl f ↦ ground (arith, e, h, f)
  | inr f ↦ behind-not_before y x z s e a (ground (arith, c, f))
]

-- The head of the rest, and all behind it, is not before the bound.
rest-not_before :
    (y x z : Entry) (s : List Entry)
    → less z x ≡ false
    → All (IsBefore z) s
    → (contains y (z ∷ s) && less y x) ≡ false
rest-not_before y x z s e a = elim (Bool-cases (same y z)) [
  | inl f ↦ ground (arith, e, f)
  | inr f ↦ elim (Bool-cases (contains y s)) [
    | inl c ↦ ground (arith, behind-not_before y x z s e a c)
    | inr c ↦ ground (arith, f, c)
  ]
]

pub contains-before_bound :
    (y x : Entry) (s : List Entry)
    → IsSorted s
    → contains y (before_bound x s) ≡ (contains y s && less y x)
contains-before_bound y x [] h = refl
contains-before_bound y x (z ∷ s) (a, h) = elim (Bool-cases (less z x)) [
  | inl e ↦ ground (arith, e, contains-before_bound y x s h)
  | inr e ↦ rw e (sym (rest-not_before y x z s e a))
]

pub contains-from_bound :
    (y x : Entry) (s : List Entry)
    → IsSorted s
    → contains y (from_bound x s) ≡ (contains y s && not (less y x))
contains-from_bound y x [] h = refl
contains-from_bound y x (z ∷ s) (a, h) = elim (Bool-cases (less z x)) [
  | inl e ↦ ground (arith, e, contains-from_bound y x s h)
  | inr e ↦ ground (arith, e, rest-not_before y x z s e a)
]

All-before_bound :
    (w x : Entry) (s : List Entry) → All (IsBefore w) s → All (IsBefore w) (before_bound x s)
All-before_bound w x [] a = tt
All-before_bound w x (z ∷ s) (h, a) = elim (Bool-cases (less z x)) [
  | inl e ↦ rw e (h, All-before_bound w x s a)
  | inr e ↦ rw e tt
]

pub before_bound-IsSorted : (x : Entry) (s : List Entry) → IsSorted s → IsSorted (before_bound x s)
before_bound-IsSorted x [] h = tt
before_bound-IsSorted x (z ∷ s) (a, h) = elim (Bool-cases (less z x)) [
  | inl e ↦ rw e (All-before_bound z x s a, before_bound-IsSorted x s h)
  | inr e ↦ rw e tt
]

pub from_bound-IsSorted : (x : Entry) (s : List Entry) → IsSorted s → IsSorted (from_bound x s)
from_bound-IsSorted x [] h = tt
from_bound-IsSorted x (z ∷ s) (a, h) = elim (Bool-cases (less z x)) [
  | inl e ↦ rw e (from_bound-IsSorted x s h)
  | inr e ↦ rw e (a, h)
]

-- Some element of the list has this pointer.
abbrev pub has_ptr : ℕ → List Entry → Bool
has_ptr p [] = false
has_ptr p (z ∷ s) = (p == z.second) || has_ptr p s

-- Where each pointer has one time, the pointer shows whether the pair is in the list.
pub has_ptr-contains :
    (p t : ℕ) (s : List Entry)
    → ((u : ℕ) → contains (record { first = u; second = p }) s ≡ true → u ≡ t)
    → has_ptr p s ≡ contains (record { first = t; second = p }) s
has_ptr-contains p t [] h = refl
has_ptr-contains p t (z ∷ s) h =
    ground (arith, h z.first, has_ptr-contains p t s (λ u c. h u (ground (arith, c))))

abbrev pub IsDistinct : List Entry → Type 0
IsDistinct [] = Unit {0}
IsDistinct (z ∷ s) = (has_ptr z.second s ≡ false) × IsDistinct s

-- In order, and with one time for each pointer, no pointer comes twice.
pub IsSorted-IsDistinct :
    (time : ℕ → ℕ) (s : List Entry)
    → IsSorted s
    → ((t p : ℕ) → contains (record { first = t; second = p }) s ≡ true → t ≡ time p)
    → IsDistinct s
IsSorted-IsDistinct time [] h f = tt
IsSorted-IsDistinct time (z ∷ s) (a, h) f =
    let here : z.first ≡ time z.second = f z.first z.second (ground arith) in
    let there : (t p : ℕ) → contains (record { first = t; second = p }) s ≡ true → t ≡ time p =
      λ t p c. f t p (ground (arith, c)) in
    (
      has_ptr-contains z.second z.first s (λ u c. there u z.second c ∙ sym here)
          ∙ before-not_in z s a,
      IsSorted-IsDistinct time s h there,
    )
