-- ===== src/StringPiece/Order.antt =====
-- The comparisons of flute/common/StringPiece.h, against the lexicographic order of texts.
use Prim.Native.Nat.{compare, Ordering, min}
use flute.Prelude.{
  ℕ, zero, suc, ◌≤◌, ◌≡◌, refl, ap, ◌∙◌, sym, inl, inr, Bool, true, false, not, ◌&&◌, ◌||◌, le→leb,
  if◌then◌else◌, some, Bool-cases, List, [], ◌∷◌, ◌++◌, length, length-append, ℤ, pos, ltb_ℤ, eqb_ℤ,
  arith,
}
use flute.StringPiece.{
  StringPiece, first_difference, memcmp, is_eq, is_lt, is_gt, equals, binary_predicate, less,
  less_or_equal, greater_or_equal, greater, shorter, by_length, compare_to,
}

-- The piece of a text, with what follows it in memory.
abbrev pub piece : List ℕ → List ℕ → StringPiece
piece s u = record { ptr = s ++ u; length_ = pos (length s) }

-- The first bytes that differ decide, and a text is after its beginnings.
pub lex : List ℕ → List ℕ → Ordering
lex [] [] = Ordering.eq
lex [] (y ∷ ys) = Ordering.lt
lex (x ∷ xs) [] = Ordering.gt
lex (x ∷ xs) (y ∷ ys) =
    let rest = lex xs ys in
    elim (compare x y) [
      | Ordering.eq ↦ rest
      | Ordering.lt ↦ Ordering.lt
      | Ordering.gt ↦ Ordering.gt
    ]

-- The sign of `memcmp`, and the lengths where it tells nothing.
abbrev decided : Ordering → ℤ → ℤ → Ordering
decided r m n = if is_eq r then by_length m n else r

by_length-suc : (m n : ℕ) → by_length (pos (suc m)) (pos (suc n)) ≡ by_length (pos m) (pos n)
by_length-suc m n = ground arith

-- The first bytes decide, or leave it to the others.
decided-first :
    (o r l : Ordering) (m n : ℕ)
    → decided r (pos m) (pos n) ≡ l
    → decided
        (elim o [ Ordering.eq ↦ r | Ordering.lt ↦ Ordering.lt | Ordering.gt ↦ Ordering.gt ])
        (pos (suc m))
        (pos (suc n))
      ≡ (elim o [ Ordering.eq ↦ l | Ordering.lt ↦ Ordering.lt | Ordering.gt ↦ Ordering.gt ])
decided-first Ordering.lt r l m n h = refl
decided-first Ordering.eq r l m n h = ap (λ o. if is_eq r then o else r) (by_length-suc m n) ∙ h
decided-first Ordering.gt r l m n h = refl

decided-lex :
    (n : ℕ) (s t u v : List ℕ)
    → n ≡ min (length s) (length t)
    → decided (first_difference n (s ++ u) (t ++ v)) (pos (length s)) (pos (length t)) ≡ lex s t
unfolding first_difference lex
decided-lex zero [] [] u v h = refl
decided-lex zero [] (y ∷ ys) u v h = ground arith
decided-lex zero (x ∷ xs) [] u v h = ground arith
decided-lex (suc n) [] t u v h = absurd (omega (arith, h))
decided-lex (suc n) (x ∷ xs) [] u v h = absurd (omega (arith, h))
decided-lex zero (x ∷ xs) (y ∷ ys) u v h = absurd (omega (arith, h))
decided-lex (suc n) (x ∷ xs) (y ∷ ys) u v h =
    decided-first (compare x y) (first_difference n (xs ++ u) (ys ++ v)) (lex xs ys) (length xs)
      (length ys) (decided-lex n xs ys u v (omega (arith, h)))

pub memcmp-pieces :
    (s t u v : List ℕ) (n : ℕ)
    → n ≤ length s
    → n ≤ length t
    → memcmp (s ++ u) (t ++ v) (pos n) ≡ some (first_difference n (s ++ u) (t ++ v))
unfolding memcmp
memcmp-pieces s t u v n h k =
    rw
      (
        le→leb n (length (s ++ u)) (omega (arith, h, length-append s u)),
        le→leb n (length (t ++ v)) (omega (arith, k, length-append t v)),
      )
      refl

shorter-min : (m n : ℕ) → shorter (pos m) (pos n) ≡ pos (min m n)
shorter-min m n = ground arith

-- What the operators make of the sign and the lengths.
less-decided :
    (r : Ordering) (m n : ℤ) → (is_lt r || (is_eq r && ltb_ℤ m n)) ≡ is_lt (decided r m n)
less-decided r m n = ground arith

less_or_equal-decided :
    (r : Ordering) (m n : ℤ)
    → (is_lt r || (is_eq r && not (ltb_ℤ n m))) ≡ not (is_gt (decided r m n))
less_or_equal-decided r m n = ground arith

greater_or_equal-decided :
    (r : Ordering) (m n : ℤ)
    → (is_gt r || (is_eq r && not (ltb_ℤ m n))) ≡ not (is_lt (decided r m n))
greater_or_equal-decided r m n = ground arith

greater-decided :
    (r : Ordering) (m n : ℤ) → (is_gt r || (is_eq r && ltb_ℤ n m)) ≡ is_gt (decided r m n)
greater-decided r m n = ground arith

equals-decided : (r : Ordering) (m n : ℤ) → (is_eq r && eqb_ℤ m n) ≡ is_eq (decided r m n)
equals-decided r m n = ground arith

abbrev sign : List ℕ → List ℕ → List ℕ → List ℕ → Ordering
sign s t u v = first_difference (min (length s) (length t)) (s ++ u) (t ++ v)

memcmp-shorter :
    (s t u v : List ℕ)
    → memcmp (s ++ u) (t ++ v) (shorter (pos (length s)) (pos (length t))) ≡ some (sign s t u v)
memcmp-shorter s t u v =
    rw (shorter-min (length s) (length t))
      (memcmp-pieces s t u v (min (length s) (length t)) (omega arith) (omega arith))

binary_predicate-lex :
    (cmp : ℤ → ℤ → Bool) (auxcmp test : Ordering → Bool) (s t u v : List ℕ)
    → ((r : Ordering) (m n : ℤ) → (auxcmp r || (is_eq r && cmp m n)) ≡ test (decided r m n))
    → binary_predicate cmp auxcmp (piece s u) (piece t v) ≡ some (test (lex s t))
unfolding binary_predicate
binary_predicate-lex cmp auxcmp test s t u v h = rw (memcmp-shorter s t u v) (
    ap some (
      h (sign s t u v) (pos (length s)) (pos (length t))
      ∙ ap test (decided-lex (min (length s) (length t)) s t u v refl)))

compare_to-lex : (s t u v : List ℕ) → compare_to (piece s u) (piece t v) ≡ some (lex s t)
unfolding compare_to
compare_to-lex s t u v =
    rw (memcmp-shorter s t u v) (ap some (decided-lex (min (length s) (length t)) s t u v refl))

is_eq-lex :
    (s t u v : List ℕ)
    → is_eq (lex s t) ≡ (is_eq (sign s t u v) && eqb_ℤ (pos (length s)) (pos (length t)))
is_eq-lex s t u v =
    ap is_eq (sym (decided-lex (min (length s) (length t)) s t u v refl))
    ∙ sym (equals-decided (sign s t u v) (pos (length s)) (pos (length t)))

and_true : (b : Bool) → b ≡ (b && true)
and_true true = refl
and_true false = refl

and_false : (b : Bool) → false ≡ (b && false)
and_false true = refl
and_false false = refl

equals-lex : (s t u v : List ℕ) → equals (piece s u) (piece t v) ≡ some (is_eq (lex s t))
unfolding equals
equals-lex s t u v =
    rw (is_eq-lex s t u v) (elim (Bool-cases (eqb_ℤ (pos (length s)) (pos (length t)))) [
      | inl e ↦
          let same : length s ≡ min (length s) (length t) = ground (arith, e) in
          rw (e, memcmp-pieces s t u v (length s) (omega arith) (ground (arith, e)))
            (ap (λ n. some (is_eq (first_difference n (s ++ u) (t ++ v)))) same
              ∙ ap some (and_true (is_eq (sign s t u v))))
      | inr e ↦ rw e (ap some (and_false (is_eq (sign s t u v))))
    ])

-- The comparisons of two pieces, in whatever memory they are, read none of it but the texts, and are
-- those of the texts in the lexicographic order of their bytes.
pub comparisons-lex :
    (s t u v : List ℕ)
    → (compare_to (piece s u) (piece t v) ≡ some (lex s t))
      × (equals (piece s u) (piece t v) ≡ some (is_eq (lex s t)))
      × (less (piece s u) (piece t v) ≡ some (is_lt (lex s t)))
      × (less_or_equal (piece s u) (piece t v) ≡ some (not (is_gt (lex s t))))
      × (greater_or_equal (piece s u) (piece t v) ≡ some (not (is_lt (lex s t))))
      × (greater (piece s u) (piece t v) ≡ some (is_gt (lex s t)))
comparisons-lex s t u v = (
  compare_to-lex s t u v,
  equals-lex s t u v,
  binary_predicate-lex _ is_lt is_lt s t u v less-decided,
  binary_predicate-lex _ is_lt (λ o. not (is_gt o)) s t u v less_or_equal-decided,
  binary_predicate-lex _ is_gt (λ o. not (is_lt o)) s t u v greater_or_equal-decided,
  binary_predicate-lex _ is_gt is_gt s t u v greater-decided,
)
