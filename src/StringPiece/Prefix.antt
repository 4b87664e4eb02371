-- ===== src/StringPiece/Prefix.antt =====
-- The beginnings and ends of a text in flute/common/StringPiece.h.
use flute.Prelude.{
  ℕ, ◌+◌, ◌≤◌, ◌≡◌, refl, inl, inr, true, false, le→leb, Bool-cases, some, ◌>>=◌, List, [], ◌∷◌,
  ◌++◌, append_assoc, length, length-append, take-append, drop-append, pos, ◌-ℤ◌, ltb_ℤ, arith,
  int_laws,
}
use flute.StringPiece.{
  first_difference, is_eq, remove_prefix, remove_suffix, as_string, starts_with,
}
use flute.StringPiece.Order.{piece, memcmp-pieces}

as_string-piece : (s u : List ℕ) → as_string (piece s u) ≡ some s
unfolding as_string
as_string-piece s u =
    rw
      (
        le→leb (length s) (length (s ++ u)) (omega (arith, length-append s u)),
        take-append (length s) s u refl,
      )
      refl

longer : (m n : ℕ) → pos (m + n) -ℤ pos m ≡ pos n
longer m n = omega int_laws

shorter_by : (m n : ℕ) → pos (m + n) -ℤ pos n ≡ pos m
shorter_by m n = omega int_laws

remove_prefix-piece :
    (t w u : List ℕ) → remove_prefix (pos (length t)) (piece (t ++ w) u) ≡ some (piece w u)
unfolding remove_prefix
remove_prefix-piece t w u =
    rw
      (
        append_assoc t w u,
        le→leb (length t) (length (t ++ (w ++ u))) (omega (arith, length-append t (w ++ u))),
        drop-append (length t) t (w ++ u) refl,
        length-append t w,
        longer (length t) (length w),
      )
      refl

remove_suffix-piece :
    (t w u : List ℕ) → remove_suffix (pos (length w)) (piece (t ++ w) u) ≡ piece t (w ++ u)
unfolding remove_suffix
remove_suffix-piece t w u =
    rw (append_assoc t w u, length-append t w, shorter_by (length t) (length w)) refl

-- Where the bytes do not differ, the second text begins the first.
equal_bytes-prefix :
    (s t u v : List ℕ)
    → length t ≤ length s
    → is_eq (first_difference (length t) (s ++ u) (t ++ v)) ≡ true
    → (w : List ℕ) × (s ≡ t ++ w)
unfolding first_difference
equal_bytes-prefix s [] u v h e = (s, refl)
equal_bytes-prefix [] (y ∷ ys) u v h e = absurd (omega (arith, h))
equal_bytes-prefix (x ∷ xs) (y ∷ ys) u v h e =
    let first : x ≡ y = ground (arith, e) in
    let others : is_eq (first_difference (length ys) (xs ++ u) (ys ++ v)) ≡ true =
      ground (arith, e) in
    let (w, same) = equal_bytes-prefix xs ys u v (omega (arith, h)) others in
    (w, rw (first, same) refl)

prefix-equal_bytes : (t w v : List ℕ) → is_eq (first_difference (length t) (t ++ w) (t ++ v)) ≡ true
unfolding first_difference
prefix-equal_bytes [] w v = refl
prefix-equal_bytes (x ∷ xs) w v = ground (arith, prefix-equal_bytes xs w v)

not_longer : (m n : ℕ) → m ≤ n → ltb_ℤ (pos n) (pos m) ≡ false
not_longer m n h = ground (arith, h)

is_longer : (m n : ℕ) → ltb_ℤ (pos n) (pos m) ≡ false → m ≤ n
is_longer m n h = ground (arith, h)

starts_with-append : (t w u v : List ℕ) → starts_with (piece (t ++ w) u) (piece t v) ≡ some true
unfolding starts_with
starts_with-append t w u v =
    let fits : length t ≤ length (t ++ w) = omega (arith, length-append t w) in
    rw
      (
        not_longer (length t) (length (t ++ w)) fits,
        memcmp-pieces (t ++ w) t u v (length t) fits (omega arith),
        append_assoc t w u,
        prefix-equal_bytes t (w ++ u) v,
      )
      refl

starts_with-found :
    (s t u v : List ℕ)
    → starts_with (piece s u) (piece t v) ≡ some true
    → (w : List ℕ) × (s ≡ t ++ w)
unfolding starts_with
starts_with-found s t u v h = elim (Bool-cases (ltb_ℤ (pos (length s)) (pos (length t)))) [
  | inl e ↦ absurd (ground (arith, e, h))
  | inr e ↦
      let fits = is_longer (length t) (length s) e in
      equal_bytes-prefix s t u v fits
        (ground (arith, e, h, memcmp-pieces s t u v (length t) fits (omega arith)))
]

-- A piece of a text starts with that of another just where the text is the other and some rest; then
-- the piece with the prefix removed is that of the rest, and the one with the rest removed as a suffix
-- is that of the other, whatever is in memory behind them.
pub starts_with-prefix :
    (s t u v : List ℕ)
    → (starts_with (piece s u) (piece t v) ≡ some true
        → (w : List ℕ) × (s ≡ t ++ w)
          × ((remove_prefix (pos (length t)) (piece s u) >>= as_string) ≡ some w)
          × (as_string (remove_suffix (pos (length w)) (piece s u)) ≡ some t))
      × ((w : List ℕ) → s ≡ t ++ w → starts_with (piece s u) (piece t v) ≡ some true)
starts_with-prefix s t u v = (
  λ h.
      let (w, e) = starts_with-found s t u v h in
      (
        w,
        e,
        rw (e, remove_prefix-piece t w u) (as_string-piece w u),
        rw (e, remove_suffix-piece t w u) (as_string-piece t (w ++ u)),
      ),
  λ w e. rw e (starts_with-append t w u v),
)
