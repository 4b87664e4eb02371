-- ===== src/HttpResponse/Decimal.antt =====
-- The numbers that flute/net/http/HttpResponse.cc prints can be read back.
use flute.Prelude.{
  ℕ, zero, suc, ◌+◌, ◌*◌, ◌-◌, ◌/◌, ◌%◌, ◌^◌, ◌<◌, ◌≡◌, refl, ap, ◌∙◌, inl, inr, Bool-cases, List,
  [], ◌∷◌, ◌++◌, arith, ltb,
}
use native.Mathlib.Numerals.{unary_clauses}
use flute.HttpResponse.{digits, decimal}

-- The number that digits stand for, behind `acc`.
abbrev pub value_from : ℕ → List ℕ → ℕ
value_from acc [] = acc
value_from acc (c ∷ cs) = value_from (acc * 10 + (c - 48)) cs

value_from-append :
    (acc : ℕ) (xs ys : List ℕ) → value_from acc (xs ++ ys) ≡ value_from (value_from acc xs) ys
value_from-append acc [] ys = refl
value_from-append acc (x ∷ xs) ys = value_from-append (acc * 10 + (x - 48)) xs ys

tenth : (n p : ℕ) → n < p * 10 → n / 10 < p
tenth n p h = omega (arith, h)

value_from-digits : (k n : ℕ) → n < 10 ^ k → value_from 0 (digits k n) ≡ n
value_from-digits zero n h = ground (arith, h)
value_from-digits (suc k) n h = elim (Bool-cases (ltb n 10)) [
  | inl e ↦ rw e (omega arith)
  | inr e ↦
      let ih : value_from 0 (digits k (n / 10)) ≡ n / 10 =
        value_from-digits k (n / 10) (tenth n (10 ^ k) (simp unary_clauses at h)) in
      rw e (
        value_from-append 0 (digits k (n / 10)) _
        ∙ ap (λ v. v * 10 + (48 + n % 10 - 48)) ih
        ∙ omega arith)
]

-- A printed number below ten to the twentieth, as every `size_t` is, reads back as itself.
pub value_from-decimal : (n : ℕ) → n < 10 ^ 20 → value_from 0 (decimal n) ≡ n
unfolding decimal
value_from-decimal n h = value_from-digits 20 n h
