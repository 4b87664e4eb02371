-- ===== src/Http/Refused.antt =====
-- A request line that flute/net/http/HttpContext.cc refuses.
use flute.Prelude.{
  ℕ, zero, suc, ◌≡◌, ◌≢◌, refl, sym, ap, ◌∙◌, Bool, true, false, Option, none, some, List, [], ◌∷◌,
  ◌++◌, ◌==◌, ◌&&◌, length, take, get_or, Bool-cases, inl, inr, arith,
}
use mathlib.Core.Option.{some-injective}
use flute.Buffer.{Buffer}
use flute.Buffer.Inv.{Holds}
use flute.Buffer.Search.{crlf, IsLine}
use flute.Http.{
  Method, k_invalid, HttpRequest, HttpContext, new, is_invalid, method_string, split_at, cons_left,
  str_eq, http1, process_version, process_target, process_request_line, set_method,
  take_request_line, turn, returned, aborted, loop, parse_request, new_context, set_target,
  k_expect_request_line,
}
use flute.Http.RequestLine.{
  split_at-append, version_string, read_method-method_string, method_string-IsFree,
}
use flute.Http.Lines.{find_crlf-line, range-line}

-- What follows the method is not "target HTTP/1.0" or "target HTTP/1.1".
abbrev pub IsBad : List ℕ → Type 0
IsBad rest = (target : List ℕ) (minor : Bool) → rest ≢ target ++ 32 ∷ version_string minor

str_eq-eq : (xs ys : List ℕ) → str_eq xs ys ≡ true → xs ≡ ys
str_eq-eq [] [] e = refl
str_eq-eq (x ∷ xs) [] e = absurd (ground (arith, e))
str_eq-eq [] (y ∷ ys) e = absurd (ground (arith, e))
str_eq-eq (x ∷ xs) (y ∷ ys) e =
    let same : x ≡ y = ground (arith, e) in
    let rest : xs ≡ ys = str_eq-eq xs ys (ground (arith, e)) in rw (same, rest) refl

cons_left-some :
    (x : ℕ) (o : Option (List ℕ × List ℕ)) (a b : List ℕ)
    → cons_left x o ≡ some (a, b)
    → (a' : List ℕ) × (o ≡ some (a', b)) × (a ≡ x ∷ a')
cons_left-some x none a b e = absurd (ground (arith, e))
cons_left-some x (some (a', b')) a b e =
    let h = some-injective (x ∷ a', b') (a, b) e in
    (
      a',
      ap (λ y. some (a', y)) (ap (λ (p : List ℕ × List ℕ). p.1) h),
      sym (ap (λ (p : List ℕ × List ℕ). p.0) h),
    )

split_at-eq : (c : ℕ) (s a b : List ℕ) → split_at c s ≡ some (a, b) → s ≡ a ++ c ∷ b
split_at-eq c [] a b e = absurd (ground (arith, e))
split_at-eq c (x ∷ s) a b e = elim (Bool-cases (x == c)) [
  | inl f ↦
      let h = some-injective ([], s) (a, b) (rw f at e) in
      let same : x ≡ c = ground (arith, f) in
      rw (same, ← ap (λ (p : List ℕ × List ℕ). p.0) h, ← ap (λ (p : List ℕ × List ℕ). p.1) h) refl
  | inr f ↦
      let (a', g, h) = cons_left-some x (split_at c s) a b (rw f at e) in
      rw h (ap (◌∷◌ x) (split_at-eq c s a' b g))
]

-- A list by its last element.
last-split : (xs : List ℕ) (n : ℕ) → length xs ≡ suc n → xs ≡ take n xs ++ (get_or xs n 0 ∷ [])
last-split [] n e = absurd (omega (arith, e))
last-split (x ∷ []) zero e = refl
last-split (x ∷ y ∷ xs) zero e = absurd (omega (arith, e))
last-split (x ∷ xs) (suc n) e = ap (◌∷◌ x) (last-split xs n (omega (arith, e)))

version-eq :
    (v : List ℕ) (r : HttpRequest)
    → (process_version v r).0 ≡ true
    → (minor : Bool) × (v ≡ version_string minor)
unfolding process_version
version-eq v r e = elim (Bool-cases ((length v == 8) && str_eq (take 7 v) http1)) [
  | inr f ↦ absurd (ground (arith, e, f))
  | inl f ↦
      let long : length v ≡ 8 = ground (arith, f) in
      let start : take 7 v ≡ http1 = str_eq-eq (take 7 v) http1 (ground (arith, f)) in
      let split : v ≡ http1 ++ (get_or v 7 0 ∷ []) =
        last-split v 7 long ∙ ap (λ x. x ++ (get_or v 7 0 ∷ [])) start in
      elim (Bool-cases (get_or v 7 0 == 49)) [
        | inl g ↦ (true, split ∙ ap (λ x. http1 ++ (x ∷ [])) (ground (arith, g)))
        | inr g ↦ elim (Bool-cases (get_or v 7 0 == 48)) [
          | inl k ↦ (false, split ∙ ap (λ x. http1 ++ (x ∷ [])) (ground (arith, k)))
          | inr k ↦ absurd (ground (arith, e, f, g, k))
        ]
      ]
]

-- What is left of a request whose line is refused behind its method.
refused_target :
    (line : List ℕ) (r : HttpRequest)
    → IsBad line
    → ((process_target line r).0 ≡ false) × (((process_target line r).1).method ≡ r.method)
unfolding process_target process_version set_target
refused_target line r bad = (refused, ground arith)
  where
    accepted :
        (o : Option (List ℕ × List ℕ))
        → split_at 32 line ≡ o
        → (process_target line r).0 ≡ true
        → (target : List ℕ) × (minor : Bool) × (line ≡ target ++ 32 ∷ version_string minor)
    accepted none e g = absurd (ground (arith, e, g))
    accepted (some (target, v)) e g =
        let (minor, k) = version-eq v (set_target target r) (rw (process_target, e) at g) in
        (target, minor, split_at-eq 32 line target v e ∙ ap (λ x. target ++ 32 ∷ x) k)

    refused : (process_target line r).0 ≡ false
    refused = elim (Bool-cases ((process_target line r).0)) [
      | inl e ↦
          let (target, minor, same) = accepted (split_at 32 line) refl e in
          absurd (bad target minor same)
      | inr e ↦ e
    ]

-- A call for which the line is refused, or fails the assertion.
line_returns :
    {b : Buffer} (text rest : List ℕ) (turns time : ℕ) (r r' : HttpRequest)
    → IsLine text
    → Holds b (text ++ (crlf ++ rest))
    → process_request_line text r ≡ some (false, r')
    → loop (suc turns) time false (record { state = k_expect_request_line; request = r }) b
      ≡ returned false (record { state = k_expect_request_line; request = r' }) b
unfolding loop turn take_request_line
line_returns {b} text rest turns time r r' line h e =
    rw (loop, turn, find_crlf-line text rest line h, take_request_line, range-line text rest h, e)
      refl

line_aborts :
    {b : Buffer} (text rest : List ℕ) (turns time : ℕ) (r : HttpRequest)
    → IsLine text
    → Holds b (text ++ (crlf ++ rest))
    → process_request_line text r ≡ none
    → loop (suc turns) time false (record { state = k_expect_request_line; request = r }) b
      ≡ aborted
unfolding loop turn take_request_line
line_aborts {b} text rest turns time r line h e =
    rw (loop, turn, find_crlf-line text rest line h, take_request_line, range-line text rest h, e)
      refl

refused_line :
    (m : Method) (line : List ℕ)
    → m ≢ k_invalid
    → (process_target line (record new { method = m })).0 ≡ false
    → process_request_line (method_string m ++ 32 ∷ line) new
      ≡ some (false, (process_target line (record new { method = m })).1)
unfolding process_request_line set_method
refused_line m line known refuses =
    let is_known : is_invalid m ≡ false = ground (arith, known) in
    simp
      (
        process_request_line,
        set_method,
        split_at-append 32 (method_string m) line (method_string-IsFree m),
        read_method-method_string m,
        is_known,
      )
      (ap (λ x. some (x, (process_target line (record new { method = m })).1)) refuses)

method_set :
    (m : Method) (line : List ℕ) (r : HttpRequest)
    → m ≢ k_invalid
    → r.method ≡ m
    → process_request_line (method_string m ++ 32 ∷ line) r ≡ none
unfolding process_request_line set_method
method_set m line r known e =
    let is_known : is_invalid m ≡ false = ground (arith, known) in
    rw
      (
        process_request_line,
        split_at-append 32 (method_string m) line (method_string-IsFree m),
        set_method,
        e,
        is_known,
      )
      refl

-- A new context gets a line of a known method and a space, behind which there is no target with a space
-- and HTTP/1.0 or HTTP/1.1. The call returns `false`, and leaves the buffer as it was and a context with
-- which every call on this buffer fails an assertion, that of `set_method` that there is no method yet.
pub refused_line_aborts :
    (m : Method) (line rest : List ℕ) (turns later time time' : ℕ) {b : Buffer}
    → m ≢ k_invalid
    → IsBad line
    → IsLine (method_string m ++ 32 ∷ line)
    → Holds b ((method_string m ++ 32 ∷ line) ++ (crlf ++ rest))
    → (c : HttpContext) × (parse_request (suc turns) time new_context b ≡ returned false c b)
      × (parse_request (suc later) time' c b ≡ aborted)
unfolding parse_request
refused_line_aborts m line rest turns later time time' {b} known bad is_line h =
    let (refuses, kept) = refused_target line (record new { method = m }) bad in
    (
      record {
        state = k_expect_request_line;
        request = (process_target line (record new { method = m })).1;
      },
      line_returns (method_string m ++ 32 ∷ line) rest turns time new _ is_line h
          (refused_line m line known refuses),
      line_aborts (method_string m ++ 32 ∷ line) rest later time' _ is_line h
          (method_set m line _ known kept),
    )
