-- ===== src/Http/RequestLine.antt =====
-- The request line of flute/net/http/HttpContext.cc: what is printed is read back.
use flute.Prelude.{
  ℕ, ◌≡◌, ◌≢◌, refl, Bool, true, false, Option, none, some, List, [], ◌∷◌, ◌++◌, arith, ◌==◌,
  Bool-cases, inl, inr,
}
use flute.Http.{
  Method, k_invalid, k_get, k_post, k_head, k_put, k_delete, Version, k_http10, k_http11,
  HttpRequest, method_string, set_method, process_version, set_target, process_target,
  process_request_line, split_at, cons_left, http1, is_invalid, read_method,
}

-- A text without a character.
abbrev pub IsFree : ℕ → List ℕ → Type 0
IsFree c s = split_at c s ≡ none

cons_left-none : (x : ℕ) (o : Option (List ℕ × List ℕ)) → cons_left x o ≡ none → o ≡ none
cons_left-none x none e = refl
cons_left-none x (some (a, b)) e = absurd (ground (arith, e))

pub split_at-append : (c : ℕ) (s t : List ℕ) → IsFree c s → split_at c (s ++ c ∷ t) ≡ some (s, t)
split_at-append c [] t f = ground arith
split_at-append c (x ∷ s) t f = elim (Bool-cases (x == c)) [
  | inl e ↦ absurd (ground (arith, f, e))
  | inr e ↦ rw (e, split_at-append c s t (cons_left-none x (split_at c s) (rw e at f))) refl
]

abbrev pub version_of : Bool → Version
version_of true = k_http11
version_of false = k_http10

abbrev pub version_string : Bool → List ℕ
version_string true = http1 ++ (49 ∷ [])
version_string false = http1 ++ (48 ∷ [])

abbrev pub target_string : List ℕ → Option (List ℕ) → List ℕ
target_string path none = path
target_string path (some query) = path ++ 63 ∷ query

-- "GET /path?query HTTP/1.1"
abbrev pub request_line : Method → List ℕ → Option (List ℕ) → Bool → List ℕ
request_line m path query minor =
    method_string m ++ 32 ∷ (target_string path query ++ 32 ∷ version_string minor)

-- The request after the line was read.
abbrev pub with_target : List ℕ → Option (List ℕ) → HttpRequest → HttpRequest
with_target path none r = record r { request_path = path }
with_target path (some query) r = record r { request_path = path; query = 63 ∷ query }

pub read_method-method_string : (m : Method) → read_method (method_string m) ≡ m
read_method-method_string k_invalid = refl
read_method-method_string k_get = refl
read_method-method_string k_post = refl
read_method-method_string k_head = refl
read_method-method_string k_put = refl
read_method-method_string k_delete = refl

pub method_string-IsFree : (m : Method) → IsFree 32 (method_string m)
method_string-IsFree k_invalid = refl
method_string-IsFree k_get = refl
method_string-IsFree k_post = refl
method_string-IsFree k_head = refl
method_string-IsFree k_put = refl
method_string-IsFree k_delete = refl

set_target-target_string :
    (path : List ℕ) (query : Option (List ℕ)) (r : HttpRequest)
    → IsFree 63 path
    → set_target (target_string path query) r ≡ with_target path query r
unfolding set_target
set_target-target_string path none r f = rw (set_target, f) refl
set_target-target_string path (some query) r f =
    rw (set_target, split_at-append 63 path query f) refl

process_version-version_string :
    (minor : Bool) (r : HttpRequest)
    → process_version (version_string minor) r ≡ (true, record r { version = version_of minor })
unfolding process_version
process_version-version_string true r = refl
process_version-version_string false r = refl

-- A request line that is printed from a known method, a path without a space or a question mark, a
-- query that leaves no space in the target, and HTTP/1.0 or HTTP/1.1, is read back into a request
-- that has no method yet.
pub process_request_line-request_line :
    (m : Method) (path : List ℕ) (query : Option (List ℕ)) (minor : Bool) (r : HttpRequest)
    → m ≢ k_invalid
    → IsFree 63 path
    → IsFree 32 (target_string path query)
    → r.method ≡ k_invalid
    → process_request_line (request_line m path query minor) r
      ≡ some (
        true,
        record (with_target path query (record r { method = m })) { version = version_of minor },
      )
unfolding process_request_line set_method process_target
process_request_line-request_line m path query minor r known no_mark no_space unset = simp (
  process_request_line,
  set_method,
  process_target,
  split_at-append 32 (method_string m) (target_string path query ++ 32 ∷ version_string minor)
      (method_string-IsFree m),
  unset,
  read_method-method_string m,
  is_known,
  split_at-append 32 (target_string path query) (version_string minor) no_space,
  set_target-target_string path query (record r { method = m }) no_mark,
  process_version-version_string minor (with_target path query (record r { method = m })),
)
  where
    is_known : is_invalid m ≡ false
    is_known = ground (arith, known)
