-- ===== src/Http.antt =====
-- flute/net/http/HttpRequest.h, HttpContext.h and HttpContext.cc: the request of a client, and the
-- parser that takes it line by line out of a connection's buffer. A character is its code.
pub mod RequestLine
pub mod Lines
pub mod Headers
pub mod Parse
pub mod Ends
pub mod Refused
mod Tests
use flute.Prelude.{
  ℕ, zero, suc, ◌+◌, Bool, true, false, not, ◌&&◌, ◌||◌, Option, none, some, List, [], ◌∷◌, ◌++◌,
  length, take, get_or, leb, ◌==◌, if◌then◌else◌, ◌>>=◌, ◌>>◌, assert,
}
use flute.Buffer
use flute.Buffer.{Buffer, range, find_crlf, retrieve_until}

pub data Method : Type 0 where
  k_invalid k_get k_post k_head k_put k_delete : Method

pub data Version : Type 0 where
  k_unknown k_http10 k_http11 : Version

-- `headers` has the latest of a field first, which `get_header` finds.
pub record HttpRequest : Type 0 where
  pub method : Method
  pub version : Version
  pub request_path : List ℕ
  pub query : List ℕ
  pub receive_time : ℕ
  pub headers : List (List ℕ × List ℕ)

abbrev pub new : HttpRequest
new = record {
  method = k_invalid;
  version = k_unknown;
  request_path = [];
  query = [];
  receive_time = 0;
  headers = [];
}

-- "GET", "POST", "HEAD", "PUT" and "DELETE".
abbrev pub method_string : Method → List ℕ
method_string k_get = 71 ∷ 69 ∷ 84 ∷ []
method_string k_post = 80 ∷ 79 ∷ 83 ∷ 84 ∷ []
method_string k_head = 72 ∷ 69 ∷ 65 ∷ 68 ∷ []
method_string k_put = 80 ∷ 85 ∷ 84 ∷ []
method_string k_delete = 68 ∷ 69 ∷ 76 ∷ 69 ∷ 84 ∷ 69 ∷ []
method_string k_invalid = 85 ∷ 78 ∷ 75 ∷ 78 ∷ 79 ∷ 87 ∷ 78 ∷ []

abbrev pub str_eq : List ℕ → List ℕ → Bool
str_eq [] [] = true
str_eq (x ∷ xs) (y ∷ ys) = (x == y) && str_eq xs ys
str_eq _ _ = false

abbrev pub is_invalid : Method → Bool
is_invalid k_invalid = true
is_invalid _ = false

abbrev pub read_method : List ℕ → Method
read_method m =
    if str_eq m (method_string k_get)
    then k_get
    else if str_eq m (method_string k_post)
    then k_post
    else if str_eq m (method_string k_head)
    then k_head
    else if str_eq m (method_string k_put)
    then k_put
    else if str_eq m (method_string k_delete)
    then k_delete
    else k_invalid

unfoldable pub set_method : List ℕ → HttpRequest → Option (Bool × HttpRequest)
set_method m r = do
  assert (is_invalid r.method)
  some (not (is_invalid (read_method m)), record r { method = read_method m })

-- `isspace`
abbrev pub is_space : ℕ → Bool
is_space c = (c == 32) || (leb 9 c && leb c 13)

abbrev pub skip_spaces : List ℕ → List ℕ
skip_spaces [] = []
skip_spaces (c ∷ s) = let rest = skip_spaces s in if is_space c then rest else c ∷ s

abbrev pub chop_end : ℕ → List ℕ → List ℕ
chop_end c [] = if is_space c then [] else c ∷ []
chop_end c (d ∷ s) = c ∷ d ∷ s

-- The text without the spaces at its end.
abbrev pub chop_spaces : List ℕ → List ℕ
chop_spaces [] = []
chop_spaces (c ∷ s) = chop_end c (chop_spaces s)

-- `field` is the text before the colon, `after` the text behind it.
unfoldable pub add_header : List ℕ → List ℕ → HttpRequest → HttpRequest
add_header field after r = record r {
  headers = (field, chop_spaces (skip_spaces after)) ∷ r.headers;
}

abbrev pub find_header : List ℕ → List (List ℕ × List ℕ) → List ℕ
find_header field [] = []
find_header field ((f, v) ∷ headers) =
    let rest = find_header field headers in if str_eq f field then v else rest

abbrev pub get_header : HttpRequest → List ℕ → List ℕ
get_header r field = find_header field r.headers

abbrev pub cons_left : ℕ → Option (List ℕ × List ℕ) → Option (List ℕ × List ℕ)
cons_left x none = none
cons_left x (some (before, after)) = some (x ∷ before, after)

-- `std::find` of a character: the text before it and the text behind it.
abbrev pub split_at : ℕ → List ℕ → Option (List ℕ × List ℕ)
split_at c [] = none
split_at c (x ∷ s) = let rest = split_at c s in if x == c then some ([], s) else cons_left x rest

-- "HTTP/1."
abbrev pub http1 : List ℕ
http1 = 72 ∷ 84 ∷ 84 ∷ 80 ∷ 47 ∷ 49 ∷ 46 ∷ []

-- The steps of `process_request_line`: the version, then the target, then the whole line.
unfoldable pub process_version : List ℕ → HttpRequest → Bool × HttpRequest
process_version v r =
    if (length v == 8) && str_eq (take 7 v) http1
    then (if get_or v 7 0 == 49
        then (true, record r { version = k_http11 })
        else if get_or v 7 0 == 48
        then (true, record r { version = k_http10 })
        else (false, r))
    else (false, r)

-- The query keeps its question mark.
unfoldable pub set_target : List ℕ → HttpRequest → HttpRequest
set_target target r = elim (split_at 63 target) [
  | none ↦ record r { request_path = target }
  | some (path, query) ↦ record r { request_path = path; query = 63 ∷ query }
]

unfoldable pub process_target : List ℕ → HttpRequest → Bool × HttpRequest
process_target rest r = elim (split_at 32 rest) [
  | none ↦ (false, r)
  | some (target, v) ↦ process_version v (set_target target r)
]

unfoldable pub process_request_line : List ℕ → HttpRequest → Option (Bool × HttpRequest)
process_request_line line r = elim (split_at 32 line) [
  | none ↦ some (false, r)
  | some (m, rest) ↦ do
    (ok, r') ← set_method m r
    some (if ok then process_target rest r' else (false, r'))
]

pub data ParseState : Type 0 where
  k_expect_request_line k_expect_headers k_expect_body k_got_all : ParseState

pub record HttpContext : Type 0 where
  pub state : ParseState
  pub request : HttpRequest

-- A context that waits for a request, as it is made.
abbrev pub new_context : HttpContext
new_context = record { state = k_expect_request_line; request = new }

abbrev pub reset : HttpContext → HttpContext
reset c = record { state = k_expect_request_line; request = new }

-- What one turn of the loop of `parse_request` does: it goes on, with its `ok`, or it returns.
pub data Turn : Type 0 where
  goes_on returns : Bool → HttpContext → Buffer → Turn

abbrev pub consume_line : ℕ → (Buffer → Turn) → Buffer → Option Turn
consume_line crlf turn b = do b' ← retrieve_until b (crlf + 2); some (turn b')

-- A turn that expects the request line, and has found the end of a line.
unfoldable pub take_request_line : ℕ → ℕ → HttpContext → Buffer → Option Turn
take_request_line time crlf c b = do
  (ok, r) ← process_request_line (range b b.read_idx crlf) c.request
  if ok
      then consume_line crlf
          (goes_on true
            (record { state = k_expect_headers; request = record r { receive_time = time } }))
          b
      else some (returns false (record c { request = r }) b)

-- A turn that expects a header: a line without a colon ends them.
unfoldable pub take_header : Bool → ℕ → HttpContext → Buffer → Option Turn
take_header ok crlf c b = elim (split_at 58 (range b b.read_idx crlf)) [
  | some (field, after) ↦
      consume_line crlf (goes_on ok (record c { request = add_header field after c.request })) b
  | none ↦ consume_line crlf (returns ok (record c { state = k_got_all })) b
]

unfoldable pub turn : ℕ → Bool → HttpContext → Buffer → Option Turn
turn time ok c b = elim c.state [
  | k_expect_request_line ↦ elim (find_crlf b) [
    | none ↦ some (returns ok c b)
    | some crlf ↦ take_request_line time crlf c b
  ]
  | k_expect_headers ↦ elim (find_crlf b) [
    | none ↦ some (returns ok c b)
    | some crlf ↦ take_header ok crlf c b
  ]
  | k_expect_body ↦ some (goes_on ok c b)
  | k_got_all ↦ some (returns false c b)
]

-- A run of `parse_request`: it returns, fails an `assert`, or is still at work after so many turns.
pub data Run : Type 0 where
  returned : Bool → HttpContext → Buffer → Run
  aborted still_running : Run

unfoldable pub loop : ℕ → ℕ → Bool → HttpContext → Buffer → Run
loop zero time ok c b = still_running
loop (suc turns) time ok c b = elim (turn time ok c b) [
  | none ↦ aborted
  | some (returns ok' c' b') ↦ returned ok' c' b'
  | some (goes_on ok' c' b') ↦ loop turns time ok' c' b'
]

unfoldable pub parse_request : ℕ → ℕ → HttpContext → Buffer → Run
parse_request turns time c b = loop turns time false c b
