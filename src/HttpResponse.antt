-- ===== src/HttpResponse.antt =====
-- flute/net/http/HttpResponse.h and HttpResponse.cc: the answer to a request, and how it is put into
-- a buffer. A character is its code.
pub mod Text
pub mod Decimal
mod Tests
use flute.Prelude.{
  ℕ, zero, suc, ◌+◌, ◌-◌, ◌/◌, ◌%◌, Bool, true, false, ◌&&◌, ◌||◌, Option, none, some, List, [],
  ◌∷◌, ◌++◌, length, take, ltb, ◌==◌, if◌then◌else◌, ◌>>=◌,
}
use flute.Buffer.{Buffer, append_piece}
use flute.ZeroCopier.{ZeroCopier}
use flute.Http.{str_eq}

pub data BodyType : Type 0 where
  k_html k_jpeg k_un_supported : BodyType

pub data StatusCode : Type 0 where
  k_unknown k_200_ok k_301_moved_permanently k_400_bad_request k_404_not_found : StatusCode

abbrev pub status_number : StatusCode → ℕ
status_number k_unknown = 0
status_number k_200_ok = 200
status_number k_301_moved_permanently = 301
status_number k_400_bad_request = 400
status_number k_404_not_found = 404

-- `headers` is in the order of the fields.
pub record HttpResponse : Type 0 where
  pub headers : List (List ℕ × List ℕ)
  pub status_code : StatusCode
  pub status_message : List ℕ
  pub zero_copier : Option ZeroCopier
  pub will_close : Bool
  pub body : List ℕ
  pub response_body_type : BodyType

abbrev pub new : Bool → HttpResponse
new close = record {
  headers = [];
  status_code = k_unknown;
  status_message = [];
  zero_copier = none;
  will_close = close;
  body = [];
  response_body_type = k_html;
}

-- The order of `std::string`.
abbrev pub str_less : List ℕ → List ℕ → Bool
str_less xs [] = false
str_less [] (y ∷ ys) = true
str_less (x ∷ xs) (y ∷ ys) = ltb x y || ((x == y) && str_less xs ys)

abbrev pub insert_header : List ℕ → List ℕ → List (List ℕ × List ℕ) → List (List ℕ × List ℕ)
insert_header key value [] = (key, value) ∷ []
insert_header key value ((k, v) ∷ headers) =
    let rest = insert_header key value headers in
    if str_less key k
    then (key, value) ∷ ((k, v) ∷ headers)
    else if str_eq key k
    then (key, value) ∷ headers
    else (k, v) ∷ rest

abbrev pub add_header : List ℕ → List ℕ → HttpResponse → HttpResponse
add_header key value r = record r { headers = insert_header key value r.headers }

abbrev pub set_body : List ℕ → HttpResponse → HttpResponse
set_body body r = record r { body = body; response_body_type = k_html; zero_copier = none }

abbrev pub set_zerocopy : ZeroCopier → HttpResponse → HttpResponse
set_zerocopy copier r = record r {
  zero_copier = some copier;
  response_body_type = k_jpeg;
  body = [];
}

-- "Not Found"
unfoldable pub response_404 : HttpResponse
response_404 = record (new true) {
  status_code = k_404_not_found;
  status_message = 78 ∷ (111 ∷ (116 ∷ (32 ∷ (70 ∷ (111 ∷ (117 ∷ (110 ∷ (100 ∷ []))))))));
}

-- "Bad Request"
unfoldable pub response_400 : HttpResponse
response_400 = record (new true) {
  status_code = k_400_bad_request;
  status_message =
      66 ∷ (97 ∷ (100 ∷ (32 ∷ (82 ∷ (101 ∷ (113 ∷ (117 ∷ (101 ∷ (115 ∷ (116 ∷ []))))))))));
}

-- A null pointer to the copier is `none`.
abbrev pub source_size : Option ZeroCopier → Option ℕ
source_size none = none
source_size (some z) = some z.total_bytes

abbrev pub content_length : HttpResponse → Option ℕ
content_length r = elim r.response_body_type [
  | k_html ↦ some (length r.body)
  | k_jpeg ↦ source_size r.zero_copier
  | k_un_supported ↦ some 0
]

-- The digits that `snprintf` prints of a number below ten to the number of digits.
abbrev pub digits : ℕ → ℕ → List ℕ
digits zero n = []
digits (suc k) n =
    let rest = digits k (n / 10) in if ltb n 10 then (48 + n) ∷ [] else rest ++ ((48 + n % 10) ∷ [])

-- A `size_t` and an `int` have twenty at most.
unfoldable pub decimal : ℕ → List ℕ
decimal n = digits 20 n

-- `snprintf` into an array of `size` characters, one of them for the zero.
abbrev pub printed : ℕ → List ℕ → List ℕ
printed size str = take (size - 1) str

abbrev pub crlf : List ℕ
crlf = 13 ∷ (10 ∷ [])

-- "HTTP/1.1 ", "Content-Length: ", "Connection: " and what it may be followed by.
abbrev pub http_1_1 : List ℕ
http_1_1 = 72 ∷ 84 ∷ 84 ∷ 80 ∷ 47 ∷ 49 ∷ 46 ∷ 49 ∷ 32 ∷ []

abbrev pub content_length_is : List ℕ
content_length_is =
    67 ∷ 111 ∷ 110 ∷ 116 ∷ 101 ∷ 110 ∷ 116 ∷ 45 ∷ 76 ∷ 101 ∷ 110 ∷ 103 ∷ 116 ∷ 104 ∷ 58 ∷ 32 ∷ []

abbrev pub connection_field : List ℕ
connection_field = 67 ∷ 111 ∷ 110 ∷ 110 ∷ 101 ∷ 99 ∷ 116 ∷ 105 ∷ 111 ∷ 110 ∷ []

abbrev pub close_value : List ℕ
close_value = 99 ∷ 108 ∷ 111 ∷ 115 ∷ 101 ∷ []

abbrev pub keep_alive_value : List ℕ
keep_alive_value = 75 ∷ 101 ∷ 101 ∷ 112 ∷ 45 ∷ 65 ∷ 108 ∷ 105 ∷ 118 ∷ 101 ∷ []

abbrev pub colon : List ℕ
colon = 58 ∷ (32 ∷ [])

abbrev pub close_line : List ℕ
close_line = connection_field ++ (colon ++ (close_value ++ crlf))

abbrev pub keep_alive_line : List ℕ
keep_alive_line = connection_field ++ (colon ++ (keep_alive_value ++ crlf))

abbrev pub status_start : HttpResponse → List ℕ
status_start r = printed 32 (http_1_1 ++ (decimal (status_number r.status_code) ++ (32 ∷ [])))

abbrev pub length_line : ℕ → List ℕ
length_line n = printed 32 (content_length_is ++ (decimal n ++ crlf))

unfoldable pub append_connection : HttpResponse → Buffer → Option Buffer
append_connection r b = if r.will_close then append_piece b close_line else (do
  n ← content_length r
  b' ← append_piece b (length_line n)
  append_piece b' keep_alive_line)

unfoldable pub append_headers : List (List ℕ × List ℕ) → Buffer → Option Buffer
append_headers [] b = some b
append_headers ((first, second) ∷ headers) b = do
  b₁ ← append_piece b first
  b₂ ← append_piece b₁ colon
  b₃ ← append_piece b₂ second
  b₄ ← append_piece b₃ crlf
  append_headers headers b₄

unfoldable pub append_to_buffer : HttpResponse → Buffer → Option Buffer
append_to_buffer r b = do
  b₁ ← append_piece b (status_start r)
  b₂ ← append_piece b₁ r.status_message
  b₃ ← append_piece b₂ crlf
  b₄ ← append_connection r b₃
  b₅ ← append_headers r.headers b₄
  b₆ ← append_piece b₅ crlf
  append_piece b₆ r.body
