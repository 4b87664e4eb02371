-- ===== src/Http/Tests.antt =====
-- Requests of flute/net/http/HttpContext.cc.
use flute.Prelude.{
  ℕ, ap, ◌≤◌, ◌≢◌, length-append, ◌+◌, ◌≡◌, refl, true, false, some, List, [], ◌∷◌, ◌++◌, arith,
  length, replicate,
}
use flute.Buffer.{Buffer}
use flute.Buffer.Inv.{Holds, Holds-IsValid}
use flute.Buffer.Search.{crlf}
use flute.Http.{
  HttpContext, new_context, method_string, returned, aborted, HttpRequest, new, k_get,
  k_expect_request_line, k_got_all, k_http11, parse_request,
}
use flute.Http.RequestLine.{version_string, request_line}
use flute.Http.Refused.{IsBad, refused_line_aborts}
use flute.Http.Headers.{Header, header_text, IsPadded}
use flute.Http.Parse.{Returns, parse_request-request_text}
use flute.Http.Ends.{is_running, parse_request-ends}

-- "GET /a?b HTTP/1.1"
abbrev get_line : List ℕ
get_line = request_line k_get (47 ∷ 97 ∷ []) (some (98 ∷ [])) true

abbrev buffer_of : List ℕ → Buffer
buffer_of str = record { bytes = replicate 8 0 ++ str; read_idx = 8; write_idx = 8 + length str }

-- "H: v "
abbrev one_header : List Header
one_header = record { field = 72 ∷ []; before = 32 ∷ []; value = 118 ∷ []; behind = 32 ∷ [] } ∷ []

one_header-IsPadded :
    IsPadded (record { field = 72 ∷ []; before = 32 ∷ []; value = 118 ∷ []; behind = 32 ∷ [] })
one_header-IsPadded = record {
  spaces_before = (refl, tt);
  spaces_behind = (refl, tt);
  starts_well = refl;
  ends_well = refl;
}

abbrev got_request : HttpRequest
got_request = record {
  method = k_get;
  version = k_http11;
  request_path = 47 ∷ 97 ∷ [];
  query = 63 ∷ 98 ∷ [];
  receive_time = 0;
  headers = [];
}

abbrev whole_request : List ℕ
whole_request = get_line ++ (crlf ++ header_text one_header (1 ∷ []))

whole_request-Holds : Holds (buffer_of whole_request) whole_request
whole_request-Holds = record {
  front = replicate 8 0;
  back = [];
  split = refl;
  starts = refl;
  ends = refl;
  room = omega arith;
  bounded = omega arith;
}

parse_request-request_text_example :
    Returns true
      (record {
        state = k_got_all;
        request = record got_request { receive_time = 9; headers = (72 ∷ [], 118 ∷ []) ∷ [] };
      })
      (1 ∷ [])
      (parse_request 4 9
        (record { state = k_expect_request_line; request = new })
        (buffer_of whole_request))
parse_request-request_text_example =
    parse_request-request_text k_get (47 ∷ 97 ∷ []) (some (98 ∷ [])) true one_header (1 ∷ []) 1 9
      (ground arith) refl refl refl (refl, refl, one_header-IsPadded, tt) whole_request-Holds

parse_request-ends_example :
    is_running (
      parse_request 40 9
        (record { state = k_expect_request_line; request = new })
        (buffer_of whole_request))
    ≡ false
parse_request-ends_example =
    parse_request-ends 40 9 (record { state = k_expect_request_line; request = new }) refl
      (Holds-IsValid whole_request-Holds) (omega arith)

-- "GET /a": the line has no second space.
abbrev short_line : List ℕ
short_line = 47 ∷ 97 ∷ []

abbrev short_request : List ℕ
short_request = (method_string k_get ++ 32 ∷ short_line) ++ (crlf ++ [])

short_request-Holds : Holds (buffer_of short_request) short_request
short_request-Holds = record {
  front = replicate 8 0;
  back = [];
  split = refl;
  starts = refl;
  ends = refl;
  room = omega arith;
  bounded = omega arith;
}

too_short : (xs ys : List ℕ) → 3 ≤ length ys → short_line ≢ xs ++ ys
too_short xs ys long e = absurd (omega (arith, long, ap length e, length-append xs ys))

short_line-IsBad : IsBad short_line
short_line-IsBad target true e = too_short target (32 ∷ version_string true) (omega arith) e
short_line-IsBad target false e = too_short target (32 ∷ version_string false) (omega arith) e

refused_line_aborts_example :
    (c : HttpContext) × (parse_request 1 9 new_context (buffer_of short_request)
      ≡ returned false c (buffer_of short_request))
    × (parse_request 1 10 c (buffer_of short_request) ≡ aborted)
refused_line_aborts_example =
    refused_line_aborts k_get short_line [] 0 0 9 10 (ground arith) short_line-IsBad refl
      short_request-Holds
