-- ===== src/Http/Parse.antt =====
-- Whole requests in flute/net/http/HttpContext.cc.
use flute.Prelude.{
  ℕ, suc, ◌+◌, ◌≡◌, ◌≢◌, refl, ◌∙◌, Bool, true, false, Option, some, List, [], ◌∷◌, ◌++◌, length,
}
use flute.Buffer.{Buffer, retrieve_until}
use flute.Buffer.Inv.{Holds}
use flute.Buffer.Search.{crlf, IsLine}
use flute.Http.{
  Method, k_invalid, HttpRequest, HttpContext, new, add_header, process_request_line,
  k_expect_request_line, k_expect_headers, k_got_all, goes_on, returns, take_request_line,
  take_header, turn, Run, returned, loop, parse_request,
}
use flute.Http.RequestLine.{
  IsFree, split_at-append, request_line, target_string, with_target, version_of,
  process_request_line-request_line,
}
use flute.Http.Headers.{
  Header, after_colon, header_line, header_text, AllHeaders, with_headers, add_header-padded,
}
use flute.Http.Lines.{find_crlf-line, range-line, retrieve_until-line}

-- One turn for each header, and more.
abbrev pub turns_of : List Header → ℕ → ℕ
turns_of [] extra = extra
turns_of (h ∷ headers) extra = suc (turns_of headers extra)

-- The run returns, and leaves the bytes behind the request in the buffer.
abbrev pub Returns : Bool → HttpContext → List ℕ → Run → Type 0
Returns ok c rest run = (b : Buffer) × (run ≡ returned ok c b) × Holds b rest

-- One turn of the loop.
loop-goes_on :
    (n time : ℕ) (ok ok' : Bool) (c c' : HttpContext) (b b' : Buffer)
    → turn time ok c b ≡ some (goes_on ok' c' b')
    → loop (suc n) time ok c b ≡ loop n time ok' c' b'
unfolding loop
loop-goes_on n time ok ok' c c' b b' e = rw (loop, e) refl

loop-returns :
    (n time : ℕ) (ok ok' : Bool) (c c' : HttpContext) (b b' : Buffer)
    → turn time ok c b ≡ some (returns ok' c' b')
    → loop (suc n) time ok c b ≡ returned ok' c' b'
unfolding loop
loop-returns n time ok ok' c c' b b' e = rw (loop, e) refl

turn-header :
    (time : ℕ) (ok : Bool) (r : HttpRequest) (b b' : Buffer) (field value rest : List ℕ)
    → IsFree 58 field
    → IsLine (field ++ 58 ∷ value)
    → Holds b ((field ++ 58 ∷ value) ++ (crlf ++ rest))
    → retrieve_until b (b.read_idx + length (field ++ 58 ∷ value) + 2) ≡ some b'
    → turn time ok (record { state = k_expect_headers; request = r }) b
      ≡ some
          (goes_on ok (record { state = k_expect_headers; request = add_header field value r }) b')
unfolding turn take_header
turn-header time ok r b b' field value rest free line h run =
    rw
      (
        turn,
        find_crlf-line (field ++ 58 ∷ value) rest line h,
        take_header,
        range-line (field ++ 58 ∷ value) rest h,
        split_at-append 58 field value free,
        run,
      )
      refl

turn-last :
    (time : ℕ) (ok : Bool) (r : HttpRequest) (b b' : Buffer) (rest : List ℕ)
    → Holds b (crlf ++ rest)
    → retrieve_until b (b.read_idx + 0 + 2) ≡ some b'
    → turn time ok (record { state = k_expect_headers; request = r }) b
      ≡ some (returns ok (record { state = k_got_all; request = r }) b')
unfolding turn take_header
turn-last time ok r b b' rest h run =
    rw (turn, find_crlf-line [] rest refl h, take_header, range-line [] rest h, run) refl

turn-request_line :
    (time : ℕ) (ok : Bool) (r r' : HttpRequest) (b b' : Buffer) (line rest : List ℕ)
    → process_request_line line r ≡ some (true, r')
    → IsLine line
    → Holds b (line ++ (crlf ++ rest))
    → retrieve_until b (b.read_idx + length line + 2) ≡ some b'
    → turn time ok (record { state = k_expect_request_line; request = r }) b
      ≡ some (
          goes_on true
            (record { state = k_expect_headers; request = record r' { receive_time = time } })
            b')
unfolding turn take_request_line
turn-request_line time ok r r' b b' line rest read is_line h run =
    rw (turn, find_crlf-line line rest is_line h, range-line line rest h, read, run) refl

loop-headers :
    (headers : List Header) (rest : List ℕ) (extra time : ℕ) (ok : Bool) (r : HttpRequest)
    {b : Buffer}
    → AllHeaders headers
    → Holds b (header_text headers rest)
    → Returns ok
        (record { state = k_got_all; request = with_headers headers r })
        rest
        (loop
          (suc (turns_of headers extra))
          time
          ok
          (record { state = k_expect_headers; request = r })
          b)
loop-headers [] rest extra time ok r {b} all h =
    let (b', run, held) = retrieve_until-line [] rest h in
    (b', loop-returns extra time ok ok _ _ b b' (turn-last time ok r b b' rest h run), held)
loop-headers (h ∷ headers) rest extra time ok r {b} (free, line, padded, all) holds =
    let (b', run, held) = retrieve_until-line (header_line h) (header_text headers rest) holds in
    let (b'', runs, held'') =
      loop-headers headers rest extra time ok
        (record r { headers = (h.field, h.value) ∷ r.headers }) all held in
    (
      b'',
      loop-goes_on (suc (turns_of headers extra)) time ok ok _ _ b b' (
            rw (← add_header-padded h r padded) (
              turn-header time ok r b b' h.field (after_colon h) (header_text headers rest) free
                line holds run))
          ∙ runs,
      held'',
    )

-- A request that is printed into a buffer is parsed from it: a known method, a target whose path has
-- no question mark and that has no space, HTTP/1.0 or HTTP/1.1, and headers whose fields have no
-- colon, with values that have no space at their ends and stand between spaces, all on lines of their
-- own. The call returns `true` with the method, the path, the query and the version in the context, and
-- each field with its value, without the spaces around it, the latest first; and it leaves in the buffer
-- just the bytes behind the request.
pub parse_request-request_text :
    (m : Method) (path : List ℕ) (query : Option (List ℕ)) (minor : Bool) (headers : List Header)
    (rest : List ℕ) (extra time : ℕ) {b : Buffer}
    → m ≢ k_invalid
    → IsFree 63 path
    → IsFree 32 (target_string path query)
    → IsLine (request_line m path query minor)
    → AllHeaders headers
    → Holds b (request_line m path query minor ++ (crlf ++ header_text headers rest))
    → Returns true
        (record {
          state = k_got_all;
          request =
              with_headers headers (record (with_target path query (record new { method = m })) {
                version = version_of minor;
                receive_time = time;
              });
        })
        rest
        (parse_request
          (suc (suc (turns_of headers extra)))
          time
          (record { state = k_expect_request_line; request = new })
          b)
unfolding parse_request
parse_request-request_text m path query minor headers rest extra time {b} known no_mark no_space
      line all h =
    let r' = record (with_target path query (record new { method = m })) {
      version = version_of minor;
    } in
    let (b', run, held) =
      retrieve_until-line (request_line m path query minor) (header_text headers rest) h in
    let (b'', runs, held'') =
      loop-headers headers rest extra time true (record r' { receive_time = time }) all held in
    (
      b'',
      loop-goes_on (suc (turns_of headers extra)) time false true _ _ b b' (
            turn-request_line time false new r' b b' (request_line m path query minor)
              (header_text headers rest)
              (process_request_line-request_line m path query minor new known no_mark no_space refl)
              line h run)
          ∙ runs,
      held'',
    )
