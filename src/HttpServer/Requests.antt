-- ===== src/HttpServer/Requests.antt =====
-- From the bytes of a request to those of its answer in flute/net/http/HttpServer.cc.
use flute.Prelude.{
  ℕ, suc, ◌+◌, ◌-◌, ◌^◌, ◌≤◌, ◌<◌, ◌≡◌, ◌≢◌, refl, sym, ap, ◌∙◌, Bool, false, Option, some, List,
  [], ◌∷◌, ◌++◌, append_assoc, arith, length, length-append, take-append, drop-append,
  if◌then◌else◌, ltb,
}
use flute.Buffer.{Buffer, contents, max_size, peek_last_as_string, content_bytes_len}
use flute.Buffer.Inv.{IsValid, Holds, Holds-length}
use flute.Buffer.Search.{crlf, IsLine}
use flute.Http
use flute.Http.{Method, k_invalid, HttpRequest, HttpContext, new_context, parse_request, str_eq}
use flute.Http.RequestLine.{IsFree, request_line, target_string, with_target, version_of}
use flute.Http.Headers.{Header, header_line, header_text, AllHeaders, with_headers}
use flute.Http.Parse.{turns_of, parse_request-request_text}
use flute.HttpResponse
use flute.HttpResponse.{HttpResponse, k_html}
use flute.Connection.{Connection, is_connected, k_connected, k_disconnecting}
use flute.HttpServer.{default_on_request, on_connection, on_message, wants_close, empty_line}
use flute.HttpServer.Answers.{Answered, page, on_good_request-Answered}

-- The last bytes of a buffer.
peek_last-content :
    {b : Buffer} (xs ys : List ℕ)
    → length ys ≡ 4
    → Holds b (xs ++ ys)
    → peek_last_as_string b 4 ≡ ys
unfolding peek_last_as_string
peek_last-content {b} xs ys four h =
    let size : content_bytes_len b ≡ length (xs ++ ys) = Holds-length h in
    let enough : ltb (length (xs ++ ys)) 4 ≡ false = ground (arith, four, length-append xs ys) in
    let start : length (h.front ++ xs) ≡ b.read_idx + (length (xs ++ ys) - 4) =
      omega (arith, four, length-append xs ys, length-append h.front xs, h.starts) in
    let bytes : b.bytes ≡ (h.front ++ xs) ++ (ys ++ h.back) =
      h.split ∙ rw (append_assoc, append_assoc) refl in
    rw
      (
        size,
        enough,
        bytes,
        drop-append (b.read_idx + (length (xs ++ ys) - 4)) (h.front ++ xs) (ys ++ h.back) start,
      )
      (take-append 4 ys h.back four)

-- The headers end in an empty line.
header_text-ends :
    (headers : List Header) → (xs : List ℕ) × (crlf ++ header_text headers [] ≡ xs ++ empty_line)
header_text-ends [] = ([], refl)
header_text-ends (h ∷ headers) =
    let (xs, e) = header_text-ends headers in
    ((crlf ++ header_line h) ++ xs, rw e (sym (append_assoc (crlf ++ header_line h) xs empty_line)))

-- What is taken out of the input buffer does not matter for the answer.
taken-Answered :
    (c c' : Connection) (buf : Buffer) {str str' : List ℕ}
    → str ≡ str'
    → Answered (record c { input_buffer = buf }) str c'
    → Answered c str' c'
taken-Answered c c' buf e a = record {
  valid = a.valid;
  bytes = a.bytes ∙ ap (λ s. contents c.output_buffer ++ s) e;
  watched = a.watched;
  socket = a.socket;
}

-- The request that is printed, as it is read.
abbrev pub requested : Method → List ℕ → Option (List ℕ) → Bool → List Header → ℕ → HttpRequest
requested m path query minor headers time =
    with_headers headers (record (with_target path query (record Http.new { method = m })) {
      version = version_of minor;
      receive_time = time;
    })

abbrev pub request_text : Method → List ℕ → Option (List ℕ) → Bool → List Header → List ℕ
request_text m path query minor headers =
    request_line m path query minor ++ (crlf ++ header_text headers [])

-- A connection for which `on_connection` was called when it was established, and that is open, has a
-- whole request in its input buffer, which a client has printed: a known method, a target whose path
-- has no question mark and that has no space, HTTP/1.0 or HTTP/1.1, and headers whose fields have no
-- colon, with values that have no space at their ends and stand between spaces, all on lines of their
-- own. With turns enough for the parser, and a callback that answers this
-- very request with a page of less than 2^31 bytes that fits into the output buffer, the page goes behind the bytes that wait in
-- the output buffer, the poller watches for a writable socket, nothing is written yet, the connection
-- is to be shut down just where the page says that it will be closed, and the context waits for a new
-- request.
pub on_message-Answered :
    (callback : HttpRequest → HttpResponse → HttpResponse) (m : Method) (path : List ℕ)
    (query : Option (List ℕ)) (minor : Bool) (headers : List Header) (extra time : ℕ)
    (c₀ c : Connection) (context : Option HttpContext)
    → c₀.conn_state ≡ k_connected
    → m ≢ k_invalid
    → IsFree 63 path
    → IsFree 32 (target_string path query)
    → IsLine (request_line m path query minor)
    → AllHeaders headers
    → Holds c.input_buffer (request_text m path query minor headers)
    → (answer : HttpResponse)
    → callback
        (requested m path query minor headers time)
        (HttpResponse.new (wants_close (requested m path query minor headers time)))
      ≡ answer
    → answer.response_body_type ≡ k_html
    → IsValid c.output_buffer
    → c.conn_state ≡ k_connected
    → length (page answer) < 2 ^ 31
    → c.output_buffer.write_idx + length (page answer) ≤ max_size
    → (c' : Connection) × (on_message callback
          (suc (suc (turns_of headers extra)))
          time
          (on_connection context c₀)
          c
        ≡ some (c', new_context))
      × Answered c (page answer) c'
      × (c'.conn_state ≡ (if answer.will_close then k_disconnecting else k_connected))
unfolding default_on_request on_connection on_message
on_message-Answered callback m path query minor headers extra time c₀ c context begun known no_mark
      no_space line all h answer made html v open_state short fits =
    let (xs, e) = header_text-ends headers in
    let ends : peek_last_as_string c.input_buffer 4 ≡ empty_line =
      peek_last-content (request_line m path query minor ++ xs) empty_line refl
        (rw (e, ← append_assoc (request_line m path query minor) xs empty_line) at h) in
    let (buf, parsed, left) =
      parse_request-request_text m path query minor headers [] extra time known no_mark no_space
        line all h in
    let c₁ = record c { input_buffer = buf } in
    let (c', run, a, s) =
      on_good_request-Answered callback (requested m path query minor headers time) c₁
        (rw made html) v open_state (rw made short) (rw made fits) in
    (
      c',
      rw (ap is_connected begun, ends, parsed, run) refl,
      taken-Answered c c' buf (ap page made) a,
      s ∙ ap (λ (r : HttpResponse). if r.will_close then k_disconnecting else k_connected) made,
    )
