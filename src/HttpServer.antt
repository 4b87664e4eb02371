-- ===== src/HttpServer.antt =====
-- flute/net/http/HttpServer.h and HttpServer.cc: requests taken out of a connection's input buffer, and
-- answers put into its output buffer. These are calls of the connection's callbacks, in its
-- reactor's thread. `callback` is the user's, which fills in the answer.
pub mod Answers
pub mod Requests
mod Tests
use flute.Prelude.{
  ℕ, Bool, true, false, not, ◌&&◌, ◌||◌, Option, none, some, List, [], ◌∷◌, if◌then◌else◌, ◌>>=◌,
}
use flute.Buffer
use flute.Buffer.{Buffer, k_initial_size, peek_last_as_string}
use flute.Http.{
  HttpRequest, HttpContext, Version, k_http10, get_header, str_eq, parse_request, Run, returned,
  aborted, still_running, ParseState, k_got_all, reset, new_context,
}
use flute.HttpResponse.{
  HttpResponse, BodyType, k_jpeg, k_404_not_found, append_to_buffer, response_400, connection_field,
  close_value, keep_alive_value,
}
use flute.HttpResponse
use flute.ZeroCopier.{ZeroCopier}
use flute.Connection.{Connection, is_connected, send_buffer, enable_zero_copy, shutdown}

abbrev is_http10 : Version → Bool
is_http10 k_http10 = true
is_http10 _ = false

abbrev is_jpeg : BodyType → Bool
is_jpeg k_jpeg = true
is_jpeg _ = false

abbrev is_got_all : ParseState → Bool
is_got_all k_got_all = true
is_got_all _ = false

-- "Not Found"
abbrev pub dummy_404_callback : HttpRequest → HttpResponse → HttpResponse
dummy_404_callback req resp = record resp {
  status_code = k_404_not_found;
  status_message = 78 ∷ (111 ∷ (116 ∷ (32 ∷ (70 ∷ (111 ∷ (117 ∷ (110 ∷ (100 ∷ []))))))));
  will_close = true;
}

-- What the request says of the connection.
abbrev pub wants_close : HttpRequest → Bool
wants_close req =
    let connection = get_header req connection_field in
    str_eq connection close_value
    || (is_http10 req.version && not (str_eq connection keep_alive_value))

-- An answer in a buffer of its own is sent.
unfoldable pub send_response : HttpResponse → Connection → Option Connection
send_response response c = do
  empty ← Buffer.new k_initial_size
  buf ← append_to_buffer response empty
  (c', buf') ← send_buffer true c buf
  some c'

-- A null pointer to the copier is `none`.
abbrev pub with_file : Option ZeroCopier → Connection → Option Connection
with_file none c = none
with_file (some z) c = some (enable_zero_copy c z)

abbrev pub send_file : HttpResponse → Connection → Option Connection
send_file response c =
    if is_jpeg response.response_body_type then with_file response.zero_copier c else some c

unfoldable pub on_good_request :
    (HttpRequest → HttpResponse → HttpResponse) → HttpRequest → Connection → Option Connection
on_good_request callback req c =
    let response = callback req (HttpResponse.new (wants_close req)) in
    do
      c₁ ← send_response response c
      c₂ ← send_file response c₁
      if response.will_close then shutdown true c₂ else some c₂

unfoldable pub on_bad_request : Connection → Option Connection
on_bad_request c = do c' ← send_response response_400 c; shutdown true c'

abbrev pub answer_parsed :
    (HttpRequest → HttpResponse → HttpResponse)
    → Run
    → Connection
    → Option (Connection × HttpContext)
answer_parsed callback still_running c = none
answer_parsed callback aborted c = none
answer_parsed callback (returned ok context buf) c = do
  c₁ ←
      if ok
      then some (record c { input_buffer = buf })
      else on_bad_request (record c { input_buffer = buf })
  if is_got_all context.state
      then (do c₂ ← on_good_request callback context.request c₁; some (c₂, reset context))
      else some (c₁, context)

-- "\r\n\r\n"
abbrev pub empty_line : List ℕ
empty_line = 13 ∷ (10 ∷ (13 ∷ (10 ∷ [])))

-- `turns` bounds the turns of the parser's loop.
unfoldable pub default_on_request :
    (HttpRequest → HttpResponse → HttpResponse)
    → (turns receive_time : ℕ) → HttpContext
    → Connection
    → Option (Connection × HttpContext)
default_on_request callback turns receive_time context c =
    if not (str_eq (peek_last_as_string c.input_buffer 4) empty_line)
    then some (c, context)
    else answer_parsed callback (parse_request turns receive_time context c.input_buffer) c

-- The callback for a connection that is established or gone. The connection's pointer to a context is
-- `none` where it has not been set.
unfoldable pub on_connection : Option HttpContext → Connection → Option HttpContext
on_connection context c = if is_connected c.conn_state then some new_context else context

-- The message callback takes the context from the connection's pointer.
unfoldable pub on_message :
    (HttpRequest → HttpResponse → HttpResponse)
    → (turns receive_time : ℕ) → Option HttpContext
    → Connection
    → Option (Connection × HttpContext)
on_message callback turns receive_time none c = none
on_message callback turns receive_time (some context) c =
    default_on_request callback turns receive_time context c
