-- ===== src/HttpServer/Answers.antt =====
-- What flute/net/http/HttpServer.cc answers to a request.
use flute.Prelude.{
  ℕ, ◌+◌, ◌^◌, ◌≤◌, ◌<◌, ◌≡◌, refl, subst, ◌∙◌, inl, inr, true, some, List, [], ◌++◌, arith, length,
  ltb, if◌then◌else◌, >>=-eq-some, Bool-cases,
}
use mathlib.Core.Option.{some-injective}
use flute.Buffer
use flute.Buffer.{Buffer, contents, max_size, k_cheap_prepend, k_initial_size}
use flute.Buffer.Inv.{IsValid, contents-eq}
use flute.Buffer.Laws.{new-Holds}
use flute.Http.{HttpRequest}
use flute.HttpResponse
use flute.HttpResponse.{HttpResponse, k_html, append_to_buffer}
use flute.HttpResponse.Text.{text, append_to_buffer-text}
use flute.Channel.{is_writing}
use flute.Connection.{
  Connection, k_connected, k_disconnecting, is_disconnected, send_buffer, send_bytes_in_reactor,
  buffer_bytes, notify_highwater, shutdown, shutdown_in_reactor, set_state,
}
use flute.Connection.Socket.{on_socket}
use flute.Connection.Rank.{SameState, watch_writable-SameState, notify_highwater-SameState}
use flute.Connection.Writing.{send_bytes_in_reactor-content}
use flute.HttpServer.{send_response, on_good_request, wants_close}

send_bytes-SameState :
    (c c' : Connection) (str : List ℕ) → send_bytes_in_reactor c str ≡ some c' → SameState c c'
unfolding send_bytes_in_reactor buffer_bytes
send_bytes-SameState c c' str run = elim (Bool-cases (is_disconnected c.conn_state)) [
  | inl d ↦ subst (SameState c) (some-injective c c' (simp d at run)) refl
  | inr d ↦ elim (Bool-cases (ltb 0 (length str))) [
    | inl e ↦
        let (output, _, rest) =
          >>=-eq-some (Buffer.append c.output_buffer str) _ (simp (d, e) at run) in
        subst (SameState c) (some-injective _ c' rest) (
          watch_writable-SameState
            (record (notify_highwater c (length str)) { output_buffer = output })
          ∙ notify_highwater-SameState c (length str))
    | inr e ↦ subst (SameState c) (some-injective c c' (simp (d, e) at run)) refl
  ]
]

-- The answer is behind the output buffer's content, the poller watches for a writable socket, and
-- nothing has been written or shut down yet.
pub record Answered (c : Connection) (str : List ℕ) (c' : Connection) : Type 0 where
  pub valid : IsValid c'.output_buffer
  pub bytes : contents c'.output_buffer ≡ contents c.output_buffer ++ str
  pub watched : is_writing c'.channel ≡ true
  pub socket : on_socket c'.effects ≡ on_socket c.effects

-- A buffer sent on an open connection.
send_buffer-open :
    (c c' : Connection) (buf : Buffer)
    → c.conn_state ≡ k_connected
    → send_bytes_in_reactor c (contents buf) ≡ some c'
    → send_buffer true c buf ≡ some (c', Buffer.retrieve_all buf)
unfolding send_buffer
send_buffer-open c c' buf s run = simp (s, run)

-- The whole text of an answer that is a page.
abbrev pub page : HttpResponse → List ℕ
page r = text r (length r.body)

send_response-Answered :
    (c : Connection) (r : HttpResponse) (n : ℕ)
    → HttpResponse.content_length r ≡ some n
    → IsValid c.output_buffer
    → c.conn_state ≡ k_connected
    → length (text r n) < 2 ^ 31
    → c.output_buffer.write_idx + length (text r n) ≤ max_size
    → (c' : Connection) × (send_response r c ≡ some c')
      × Answered c (text r n) c'
      × (c'.conn_state ≡ k_connected)
unfolding send_response
send_response-Answered c r n size v open_state short fits =
    let (b, made, held, start) = new-Holds k_initial_size (omega arith) in
    let (b', put, held', _) =
      append_to_buffer-text {i = k_cheap_prepend} {b = b} {xs = []} r n size (record {
        holds = held;
        starts_by = omega (arith, held.ends, start);
        fits = omega (arith, short);
        short = short;
      }) in
    let full : contents b' ≡ text r n = contents-eq held' in
    let (c', run, valid, bytes, copier, socket, watched) =
      send_bytes_in_reactor-content c (text r n) v fits (λ e. ground (arith, open_state, e))
        (omega arith) in
    (
      c',
      rw (made, put, send_buffer-open c c' b' open_state (rw full run)) refl,
      record { valid = valid; bytes = bytes; watched = watched; socket = socket },
      send_bytes-SameState c c' (text r n) run ∙ open_state,
    )

-- A shutdown while the poller watches for a writable socket only changes the state.
shutdown_waits :
    (c : Connection)
    → c.conn_state ≡ k_connected
    → is_writing c.channel ≡ true
    → shutdown true c ≡ some (set_state k_disconnecting c)
unfolding shutdown shutdown_in_reactor
shutdown_waits c s w = simp (s, w)

-- A request on an open connection, answered by the user's callback with a page of less than 2^31 bytes
-- that fits into the output buffer: the page, with its head, goes behind the bytes that wait in the output buffer, the
-- poller watches for a writable socket, nothing is written yet, and the connection is to be shut
-- down, once all is written, just where the answer says that it will be closed.
pub on_good_request-Answered :
    (callback : HttpRequest → HttpResponse → HttpResponse) (req : HttpRequest) (c : Connection)
    → (callback req (HttpResponse.new (wants_close req))).response_body_type ≡ k_html
    → IsValid c.output_buffer
    → c.conn_state ≡ k_connected
    → length (page (callback req (HttpResponse.new (wants_close req)))) < 2 ^ 31
    → c.output_buffer.write_idx + length (page (callback req (HttpResponse.new (wants_close req))))
      ≤ max_size
    → (c' : Connection) × (on_good_request callback req c ≡ some c')
      × Answered c (page (callback req (HttpResponse.new (wants_close req)))) c'
      × (c'.conn_state ≡ (
          if (callback req (HttpResponse.new (wants_close req))).will_close
          then k_disconnecting
          else k_connected))
unfolding on_good_request
on_good_request-Answered callback req c html v open_state short fits =
    let r = callback req (HttpResponse.new (wants_close req)) in
    let (c', run, answered, still_open) =
      send_response-Answered c r (length r.body) (rw html refl) v open_state short fits in
    elim (Bool-cases r.will_close) [
      | inl e ↦ (
        set_state k_disconnecting c',
        rw (run, html, e) (shutdown_waits c' still_open answered.watched),
        record {
          valid = answered.valid;
          bytes = answered.bytes;
          watched = answered.watched;
          socket = answered.socket;
        },
        rw e refl,
      )
      | inr e ↦ (c', rw (run, html, e) refl, answered, rw e still_open)
    ]
