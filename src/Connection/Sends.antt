-- ===== src/Connection/Sends.antt =====
-- The order of the states of a connection of flute/net/TcpConnection.cc where it sends.
use flute.Prelude.{
  ℕ, refl, ◌∙◌, Bool, Option, none, some, List, arith, length, take, ltb, ◌==◌, if◌then◌else◌,
  ◌>>=◌,
}
use flute.Buffer
use flute.Buffer.{Buffer, Arrived, got, failed, contents, content_bytes_len}
use flute.Channel.{is_writing}
use flute.Connection.{
  is_disconnected, logged_error, wrote, run_asap, send_task, notify_highwater, Connection,
  k_sending_buffer, emit, queued, is_connected, send_bytes_in_reactor, send_string_piece,
  buffer_bytes, watch_writable,
}
use flute.Connection.Ready.{
  Writable, write_socket_from_buffer, transfer_sending_state, send_from_buffer, send_with,
  send_from_file, finish_writing, handle_socket_writable, may_send_buffer,
}
use flute.Connection.Rank.{
  Forward, Forward-eq, Forward-bind, Forward-from, Forward-if, watch_writable-SameState,
  notify_highwater-SameState, send_with-SameState, finish_writing-SameState, Forward-step,
}

pub send_bytes-Forward : (c : Connection) (str : List ℕ) → Forward c (send_bytes_in_reactor c str)
unfolding send_bytes_in_reactor buffer_bytes
send_bytes-Forward c str =
    Forward-if c (is_disconnected c.conn_state) (some c)
      (if ltb 0 (length str)
        then Buffer.append c.output_buffer str >>= (λ output. some (watch_writable (noted output)))
        else some c)
      (λ _. Forward-eq c c refl)
      (Forward-if c (ltb 0 (length str))
        (Buffer.append c.output_buffer str >>= λ output. some (watch_writable (noted output)))
        (some c)
        (λ _.
          Forward-step c (Buffer.append c.output_buffer str)
            (λ output. some (watch_writable (noted output)))
            (λ output. Forward-eq c (watch_writable (noted output)) (
              watch_writable-SameState (noted output) ∙ notify_highwater-SameState c (length str))))
        (Forward-eq c c refl))
  where
    noted : Buffer → Connection
    noted output = record (notify_highwater c (length str)) { output_buffer = output }

pub send_string_piece-Forward :
    (in_thread : Bool) (c : Connection) (str : List ℕ)
    → Forward c (send_string_piece in_thread c str)
unfolding send_string_piece
send_string_piece-Forward in_thread c str =
    Forward-if c (is_connected c.conn_state)
      (run_asap in_thread (send_task str) (λ c'. send_bytes_in_reactor c' str) c) (some c)
      (λ _.
        Forward-if c in_thread (send_bytes_in_reactor c str)
          (some (emit (queued (send_task str)) c)) (λ _. send_bytes-Forward c str)
          (Forward-eq c (emit (queued (send_task str)) c) refl))
      (Forward-eq c c refl)

pub write_socket-Forward :
    (accepted : Option ℕ) (c : Connection) → Forward c (write_socket_from_buffer accepted c)
unfolding write_socket_from_buffer
write_socket-Forward none c =
    Forward-if c (content_bytes_len c.output_buffer == 0) (some c) (some (emit logged_error c))
      (λ _. Forward-eq c c refl) (Forward-eq c (emit logged_error c) refl)
write_socket-Forward (some n) c =
    Forward-if c (content_bytes_len c.output_buffer == 0) (some c)
      (Buffer.retrieve c.output_buffer n >>= λ output. some (after output))
      (λ _. Forward-eq c c refl)
      (Forward-step c (Buffer.retrieve c.output_buffer n) (λ output. some (after output))
        (λ output. Forward-eq c (after output) refl))
  where
    after : Buffer → Connection
    after output =
        emit (wrote (take n (contents c.output_buffer))) (record c { output_buffer = output })

pub send_from_buffer-Forward :
    (accepted : Option ℕ) (c : Connection) → Forward c (send_from_buffer accepted c)
unfolding send_from_buffer transfer_sending_state
send_from_buffer-Forward accepted c =
    Forward-if c (may_send_buffer c.sending_state)
      (write_socket_from_buffer accepted sending >>= λ d. some (transfer_sending_state d)) (some c)
      (λ _.
        Forward-bind c (write_socket_from_buffer accepted sending)
          (λ d. some (transfer_sending_state d))
          (Forward-from c sending (write_socket_from_buffer accepted sending) (omega arith)
            (write_socket-Forward accepted sending))
          (λ d. Forward-eq d (transfer_sending_state d) refl))
      (Forward-eq c c refl)
  where
    sending : Connection
    sending = record c { sending_state = k_sending_buffer }

pub writable-Forward : (w : Writable) (c : Connection) → Forward c (handle_socket_writable w c)
unfolding handle_socket_writable send_from_file
writable-Forward w c =
    Forward-if c (is_writing c.channel) (send_from_buffer w.accepted c >>= λ d. some (finished d))
      (some c)
      (λ _.
        Forward-bind c (send_from_buffer w.accepted c) (λ d. some (finished d))
          (send_from_buffer-Forward w.accepted c)
          (λ d. Forward-eq d (finished d) (
            finish_writing-SameState (send_with d.zero_copier w.globals w.answers d)
            ∙ send_with-SameState d.zero_copier w.globals w.answers d)))
      (Forward-eq c c refl)
  where
    finished : Connection → Connection
    finished d = finish_writing (send_with d.zero_copier w.globals w.answers d)
