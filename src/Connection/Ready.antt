-- ===== src/Connection/Ready.antt =====
-- A connection of flute/net/TcpConnection.cc whose socket is readable or writable.
use flute.Prelude.{
  ℕ, Bool, true, false, not, ◌&&◌, Option, none, some, [], ◌∷◌, take, ◌==◌, if◌then◌else◌, ◌>>=◌,
}
use flute.Buffer
use flute.Buffer.{Buffer, Arrived, got, failed, contents, content_bytes_len}
use flute.ZeroCopier.{ZeroCopier, Globals, Answers, has_finished, send_one_chunk}
use flute.Channel.{end_writing, is_writing}
use flute.Connection.{
  SendingState, k_sending_buffer, k_sending_file, k_not_sending, k_sending_finished,
  write_complete_task, wrote, sent_chunk, queued, called_message, logged_error, Connection,
  is_disconnecting, emit, with_channel, shutdown_in_reactor, Owner, handle_close, handle_error,
}

-- What follows the `readv` of `handle_socket_readable`.
unfoldable pub after_read : Owner → Arrived → Connection → Option Connection
after_read o (got []) c = handle_close o c
after_read o (got (x ∷ str)) c = o.message_callback (emit called_message c)
after_read o (failed errno) c = some (handle_error c)

unfoldable pub handle_socket_readable : Owner → Arrived → Connection → Option Connection
handle_socket_readable o arrived c = do
  (answer, input) ← Buffer.read_all_from c.input_buffer arrived
  after_read o answer (record c { input_buffer = input })

-- `write` accepted `n` bytes, or failed (`none`).
unfoldable pub write_socket_from_buffer : Option ℕ → Connection → Option Connection
write_socket_from_buffer accepted c =
    if content_bytes_len c.output_buffer == 0 then some c else elim accepted [
      | none ↦ some (emit logged_error c)
      | some n ↦ do
        output ← Buffer.retrieve c.output_buffer n
        some
            (emit (wrote (take n (contents c.output_buffer))) (record c { output_buffer = output }))
    ]

abbrev pub copier_busy : Option ZeroCopier → Bool
copier_busy none = false
copier_busy (some z) = not (has_finished z)

-- It is called in `k_sending_file` only where there is a copier.
unfoldable pub transfer_from : SendingState → Connection → SendingState
transfer_from k_not_sending c =
    if not (content_bytes_len c.output_buffer == 0)
    then k_sending_buffer
    else if copier_busy c.zero_copier
    then k_sending_file
    else k_not_sending
transfer_from k_sending_buffer c =
    if content_bytes_len c.output_buffer == 0 then k_not_sending else k_sending_buffer
transfer_from k_sending_file c = if copier_busy c.zero_copier then k_sending_file else k_not_sending
transfer_from k_sending_finished c = k_sending_finished

unfoldable pub transfer_sending_state : Connection → Connection
unfolding transfer_from
transfer_sending_state c = record c { sending_state = transfer_from c.sending_state c }

abbrev pub may_send_buffer : SendingState → Bool
may_send_buffer k_not_sending = true
may_send_buffer k_sending_buffer = true
may_send_buffer _ = false

abbrev pub may_send_file : SendingState → Bool
may_send_file k_not_sending = true
may_send_file k_sending_file = true
may_send_file _ = false

abbrev pub is_idle : SendingState → Bool
is_idle k_not_sending = true
is_idle _ = false

-- The three steps of `handle_socket_writable`.
unfoldable pub send_from_buffer : Option ℕ → Connection → Option Connection
send_from_buffer accepted c =
    if may_send_buffer c.sending_state
    then (do
      c' ← write_socket_from_buffer accepted (record c { sending_state = k_sending_buffer })
      some (transfer_sending_state c'))
    else some c

unfoldable pub copy_chunk : Globals → Answers → Connection → ZeroCopier → Connection
copy_chunk g a c z =
    let chunk = send_one_chunk g z a in
    let c' = transfer_sending_state (
      emit (sent_chunk chunk.handed)
        (record c { sending_state = k_sending_file; zero_copier = some chunk.copier })) in
    record c' { zero_copier = if has_finished chunk.copier then none else some chunk.copier }

unfoldable pub send_with : Option ZeroCopier → Globals → Answers → Connection → Connection
send_with none g a c = c
send_with (some z) g a c =
    if (content_bytes_len c.output_buffer == 0) && may_send_file c.sending_state
    then copy_chunk g a c z
    else c

unfoldable pub send_from_file : Globals → Answers → Connection → Connection
unfolding send_with copy_chunk
send_from_file g a c = send_with c.zero_copier g a c

unfoldable pub notify_write_complete : Connection → Connection
notify_write_complete c =
    if c.write_complete_callback then emit (queued write_complete_task) c else c

unfoldable pub shutdown_if_disconnecting : Connection → Connection
shutdown_if_disconnecting c = if is_disconnecting c.conn_state then shutdown_in_reactor c else c

unfoldable pub finish_writing : Connection → Connection
finish_writing c =
    if is_idle c.sending_state
    then shutdown_if_disconnecting (notify_write_complete (with_channel end_writing c))
    else c

-- What the kernel answers to the calls of one writable event.
pub record Writable : Type 0 where
  pub accepted : Option ℕ
  pub globals : Globals
  pub answers : Answers

unfoldable pub handle_socket_writable : Writable → Connection → Option Connection
handle_socket_writable w c =
    if is_writing c.channel
    then (do
      c' ← send_from_buffer w.accepted c
      some (finish_writing (send_from_file w.globals w.answers c')))
    else some c
