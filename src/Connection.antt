-- ===== src/Connection.antt =====
-- flute/net/TcpConnection.h and TcpConnection.cc: one connection in its reactor's thread. What it
-- asks of others (the socket, the reactor's queue and timers, the callbacks of its owner) is appended
-- to `effects`. `none` is a failed `assert` or a fault of a buffer.
pub mod Ready
pub mod Chunks
pub mod Socket
pub mod Owed
pub mod Stream
pub mod Rank
pub mod Sends
pub mod State
pub mod Stuck
pub mod Writing
mod Tests
use flute.Prelude.{
  ℕ, ◌+◌, Bool, true, false, not, ◌&&◌, ◌||◌, Option, none, some, List, [], ◌∷◌, ◌++◌, length, take,
  leb, ltb, ◌==◌, if◌then◌else◌, ◌>>=◌, ◌>>◌, assert,
}
use flute.Buffer
use flute.Buffer.{Buffer, Arrived, got, failed, contents, content_bytes_len}
use flute.ZeroCopier.{
  ZeroCopier, Globals, Answers, Chunk, has_finished, set_target_fd, start, send_one_chunk, is_some,
}
use flute.Channel.{
  Channel, Events, wang_to_read, end_reading, want_to_write, end_writing, end_all, is_writing,
  is_reading, tie, remove_self_from_reactor,
}

pub data ConnState : Type 0 where
  k_disconnected k_connecting k_connected k_disconnecting : ConnState

pub data SendingState : Type 0 where
  k_sending_buffer k_sending_file k_not_sending k_sending_finished : SendingState

-- A task for the reactor's queue or a timer.
pub data Task : Type 0 where
  send_task : List ℕ → Task
  shutdown_task shutdown_and_force_close_task force_close_in_reactor_task : Task
  force_close_task start_read_task stop_read_task write_complete_task : Task
  highwater_mark_task : ℕ → Task

pub data Effect : Type 0 where
  update_channel : Events → Effect
  remove_channel : Effect
  wrote : List ℕ → Effect
  sent_chunk : List ℕ → Effect
  shutdown_write : Effect
  queued : Task → Effect
  run_after : ℕ → Task → Effect
  called_conn called_message called_close : Effect
  logged_error : Effect

pub record Connection : Type 0 where
  pub conn_state : ConnState
  pub sending_state : SendingState
  pub reading : Bool
  pub channel : Channel
  pub input_buffer : Buffer
  pub output_buffer : Buffer
  pub zero_copier : Option ZeroCopier
  pub highwater_mark : ℕ
  pub highwater_callback : Bool
  pub write_complete_callback : Bool
  pub effects : List Effect

abbrev pub is_connected : ConnState → Bool
is_connected k_connected = true
is_connected _ = false

abbrev pub is_disconnected : ConnState → Bool
is_disconnected k_disconnected = true
is_disconnected _ = false

abbrev pub is_disconnecting : ConnState → Bool
is_disconnecting k_disconnecting = true
is_disconnecting _ = false

abbrev pub is_connecting : ConnState → Bool
is_connecting k_connecting = true
is_connecting _ = false

abbrev pub emit : Effect → Connection → Connection
emit e c = record c { effects = c.effects ++ (e ∷ []) }

-- A change of the channel's events, with the call of the poller that it makes.
abbrev pub with_channel : (Channel → Channel) → Connection → Connection
with_channel f c =
    emit (update_channel (f c.channel).concerned_events) (record c { channel = f c.channel })

-- `run_asap_in_reactor`: at once in the reactor's own thread, else through its queue.
abbrev pub run_asap :
    Bool → Task → (Connection → Option Connection) → Connection → Option Connection
run_asap in_thread task f c = if in_thread then f c else some (emit (queued task) c)

abbrev pub notify_highwater : Connection → ℕ → Connection
notify_highwater c remaining =
    let old_len = content_bytes_len c.output_buffer in
    if (leb c.highwater_mark (old_len + remaining) && ltb old_len c.highwater_mark)
      && c.highwater_callback
    then emit (queued (highwater_mark_task (old_len + remaining))) c
    else c

-- "if (!m_channel->is_writing()) m_channel->want_to_write();"
unfoldable pub watch_writable : Connection → Connection
watch_writable c = if not (is_writing c.channel) then with_channel want_to_write c else c

-- The part of `send_bytes_in_reactor` that has bytes to send.
unfoldable pub buffer_bytes : Connection → List ℕ → Option Connection
buffer_bytes c str = do
  output ← Buffer.append c.output_buffer str
  some (watch_writable (record (notify_highwater c (length str)) { output_buffer = output }))

unfoldable pub send_bytes_in_reactor : Connection → List ℕ → Option Connection
send_bytes_in_reactor c str =
    if is_disconnected c.conn_state
    then some c
    else if ltb 0 (length str)
    then buffer_bytes c str
    else some c

unfoldable pub send_string_piece : Bool → Connection → List ℕ → Option Connection
send_string_piece in_thread c message =
    if is_connected c.conn_state
    then run_asap in_thread (send_task message) (λ c'. send_bytes_in_reactor c' message) c
    else some c

-- In the reactor's thread the bytes are copied, otherwise they are taken out for the queued task.
unfoldable pub send_buffer : Bool → Connection → Buffer → Option (Connection × Buffer)
send_buffer in_thread c buf =
    if is_connected c.conn_state
    then (if in_thread
        then (do c' ← send_bytes_in_reactor c (contents buf); some (c', Buffer.retrieve_all buf))
        else (do
          (message, buf') ← Buffer.readout_all_as_string buf
          some (emit (queued (send_task message)) c, buf')))
    else some (c, buf)

unfoldable pub enable_zero_copy : Connection → ZeroCopier → Connection
enable_zero_copy c z =
    with_channel want_to_write
      (record c { zero_copier = some (start (set_target_fd c.channel.fd z)) })

unfoldable pub shutdown_in_reactor : Connection → Connection
shutdown_in_reactor c = if not (is_writing c.channel) then emit shutdown_write c else c

abbrev pub set_state : ConnState → Connection → Connection
set_state s c = record c { conn_state = s }

unfoldable pub shutdown : Bool → Connection → Option Connection
shutdown in_thread c =
    if is_connected c.conn_state
    then run_asap in_thread shutdown_task (λ c'. some (shutdown_in_reactor c'))
        (set_state k_disconnecting c)
    else some c

unfoldable pub shutdown_and_force_close_in_reactor_after : ℕ → Connection → Connection
shutdown_and_force_close_in_reactor_after seconds c =
    emit (run_after seconds force_close_in_reactor_task) (shutdown_in_reactor c)

unfoldable pub shutdown_and_force_close_after : Bool → ℕ → Connection → Option Connection
shutdown_and_force_close_after in_thread seconds c =
    if is_connected c.conn_state
    then run_asap in_thread shutdown_and_force_close_task
        (λ c'. some (shutdown_and_force_close_in_reactor_after seconds c'))
        (set_state k_disconnecting c)
    else some c

abbrev pub can_close : ConnState → Bool
can_close s = is_connected s || is_disconnecting s

unfoldable pub force_close : Connection → Connection
force_close c =
    if can_close c.conn_state
    then emit (queued force_close_in_reactor_task) (set_state k_disconnecting c)
    else c

unfoldable pub force_close_with_delay : ℕ → Connection → Connection
force_close_with_delay seconds c =
    if can_close c.conn_state
    then emit (run_after seconds force_close_task) (set_state k_disconnecting c)
    else c

-- The callbacks of the owner and of the user, which may use the connection.
pub record Owner : Type 0 where
  pub conn_callback : Connection → Option Connection
  pub message_callback : Connection → Option Connection
  pub close_callback : Connection → Option Connection

unfoldable pub handle_close : Owner → Connection → Option Connection
handle_close o c = do
  assert (can_close c.conn_state)
  c₁ ← o.conn_callback (emit called_conn (with_channel end_all (set_state k_disconnected c)))
  o.close_callback (emit called_close c₁)

unfoldable pub force_close_in_reactor : Owner → Connection → Option Connection
force_close_in_reactor o c = if can_close c.conn_state then handle_close o c else some c

unfoldable pub start_read_in_reactor : Connection → Connection
start_read_in_reactor c =
    if not c.reading || not (is_reading c.channel)
    then record (with_channel wang_to_read c) { reading = true }
    else c

unfoldable pub stop_read_in_reactor : Connection → Connection
stop_read_in_reactor c =
    if c.reading || is_reading c.channel
    then record (with_channel end_reading c) { reading = false }
    else c

unfoldable pub connect_established : Owner → Connection → Option Connection
connect_established o c = do
  assert (is_connecting c.conn_state)
  o.conn_callback (
      emit called_conn (
        with_channel wang_to_read (record c { conn_state = k_connected; channel = tie c.channel })))

-- `connect_destroyed` up to the removal from the reactor.
unfoldable pub take_down : Owner → Connection → Option Connection
take_down o c =
    if is_connected c.conn_state
    then o.conn_callback (emit called_conn (with_channel end_all (set_state k_disconnected c)))
    else some c

unfoldable pub connect_destroyed : Owner → Connection → Option Connection
connect_destroyed o c = do
  c₁ ← take_down o c
  channel ← remove_self_from_reactor c₁.channel
  some (emit remove_channel (record c₁ { channel = channel }))

unfoldable pub handle_error : Connection → Connection
handle_error c = emit logged_error c
