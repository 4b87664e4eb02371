-- ===== src/Connector.antt =====
-- flute/net/Connector.h and Connector.cc: the connector of a client, in its reactor's thread. What it
-- asks of the sockets, the reactor and its owner is put in front of `effects`, the latest first. `none`
-- is a failed `assert` or the use of a channel that is not there.
pub mod Balance
pub mod Delay
mod Tests
use flute.Prelude.{
  ℕ, ◌*◌, Bool, true, false, Option, none, some, List, [], ◌∷◌, min, if◌then◌else◌, ◌>>=◌, ◌>>◌,
  assert,
}
use flute.Channel
use flute.Channel.{Channel, want_to_write, end_all, remove_self_from_reactor}

pub data ConnectorState : Type 0 where
  k_disconnected k_connecting k_connected : ConnectorState

-- The error number of `connect`, with zero for success.
pub data Errno : Type 0 where
  success einprogress eintr eisconn : Errno
  eagain eaddrinuse eaddrnotavail econnrefused enetunreach : Errno
  eacces eperm eafnosupport ealready ebadf efault enotsock : Errno
  other : Errno

pub data Effect : Type 0 where
  opened closed handed_over : ℕ → Effect
  run_after : ℕ → Effect
  queued_start queued_stop queued_reset : Effect

pub record Connector : Type 0 where
  pub state : ConnectorState
  pub is_connected : Bool
  pub channel : Option Channel
  pub retry_delay_ms : ℕ
  pub effects : List Effect

abbrev pub k_max_retry_delay_ms : ℕ
k_max_retry_delay_ms = 30000

abbrev pub k_init_retry_delay_ms : ℕ
k_init_retry_delay_ms = 500

abbrev pub new : Connector
new = record {
  state = k_disconnected;
  is_connected = false;
  channel = none;
  retry_delay_ms = k_init_retry_delay_ms;
  effects = [];
}

abbrev pub emit : Effect → Connector → Connector
emit e c = record c { effects = e ∷ c.effects }

abbrev pub is_disconnected : ConnectorState → Bool
is_disconnected k_disconnected = true
is_disconnected _ = false

abbrev pub is_connecting : ConnectorState → Bool
is_connecting k_connecting = true
is_connecting _ = false

abbrev pub is_absent : Option Channel → Bool
is_absent none = true
is_absent (some _) = false

unfoldable pub retry : ℕ → Connector → Connector
retry sockfd c =
    let c' = emit (closed sockfd) (record c { state = k_disconnected }) in
    if c.is_connected
    then record (emit (run_after c.retry_delay_ms) c') {
      retry_delay_ms = min (c.retry_delay_ms * 2) k_max_retry_delay_ms;
    }
    else c'

unfoldable pub connecting : ℕ → Connector → Option Connector
connecting sockfd c = do
  assert (is_absent c.channel)
  some (record c { state = k_connecting; channel = some (want_to_write (Channel.new sockfd)) })

-- What the error number of `connect` leads to.
unfoldable pub after_connect : ℕ → Errno → Connector → Option Connector
after_connect sockfd success c = connecting sockfd c
after_connect sockfd einprogress c = connecting sockfd c
after_connect sockfd eintr c = connecting sockfd c
after_connect sockfd eisconn c = connecting sockfd c
after_connect sockfd eagain c = some (retry sockfd c)
after_connect sockfd eaddrinuse c = some (retry sockfd c)
after_connect sockfd eaddrnotavail c = some (retry sockfd c)
after_connect sockfd econnrefused c = some (retry sockfd c)
after_connect sockfd enetunreach c = some (retry sockfd c)
after_connect sockfd _ c = some (emit (closed sockfd) c)

unfoldable pub connect : ℕ → Errno → Connector → Option Connector
connect sockfd errno c = after_connect sockfd errno (emit (opened sockfd) c)

-- `sockfd` and `errno` are what `socket` and `connect` would answer.
unfoldable pub start_in_reactor : ℕ → Errno → Connector → Option Connector
start_in_reactor sockfd errno c = do
  assert (is_disconnected c.state)
  if c.is_connected then connect sockfd errno c else some c

unfoldable pub start : Bool → ℕ → Errno → Connector → Option Connector
start in_thread sockfd errno c =
    let c' = record c { is_connected = true } in
    if in_thread then start_in_reactor sockfd errno c' else some (emit queued_start c')

unfoldable pub stop : Connector → Connector
stop c = emit queued_stop (record c { is_connected = false })

-- The socket, and the connector whose channel is to be reset by a task.
unfoldable pub remove_and_reset_channel : Connector → Option (ℕ × Connector)
remove_and_reset_channel c = do
  channel ← c.channel
  removed ← remove_self_from_reactor (end_all channel)
  some (removed.fd, emit queued_reset (record c { channel = some removed }))

unfoldable pub reset_channel : Connector → Connector
reset_channel c = record c { channel = none }

unfoldable pub stop_in_reactor : Connector → Option Connector
stop_in_reactor c =
    if is_connecting c.state
    then (do
      (sockfd, c') ← remove_and_reset_channel (record c { state = k_disconnected })
      some (retry sockfd c'))
    else some c

unfoldable pub restart : ℕ → Errno → Connector → Option Connector
restart sockfd errno c = start_in_reactor sockfd errno (record c {
  state = k_disconnected;
  retry_delay_ms = k_init_retry_delay_ms;
  is_connected = true;
})

-- What follows the removal of the channel in `handle_write`: `err` says that the socket has an error,
-- and `self_connect` that it is connected to itself.
unfoldable pub after_write : Bool → Bool → ℕ → Connector → Connector
after_write err self_connect sockfd c =
    if err
    then retry sockfd c
    else if self_connect
    then retry sockfd c
    else if c.is_connected
    then emit (handed_over sockfd) (record c { state = k_connected })
    else emit (closed sockfd) (record c { state = k_connected })

unfoldable pub handle_write : Bool → Bool → Connector → Option Connector
handle_write err self_connect c =
    if is_connecting c.state
    then (do
      (sockfd, c') ← remove_and_reset_channel c
      some (after_write err self_connect sockfd c'))
    else (do assert (is_disconnected c.state); some c)

unfoldable pub handle_error : Connector → Option Connector
handle_error c =
    if is_connecting c.state
    then (do (sockfd, c') ← remove_and_reset_channel c; some (retry sockfd c'))
    else some c

-- What may happen to a connector: the calls, the tasks and timers that it queued, and the events of
-- its channel.
pub data Op : Type 0 where
  start_op : Bool → ℕ → Errno → Op
  start_task_op : ℕ → Errno → Op
  stop_op stop_task_op reset_task_op : Op
  restart_op : ℕ → Errno → Op
  write_op : Bool → Bool → Op
  error_op : Op

unfoldable pub perform : Op → Connector → Option Connector
perform (start_op in_thread sockfd errno) c = start in_thread sockfd errno c
perform (start_task_op sockfd errno) c = start_in_reactor sockfd errno c
perform stop_op c = some (stop c)
perform stop_task_op c = stop_in_reactor c
perform reset_task_op c = some (reset_channel c)
perform (restart_op sockfd errno) c = restart sockfd errno c
perform (write_op err self_connect) c = handle_write err self_connect c
perform error_op c = handle_error c
