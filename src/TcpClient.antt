-- ===== src/TcpClient.antt =====
-- flute/net/TcpClient.h and TcpClient.cc, over the connector, all in the thread of the reactor. A
-- connection is known by the number in its name; of TcpConnection.cc the model has the states. `tasks`
-- are the connections that the reactor is to destroy. `none` is a failed `assert`, here or in the
-- connector.
pub mod Inv
pub mod Runs
pub mod Ends
mod Tests
use flute.Prelude.{
  ℕ, zero, suc, ◌+◌, map, Bool, true, false, ◌&&◌, Option, none, some, List, [], ◌∷◌, ◌++◌, ◌==◌,
  if◌then◌else◌, ◌>>=◌, ◌>>◌, assert,
}
use flute.Connection.{
  ConnState, k_disconnected, k_connecting, k_connected, k_disconnecting, is_connecting,
  is_connected, can_close,
}
use flute.Connector
use flute.Connector.{Connector, Errno, Effect, handed_over, handle_write}

pub record TcpClient : Type 0 where
  pub connector : Connector
  pub connection : Option ℕ
  pub conn_counter : ℕ
  pub conn_state : ℕ → ConnState
  pub wants_connection : Bool
  pub enable_retry : Bool
  pub tasks : List ℕ

-- `wants_connection` is `m_is_connected`, which is true from the start.
abbrev pub new : TcpClient
new = record {
  connector = Connector.new;
  connection = none;
  conn_counter = 1;
  conn_state = λ n. k_disconnected;
  wants_connection = true;
  enable_retry = false;
  tasks = [];
}

abbrev pub set_state : ℕ → ConnState → TcpClient → TcpClient
set_state n state t = record t { conn_state = λ m. if m == n then state else t.conn_state m }

-- `sockfd` and `errno` are what `socket` and `connect` would answer.
unfoldable pub connect : ℕ → Errno → TcpClient → Option TcpClient
connect sockfd errno t = do
  connector ← Connector.start true sockfd errno t.connector
  some (record t { wants_connection = true; connector = connector })

-- `shutdown` of the connection, which is only told from its state.
abbrev pub shut_down : Option ℕ → TcpClient → TcpClient
shut_down none t = t
shut_down (some n) t = if is_connected (t.conn_state n) then set_state n k_disconnecting t else t

unfoldable pub disconnect : TcpClient → TcpClient
disconnect t = shut_down t.connection (record t { wants_connection = false })

unfoldable pub stop : TcpClient → TcpClient
stop t = record t { wants_connection = false; connector = Connector.stop t.connector }

-- `connect_established` of a connection.
abbrev pub established : ℕ → TcpClient → Option TcpClient
established n t = do assert (is_connecting (t.conn_state n)); some (set_state n k_connected t)

unfoldable pub new_conn_callback : TcpClient → Option TcpClient
new_conn_callback t =
    let n = t.conn_counter in
    established n
      (set_state n k_connecting (record t { conn_counter = n + 1; connection = some n }))

abbrev pub is_current : Option ℕ → ℕ → Bool
is_current none n = false
is_current (some m) n = m == n

unfoldable pub remove_conn : ℕ → Errno → ℕ → TcpClient → Option TcpClient
remove_conn sockfd errno n t = do
  assert (is_current t.connection n)
  let removed : TcpClient = record t { connection = none; tasks = t.tasks ++ (n ∷ []) }
  if t.enable_retry && t.wants_connection
      then Connector.restart sockfd errno t.connector
        >>= (λ connector. some (record removed { connector = connector }))
      else some removed

-- The connector's socket is writable: it may hand it over.
abbrev pub has_handed_over : List Effect → Bool
has_handed_over (handed_over _ ∷ _) = true
has_handed_over _ = false

unfoldable pub connector_writable : Bool → Bool → TcpClient → Option TcpClient
connector_writable err self_connect t = do
  connector ← handle_write err self_connect (record (t.connector) { effects = [] })
  let t' : TcpClient = record t { connector = connector }
  if has_handed_over connector.effects then new_conn_callback t' else some t'

-- `handle_close` of a connection, with the client's callback.
unfoldable pub close : ℕ → Errno → ℕ → TcpClient → Option TcpClient
close sockfd errno n t =
    if can_close (t.conn_state n)
    then remove_conn sockfd errno n (set_state n k_disconnected t)
    else some t

-- `connect_destroyed` of the first connection that waits for it.
unfoldable pub take_task : List ℕ → TcpClient → TcpClient
take_task [] t = t
take_task (n ∷ rest) t =
    let t' : TcpClient = record t { tasks = rest } in
    if is_connected (t.conn_state n) then set_state n k_disconnected t' else t'

-- What may happen: the calls, the tasks and the events of the connector, a connection's socket is
-- closed, or the reactor takes a task.
pub data Op : Type 0 where
  connects connector_starts : ℕ → Errno → Op
  enables_retry disconnects stops connector_stops connector_resets connector_fails takes_task : Op
  connector_writes : Bool → Bool → Op
  closes : ℕ → Errno → ℕ → Op

unfoldable pub on_connector : (Connector → Option Connector) → TcpClient → Option TcpClient
on_connector call t = do connector ← call t.connector; some (record t { connector = connector })

unfoldable pub perform : Op → TcpClient → Option TcpClient
perform (connects sockfd errno) t = connect sockfd errno t
perform enables_retry t = some (record t { enable_retry = true })
perform disconnects t = some (disconnect t)
perform stops t = some (stop t)
perform (connector_starts sockfd errno) t = on_connector (Connector.start_in_reactor sockfd errno) t
perform connector_stops t = on_connector Connector.stop_in_reactor t
perform connector_resets t = on_connector (λ c. some (Connector.reset_channel c)) t
perform connector_fails t = on_connector Connector.handle_error t
perform (connector_writes err self_connect) t = connector_writable err self_connect t
perform (closes sockfd errno n) t = close sockfd errno n t
perform takes_task t = some (take_task t.tasks t)

-- What the destructor leaves to the reactor: connections to close and to destroy. The tasks of the
-- connector are the connector's; `removes_connector` tells that a timer, which holds it, is set.
pub data LeftTask : Type 0 where
  force_closes destroys : ℕ → LeftTask

pub record Left : Type 0 where
  pub connector : Connector
  pub conn_state : ℕ → ConnState
  pub tasks : List LeftTask
  pub removes_connector : Bool

-- The connections that the client had are still to be destroyed.
abbrev pub left_by : TcpClient → Left
left_by t = record {
  connector = t.connector;
  conn_state = t.conn_state;
  tasks = map destroys t.tasks;
  removes_connector = false;
}

abbrev pub set_left : ℕ → ConnState → Left → Left
set_left n state l = record l { conn_state = λ m. if m == n then state else l.conn_state m }

-- `force_close` of a connection.
abbrev pub force_close : ℕ → Left → Left
force_close n l =
    if can_close (l.conn_state n)
    then record (set_left n k_disconnecting l) { tasks = l.tasks ++ (force_closes n ∷ []) }
    else l

-- `unique` tells that nobody else holds the connection. Its new close callback needs no client.
abbrev pub end_with : Bool → Option ℕ → Left → Left
end_with unique none l = record l {
  connector = Connector.stop l.connector;
  removes_connector = true;
}
end_with unique (some n) l = if unique then force_close n l else l

unfoldable pub destroy : Bool → TcpClient → Left
destroy unique t = end_with unique t.connection (left_by t)

-- `force_close_in_reactor` closes a connection by `handle_close`, and its callback, `detail::remove_conn`,
-- has it destroyed.
unfoldable pub take_left : List LeftTask → Left → Left
take_left [] l = l
take_left (force_closes n ∷ rest) l =
    if can_close (l.conn_state n)
    then record (set_left n k_disconnected l) { tasks = rest ++ (destroys n ∷ []) }
    else record l { tasks = rest }
take_left (destroys n ∷ rest) l =
    let l' : Left = record l { tasks = rest } in
    if is_connected (l.conn_state n) then set_left n k_disconnected l' else l'

unfoldable pub take_lefts : ℕ → Left → Left
take_lefts zero l = l
take_lefts (suc turns) l = take_lefts turns (take_left l.tasks l)
