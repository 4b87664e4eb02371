-- ===== src/TcpServer.antt =====
-- flute/net/TcpServer.h and TcpServer.cc, and the pool of reactors of ReactorThreadPool.cc. A reactor
-- is known by its address, and so is its thread; `tasks` are the tasks pending in each. A connection
-- is known by the number in its name; of TcpConnection.cc the model has the states. A connection that is
-- shutting down is still read, so the removal of its channel fails. `none` is a failed `assert`.
pub mod Pool
pub mod Tasks
pub mod Inv
pub mod Lives
pub mod Runs
pub mod Ends
mod Tests
use flute.Prelude.{
  ℕ, zero, suc, ◌+◌, ◌%◌, ◌^◌, Bool, true, false, not, ◌&&◌, ◌||◌, Option, none, some, List, [],
  ◌∷◌, ◌++◌, length, get_elem?, ◌==◌, if◌then◌else◌, ◌>>=◌, ◌>>◌, assert,
}
use flute.Connection.{
  ConnState, k_disconnected, k_connecting, k_connected, k_disconnecting, is_connecting,
  is_connected, is_disconnecting, can_close,
}

pub record ReactorThreadPool : Type 0 where
  pub default_reactor : ℕ
  pub has_started : Bool
  pub size_pool : ℕ
  pub next_idx : ℕ
  pub reactors : List ℕ

abbrev pub new_pool : ℕ → ReactorThreadPool
new_pool reactor = record {
  default_reactor = reactor;
  has_started = false;
  size_pool = 0;
  next_idx = 0;
  reactors = [];
}

-- `start_reactor` gives the address of the reactor of the thread with this number.
abbrev pub start_reactors : (ℕ → ℕ) → ℕ → ℕ → List ℕ
start_reactors start_reactor i zero = []
start_reactors start_reactor i (suc n) = start_reactor i ∷ start_reactors start_reactor (i + 1) n

unfoldable pub start_pool : (ℕ → ℕ) → ReactorThreadPool → Option ReactorThreadPool
start_pool start_reactor p = do
  assert (not p.has_started)
  some (record p {
    reactors = p.reactors ++ start_reactors start_reactor 0 p.size_pool;
    has_started = true;
  })

-- `none` in place of an element is an access out of range.
abbrev pub next_from : List ℕ → ReactorThreadPool → Option (ℕ × ReactorThreadPool)
next_from [] p = some (p.default_reactor, p)
next_from (r ∷ rs) p = do
  reactor ← get_elem? (r ∷ rs) p.next_idx
  some (reactor, record p { next_idx = (p.next_idx + 1) % length (r ∷ rs) })

unfoldable pub get_next_reactor : ReactorThreadPool → Option (ℕ × ReactorThreadPool)
get_next_reactor p = do assert p.has_started; next_from p.reactors p

abbrev pub by_hash : List ℕ → ℕ → ReactorThreadPool → Option ℕ
by_hash [] hash p = some p.default_reactor
by_hash (r ∷ rs) hash p = get_elem? (r ∷ rs) (hash % length (r ∷ rs))

unfoldable pub get_reactor_for_hashcode : ℕ → ReactorThreadPool → Option ℕ
get_reactor_for_hashcode hash p = by_hash p.reactors hash p

abbrev pub or_default : List ℕ → ReactorThreadPool → List ℕ
or_default [] p = p.default_reactor ∷ []
or_default (r ∷ rs) p = r ∷ rs

unfoldable pub get_all_reactors : ReactorThreadPool → Option (List ℕ)
get_all_reactors p = do assert p.has_started; some (or_default p.reactors p)

-- A task that the server has a reactor run, with the connection's number.
pub data Task : Type 0 where
  connect_established_task remove_connection_task connect_destroyed_task : ℕ → Task

pub record TcpServer : Type 0 where
  pub acceptor_reactor : ℕ
  pub pool : ReactorThreadPool
  pub has_started : ℕ
  pub is_listenning : Bool
  pub conn_counter : ℕ
  pub conn_map : ℕ → Bool
  pub conn_reactor : ℕ → ℕ
  pub conn_state : ℕ → ConnState
  pub tasks : ℕ → List Task

abbrev pub put {ℓ} : {A : Type ℓ} → ℕ → A → (ℕ → A) → ℕ → A
put k v f n = if n == k then v else f n

abbrev pub new : ℕ → TcpServer
new reactor = record {
  acceptor_reactor = reactor;
  pool = new_pool reactor;
  has_started = 0;
  is_listenning = false;
  conn_counter = 0;
  conn_map = λ n. false;
  conn_reactor = λ n. reactor;
  conn_state = λ n. k_disconnected;
  tasks = λ r. [];
}

abbrev pub set_reactor_pool_size : ℕ → TcpServer → TcpServer
set_reactor_pool_size num_threads s = record s {
  pool = record (s.pool) { size_pool = num_threads };
}

-- In the thread of the acceptor's reactor, where `listen` runs at once.
unfoldable pub start : (ℕ → ℕ) → TcpServer → Option TcpServer
start start_reactor s =
    if s.has_started == 0
    then (do
      pool ← start_pool start_reactor s.pool
      assert (not s.is_listenning)
      some (record s { pool = pool; has_started = 1; is_listenning = true }))
    else some (record s { has_started = 1 })

abbrev pub queue_in_reactor : ℕ → Task → TcpServer → TcpServer
queue_in_reactor reactor task s = record s {
  tasks = put reactor (s.tasks reactor ++ (task ∷ [])) s.tasks;
}

-- `here` is the reactor of the calling thread, and `call` runs the task.
abbrev pub run_asap_in_reactor :
    (Task → TcpServer → Option TcpServer) → ℕ → ℕ → Task → TcpServer → Option TcpServer
run_asap_in_reactor call here reactor task s =
    if here == reactor then call task s else some (queue_in_reactor reactor task s)

abbrev pub set_state : ℕ → ConnState → TcpServer → TcpServer
set_state n state s = record s { conn_state = put n state s.conn_state }

unfoldable pub remove_connection_in_reactor : ℕ → TcpServer → Option TcpServer
remove_connection_in_reactor n s = do
  assert (s.conn_map n)
  some (
      queue_in_reactor (s.conn_reactor n) (connect_destroyed_task n)
        (record s { conn_map = put n false s.conn_map }))

unfoldable pub call_task : Task → TcpServer → Option TcpServer
call_task (connect_established_task n) s = do
  assert (is_connecting (s.conn_state n))
  some (set_state n k_connected s)
call_task (remove_connection_task n) s = remove_connection_in_reactor n s
call_task (connect_destroyed_task n) s = do
  assert (not (is_disconnecting (s.conn_state n)))
  some (if is_connected (s.conn_state n) then set_state n k_disconnected s else s)

-- The close callback, in the thread of the connection's reactor.
unfoldable pub remove_conn : ℕ → TcpServer → Option TcpServer
remove_conn n s =
    run_asap_in_reactor call_task (s.conn_reactor n) s.acceptor_reactor (remove_connection_task n) s

-- The counter is 32 bits wide.
abbrev pub with_connection : ℕ → ReactorThreadPool → TcpServer → TcpServer
with_connection reactor pool s = record s {
  pool = pool;
  conn_counter = (s.conn_counter + 1) % 2 ^ 32;
  conn_map = put s.conn_counter true s.conn_map;
  conn_reactor = put s.conn_counter reactor s.conn_reactor;
  conn_state = put s.conn_counter k_connecting s.conn_state;
}

unfoldable pub new_conn_callback : TcpServer → Option TcpServer
new_conn_callback s = do
  (reactor, pool) ← get_next_reactor s.pool
  run_asap_in_reactor call_task s.acceptor_reactor reactor (connect_established_task s.conn_counter)
      (with_connection reactor pool s)

-- The destructor, in the thread of the acceptor's reactor, with the connections of the map in its order.
-- `reset` leaves no connection at the name.
unfoldable pub destroy : List ℕ → TcpServer → Option TcpServer
destroy [] s = some s
destroy (n ∷ rest) s =
    run_asap_in_reactor call_task s.acceptor_reactor (s.conn_reactor n) (connect_destroyed_task n)
      (record s { conn_map = put n false s.conn_map })
    >>= destroy rest

-- What may happen: a connection arrives, a reactor takes its next task, a connection's socket is
-- closed, or its owner shuts it down.
pub data Event : Type 0 where
  arrives : Event
  takes_task closes shuts_down : ℕ → Event

abbrev pub take_task : ℕ → List Task → TcpServer → Option TcpServer
take_task reactor [] s = some s
take_task reactor (task ∷ rest) s = call_task task (record s { tasks = put reactor rest s.tasks })

-- `handle_close` in the thread of the connection's reactor.
unfoldable pub close : ℕ → TcpServer → Option TcpServer
close n s =
    if can_close (s.conn_state n) then remove_conn n (set_state n k_disconnected s) else some s

abbrev pub apply : Event → TcpServer → Option TcpServer
apply arrives s = new_conn_callback s
apply (takes_task reactor) s = take_task reactor (s.tasks reactor) s
apply (closes n) s = close n s
apply (shuts_down n) s =
    some (if is_connected (s.conn_state n) then set_state n k_disconnecting s else s)

abbrev pub run : List Event → TcpServer → Option TcpServer
run [] s = some s
run (event ∷ events) s = apply event s >>= λ t. run events t
