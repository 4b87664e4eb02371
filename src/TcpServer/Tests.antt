-- ===== src/TcpServer/Tests.antt =====
-- Runs of the definitions of flute/net/TcpServer.cc.
use flute.Prelude.{
  ℕ, ◌+◌, ◌≡◌, refl, inr, true, false, not, ◌&&◌, ◌==◌, ltb, if◌then◌else◌, Option, none, some,
  List, [], ◌∷◌, ◌>>=◌, arith,
}
use flute.Connection.{k_connected, k_disconnected, is_connected}
use flute.TcpServer.{
  TcpServer, Task, connect_destroyed_task, new, new_pool, set_reactor_pool_size, start, start_pool,
  Event, arrives, takes_task, closes, run, call_task, remove_conn, new_conn_callback,
  remove_connection_in_reactor, get_next_reactor, close,
}
use flute.TcpServer.Inv.{Inv}
use flute.TcpServer.Runs.{start-Inv, run-Inv}
use flute.TcpServer.{destroy}
use flute.TcpServer.Tasks.{one_if, destroying}
use flute.TcpServer.Ends.{is_here, destroy-ends}

-- Two threads, with the reactors 100 and 101, beside the acceptor's reactor 7.
abbrev start_reactor : ℕ → ℕ
start_reactor i = 100 + i

started :
    (s : TcpServer) × (start start_reactor (set_reactor_pool_size 2 (new 7)) ≡ some s)
    × Inv s
    × (s.conn_counter ≡ 0)
started = start-Inv start_reactor 7 2

-- Two connections arrive, the first is established, closed, and removed.
abbrev events : List Event
events = arrives ∷ (arrives ∷ (takes_task 100 ∷ (closes 0 ∷ (takes_task 7 ∷ []))))

abbrev pending_at_100 : Option TcpServer → List Task
pending_at_100 none = []
pending_at_100 (some s) = s.tasks 100

destroyed_next :
    pending_at_100 (start start_reactor (set_reactor_pool_size 2 (new 7)) >>= run events)
    ≡ connect_destroyed_task 0 ∷ []
unfolding start start_pool call_task remove_conn new_conn_callback remove_connection_in_reactor
    get_next_reactor close
destroyed_next = refl

run-Inv_example : (t : TcpServer) × (run events started.0 ≡ some t) × Inv t
run-Inv_example = run-Inv events started.0 started.2 (omega (arith, started.3))

-- A connection of the acceptor's reactor, and one of another thread.
abbrev two_connections : TcpServer
two_connections = record (new 7) {
  pool = record (new_pool 7) { has_started = true; reactors = 100 ∷ [] };
  conn_counter = 2;
  conn_map = λ n. ltb n 2;
  conn_reactor = λ n. if n == 1 then 100 else 7;
  conn_state = λ n. if ltb n 2 then k_connected else k_disconnected;
}

two_connections-Inv : Inv two_connections
two_connections-Inv = record {
  ready = record { started = refl; next = inr (omega arith) };
  each = λ n. ground arith;
  fresh = λ n h. ground (arith, h);
  homes = λ r. tt;
}

destroy-ends_example :
    (t : TcpServer) × (destroy (0 ∷ (1 ∷ [])) two_connections ≡ some t)
    × ((n : ℕ)
        → (t.conn_map n ≡ false)
          × ((two_connections.conn_map n && is_here two_connections n)
                && is_connected (t.conn_state n)
              ≡ false)
          × (destroying n (t.tasks (two_connections.conn_reactor n)) ≡ (
              if two_connections.conn_map n
              then one_if (not (is_here two_connections n))
              else destroying n (two_connections.tasks (two_connections.conn_reactor n)))))
destroy-ends_example =
    destroy-ends (0 ∷ (1 ∷ [])) two_connections two_connections-Inv (λ n. ground arith)
      (λ n. ground arith)
