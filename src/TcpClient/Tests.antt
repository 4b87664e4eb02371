-- ===== src/TcpClient/Tests.antt =====
-- Runs of the definitions of flute/net/TcpClient.cc.
use flute.Prelude.{
  true, false, ◌+◌, length, ◌==◌, if◌then◌else◌, ℕ, ◌≡◌, ◌⊎◌, refl, none, some, List, [], ◌∷◌, ◌++◌,
}
use flute.Connection.{k_disconnected, k_connecting, k_connected}
use flute.Channel
use flute.Channel.{remove_self_from_reactor}
use flute.Connector
use flute.Connector.{success, handed_over, queued_reset}
use flute.TcpClient.{
  TcpClient, Op, new, connects, connector_writes, connector_resets, close, connect, perform,
  new_conn_callback, connector_writable, on_connector, take_lefts, destroy,
}
use flute.TcpClient.Ends.{IsOver, run-destroy}
use flute.TcpClient.Runs.{run, run-close}

-- The client connects with the socket 5, which is handed over.
abbrev connecting : List Op
connecting = connects 5 success ∷ connector_writes false false ∷ connector_resets ∷ []

-- The client then, with its connection 1.
abbrev connected : TcpClient
connected = record new {
  connector = record {
    state = Connector.k_connected;
    is_connected = true;
    channel = none;
    retry_delay_ms = 500;
    effects = handed_over 5 ∷ queued_reset ∷ [];
  };
  connection = some 1;
  conn_counter = 2;
  conn_state = λ m. if m == 1 then k_connected else if m == 1 then k_connecting else k_disconnected;
}

does_connect : run connecting new ≡ some connected
unfolding run perform connect new_conn_callback connector_writable on_connector Connector.start
    Connector.start_in_reactor Connector.connect Connector.after_connect Connector.connecting
    Connector.handle_write Connector.remove_and_reset_channel remove_self_from_reactor
    Connector.after_write Connector.reset_channel Channel.new
does_connect = refl

run-close_example :
    ((m : ℕ) → (connected.conn_state m ≡ k_disconnected) ⊎ (m ≡ 1))
    × ((t' : TcpClient) × (close 6 success 1 connected ≡ some t')
        × (t'.connection ≡ none)
        × (t'.conn_state 1 ≡ k_disconnected)
        × (t'.tasks ≡ [] ++ 1 ∷ []))
run-close_example = run-close connecting connected 6 success 1 does_connect refl refl

-- The client whose connection was closed.
abbrev closed : TcpClient
closed = record connected {
  connection = none;
  conn_state = λ m. if m == 1 then k_disconnected else connected.conn_state m;
  tasks = 1 ∷ [];
}

run-destroy_example :
    IsOver connected.connection connected.connector
      (take_lefts (length connected.tasks + 2) (destroy true connected))
run-destroy_example = run-destroy connecting connected does_connect
