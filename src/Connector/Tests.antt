-- ===== src/Connector/Tests.antt =====
-- Connectors of flute/net/Connector.cc at concrete states.
use flute.Prelude.{true, false, some, [], ◌∷◌, arith}
use flute.Channel
use flute.Channel.{want_to_write}
use flute.Connector.{Connector, k_connecting, opened, write_op, perform}
use flute.Connector.Balance.{Balances, IsBalanced, perform-Balances}

abbrev dialing : Connector
dialing = record {
  state = k_connecting;
  is_connected = true;
  channel = some (want_to_write (Channel.new 7));
  retry_delay_ms = 500;
  effects = opened 7 ∷ [];
}

dialing-IsBalanced : IsBalanced dialing
unfolding Channel.new
dialing-IsBalanced = record { sockets = λ fd. ground arith }

-- The socket is writable and has no error.
perform-Balances_example : Balances (perform (write_op false false) dialing)
perform-Balances_example = perform-Balances (write_op false false) dialing tt dialing-IsBalanced
