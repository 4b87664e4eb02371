-- ===== src/Connection/State.antt =====
-- The states of a connection of flute/net/TcpConnection.cc, and the order in which it passes them.
use flute.Prelude.{
  ℕ, ◌≤◌, ◌≡◌, refl, ap, Bool, true, false, Option, none, some, List, [], ◌∷◌, arith, if◌then◌else◌,
  ◌>>=◌, if_either, Bool-cases, inl, inr, assert, ◌>>◌,
}
use flute.Buffer
use flute.Buffer.{Buffer, Arrived, got, failed, contents, content_bytes_len}
use flute.Channel.{end_all, wang_to_read, tie, remove_self_from_reactor}
use flute.ZeroCopier.{ZeroCopier}
use flute.Connection.{
  Task, send_task, send_buffer, logged_error, remove_channel, is_connecting, set_state, run_asap,
  shutdown_task, shutdown_and_force_close_task, called_conn, called_close, called_message,
  Connection, k_connected, k_disconnecting, k_disconnected, emit, with_channel, queued, Owner,
  is_connected, can_close, send_bytes_in_reactor, send_string_piece, enable_zero_copy, shutdown,
  shutdown_in_reactor, shutdown_and_force_close_in_reactor_after, shutdown_and_force_close_after,
  force_close, force_close_with_delay, force_close_in_reactor, handle_close, start_read_in_reactor,
  stop_read_in_reactor, connect_established, connect_destroyed, take_down, handle_error,
}
use flute.Connection.Ready.{Writable, after_read, handle_socket_readable, handle_socket_writable}
use flute.Connection.Rank.{
  rank, Forward, Forward-some, Forward-none, Forward-eq, Forward-bind, Forward-from, Forward-if,
  rank-is_connected, rank-can_close, rank-is_connecting, rank_max, SameState,
  shutdown_in_reactor-SameState, start_read-SameState, stop_read-SameState, Forward-step,
}
use flute.Connection.Sends.{send_bytes-Forward, send_string_piece-Forward, writable-Forward}

-- What may happen to a connection: the public methods, called in its reactor's thread or not, the
-- tasks that they queue, and the events of its channel.
pub data Op : Type 0 where
  send_op : Bool → List ℕ → Op
  send_buffer_op : Bool → Buffer → Op
  send_task_op : List ℕ → Op
  enable_zero_copy_op : ZeroCopier → Op
  shutdown_op : Bool → Op
  shutdown_task_op : Op
  shutdown_and_force_close_op : Bool → ℕ → Op
  shutdown_and_force_close_task_op : ℕ → Op
  force_close_op force_close_task_op : Op
  force_close_with_delay_op : ℕ → Op
  start_read_op stop_read_op : Op
  established_op destroyed_op : Op
  readable_op : Arrived → Op
  writable_op : Writable → Op
  error_op : Op

unfoldable pub perform : Owner → Op → Connection → Option Connection
perform o (send_op in_thread str) c = send_string_piece in_thread c str
perform o (send_buffer_op in_thread buf) c = do (c', _) ← send_buffer in_thread c buf; some c'
perform o (send_task_op str) c = send_bytes_in_reactor c str
perform o (enable_zero_copy_op z) c = some (enable_zero_copy c z)
perform o (shutdown_op in_thread) c = shutdown in_thread c
perform o shutdown_task_op c = some (shutdown_in_reactor c)
perform o (shutdown_and_force_close_op in_thread s) c = shutdown_and_force_close_after in_thread s c
perform o (shutdown_and_force_close_task_op s) c =
    some (shutdown_and_force_close_in_reactor_after s c)
perform o force_close_op c = some (force_close c)
perform o force_close_task_op c = force_close_in_reactor o c
perform o (force_close_with_delay_op s) c = some (force_close_with_delay s c)
perform o start_read_op c = some (start_read_in_reactor c)
perform o stop_read_op c = some (stop_read_in_reactor c)
perform o established_op c = connect_established o c
perform o destroyed_op c = connect_destroyed o c
perform o (readable_op arrived) c = handle_socket_readable o arrived c
perform o (writable_op w) c = handle_socket_writable w c
perform o error_op c = some (handle_error c)

-- The callbacks use the connection by its methods only, so they do not set it back either.
pub record IsPolite (o : Owner) : Type 0 where
  pub on_conn : (c : Connection) → Forward c (o.conn_callback c)
  pub on_message : (c : Connection) → Forward c (o.message_callback c)
  pub on_close : (c : Connection) → Forward c (o.close_callback c)

-- Closing.
Forward-assert :
    (c : Connection) (b : Bool) (r : Option Connection)
    → (b ≡ true → Forward c r)
    → Forward c (assert b >> r)
Forward-assert c true r h = h refl
Forward-assert c false r h = Forward-none c

-- The connection as `connect_destroyed` and `handle_close` hand it to the callbacks.
abbrev closed : Connection → Connection
closed c = emit called_conn (with_channel end_all (set_state k_disconnected c))

handle_close-Forward : (o : Owner) → IsPolite o → (c : Connection) → Forward c (handle_close o c)
unfolding handle_close
handle_close-Forward o p c =
    Forward-assert c (can_close c.conn_state)
      (o.conn_callback (closed c) >>= λ d. o.close_callback (emit called_close d))
      (λ _.
        Forward-from c (closed c)
          (o.conn_callback (closed c) >>= λ d. o.close_callback (emit called_close d))
          (rank_max c.conn_state)
          (Forward-bind (closed c) (o.conn_callback (closed c))
            (λ d. o.close_callback (emit called_close d)) (p.on_conn (closed c))
            (λ d.
              Forward-from d (emit called_close d) (o.close_callback (emit called_close d))
                (omega arith) (p.on_close (emit called_close d)))))

after_read-Forward :
    (o : Owner)
    → IsPolite o
    → (arrived : Arrived) (c : Connection) → Forward c (after_read o arrived c)
unfolding after_read handle_error
after_read-Forward o p (got []) c = handle_close-Forward o p c
after_read-Forward o p (got (x ∷ str)) c =
    Forward-from c (emit called_message c) (o.message_callback (emit called_message c))
      (omega arith) (p.on_message (emit called_message c))
after_read-Forward o p (failed errno) c = Forward-eq c (emit logged_error c) refl

readable-Forward :
    (o : Owner)
    → IsPolite o
    → (arrived : Arrived) (c : Connection) → Forward c (handle_socket_readable o arrived c)
unfolding handle_socket_readable
readable-Forward o p arrived c =
    Forward-step c (Buffer.read_all_from c.input_buffer arrived)
      (λ x. after_read o x.0 (record c { input_buffer = x.1 }))
      (λ x.
        Forward-from c (record c { input_buffer = x.1 })
          (after_read o x.0 (record c { input_buffer = x.1 })) (omega arith)
          (after_read-Forward o p x.0 (record c { input_buffer = x.1 })))

established-Forward :
    (o : Owner) → IsPolite o → (c : Connection) → Forward c (connect_established o c)
unfolding connect_established
established-Forward o p c =
    Forward-assert c (is_connecting c.conn_state) (o.conn_callback opened) (λ e.
      Forward-from c opened (o.conn_callback opened) (rank-is_connecting c.conn_state e)
        (p.on_conn opened))
  where
    opened : Connection
    opened =
        emit called_conn (
          with_channel wang_to_read
            (record c { conn_state = k_connected; channel = tie c.channel }))

destroyed-Forward : (o : Owner) → IsPolite o → (c : Connection) → Forward c (connect_destroyed o c)
unfolding connect_destroyed take_down
destroyed-Forward o p c =
    Forward-bind c (take_down o c) removed
      (Forward-if c (is_connected c.conn_state) (o.conn_callback (closed c)) (some c)
        (λ _.
          Forward-from c (closed c) (o.conn_callback (closed c)) (rank_max c.conn_state)
            (p.on_conn (closed c)))
        (Forward-eq c c refl))
      (λ d.
        Forward-step d (remove_self_from_reactor d.channel)
          (λ channel. some (emit remove_channel (record d { channel = channel })))
          (λ channel. Forward-eq d (emit remove_channel (record d { channel = channel })) refl))
  where
    removed : Connection → Option Connection
    removed d = do
      channel ← remove_self_from_reactor d.channel
      some (emit remove_channel (record d { channel = channel }))

-- A state that the connection gives up for a shutdown.
leaves-Forward :
    (c d : Connection) → rank c.conn_state ≤ 2 → d.conn_state ≡ k_disconnecting → Forward c (some d)
leaves-Forward c d h e = Forward-some c d (omega (arith, h, ap rank e))

run_asap_leaves-Forward :
    (in_thread : Bool) (task : Task) (f : Connection → Connection) (c : Connection)
    → SameState (set_state k_disconnecting c) (f (set_state k_disconnecting c))
    → Forward c (
        if is_connected c.conn_state
        then run_asap in_thread task (λ d. some (f d)) (set_state k_disconnecting c)
        else some c)
run_asap_leaves-Forward in_thread task f c h =
    Forward-if c (is_connected c.conn_state)
      (run_asap in_thread task (λ d. some (f d)) (set_state k_disconnecting c)) (some c)
      (λ e.
        Forward-if c in_thread (some (f (set_state k_disconnecting c)))
          (some (emit (queued task) (set_state k_disconnecting c)))
          (λ _.
            leaves-Forward c (f (set_state k_disconnecting c)) (rank-is_connected c.conn_state e) h)
          (leaves-Forward c (emit (queued task) (set_state k_disconnecting c))
            (rank-is_connected c.conn_state e) refl))
      (Forward-eq c c refl)

shutdown-Forward : (in_thread : Bool) (c : Connection) → Forward c (shutdown in_thread c)
unfolding shutdown
shutdown-Forward in_thread c =
    run_asap_leaves-Forward in_thread shutdown_task shutdown_in_reactor c
      (shutdown_in_reactor-SameState (set_state k_disconnecting c))

shutdown_after-Forward :
    (in_thread : Bool) (s : ℕ) (c : Connection)
    → Forward c (shutdown_and_force_close_after in_thread s c)
unfolding shutdown_and_force_close_after shutdown_and_force_close_in_reactor_after
shutdown_after-Forward in_thread s c =
    run_asap_leaves-Forward in_thread shutdown_and_force_close_task
      (shutdown_and_force_close_in_reactor_after s) c
      (shutdown_in_reactor-SameState (set_state k_disconnecting c))

abbrev Later : Connection → Connection → Type 0
Later c d = rank c.conn_state ≤ rank d.conn_state

force_close-Rank : (c : Connection) → rank c.conn_state ≤ rank (force_close c).conn_state
unfolding force_close
force_close-Rank c =
    if_either (Later c) (can_close c.conn_state) _ c (λ e. rank-can_close c.conn_state e)
      (λ _. omega arith)

force_close_with_delay-Rank :
    (s : ℕ) (c : Connection) → rank c.conn_state ≤ rank (force_close_with_delay s c).conn_state
unfolding force_close_with_delay
force_close_with_delay-Rank s c =
    if_either (Later c) (can_close c.conn_state) _ c (λ e. rank-can_close c.conn_state e)
      (λ _. omega arith)

send_buffer-Forward :
    (in_thread : Bool) (c : Connection) (buf : Buffer)
    → Forward c (send_buffer in_thread c buf >>= λ x. some (x.0))
unfolding send_buffer
send_buffer-Forward in_thread c buf = elim (Bool-cases (is_connected c.conn_state)) [
  | inr e ↦ rw e (Forward-eq c c refl)
  | inl e ↦ rw e (elim (Bool-cases in_thread) [
    | inl f ↦ rw f (
        send_contents-Forward (send_bytes_in_reactor c (contents buf))
          (send_bytes-Forward c (contents buf)))
    | inr f ↦ rw f (take_out-Forward (Buffer.readout_all_as_string buf))
  ])
]
  where
    with_rest : Buffer → Connection → Option (Connection × Buffer)
    with_rest b c' = some (c', b)

    queue_rest : List ℕ × Buffer → Option (Connection × Buffer)
    queue_rest (message, b) = some (emit (queued (send_task message)) c, b)

    send_contents-Forward :
        (m : Option Connection)
        → Forward c m
        → Forward c ((m >>= with_rest (Buffer.retrieve_all buf)) >>= λ x. some (x.0))
    send_contents-Forward none h = h
    send_contents-Forward (some d) h = h

    take_out-Forward :
        (m : Option (List ℕ × Buffer)) → Forward c ((m >>= queue_rest) >>= λ x. some (x.0))
    take_out-Forward none = Forward-none c
    take_out-Forward (some (message, buf')) =
        Forward-eq c (emit (queued (send_task message)) c) refl

-- No call, task or event of a connection that succeeds sets its state back: it goes from connecting
-- to connected, disconnecting and disconnected, in this order, and it stays there, if the callbacks of
-- its owner do not set it back.
pub perform-Forward :
    (o : Owner) → IsPolite o → (op : Op) (c : Connection) → Forward c (perform o op c)
unfolding perform enable_zero_copy handle_error shutdown_and_force_close_in_reactor_after
    force_close_in_reactor
perform-Forward o p (send_op in_thread str) c = send_string_piece-Forward in_thread c str
perform-Forward o p (send_buffer_op in_thread buf) c = send_buffer-Forward in_thread c buf
perform-Forward o p (send_task_op str) c = send_bytes-Forward c str
perform-Forward o p (enable_zero_copy_op z) c = Forward-eq c (enable_zero_copy c z) refl
perform-Forward o p (shutdown_op in_thread) c = shutdown-Forward in_thread c
perform-Forward o p shutdown_task_op c =
    Forward-eq c (shutdown_in_reactor c) (shutdown_in_reactor-SameState c)
perform-Forward o p (shutdown_and_force_close_op in_thread s) c =
    shutdown_after-Forward in_thread s c
perform-Forward o p (shutdown_and_force_close_task_op s) c =
    Forward-eq c (shutdown_and_force_close_in_reactor_after s c) (shutdown_in_reactor-SameState c)
perform-Forward o p force_close_op c = Forward-some c (force_close c) (force_close-Rank c)
perform-Forward o p force_close_task_op c =
    Forward-if c (can_close c.conn_state) (handle_close o c) (some c)
      (λ _. handle_close-Forward o p c) (Forward-eq c c refl)
perform-Forward o p (force_close_with_delay_op s) c =
    Forward-some c (force_close_with_delay s c) (force_close_with_delay-Rank s c)
perform-Forward o p start_read_op c =
    Forward-eq c (start_read_in_reactor c) (start_read-SameState c)
perform-Forward o p stop_read_op c = Forward-eq c (stop_read_in_reactor c) (stop_read-SameState c)
perform-Forward o p established_op c = established-Forward o p c
perform-Forward o p destroyed_op c = destroyed-Forward o p c
perform-Forward o p (readable_op arrived) c = readable-Forward o p arrived c
perform-Forward o p (writable_op w) c = writable-Forward w c
perform-Forward o p error_op c = Forward-eq c (handle_error c) refl
