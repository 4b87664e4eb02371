-- ===== src/TcpClient/Runs.antt =====
-- Runs of a client of flute/net/TcpClient.cc.
use mathlib.Core.Option.{some-injective}
use flute.Prelude.{
  ℕ, ◌≡◌, refl, ◌∙◌, sym, subst, ◌⊎◌, inl, inr, Bool, true, ◌&&◌, ◌==◌, Option, none, some, ◌>>=◌,
  assert, if◌then◌else◌, >>=-eq-some, Bool-cases, Option-cases, List, [], ◌∷◌, ◌++◌, arith,
}
use flute.Connection.{k_disconnected, can_close}
use flute.Connector
use flute.Connector.{Connector, Errno, Effect, handed_over, handle_write}
use flute.TcpClient.{
  new, connects, connector_starts, enables_retry, disconnects, stops, connector_stops,
  connector_resets, connector_fails, takes_task, connector_writes, closes, TcpClient, set_state,
  connect, is_current, remove_conn, has_handed_over, connector_writable, close, Op, perform,
}
use flute.TcpClient.Inv.{
  IsWhole, Stays, with_connector-IsWhole, called, on_connector-IsWhole, connect-IsWhole,
  stop-IsWhole, disconnect-IsWhole, take_task-IsWhole, closed-IsWhole, new_conn_callback-eq,
  with_new-IsWhole, handle_write-handed_over, start_in_reactor-Stays, stop_in_reactor-Stays,
  handle_error-Stays,
}

handle_write-Stays : (err self_connect : Bool) → Stays (handle_write err self_connect)
unfolding handle_write
handle_write-Stays err self_connect c c' h e = absurd (ground (arith, h, e))

reset_channel-Stays : Stays (λ c. some (Connector.reset_channel c))
unfolding Connector.reset_channel
reset_channel-Stays c c' h e = ground (arith, h, e)

-- A connector that is not done has no connection.
no_connection :
    (t : TcpClient) → IsWhole t → t.connector.state ≡ Connector.k_connecting → t.connection ≡ none
no_connection t v h = elim (Option-cases t.connection) [
  | inl e ↦ e
  | inr (n, e) ↦ absurd (ground (arith, h, (v.current n e).1))
]

connector_writable-IsWhole :
    (err self_connect : Bool) (t t' : TcpClient)
    → IsWhole t
    → connector_writable err self_connect t ≡ some t'
    → IsWhole t'
unfolding connector_writable
connector_writable-IsWhole err self_connect t t' v e =
    let (c, run, rest) =
      >>=-eq-some (handle_write err self_connect (record (t.connector) { effects = [] })) _ e in
    elim (Bool-cases (has_handed_over c.effects)) [
      | inl f ↦
          let (was, done) = handle_write-handed_over err self_connect t.connector c run f in
          let w = with_connector-IsWhole c t.wants_connection t (λ n g. done) v in
          let t₁ : TcpClient = record t { connector = c } in
          subst IsWhole (some-injective _ _ (sym (new_conn_callback-eq t₁) ∙ (rw f at rest)))
            (with_new-IsWhole t₁ (no_connection t v was) done w)
      | inr f ↦ subst IsWhole (some-injective _ _ (rw f at rest)) (
          with_connector-IsWhole c t.wants_connection t
            (λ n g.
              handle_write-Stays err self_connect (record (t.connector) { effects = [] }) c
                ((v.current n g).1) run)
            v)
    ]

-- The client after its connection is gone, with the connector that it may have started again.
abbrev gone : ℕ → TcpClient → TcpClient
gone n t = record (set_state n k_disconnected t) { connection = none; tasks = t.tasks ++ (n ∷ []) }

remove_conn-IsWhole :
    (sockfd : ℕ) (errno : Errno) (n : ℕ) (t t' : TcpClient)
    → t.connection ≡ some n
    → IsWhole t
    → remove_conn sockfd errno n (set_state n k_disconnected t) ≡ some t'
    → IsWhole t'
unfolding remove_conn
remove_conn-IsWhole sockfd errno n t t' h v e =
    let w = closed-IsWhole n t h v in
    let (_, _, rest) = >>=-eq-some (assert (is_current t.connection n)) _ e in
    elim (Bool-cases (t.enable_retry && t.wants_connection)) [
      | inl f ↦
          let (c, run, same) =
            called (Connector.restart sockfd errno t.connector)
              (λ c. record (gone n t) { connector = c }) (rw f at rest) in
          subst IsWhole same (
            with_connector-IsWhole c t.wants_connection (gone n t)
              (λ m g. absurd (ground (arith, g))) w)
      | inr f ↦ subst IsWhole (some-injective _ _ (rw f at rest)) w
    ]

-- A connection that can be closed is the client's.
own_connection :
    (n : ℕ) (t : TcpClient) → IsWhole t → can_close (t.conn_state n) ≡ true → t.connection ≡ some n
own_connection n t v h = elim (v.alive n) [ inl e ↦ absurd (ground (arith, e, h)) | inr e ↦ e ]

close-IsWhole :
    (sockfd : ℕ) (errno : Errno) (n : ℕ) (t t' : TcpClient)
    → IsWhole t
    → close sockfd errno n t ≡ some t'
    → IsWhole t'
unfolding close
close-IsWhole sockfd errno n t t' v e = elim (Bool-cases (can_close (t.conn_state n))) [
  | inl f ↦ remove_conn-IsWhole sockfd errno n t t' (own_connection n t v f) v (rw f at e)
  | inr f ↦ subst IsWhole (some-injective _ _ (rw f at e)) v
]

perform-IsWhole : (op : Op) (t t' : TcpClient) → IsWhole t → perform op t ≡ some t' → IsWhole t'
unfolding perform
perform-IsWhole (connects sockfd errno) t t' v e = connect-IsWhole sockfd errno t t' v e
perform-IsWhole enables_retry t t' v e =
    subst IsWhole (some-injective _ _ e)
      (record { alive = v.alive; current = v.current; queued = v.queued })
perform-IsWhole disconnects t t' v e = subst IsWhole (some-injective _ _ e) (disconnect-IsWhole t v)
perform-IsWhole stops t t' v e = subst IsWhole (some-injective _ _ e) (stop-IsWhole t v)
perform-IsWhole (connector_starts sockfd errno) t t' v e =
    on_connector-IsWhole _ t t' (start_in_reactor-Stays sockfd errno) v e
perform-IsWhole connector_stops t t' v e = on_connector-IsWhole _ t t' stop_in_reactor-Stays v e
perform-IsWhole connector_resets t t' v e = on_connector-IsWhole _ t t' reset_channel-Stays v e
perform-IsWhole connector_fails t t' v e = on_connector-IsWhole _ t t' handle_error-Stays v e
perform-IsWhole (connector_writes err self_connect) t t' v e =
    connector_writable-IsWhole err self_connect t t' v e
perform-IsWhole (closes sockfd errno n) t t' v e = close-IsWhole sockfd errno n t t' v e
perform-IsWhole takes_task t t' v e =
    subst IsWhole (some-injective _ _ e) (take_task-IsWhole t.tasks t v.queued v)

unfoldable pub run : List Op → TcpClient → Option TcpClient
run [] t = some t
run (op ∷ ops) t = perform op t >>= run ops

pub runs-IsWhole : (ops : List Op) (t t' : TcpClient) → IsWhole t → run ops t ≡ some t' → IsWhole t'
unfolding run
runs-IsWhole [] t t' v e = subst IsWhole (some-injective _ _ e) v
runs-IsWhole (op ∷ ops) t t' v e =
    let (u, first, others) = >>=-eq-some (perform op t) (run ops) e in
    runs-IsWhole ops u t' (perform-IsWhole op t u v first) others

pub new-IsWhole : IsWhole new
new-IsWhole = record {
  alive = λ n. inl refl;
  current = λ n e. absurd (ground (arith, e));
  queued = tt;
}

restart-some :
    (sockfd : ℕ) (errno : Errno) (c : Connector)
    → c.channel ≡ none
    → (c' : Connector) × (Connector.restart sockfd errno c ≡ some c')
unfolding Connector.restart Connector.start_in_reactor Connector.connect Connector.after_connect
    Connector.connecting
restart-some sockfd errno c h = elim (Option-cases (Connector.restart sockfd errno c)) [
  | inl e ↦ absurd (ground (arith, h, e))
  | inr found ↦ found
]

close_own :
    (sockfd : ℕ) (errno : Errno) (n : ℕ) (t : TcpClient)
    → can_close (t.conn_state n) ≡ true
    → t.connection ≡ some n
    → close sockfd errno n t ≡ (
        if t.enable_retry && t.wants_connection
        then Connector.restart sockfd errno t.connector
          >>= (λ c. some (record (gone n t) { connector = c }))
        else some (gone n t))
unfolding close remove_conn
close_own sockfd errno n t live own =
    let self : is_current t.connection n ≡ true = ground (arith, own) in rw (live, self) refl

-- Whatever calls, tasks and events a client has been through, only its own connection is not
-- disconnected, and its close does not fail where the connector's channel has been reset: neither
-- that this connection is the client's, nor that the connector can start again. Then the client has
-- no connection, and its connection is disconnected and waits for its end.
pub run-close :
    (ops : List Op) (t : TcpClient) (sockfd : ℕ) (errno : Errno) (n : ℕ)
    → run ops new ≡ some t
    → can_close (t.conn_state n) ≡ true
    → t.connector.channel ≡ none
    → ((m : ℕ) → (t.conn_state m ≡ k_disconnected) ⊎ (m ≡ n))
      × ((t' : TcpClient) × (close sockfd errno n t ≡ some t')
          × (t'.connection ≡ none)
          × (t'.conn_state n ≡ k_disconnected)
          × (t'.tasks ≡ t.tasks ++ n ∷ []))
run-close ops t sockfd errno n e live reset =
    let v = runs-IsWhole ops new t new-IsWhole e in
    let own = own_connection n t v live in
    let self : (n == n) ≡ true = ground arith in
    (
      λ m. elim (v.alive m) [ inl d ↦ inl d | inr f ↦ inr (ground (arith, f, own)) ],
      elim (Bool-cases (t.enable_retry && t.wants_connection)) [
        | inl f ↦
            let (c, started) = restart-some sockfd errno t.connector reset in
            (
              record (gone n t) { connector = c },
              close_own sockfd errno n t live own ∙ rw (f, started) refl,
              refl,
              rw self refl,
              refl,
            )
        | inr f ↦
            (gone n t, close_own sockfd errno n t live own ∙ rw f refl, refl, rw self refl, refl)
      ],
    )
