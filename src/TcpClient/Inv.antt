-- ===== src/TcpClient/Inv.antt =====
-- What holds of a client of flute/net/TcpClient.cc at all times.
use mathlib.Core.Option.{some-injective}
use flute.Prelude.{
  All, All-imp, if_either, ℕ, ◌+◌, ◌<◌, ◌≡◌, refl, ap, ◌∙◌, sym, subst, ◌⊎◌, inl, inr, Bool, true,
  false, ◌==◌, Option, none, some, ◌>>=◌, >>=-eq-some, Bool-cases, List, [], ◌∷◌, ◌++◌, arith,
}
use flute.Connection.{
  ConnState, k_disconnected, k_connecting, k_connected, k_disconnecting, is_connected, can_close,
}
use flute.Connector
use flute.Connector.{Connector, Errno, Effect, handed_over, handle_write}
use flute.TcpClient.{
  TcpClient, set_state, connect, shut_down, disconnect, stop, new_conn_callback, has_handed_over,
  take_task, on_connector,
}

-- Only the client's own connection is not disconnected; it is connected or about to be closed, its
-- number has been given out, and the connector is done with it. Those that wait for their end are
-- disconnected.
pub record IsWhole (t : TcpClient) : Type 0 where
  pub alive : (n : ℕ) → (t.conn_state n ≡ k_disconnected) ⊎ (t.connection ≡ some n)
  pub current :
      (n : ℕ)
      → t.connection ≡ some n
      → (can_close (t.conn_state n) ≡ true)
        × (t.connector.state ≡ Connector.k_connected)
        × (n < t.conn_counter)
  pub queued : All (λ n. (t.conn_state n ≡ k_disconnected) × (n < t.conn_counter)) t.tasks

All-snoc : (P : ℕ → Type 0) (xs : List ℕ) (x : ℕ) → All P xs → P x → All P (xs ++ x ∷ [])
All-snoc P [] x a p = (p, tt)
All-snoc P (y ∷ ys) x (q, a) p = (q, All-snoc P ys x a p)

-- A call of the connector that does not leave the connected state.
abbrev pub Stays : (Connector → Option Connector) → Type 0
Stays call =
    (c c' : Connector)
    → c.state ≡ Connector.k_connected
    → call c ≡ some c'
    → c'.state ≡ Connector.k_connected

pub start_in_reactor-Stays :
    (sockfd : ℕ) (errno : Errno) → Stays (Connector.start_in_reactor sockfd errno)
unfolding Connector.start_in_reactor
start_in_reactor-Stays sockfd errno c c' h e = absurd (ground (arith, h, e))

start-Stays : (sockfd : ℕ) (errno : Errno) → Stays (Connector.start true sockfd errno)
unfolding Connector.start Connector.start_in_reactor
start-Stays sockfd errno c c' h e = absurd (ground (arith, h, e))

pub stop_in_reactor-Stays : Stays Connector.stop_in_reactor
unfolding Connector.stop_in_reactor
stop_in_reactor-Stays c c' h e = ground (arith, h, e)

pub handle_error-Stays : Stays Connector.handle_error
unfolding Connector.handle_error
handle_error-Stays c c' h e = ground (arith, h, e)

-- Another connector, which is still done where there is a connection.
pub with_connector-IsWhole :
    (c : Connector) (wants : Bool) (t : TcpClient)
    → ((n : ℕ) → t.connection ≡ some n → c.state ≡ Connector.k_connected)
    → IsWhole t
    → IsWhole (record t { connector = c; wants_connection = wants })
with_connector-IsWhole c wants t h v = record {
  alive = v.alive;
  current = λ n e. let (a, _, small) = v.current n e in (a, h n e, small);
  queued = v.queued;
}

-- `some` of a call of the connector.
pub called :
    {A : Type 0} (m : Option A) (f : A → TcpClient) {t' : TcpClient}
    → (m >>= λ a. some (f a)) ≡ some t'
    → (a : A) × (m ≡ some a) × (f a ≡ t')
called m f e =
    let (a, run, same) = >>=-eq-some m (λ a. some (f a)) e in (a, run, some-injective _ _ same)

pub on_connector-IsWhole :
    (call : Connector → Option Connector) (t t' : TcpClient)
    → Stays call
    → IsWhole t
    → on_connector call t ≡ some t'
    → IsWhole t'
unfolding on_connector
on_connector-IsWhole call t t' stays v e =
    let (c, run, same) = called (call t.connector) (λ c. record t { connector = c }) e in
    subst IsWhole same (
      with_connector-IsWhole c t.wants_connection t
        (λ n f. stays t.connector c ((v.current n f).1) run) v)

pub connect-IsWhole :
    (sockfd : ℕ) (errno : Errno) (t t' : TcpClient)
    → IsWhole t
    → connect sockfd errno t ≡ some t'
    → IsWhole t'
unfolding connect
connect-IsWhole sockfd errno t t' v e =
    let (c, run, same) =
      called (Connector.start true sockfd errno t.connector)
        (λ c. record t { wants_connection = true; connector = c }) e in
    subst IsWhole same (
      with_connector-IsWhole c true t
        (λ n f. start-Stays sockfd errno t.connector c ((v.current n f).1) run) v)

pub stop-IsWhole : (t : TcpClient) → IsWhole t → IsWhole (stop t)
unfolding stop Connector.stop
stop-IsWhole t v =
    with_connector-IsWhole (Connector.stop t.connector) false t (λ n e. (v.current n e).1) v

-- A disconnected one is not the one that can be closed.
absurd_close : (s : ConnState) → can_close s ≡ true → s ≡ k_disconnected → ⊥
absurd_close s h e = ground (arith, h, e)

pub other_state :
    (m n : ℕ) (state : ConnState) (t : TcpClient)
    → can_close (t.conn_state m) ≡ true
    → t.conn_state n ≡ k_disconnected
    → (set_state m state t).conn_state n ≡ k_disconnected
other_state m n state t h e = elim (Bool-cases (n == m)) [
  | inl f ↦
      let same : n ≡ m = ground (arith, f) in
      absurd (absurd_close (t.conn_state m) h (ap t.conn_state (sym same) ∙ e))
  | inr f ↦ rw f e
]

-- The state of one connection, which stays as it is where it matters.
set_state-IsWhole :
    (m : ℕ) (state : ConnState) (t : TcpClient)
    → t.connection ≡ some m
    → can_close state ≡ true
    → IsWhole t
    → IsWhole (set_state m state t)
set_state-IsWhole m state t h₀ live v = record {
  alive = λ n. elim (Bool-cases (n == m)) [
    | inl e ↦ inr (h₀ ∙ ap some (ground (arith, e)))
    | inr e ↦ rw e (v.alive n)
  ];
  current = λ n e.
      let (a, done, small) = v.current n e in
      elim (Bool-cases (n == m)) [
        | inl f ↦ (rw f live, done, small)
        | inr f ↦ (rw f a, done, small)
      ];
  queued =
      All-imp t.tasks (λ n h. (other_state m n state t ((v.current m h₀).0) (h.0), h.1)) v.queued;
}

shut_down-IsWhole :
    (o : Option ℕ) (t : TcpClient) → t.connection ≡ o → IsWhole t → IsWhole (shut_down o t)
shut_down-IsWhole none t h v = v
shut_down-IsWhole (some n) t h v =
    if_either IsWhole (is_connected (t.conn_state n)) (set_state n k_disconnecting t) t
      (λ _. set_state-IsWhole n k_disconnecting t h refl v) (λ _. v)

pub disconnect-IsWhole : (t : TcpClient) → IsWhole t → IsWhole (disconnect t)
unfolding disconnect
disconnect-IsWhole t v =
    shut_down-IsWhole t.connection (record t { wants_connection = false }) refl
      (with_connector-IsWhole t.connector false t (λ n e. (v.current n e).1) v)

-- A connection that has become disconnected.
pub take_task-IsWhole :
    (ns : List ℕ) (t : TcpClient)
    → All (λ n. (t.conn_state n ≡ k_disconnected) × (n < t.conn_counter)) ns
    → IsWhole t
    → IsWhole (take_task ns t)
unfolding take_task
take_task-IsWhole [] t a v = v
take_task-IsWhole (n ∷ rest) t ((state, _), others) v =
    rw state (record { alive = v.alive; current = v.current; queued = others })

-- The client without its connection, which is disconnected.
pub closed-IsWhole :
    (n : ℕ) (t : TcpClient)
    → t.connection ≡ some n
    → IsWhole t
    → IsWhole
        (record (set_state n k_disconnected t) { connection = none; tasks = t.tasks ++ (n ∷ []) })
closed-IsWhole n t h v = record {
  alive = λ m. elim (Bool-cases (m == n)) [
    | inl e ↦ inl (rw e refl)
    | inr e ↦ elim (v.alive m) [ inl d ↦ inl (rw e d) | inr f ↦ absurd (ground (arith, e, f, h)) ]
  ];
  current = λ m e. absurd (ground (arith, e));
  queued =
      All-snoc
        (λ m. ((set_state n k_disconnected t).conn_state m ≡ k_disconnected) × (m < t.conn_counter))
        t.tasks n
        (All-imp t.tasks
          (λ m a. (elim (Bool-cases (m == n)) [ inl e ↦ rw e refl | inr e ↦ rw e (a.0) ], a.1))
          v.queued)
        (ground arith, (v.current n h).2);
}

-- The client with a new connection.
abbrev pub with_new : TcpClient → TcpClient
with_new t = set_state t.conn_counter k_connected (
    set_state t.conn_counter k_connecting
      (record t { conn_counter = t.conn_counter + 1; connection = some t.conn_counter }))

pub new_conn_callback-eq : (t : TcpClient) → new_conn_callback t ≡ some (with_new t)
unfolding new_conn_callback
new_conn_callback-eq t =
    let self : (t.conn_counter == t.conn_counter) ≡ true = ground arith in rw self refl

pub with_new-IsWhole :
    (t : TcpClient)
    → t.connection ≡ none
    → t.connector.state ≡ Connector.k_connected
    → IsWhole t
    → IsWhole (with_new t)
with_new-IsWhole t h done v = record {
  alive = λ m. elim (Bool-cases (m == t.conn_counter)) [
    | inl e ↦ inr (ground (arith, e))
    | inr e ↦ elim (v.alive m) [ inl d ↦ inl (rw e d) | inr f ↦ absurd (ground (arith, f, h)) ]
  ];
  current = λ m e.
      let same : (m == t.conn_counter) ≡ true = ground (arith, e) in
      (rw same refl, done, ground (arith, same));
  queued =
      All-imp t.tasks
        (λ m a.
          let other : (m == t.conn_counter) ≡ false = ground (arith, a.1) in
          (rw other (a.0), omega (arith, a.1)))
        v.queued;
}

pub handle_write-handed_over :
    (err self_connect : Bool) (c c' : Connector)
    → handle_write err self_connect (record c { effects = [] }) ≡ some c'
    → has_handed_over c'.effects ≡ true
    → (c.state ≡ Connector.k_connecting) × (c'.state ≡ Connector.k_connected)
unfolding handle_write Connector.after_write Connector.retry Connector.remove_and_reset_channel
handle_write-handed_over err self_connect c c' e h = (ground (arith, e, h), ground (arith, e, h))
