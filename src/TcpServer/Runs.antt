-- ===== src/TcpServer/Runs.antt =====
-- All runs of flute/net/TcpServer.cc between its threads.
use flute.Prelude.{
  ℕ, zero, suc, ◌+◌, ◌%◌, ◌^◌, ◌≤◌, ◌<◌, ◌≡◌, refl, inl, inr, true, List, [], ◌∷◌, Option, some,
  length, arith, ◌==◌, Bool-cases,
}
use flute.Connection.{k_connected, k_disconnecting, is_connected, can_close}
use flute.TcpServer.{
  TcpServer, Task, connect_established_task, remove_connection_task, connect_destroyed_task,
  ReactorThreadPool, queue_in_reactor, remove_connection_in_reactor, call_task, remove_conn,
  with_connection, new_conn_callback, set_state, Event, arrives, takes_task, closes, shuts_down,
  take_task, close, apply, run,
}
use flute.TcpServer.Pool.{IsReady, get_next_reactor-IsReady}
use flute.TcpServer.{new, start, set_reactor_pool_size, start_pool, new_pool}
use flute.TcpServer.Inv.{Inv}
use flute.TcpServer.Lives.{
  established-Inv, destroyed-Inv, removed-Inv, closed_here-Inv, closed_away-Inv, shut_down-Inv,
  arrived_here-Inv, arrived_away-Inv,
}

-- The call succeeds, and numbers one connection at most.
abbrev pub Lives : TcpServer → Option TcpServer → Type 0
Lives s o = (t : TcpServer) × (o ≡ some t) × Inv t × (t.conn_counter ≤ s.conn_counter + 1)

arrives-Lives :
    (s : TcpServer) → Inv s → s.conn_counter + 1 < 2 ^ 32 → Lives s (new_conn_callback s)
unfolding new_conn_callback call_task
arrives-Lives s v room =
    let (reactor, pool, e, ready) = get_next_reactor-IsReady s.pool v.ready in
    let small : (s.conn_counter + 1) % 2 ^ 32 ≤ s.conn_counter + 1 = omega (arith, room) in
    let same : (s.conn_counter == s.conn_counter) ≡ true = ground arith in
    elim (Bool-cases (s.acceptor_reactor == reactor)) [
      | inl f ↦ (
        set_state s.conn_counter k_connected (with_connection reactor pool s),
        rw (e, f, same) refl,
        arrived_here-Inv s v reactor pool ready room,
        small,
      )
      | inr f ↦ (
        queue_in_reactor reactor (connect_established_task s.conn_counter)
            (with_connection reactor pool s),
        rw (e, f) refl,
        arrived_away-Inv s v reactor pool ready room,
        small,
      )
    ]

takes_task-Lives :
    (s : TcpServer) (r : ℕ) (tasks : List Task)
    → s.tasks r ≡ tasks
    → Inv s
    → Lives s (take_task r tasks s)
unfolding call_task remove_connection_in_reactor
takes_task-Lives s r [] h v = (s, refl, v, omega arith)
takes_task-Lives s r (connect_established_task n ∷ rest) h v =
    let (e, k) = established-Inv s v r n rest h in (_, rw e refl, k, omega arith)
takes_task-Lives s r (remove_connection_task n ∷ rest) h v =
    let (e, k) = removed-Inv s v r n rest h in (_, rw e refl, k, omega arith)
takes_task-Lives s r (connect_destroyed_task n ∷ rest) h v =
    let (e, k) = destroyed-Inv s v r n rest h in (_, rw e refl, k, omega arith)

closes-Lives : (s : TcpServer) (n : ℕ) → Inv s → Lives s (close n s)
unfolding close remove_conn call_task remove_connection_in_reactor
closes-Lives s n v = elim (Bool-cases (can_close (s.conn_state n))) [
  | inl c ↦ elim (Bool-cases (s.conn_reactor n == s.acceptor_reactor)) [
    | inl e ↦ let (m, k) = closed_here-Inv s v n c in (_, rw (c, e, m) refl, k, omega arith)
    | inr e ↦ (_, rw (c, e) refl, closed_away-Inv s v n c, omega arith)
  ]
  | inr c ↦ (s, rw c refl, v, omega arith)
]

apply-Lives :
    (event : Event) (s : TcpServer) → Inv s → s.conn_counter + 1 < 2 ^ 32 → Lives s (apply event s)
apply-Lives arrives s v room = arrives-Lives s v room
apply-Lives (takes_task r) s v room = takes_task-Lives s r (s.tasks r) refl v
apply-Lives (closes n) s v room = closes-Lives s n v
apply-Lives (shuts_down n) s v room = elim (Bool-cases (is_connected (s.conn_state n))) [
  | inl c ↦ (set_state n k_disconnecting s, rw c refl, shut_down-Inv s v n c, omega arith)
  | inr c ↦ (s, rw c refl, v, omega arith)
]

start_pool-IsReady :
    (f : ℕ → ℕ) (reactor size : ℕ)
    → (p : ReactorThreadPool) × (start_pool f (record (new_pool reactor) { size_pool = size })
        ≡ some p)
      × IsReady p
unfolding start_pool
start_pool-IsReady f reactor zero = (_, refl, record { started = refl; next = inl refl })
start_pool-IsReady f reactor (suc n) =
    (_, refl, record { started = refl; next = inr (omega arith) })

-- A server that has started is in order.
pub start-Inv :
    (f : ℕ → ℕ) (reactor size : ℕ)
    → (s : TcpServer) × (start f (set_reactor_pool_size size (new reactor)) ≡ some s)
      × Inv s
      × (s.conn_counter ≡ 0)
unfolding start
start-Inv f reactor size =
    let (p, e, ready) = start_pool-IsReady f reactor size in
    (
      record (new reactor) { pool = p; has_started = 1; is_listenning = true },
      rw e refl,
      record { ready = ready; each = λ n. refl; fresh = λ n h. (refl, refl); homes = λ r. tt },
      refl,
    )

-- Connections may arrive, be closed or shut down, and the reactors take their tasks, in any order: where
-- the counter does not reach 32 bits no assertion fails, and then each connection that is being
-- established is in the map and has its one task for that pending, one that is open is in the map
-- and has no task pending, and one that was closed is either in the map with one removal pending, or
-- out of it with one destruction pending at most.
pub run-Inv :
    (events : List Event) (s : TcpServer)
    → Inv s
    → s.conn_counter + length events < 2 ^ 32
    → (t : TcpServer) × (run events s ≡ some t) × Inv t
run-Inv [] s v room = (s, refl, v)
run-Inv (event ∷ events) s v room =
    let (t, e, k, small) = apply-Lives event s v (omega (arith, room)) in
    let (u, f, m) = run-Inv events t k (omega (arith, room, small)) in (u, rw e f, m)
