-- ===== src/TcpServer/Lives.antt =====
-- The steps in the life of a connection of flute/net/TcpServer.cc.
use flute.Prelude.{
  ℕ, ◌+◌, ◌%◌, ◌^◌, ◌<◌, ◌≡◌, refl, inl, inr, true, false, List, ◌∷◌, All, arith, ltb, Bool-cases,
}
use flute.Connection.{
  k_disconnected, k_connected, k_disconnecting, is_connecting, is_connected, can_close,
}
use flute.TcpServer.{
  TcpServer, Task, connect_established_task, remove_connection_task, connect_destroyed_task, put,
  ReactorThreadPool, queue_in_reactor, with_connection, set_state,
}
use flute.TcpServer.Pool.{IsReady}
use flute.TcpServer.Tasks.{IsHome, no_tasks, IsHome-later}
use flute.TcpServer.Inv.{Inv, count_at, pushed-counts, taken-counts, taken-homes, pushed-homes}

module _ (s : TcpServer) (v : Inv s) where
  -- A reactor takes a task.
  pub established-Inv :
      (r n : ℕ) (rest : List Task)
      → s.tasks r ≡ connect_established_task n ∷ rest
      → (is_connecting (s.conn_state n) ≡ true)
        × Inv (set_state n k_connected (record s { tasks = put r rest s.tasks }))
  unfolding count_at
  established-Inv r n rest h =
      let ((home, small), homes) = taken-homes s r (connect_established_task n) rest h v.homes in
      let (e, x, d) =
        taken-counts s.tasks r (connect_established_task n) rest (s.conn_reactor n) n h in
      (
        ground (arith, v.each n, e, home),
        record {
          ready = v.ready;
          each = λ m.
              let (e, y, d) =
                taken-counts s.tasks r (connect_established_task n) rest (s.conn_reactor m) m h in
              let (e', x, d') =
                taken-counts s.tasks r (connect_established_task n) rest s.acceptor_reactor m h in
              ground (arith, v.each m, e, d, x, home);
          fresh = λ m k. ground (arith, v.fresh m k, small, k);
          homes = homes;
        },
      )

  pub destroyed-Inv :
      (r n : ℕ) (rest : List Task)
      → s.tasks r ≡ connect_destroyed_task n ∷ rest
      → (s.conn_state n ≡ k_disconnected) × Inv (record s { tasks = put r rest s.tasks })
  unfolding count_at
  destroyed-Inv r n rest h =
      let ((home, small), homes) = taken-homes s r (connect_destroyed_task n) rest h v.homes in
      let (_, _, one) =
        taken-counts s.tasks r (connect_destroyed_task n) rest (s.conn_reactor n) n h in
      (
        ground (arith, v.each n, one, home),
        record {
          ready = v.ready;
          each = λ m.
              let (e, y, d) =
                taken-counts s.tasks r (connect_destroyed_task n) rest (s.conn_reactor m) m h in
              let (e', x, d') =
                taken-counts s.tasks r (connect_destroyed_task n) rest s.acceptor_reactor m h in
              ground (arith, v.each m, e, d, x, home);
          fresh = v.fresh;
          homes = homes;
        },
      )

  pub removed-Inv :
      (r n : ℕ) (rest : List Task)
      → s.tasks r ≡ remove_connection_task n ∷ rest
      → (s.conn_map n ≡ true)
        × Inv (
            queue_in_reactor
              (s.conn_reactor n)
              (connect_destroyed_task n)
              (record s { tasks = put r rest s.tasks; conn_map = put n false s.conn_map }))
  unfolding count_at
  removed-Inv r n rest h =
      let ((home, small), homes) = taken-homes s r (remove_connection_task n) rest h v.homes in
      let (e, x, d) =
        taken-counts s.tasks r (remove_connection_task n) rest s.acceptor_reactor n h in
      (
        ground (arith, v.each n, x, home),
        record {
          ready = v.ready;
          each = λ m.
              let (e, y, d) =
                taken-counts s.tasks r (remove_connection_task n) rest (s.conn_reactor m) m h in
              let (e', x, d') =
                taken-counts s.tasks r (remove_connection_task n) rest s.acceptor_reactor m h in
              let (f, z, g) =
                pushed-counts (put r rest s.tasks) (s.conn_reactor n) (connect_destroyed_task n)
                  (s.conn_reactor m) m in
              let (f', w, g') =
                pushed-counts (put r rest s.tasks) (s.conn_reactor n) (connect_destroyed_task n)
                  s.acceptor_reactor m in
              ground (arith, v.each m, e, d, x, f, g, w, home);
          fresh = λ m k. ground (arith, v.fresh m k, small, k);
          homes =
              pushed-homes s (put r rest s.tasks) (s.conn_reactor n) (connect_destroyed_task n)
                (refl, small) homes;
        },
      )

  -- A connection with a number that has a map's entry.
  small_number : (n : ℕ) → can_close (s.conn_state n) ≡ true → n < s.conn_counter
  small_number n h = elim (Bool-cases (ltb n s.conn_counter)) [
    | inl e ↦ ground (arith, e)
    | inr e ↦ absurd (ground (arith, v.fresh n (ground (arith, e)), h))
  ]

  pub closed_here-Inv :
      (n : ℕ)
      → can_close (s.conn_state n) ≡ true
      → (s.conn_map n ≡ true)
        × Inv (
            queue_in_reactor (s.conn_reactor n) (connect_destroyed_task n) (record s {
              conn_state = put n k_disconnected s.conn_state;
              conn_map = put n false s.conn_map;
            }))
  unfolding count_at
  closed_here-Inv n h =
      let small = small_number n h in
      (
        ground (arith, v.each n, h),
        record {
          ready = v.ready;
          each = λ m.
              let (f, z, g) =
                pushed-counts s.tasks (s.conn_reactor n) (connect_destroyed_task n)
                  (s.conn_reactor m) m in
              let (f', w, g') =
                pushed-counts s.tasks (s.conn_reactor n) (connect_destroyed_task n)
                  s.acceptor_reactor m in
              ground (arith, v.each m, f, g, w, h);
          fresh = λ m k. ground (arith, v.fresh m k, small, k);
          homes =
              pushed-homes s s.tasks (s.conn_reactor n) (connect_destroyed_task n) (refl, small)
                v.homes;
        },
      )

  pub closed_away-Inv :
      (n : ℕ)
      → can_close (s.conn_state n) ≡ true
      → Inv (
          queue_in_reactor s.acceptor_reactor
            (remove_connection_task n)
            (set_state n k_disconnected s))
  unfolding count_at
  closed_away-Inv n h =
      let small = small_number n h in
      record {
        ready = v.ready;
        each = λ m.
            let (f, z, g) =
              pushed-counts s.tasks s.acceptor_reactor (remove_connection_task n) (s.conn_reactor m)
                m in
            let (f', w, g') =
              pushed-counts s.tasks s.acceptor_reactor (remove_connection_task n) s.acceptor_reactor
                m in
            ground (arith, v.each m, f, g, w, h);
        fresh = λ m k. ground (arith, v.fresh m k, small, k);
        homes =
            pushed-homes s s.tasks s.acceptor_reactor (remove_connection_task n) (refl, small)
              v.homes;
      }

  pub shut_down-Inv :
      (n : ℕ) → is_connected (s.conn_state n) ≡ true → Inv (set_state n k_disconnecting s)
  shut_down-Inv n h =
      let small = small_number n (ground (arith, h)) in
      record {
        ready = v.ready;
        each = λ m. ground (arith, v.each m, h);
        fresh = λ m k. ground (arith, v.fresh m k, small, k);
        homes = v.homes;
      }

  -- A connection arrives.
  module _ (reactor : ℕ) (pool : ReactorThreadPool) (ready : IsReady pool)
      (room : s.conn_counter + 1 < 2 ^ 32) where
    no_wrap : (s.conn_counter + 1) % 2 ^ 32 ≡ s.conn_counter + 1
    no_wrap = omega (arith, room)

    numbered-homes : (q : ℕ) → All (IsHome (with_connection reactor pool s) q) (s.tasks q)
    numbered-homes q =
        IsHome-later s (with_connection reactor pool s) q (s.tasks q) refl (omega (arith, no_wrap))
          (λ n h. ground (arith, h)) (v.homes q)

    pub arrived_here-Inv :
        Inv (set_state s.conn_counter k_connected (with_connection reactor pool s))
    arrived_here-Inv = record {
      ready = ready;
      each = λ m.
          let (e, x, d) =
            no_tasks s reactor s.conn_counter (s.tasks reactor) (omega arith) (v.homes reactor) in
          let (e', x', d') =
            no_tasks s s.acceptor_reactor s.conn_counter (s.tasks s.acceptor_reactor) (omega arith)
              (v.homes s.acceptor_reactor) in
          ground (arith, v.each m, e, d, x');
      fresh = λ m k. ground (arith, v.fresh m, no_wrap, k);
      homes = numbered-homes;
    }

    pub arrived_away-Inv : Inv (
        queue_in_reactor reactor
          (connect_established_task s.conn_counter)
          (with_connection reactor pool s))
    unfolding count_at
    arrived_away-Inv = record {
      ready = ready;
      each = λ m.
          let (e, x, d) =
            no_tasks s reactor s.conn_counter (s.tasks reactor) (omega arith) (v.homes reactor) in
          let (e', x', d') =
            no_tasks s s.acceptor_reactor s.conn_counter (s.tasks s.acceptor_reactor) (omega arith)
              (v.homes s.acceptor_reactor) in
          let (f, z, g) =
            pushed-counts s.tasks reactor (connect_established_task s.conn_counter)
              (s.conn_reactor m) m in
          let (f₂, z₂, g₂) =
            pushed-counts s.tasks reactor (connect_established_task s.conn_counter) reactor m in
          let (f', w, g') =
            pushed-counts s.tasks reactor (connect_established_task s.conn_counter)
              s.acceptor_reactor m in
          ground (arith, v.each m, e, d, x', f, g, w, f₂, g₂);
      fresh = λ m k. ground (arith, v.fresh m, no_wrap, k);
      homes =
          pushed-homes (with_connection reactor pool s) s.tasks reactor
            (connect_established_task s.conn_counter) (ground arith, omega (arith, no_wrap))
            numbered-homes;
    }
