-- ===== src/TcpServer/Ends.antt =====
-- The destructor of flute/net/TcpServer.cc.
use flute.Prelude.{
  ℕ, ◌+◌, ◌≡◌, refl, inl, inr, Bool, true, false, not, ◌&&◌, some, List, [], ◌∷◌, arith, ◌==◌,
  if◌then◌else◌, Bool-cases,
}
use flute.Connection.{k_disconnected, is_connected, is_disconnecting}
use flute.TcpServer.{
  TcpServer, connect_destroyed_task, put, queue_in_reactor, set_state, run_asap_in_reactor,
  call_task, destroy,
}
use flute.TcpServer.Tasks.{one_if, destroying}
use flute.TcpServer.Inv.{Inv, count_at, pushed-counts}

-- How often a connection stands in the list.
abbrev pub how_often : ℕ → List ℕ → ℕ
how_often n [] = 0
how_often n (m ∷ l) = one_if (n == m) + how_often n l

-- The connection has the thread of the acceptor's reactor.
abbrev pub is_here : TcpServer → ℕ → Bool
is_here s n = s.acceptor_reactor == s.conn_reactor n

-- The destructor's turn for one connection.
abbrev ended : ℕ → TcpServer → TcpServer
ended n s =
    let t : TcpServer = record s { conn_map = put n false s.conn_map } in
    if is_here s n
    then (if is_connected (s.conn_state n) then set_state n k_disconnected t else t)
    else queue_in_reactor (s.conn_reactor n) (connect_destroyed_task n) t

-- What the turns for a list have done.
record Ended (l : List ℕ) (s t : TcpServer) : Type 0 where
  reactor : (m : ℕ) → t.conn_reactor m ≡ s.conn_reactor m
  acceptor : t.acceptor_reactor ≡ s.acceptor_reactor
  mapped : (m : ℕ) → t.conn_map m ≡ (how_often m l == 0) && s.conn_map m
  pending :
      (m q : ℕ)
      → destroying m (t.tasks q)
        ≡ destroying m (s.tasks q)
          + (if not (is_here s m) && (q == s.conn_reactor m) then how_often m l else 0)
  state :
      (m : ℕ)
      → t.conn_state m ≡ (
          if is_here s m && (not (how_often m l == 0) && is_connected (s.conn_state m))
          then k_disconnected
          else s.conn_state m)

here-Ended : (n : ℕ) (s : TcpServer) → is_here s n ≡ true → Ended (n ∷ []) s (ended n s)
here-Ended n s h = elim (Bool-cases (is_connected (s.conn_state n))) [
  | inl c ↦
      rw (h, c)
        (record {
          reactor = λ m. refl;
          acceptor = refl;
          mapped = λ m. ground arith;
          pending = λ m q. ground (arith, h);
          state = λ m. ground (arith, h, c);
        })
  | inr c ↦
      rw (h, c)
        (record {
          reactor = λ m. refl;
          acceptor = refl;
          mapped = λ m. ground arith;
          pending = λ m q. ground (arith, h);
          state = λ m. ground (arith, h, c);
        })
]

away-Ended : (n : ℕ) (s : TcpServer) → is_here s n ≡ false → Ended (n ∷ []) s (ended n s)
unfolding count_at
away-Ended n s h = rw h (record {
  reactor = λ m. refl;
  acceptor = refl;
  mapped = λ m. ground arith;
  pending = λ m q.
      let (_, _, more) = pushed-counts s.tasks (s.conn_reactor n) (connect_destroyed_task n) q m in
      ground (arith, h, more);
  state = λ m. ground (arith, h);
})

ended-Ended : (n : ℕ) (s : TcpServer) → Ended (n ∷ []) s (ended n s)
ended-Ended n s = elim (Bool-cases (is_here s n)) [
  | inl h ↦ here-Ended n s h
  | inr h ↦ away-Ended n s h
]

Ended-cons :
    (n : ℕ) (l : List ℕ) (s u t : TcpServer) → Ended (n ∷ []) s u → Ended l u t → Ended (n ∷ l) s t
Ended-cons n l s u t first rest = record {
  reactor = λ m. ground (arith, first.reactor m, rest.reactor m);
  acceptor = ground (arith, first.acceptor, rest.acceptor);
  mapped = λ m. ground (arith, first.mapped m, rest.mapped m);
  pending =
      λ m q. ground (arith, first.reactor m, first.acceptor, first.pending m q, rest.pending m q);
  state = λ m. ground (arith, first.reactor m, first.acceptor, first.state m, rest.state m);
}

-- The connection is to be ended at once, and it is shutting down.
abbrev pub is_stuck : TcpServer → ℕ → Bool
is_stuck s n = is_here s n && is_disconnecting (s.conn_state n)

run_asap-ended :
    (n : ℕ) (s : TcpServer)
    → is_stuck s n ≡ false
    → run_asap_in_reactor call_task s.acceptor_reactor
        (s.conn_reactor n)
        (connect_destroyed_task n)
        (record s { conn_map = put n false s.conn_map })
      ≡ some (ended n s)
unfolding call_task
run_asap-ended n s h = elim (Bool-cases (is_here s n)) [
  | inl e ↦
      let calm : is_disconnecting (s.conn_state n) ≡ false = ground (arith, e, h) in
      rw (e, calm) refl
  | inr e ↦ rw e refl
]

-- The turns keep those that are not shutting down as they are in that.
destroy-Ended :
    (l : List ℕ) (s : TcpServer)
    → ((m : ℕ) → not (how_often m l == 0) && is_stuck s m ≡ false)
    → (t : TcpServer) × (destroy l s ≡ some t) × Ended l s t
unfolding destroy
destroy-Ended [] s calm = (
  s,
  refl,
  record {
    reactor = λ m. refl;
    acceptor = refl;
    mapped = λ m. refl;
    pending = λ m q. ground arith;
    state = λ m. ground arith;
  },
)
destroy-Ended (n ∷ l) s calm =
    let first = ended-Ended n s in
    let (t, e, rest) =
      destroy-Ended l (ended n s)
        (λ m. ground (arith, calm m, first.reactor m, first.acceptor, first.state m)) in
    (
      t,
      rw (run_asap-ended n s (ground (arith, calm n))) e,
      Ended-cons n l s (ended n s) t first rest,
    )

-- The destructor of a server in order, with each connection of its map once: where none that belongs to
-- the acceptor's reactor is shutting down, it succeeds and leaves no connection in the map. One that
-- belongs to the acceptor's reactor is ended at once, and no longer connected; each other one has
-- just one end pending in its own reactor; and for those that had left the map nothing is added.
pub destroy-ends :
    (l : List ℕ) (s : TcpServer)
    → Inv s
    → ((n : ℕ) → how_often n l ≡ one_if (s.conn_map n))
    → ((n : ℕ) → s.conn_map n && is_stuck s n ≡ false)
    → (t : TcpServer) × (destroy l s ≡ some t)
      × ((n : ℕ)
          → (t.conn_map n ≡ false)
            × ((s.conn_map n && is_here s n) && is_connected (t.conn_state n) ≡ false)
            × (destroying n (t.tasks (s.conn_reactor n)) ≡ (
                if s.conn_map n
                then one_if (not (is_here s n))
                else destroying n (s.tasks (s.conn_reactor n)))))
destroy-ends l s v listed calm =
    let (t, e, w) = destroy-Ended l s (λ n. ground (arith, listed n, calm n)) in
    (
      t,
      e,
      λ n. (
        ground (arith, w.mapped n, listed n),
        ground (arith, w.state n, listed n),
        ground (arith, w.pending n (s.conn_reactor n), listed n, v.each n),
      ),
    )
