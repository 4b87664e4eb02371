-- ===== src/TcpClient/Ends.antt =====
-- What is left of a client of flute/net/TcpClient.cc by its destructor.
use flute.Prelude.{
  ℕ, ◌+◌, ◌≡◌, refl, ap, inl, inr, sym, ◌∙◌, Bool, true, false, ◌==◌, Option, none, some, List, [],
  ◌∷◌, ◌++◌, map, length, All, All-imp, Bool-cases, arith,
}
use flute.Connection.{k_disconnected, k_disconnecting, can_close}
use native.Mathlib.Nat.{zero-add, suc-add}
use flute.TcpClient.{
  TcpClient, Op, new, Left, LeftTask, force_closes, destroys, left_by, set_left, force_close,
  end_with, destroy, take_left, take_lefts,
}
use flute.Connector
use flute.Connector.{Connector}
use flute.TcpClient.Inv.{IsWhole, other_state}
use mathlib.Core.List.{append-nil}
use flute.TcpClient.Runs.{run, runs-IsWhole, new-IsWhole}

-- Disconnected connections are destroyed one after the other.
take_left-destroys :
    (n : ℕ) (rest : List LeftTask) (l : Left)
    → l.conn_state n ≡ k_disconnected
    → take_left (destroys n ∷ rest) l ≡ record l { tasks = rest }
unfolding take_left
take_left-destroys n rest l e = rw e refl

take_lefts-destroys :
    (ns : List ℕ) (rest : List LeftTask) (k : ℕ) (l : Left)
    → All (λ n. l.conn_state n ≡ k_disconnected) ns
    → take_lefts (length ns + k) (record l { tasks = map destroys ns ++ rest })
      ≡ take_lefts k (record l { tasks = rest })
unfolding take_lefts
take_lefts-destroys [] rest k l a = rw zero-add refl
take_lefts-destroys (n ∷ ns) rest k l (e, a) =
    let tasks : List LeftTask = map destroys (n ∷ ns) ++ rest in
    rw suc-add (
      ap (take_lefts (length ns + k))
        (take_left-destroys n (map destroys ns ++ rest) (record l { tasks = tasks }) e)
      ∙ take_lefts-destroys ns rest k l a)

take_lefts-nil : (l : Left) → take_lefts 2 (record l { tasks = [] }) ≡ record l { tasks = [] }
unfolding take_lefts take_left
take_lefts-nil l = refl

-- A connection that can be closed is closed and destroyed in two turns.
take_lefts-force_closes :
    (n : ℕ) (l : Left)
    → can_close (l.conn_state n) ≡ true
    → take_lefts 2 (record l { tasks = force_closes n ∷ [] })
      ≡ record (set_left n k_disconnected l) { tasks = [] }
unfolding take_lefts take_left
take_lefts-force_closes n l h = let self : (n == n) ≡ true = ground arith in rw (h, self) refl

-- What becomes of the connector: without a connection it is told to stop, and a timer holds it.
abbrev pub connector_left : Option ℕ → Connector → Connector × Bool
connector_left none k = (Connector.stop k, true)
connector_left (some n) k = (k, false)

-- No task for a connection is left, and no connection.
abbrev pub IsOver : Option ℕ → Connector → Left → Type 0
IsOver o k l =
    (l.tasks ≡ [])
    × ((n : ℕ) → l.conn_state n ≡ k_disconnected)
    × ((l.connector, l.removes_connector) ≡ connector_left o k)

end_with-IsOver :
    (t : TcpClient) (o : Option ℕ)
    → t.connection ≡ o
    → IsWhole t
    → IsOver o t.connector (take_lefts (length t.tasks + 2) (end_with true o (left_by t)))
end_with-IsOver t none h v =
    let l : Left = record (left_by t) {
      connector = Connector.stop t.connector;
      removes_connector = true;
    } in
    let over : take_lefts (length t.tasks + 2) l ≡ record l { tasks = [] } =
      ap (λ tasks. take_lefts (length t.tasks + 2) (record l { tasks = tasks }))
        (sym (append-nil (map destroys t.tasks)))
      ∙ take_lefts-destroys t.tasks [] 2 l (All-imp t.tasks (λ n a. a.0) v.queued)
      ∙ take_lefts-nil l in
    rw over
      (refl, λ n. elim (v.alive n) [ inl d ↦ d | inr f ↦ absurd (ground (arith, h, f)) ], refl)
end_with-IsOver t (some n) h v =
    let (live, _, _) = v.current n h in
    let l : Left = set_left n k_disconnecting (left_by t) in
    let self : (n == n) ≡ true = ground arith in
    let over : take_lefts (length t.tasks + 2) (force_close n (left_by t))
        ≡ record (set_left n k_disconnected l) { tasks = [] } =
      ap (take_lefts (length t.tasks + 2)) (rw live refl)
      ∙ take_lefts-destroys t.tasks (force_closes n ∷ []) 2 l
          (All-imp t.tasks (λ m a. other_state n m k_disconnecting t live (a.0)) v.queued)
      ∙ take_lefts-force_closes n l (rw self refl) in
    rw over (
      refl,
      λ m. elim (Bool-cases (m == n)) [
        | inl e ↦ rw e refl
        | inr e ↦ elim (v.alive m) [ inl d ↦ rw e d | inr f ↦ absurd (ground (arith, e, f, h)) ]
      ],
      refl,
    )

-- The destructor of a client that alone holds its connection, after whatever calls, tasks and events:
-- two turns after those that were waiting for their end, the reactor has no task for a connection of
-- the client left and each of its connections is disconnected. If it has no connection, its connector
-- is told to stop and the timer that removes it is set, and otherwise the connector is as it was.
pub run-destroy :
    (ops : List Op) (t : TcpClient)
    → run ops new ≡ some t
    → IsOver t.connection t.connector (take_lefts (length t.tasks + 2) (destroy true t))
unfolding destroy
run-destroy ops t e = end_with-IsOver t t.connection refl (runs-IsWhole ops new t new-IsWhole e)
