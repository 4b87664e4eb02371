-- ===== src/TcpServer/Inv.antt =====
-- What goes together of a connection of flute/net/TcpServer.cc, and its tasks as they come and go.
use flute.Prelude.{
  ℕ, ◌+◌, ◌≤◌, ◌≡◌, inl, inr, Bool, true, false, ◌&&◌, List, [], ◌∷◌, ◌++◌, All, arith, leb, ◌==◌,
  if◌then◌else◌, Bool-cases,
}
use flute.Connection.{ConnState, k_disconnected, k_connecting, k_connected, k_disconnecting}
use flute.TcpServer.{TcpServer, Task, put}
use flute.TcpServer.Pool.{IsReady}
use flute.TcpServer.Tasks.{establishing, removing, destroying, counts-append, IsHome, All-append}

-- What goes together of a connection: its state, whether the map has it, and the numbers of its three
-- tasks that are pending.
abbrev pub consistent : ConnState → Bool → ℕ → ℕ → ℕ → Bool
consistent k_connecting mapped e r d = mapped && (e == 1) && (r == 0) && (d == 0)
consistent k_connected mapped e r d = mapped && (e == 0) && (r == 0) && (d == 0)
consistent k_disconnecting mapped e r d = mapped && (e == 0) && (r == 0) && (d == 0)
consistent k_disconnected mapped e r d =
    (e == 0) && (if mapped then (r == 1) && (d == 0) else (r == 0) && leb d 1)

pub record Inv (s : TcpServer) : Type 0 where
  pub ready : IsReady s.pool
  pub each :
      (n : ℕ)
      → consistent
          (s.conn_state n)
          (s.conn_map n)
          (establishing n (s.tasks (s.conn_reactor n)))
          (removing n (s.tasks s.acceptor_reactor))
          (destroying n (s.tasks (s.conn_reactor n)))
        ≡ true
  pub fresh :
      (n : ℕ) → s.conn_counter ≤ n → (s.conn_state n ≡ k_disconnected) × (s.conn_map n ≡ false)
  pub homes : (reactor : ℕ) → All (IsHome s reactor) (s.tasks reactor)

-- The counts with a task more at the end of a queue, or one less at its front.
unfoldable pub count_at : Bool → ℕ → ℕ
count_at b k = if b then k else 0

pub pushed-counts :
    (tasks : ℕ → List Task) (r : ℕ) (t : Task) (q n : ℕ)
    → (establishing n (put r (tasks r ++ (t ∷ [])) tasks q)
        ≡ establishing n (tasks q) + count_at (q == r) (establishing n (t ∷ [])))
      × (removing n (put r (tasks r ++ (t ∷ [])) tasks q)
          ≡ removing n (tasks q) + count_at (q == r) (removing n (t ∷ [])))
      × (destroying n (put r (tasks r ++ (t ∷ [])) tasks q)
          ≡ destroying n (tasks q) + count_at (q == r) (destroying n (t ∷ [])))
unfolding count_at
pushed-counts tasks r t q n = elim (Bool-cases (q == r)) [
  | inl e ↦
      let (x, y, z) = counts-append n (tasks r) (t ∷ []) in
      let f : q ≡ r = ground (arith, e) in rw (e, f) (x, y, z)
  | inr e ↦ rw e (omega arith, omega arith, omega arith)
]

pub taken-counts :
    (tasks : ℕ → List Task) (r : ℕ) (t : Task) (rest : List Task) (q n : ℕ)
    → tasks r ≡ t ∷ rest
    → (establishing n (tasks q)
        ≡ establishing n (put r rest tasks q) + count_at (q == r) (establishing n (t ∷ [])))
      × (removing n (tasks q)
          ≡ removing n (put r rest tasks q) + count_at (q == r) (removing n (t ∷ [])))
      × (destroying n (tasks q)
          ≡ destroying n (put r rest tasks q) + count_at (q == r) (destroying n (t ∷ [])))
unfolding count_at
taken-counts tasks r t rest q n h = elim (Bool-cases (q == r)) [
  | inl e ↦
      let (x, y, z) = counts-append n (t ∷ []) rest in
      let f : q ≡ r = ground (arith, e) in
      rw (e, f, h) (omega (arith, x), omega (arith, y), omega (arith, z))
  | inr e ↦ rw e (omega arith, omega arith, omega arith)
]

pub taken-homes :
    (s : TcpServer) (r : ℕ) (t : Task) (rest : List Task)
    → s.tasks r ≡ t ∷ rest
    → ((q : ℕ) → All (IsHome s q) (s.tasks q))
    → IsHome s r t × ((q : ℕ) → All (IsHome s q) (put r rest s.tasks q))
taken-homes s r t rest h homes =
    let (first, others) = rw h at (homes r) in
    (
      first,
      λ q. elim (Bool-cases (q == r)) [
        | inl e ↦ let f : q ≡ r = ground (arith, e) in rw (e, f) others
        | inr e ↦ rw e (homes q)
      ],
    )

pub pushed-homes :
    (s : TcpServer) (tasks : ℕ → List Task) (r : ℕ) (t : Task)
    → IsHome s r t
    → ((q : ℕ) → All (IsHome s q) (tasks q))
    → (q : ℕ) → All (IsHome s q) (put r (tasks r ++ (t ∷ [])) tasks q)
pushed-homes s tasks r t k homes q = elim (Bool-cases (q == r)) [
  | inl e ↦
      let f : q ≡ r = ground (arith, e) in
      rw (e, f) (All-append (IsHome s r) (tasks r) (t ∷ []) (homes r) (k, tt))
  | inr e ↦ rw e (homes q)
]
