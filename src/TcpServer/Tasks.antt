-- ===== src/TcpServer/Tasks.antt =====
-- The tasks that flute/net/TcpServer.cc queues for its connections.
use flute.Prelude.{
  ℕ, ◌+◌, ◌≤◌, ◌<◌, ◌≡◌, refl, ◌∙◌, Bool, List, [], ◌∷◌, ◌++◌, All, arith, ◌==◌, if◌then◌else◌,
}
use flute.TcpServer.{
  TcpServer, Task, connect_established_task, remove_connection_task, connect_destroyed_task,
}

abbrev pub one_if : Bool → ℕ
one_if b = if b then 1 else 0

-- How often the tasks of a connection stand in a queue.
abbrev pub establishing : ℕ → List Task → ℕ
establishing n [] = 0
establishing n (connect_established_task m ∷ l) = one_if (n == m) + establishing n l
establishing n (remove_connection_task m ∷ l) = establishing n l
establishing n (connect_destroyed_task m ∷ l) = establishing n l

abbrev pub removing : ℕ → List Task → ℕ
removing n [] = 0
removing n (connect_established_task m ∷ l) = removing n l
removing n (remove_connection_task m ∷ l) = one_if (n == m) + removing n l
removing n (connect_destroyed_task m ∷ l) = removing n l

abbrev pub destroying : ℕ → List Task → ℕ
destroying n [] = 0
destroying n (connect_established_task m ∷ l) = destroying n l
destroying n (remove_connection_task m ∷ l) = destroying n l
destroying n (connect_destroyed_task m ∷ l) = one_if (n == m) + destroying n l

-- The three counts add up over the parts of a queue.
pub counts-append :
    (n : ℕ) (l m : List Task)
    → (establishing n (l ++ m) ≡ establishing n l + establishing n m)
      × (removing n (l ++ m) ≡ removing n l + removing n m)
      × (destroying n (l ++ m) ≡ destroying n l + destroying n m)
counts-append n [] m = (omega arith, omega arith, omega arith)
counts-append n (connect_established_task k ∷ l) m =
    let (e, r, d) = counts-append n l m in (omega (arith, e), r, d)
counts-append n (remove_connection_task k ∷ l) m =
    let (e, r, d) = counts-append n l m in (e, omega (arith, r), d)
counts-append n (connect_destroyed_task k ∷ l) m =
    let (e, r, d) = counts-append n l m in (e, r, omega (arith, d))

-- A task stands in the queue of the reactor that it is for, and its connection has been numbered.
abbrev pub IsHome : TcpServer → ℕ → Task → Type 0
IsHome s reactor (connect_established_task n) = (s.conn_reactor n ≡ reactor) × (n < s.conn_counter)
IsHome s reactor (remove_connection_task n) = (s.acceptor_reactor ≡ reactor) × (n < s.conn_counter)
IsHome s reactor (connect_destroyed_task n) = (s.conn_reactor n ≡ reactor) × (n < s.conn_counter)

-- A connection that has no number yet has no tasks.
pub no_tasks :
    (s : TcpServer) (reactor n : ℕ) (l : List Task)
    → s.conn_counter ≤ n
    → All (IsHome s reactor) l
    → (establishing n l ≡ 0) × (removing n l ≡ 0) × (destroying n l ≡ 0)
no_tasks s reactor n [] h a = (refl, refl, refl)
no_tasks s reactor n (connect_established_task m ∷ l) h ((e, k), a) =
    let (x, y, z) = no_tasks s reactor n l h a in (ground (arith, x, h, k), y, z)
no_tasks s reactor n (remove_connection_task m ∷ l) h ((e, k), a) =
    let (x, y, z) = no_tasks s reactor n l h a in (x, ground (arith, y, h, k), z)
no_tasks s reactor n (connect_destroyed_task m ∷ l) h ((e, k), a) =
    let (x, y, z) = no_tasks s reactor n l h a in (x, y, ground (arith, z, h, k))

pub All-append {ℓ} :
    {A : Type ℓ} (P : A → Type 0) (l m : List A) → All P l → All P m → All P (l ++ m)
All-append P [] m a b = b
All-append P (x ∷ l) m (h, a) b = (h, All-append P l m a b)

-- The connections that had numbers keep their reactors, and so the tasks their places.
pub IsHome-later :
    (s t : TcpServer) (reactor : ℕ) (l : List Task)
    → t.acceptor_reactor ≡ s.acceptor_reactor
    → s.conn_counter ≤ t.conn_counter
    → ((n : ℕ) → n < s.conn_counter → t.conn_reactor n ≡ s.conn_reactor n)
    → All (IsHome s reactor) l
    → All (IsHome t reactor) l
IsHome-later s t reactor [] e le k a = tt
IsHome-later s t reactor (connect_established_task m ∷ l) e le k ((h, i), a) =
    ((k m i ∙ h, omega (arith, le, i)), IsHome-later s t reactor l e le k a)
IsHome-later s t reactor (remove_connection_task m ∷ l) e le k ((h, i), a) =
    ((e ∙ h, omega (arith, le, i)), IsHome-later s t reactor l e le k a)
IsHome-later s t reactor (connect_destroyed_task m ∷ l) e le k ((h, i), a) =
    ((k m i ∙ h, omega (arith, le, i)), IsHome-later s t reactor l e le k a)
