-- ===== src/Connector/Balance.antt =====
-- The sockets of flute/net/Connector.cc: none is lost and none is closed twice.
use flute.Prelude.{
  ℕ, suc, ◌+◌, ◌≡◌, refl, ap, ◌∙◌, subst, Bool, true, false, Option, none, some, List, [], ◌∷◌,
  arith, ◌==◌, if◌then◌else◌, ◌>>=◌, ◌>>◌, assert, Option-cases, inl, inr, if_either,
}
use mathlib.Core.Option.{some-injective}
use flute.Channel
use flute.Channel.{Channel, end_all, remove_self_from_reactor}
use flute.Connector.{
  Connector, k_disconnected, Errno, Effect, opened, closed, handed_over, queued_start, success,
  einprogress, eintr, eisconn, eagain, eaddrinuse, eaddrnotavail, econnrefused, enetunreach, eacces,
  eperm, eafnosupport, ealready, ebadf, efault, enotsock, other, is_connecting, is_absent,
  is_disconnected, emit, retry, connecting, after_connect, connect, start_in_reactor, start, stop,
  remove_and_reset_channel, reset_channel, stop_in_reactor, restart, after_write, handle_write,
  handle_error, Op, perform, restart_op, reset_task_op, start_op, start_task_op, stop_op,
  stop_task_op, write_op, error_op,
}

-- How often a socket was opened, and how often it was closed or given to the owner.
abbrev pub times_opened : ℕ → List Effect → ℕ
times_opened fd [] = 0
times_opened fd (opened n ∷ effects) =
    let rest = times_opened fd effects in if n == fd then suc rest else rest
times_opened fd (_ ∷ effects) = times_opened fd effects

abbrev pub times_settled : ℕ → List Effect → ℕ
times_settled fd [] = 0
times_settled fd (closed n ∷ effects) =
    let rest = times_settled fd effects in if n == fd then suc rest else rest
times_settled fd (handed_over n ∷ effects) =
    let rest = times_settled fd effects in if n == fd then suc rest else rest
times_settled fd (_ ∷ effects) = times_settled fd effects

abbrev pub watched : Option Channel → ℕ → ℕ
watched none fd = 0
watched (some channel) fd = if channel.fd == fd then 1 else 0

-- The socket that is held while connecting.
abbrev pub held : Connector → ℕ → ℕ
held c fd = if is_connecting c.state then watched c.channel fd else 0

-- Every socket was settled as often as it was opened, but for the one that is held.
pub record IsBalanced (c : Connector) : Type 0 where
  pub sockets : (fd : ℕ) → times_opened fd c.effects ≡ times_settled fd c.effects + held c fd

-- `restart` and the task that resets the channel come when no connection is on its way.
abbrev pub Allowed : Op → Connector → Type 0
Allowed (restart_op sockfd errno) c = is_connecting c.state ≡ false
Allowed reset_task_op c = is_connecting c.state ≡ false
Allowed _ c = Unit

-- The result of a run that succeeds is balanced.
pub record Balances (r : Option Connector) : Type 0 where
  pub balanced : (c : Connector) → r ≡ some c → IsBalanced c

Balances-some : (c : Connector) → IsBalanced c → Balances (some c)
Balances-some c b = record { balanced = λ d e. subst IsBalanced (some-injective c d e) b }

Balances-none : Balances none
Balances-none = record { balanced = λ d e. absurd (ground (arith, e)) }

Balances-bind {ℓ} :
    {A : Type ℓ} (m : Option A) (f : A → Option Connector)
    → ((a : A) → m ≡ some a → Balances (f a))
    → Balances (m >>= f)
Balances-bind none f h = Balances-none
Balances-bind (some a) f h = h a refl

Balances-if :
    (b : Bool) (x y : Option Connector)
    → (b ≡ true → Balances x)
    → (b ≡ false → Balances y)
    → Balances (if b then x else y)
Balances-if b x y h k = if_either Balances b x y h k

Balances-assert :
    (b : Bool) (r : Option Connector) → (b ≡ true → Balances r) → Balances (assert b >> r)
Balances-assert true r h = h refl
Balances-assert false r h = Balances-none

-- One socket is not settled yet.
abbrev Owes : ℕ → Connector → Type 0
Owes sockfd c =
    (fd : ℕ)
    → times_opened fd c.effects ≡ times_settled fd c.effects + (if sockfd == fd then 1 else 0)

retry-IsBalanced : (sockfd : ℕ) (c : Connector) → Owes sockfd c → IsBalanced (retry sockfd c)
unfolding retry
retry-IsBalanced sockfd c h =
    if_either IsBalanced c.is_connected _ _ (λ _. record { sockets = λ fd. ground (arith, h fd) })
      (λ _. record { sockets = λ fd. ground (arith, h fd) })

closed-IsBalanced :
    (sockfd : ℕ) (c : Connector)
    → is_connecting c.state ≡ false
    → Owes sockfd c
    → IsBalanced (emit (closed sockfd) c)
closed-IsBalanced sockfd c d h = record { sockets = λ fd. ground (arith, h fd, d) }

connecting-Balances : (sockfd : ℕ) (c : Connector) → Owes sockfd c → Balances (connecting sockfd c)
unfolding connecting Channel.new
connecting-Balances sockfd c h =
    Balances-assert (is_absent c.channel) _ (λ _. Balances-some _ (record { sockets = h }))

after_connect-Balances :
    (sockfd : ℕ) (errno : Errno) (c : Connector)
    → is_connecting c.state ≡ false
    → Owes sockfd c
    → Balances (after_connect sockfd errno c)
unfolding after_connect
after_connect-Balances sockfd success c d h = connecting-Balances sockfd c h
after_connect-Balances sockfd einprogress c d h = connecting-Balances sockfd c h
after_connect-Balances sockfd eintr c d h = connecting-Balances sockfd c h
after_connect-Balances sockfd eisconn c d h = connecting-Balances sockfd c h
after_connect-Balances sockfd eagain c d h = Balances-some _ (retry-IsBalanced sockfd c h)
after_connect-Balances sockfd eaddrinuse c d h = Balances-some _ (retry-IsBalanced sockfd c h)
after_connect-Balances sockfd eaddrnotavail c d h = Balances-some _ (retry-IsBalanced sockfd c h)
after_connect-Balances sockfd econnrefused c d h = Balances-some _ (retry-IsBalanced sockfd c h)
after_connect-Balances sockfd enetunreach c d h = Balances-some _ (retry-IsBalanced sockfd c h)
after_connect-Balances sockfd eacces c d h = Balances-some _ (closed-IsBalanced sockfd c d h)
after_connect-Balances sockfd eperm c d h = Balances-some _ (closed-IsBalanced sockfd c d h)
after_connect-Balances sockfd eafnosupport c d h = Balances-some _ (closed-IsBalanced sockfd c d h)
after_connect-Balances sockfd ealready c d h = Balances-some _ (closed-IsBalanced sockfd c d h)
after_connect-Balances sockfd ebadf c d h = Balances-some _ (closed-IsBalanced sockfd c d h)
after_connect-Balances sockfd efault c d h = Balances-some _ (closed-IsBalanced sockfd c d h)
after_connect-Balances sockfd enotsock c d h = Balances-some _ (closed-IsBalanced sockfd c d h)
after_connect-Balances sockfd other c d h = Balances-some _ (closed-IsBalanced sockfd c d h)

start_in_reactor-Balances :
    (sockfd : ℕ) (errno : Errno) (c : Connector)
    → IsBalanced c
    → Balances (start_in_reactor sockfd errno c)
unfolding start_in_reactor connect
start_in_reactor-Balances sockfd errno c b = Balances-assert (is_disconnected c.state) _ (λ d.
    Balances-if c.is_connected _ (some c)
      (λ _.
        after_connect-Balances sockfd errno (emit (opened sockfd) c) (ground (arith, d))
          (λ fd. ground (arith, b.sockets fd, d)))
      (λ _. Balances-some c b))

after_write-IsBalanced :
    (err self_connect : Bool) (sockfd : ℕ) (c : Connector)
    → Owes sockfd c
    → IsBalanced (after_write err self_connect sockfd c)
unfolding after_write
after_write-IsBalanced true self_connect sockfd c h = retry-IsBalanced sockfd c h
after_write-IsBalanced false true sockfd c h = retry-IsBalanced sockfd c h
after_write-IsBalanced false false sockfd c h =
    if_either IsBalanced c.is_connected _ _ (λ _. record { sockets = λ fd. ground (arith, h fd) })
      (λ _. record { sockets = λ fd. ground (arith, h fd) })

-- What follows the removal of the channel of a connection on its way.
removed-Balances :
    (c : Connector) (f : ℕ × Connector → Option Connector)
    → ((fd : ℕ) → times_opened fd c.effects ≡ times_settled fd c.effects + watched c.channel fd)
    → ((sockfd : ℕ) (c' : Connector) → Owes sockfd c' → Balances (f (sockfd, c')))
    → Balances (remove_and_reset_channel c >>= f)
unfolding remove_and_reset_channel remove_self_from_reactor
removed-Balances c f h k = elim (Option-cases c.channel) [
  | inl e ↦ rw e Balances-none
  | inr (channel, e) ↦
      rw e (k channel.fd _ (λ fd. h fd ∙ ap (λ x. times_settled fd c.effects + watched x fd) e))
]

-- Unless `restart` or a reset comes too early, no call, task or event of a connector that succeeds
-- loses a socket or settles it twice: each socket that was opened is held, closed or given away.
pub perform-Balances :
    (op : Op) (c : Connector) → Allowed op c → IsBalanced c → Balances (perform op c)
unfolding perform start stop reset_channel stop_in_reactor restart after_write handle_write
    handle_error
perform-Balances (start_op in_thread sockfd errno) c a b =
    Balances-if in_thread _ (some (emit queued_start (record c { is_connected = true })))
      (λ _.
        start_in_reactor-Balances sockfd errno (record c { is_connected = true })
          (record { sockets = b.sockets }))
      (λ _. Balances-some _ (record { sockets = b.sockets }))
perform-Balances (start_task_op sockfd errno) c a b = start_in_reactor-Balances sockfd errno c b
perform-Balances stop_op c a b = Balances-some _ (record { sockets = b.sockets })
perform-Balances stop_task_op c a b =
    Balances-if (is_connecting c.state) _ (some c)
      (λ s.
        removed-Balances (record c { state = k_disconnected }) _
          (λ fd. ground (arith, b.sockets fd, s))
          (λ sockfd c' h. Balances-some _ (retry-IsBalanced sockfd c' h)))
      (λ _. Balances-some c b)
perform-Balances reset_task_op c a b =
    Balances-some _ (record { sockets = λ fd. ground (arith, b.sockets fd, a) })
perform-Balances (restart_op sockfd errno) c a b =
    start_in_reactor-Balances sockfd errno _
      (record { sockets = λ fd. ground (arith, b.sockets fd, a) })
perform-Balances (write_op err self_connect) c a b =
    Balances-if (is_connecting c.state) _ _
      (λ s.
        removed-Balances c _ (λ fd. ground (arith, b.sockets fd, s))
          (λ sockfd c' h. Balances-some _ (after_write-IsBalanced err self_connect sockfd c' h)))
      (λ _. Balances-assert (is_disconnected c.state) (some c) (λ _. Balances-some c b))
perform-Balances error_op c a b =
    Balances-if (is_connecting c.state) _ (some c)
      (λ s.
        removed-Balances c _ (λ fd. ground (arith, b.sockets fd, s))
          (λ sockfd c' h. Balances-some _ (retry-IsBalanced sockfd c' h)))
      (λ _. Balances-some c b)
