-- ===== src/Connection/Rank.antt =====
-- The order of the states of a connection of flute/net/TcpConnection.cc, and the calls that leave the
-- state alone.
use flute.Prelude.{
  ℕ, ◌≤◌, ◌≡◌, refl, ap, ◌∙◌, subst, Bool, true, false, not, Option, none, some, arith,
  if◌then◌else◌, ◌>>=◌, if_either,
}
use mathlib.Core.Option.{some-injective}
use flute.Channel.{is_writing, end_writing}
use flute.ZeroCopier.{ZeroCopier, Globals, Answers}
use flute.Connection.{
  is_connecting, notify_highwater, Connection, ConnState, k_connecting, k_connected,
  k_disconnecting, k_disconnected, with_channel, is_connected, can_close, watch_writable,
  shutdown_in_reactor, start_read_in_reactor, stop_read_in_reactor,
}
use flute.Connection.Ready.{
  is_idle, transfer_sending_state, copy_chunk, send_with, notify_write_complete,
  shutdown_if_disconnecting, finish_writing,
}

-- The one direction: connecting, connected, disconnecting, disconnected.
abbrev pub rank : ConnState → ℕ
rank k_connecting = 0
rank k_connected = 1
rank k_disconnecting = 2
rank k_disconnected = 3

-- The result of a run that succeeds is no earlier state.
pub record Forward (c : Connection) (r : Option Connection) : Type 0 where
  pub later : (c' : Connection) → r ≡ some c' → rank c.conn_state ≤ rank c'.conn_state

module _ (c : Connection) where
  pub Forward-some :
      (c' : Connection) → rank c.conn_state ≤ rank c'.conn_state → Forward c (some c')
  Forward-some c' h = record {
    later = λ d e. subst (λ x. rank c.conn_state ≤ rank x.conn_state) (some-injective c' d e) h;
  }

  pub Forward-none : Forward c none
  Forward-none = record { later = λ d e. absurd (ground arith) }

  pub Forward-eq : (c' : Connection) → c'.conn_state ≡ c.conn_state → Forward c (some c')
  Forward-eq c' e = Forward-some c' (omega (arith, ap rank e))

-- Forward through a bind, and from an earlier start.
pub Forward-bind :
    (c : Connection) (m : Option Connection) (f : Connection → Option Connection)
    → Forward c m
    → ((d : Connection) → Forward d (f d))
    → Forward c (m >>= f)
Forward-bind c none f h k = Forward-none c
Forward-bind c (some d) f h k = record {
  later = λ e run. omega (arith, h.later d refl, (k d).later e run);
}

pub Forward-from :
    (c d : Connection) (r : Option Connection)
    → rank c.conn_state ≤ rank d.conn_state
    → Forward d r
    → Forward c r
Forward-from c d r h k = record { later = λ e run. omega (arith, h, k.later e run) }

-- A test, with what it says in either branch.
pub Forward-if :
    (c : Connection) (b : Bool) (r s : Option Connection)
    → (b ≡ true → Forward c r)
    → Forward c s
    → Forward c (if b then r else s)
Forward-if c true r s h k = h refl
Forward-if c false r s h k = k

pub rank-is_connected : (s : ConnState) → is_connected s ≡ true → rank s ≤ 2
rank-is_connected k_connected e = ground arith
rank-is_connected k_disconnecting e = ground arith
rank-is_connected k_connecting e = ground arith
rank-is_connected k_disconnected e = absurd (ground arith)

pub rank-can_close : (s : ConnState) → can_close s ≡ true → rank s ≤ 2
rank-can_close k_connected e = ground arith
rank-can_close k_disconnecting e = ground arith
rank-can_close k_connecting e = ground arith
rank-can_close k_disconnected e = absurd (ground arith)

pub rank-is_connecting : (s : ConnState) → is_connecting s ≡ true → rank s ≤ 1
rank-is_connecting k_connecting e = ground arith
rank-is_connecting k_connected e = ground arith
rank-is_connecting k_disconnecting e = absurd (ground arith)
rank-is_connecting k_disconnected e = absurd (ground arith)

pub rank_max : (s : ConnState) → rank s ≤ 3
rank_max k_connected = ground arith
rank_max k_disconnecting = ground arith
rank_max k_connecting = ground arith
rank_max k_disconnected = ground arith

-- The steps that leave the state alone.
abbrev pub SameState : Connection → Connection → Type 0
SameState c d = d.conn_state ≡ c.conn_state

pub watch_writable-SameState : (c : Connection) → SameState c (watch_writable c)
unfolding watch_writable
watch_writable-SameState c =
    if_either (SameState c) (not (is_writing c.channel)) _ c (λ _. refl) (λ _. refl)

pub notify_highwater-SameState : (c : Connection) (n : ℕ) → SameState c (notify_highwater c n)
notify_highwater-SameState c n = if_either (SameState c) _ _ c (λ _. refl) (λ _. refl)

pub shutdown_in_reactor-SameState : (c : Connection) → SameState c (shutdown_in_reactor c)
unfolding shutdown_in_reactor
shutdown_in_reactor-SameState c =
    if_either (SameState c) (not (is_writing c.channel)) _ c (λ _. refl) (λ _. refl)

pub send_with-SameState :
    (z : Option ZeroCopier) (g : Globals) (a : Answers) (c : Connection)
    → SameState c (send_with z g a c)
unfolding send_with copy_chunk transfer_sending_state
send_with-SameState none g a c = refl
send_with-SameState (some z) g a c = if_either (SameState c) _ _ c (λ _. refl) (λ _. refl)

pub notify_write_complete-SameState : (c : Connection) → SameState c (notify_write_complete c)
unfolding notify_write_complete
notify_write_complete-SameState c =
    if_either (SameState c) c.write_complete_callback _ c (λ _. refl) (λ _. refl)

pub shutdown_if_disconnecting-SameState :
    (c : Connection) → SameState c (shutdown_if_disconnecting c)
unfolding shutdown_if_disconnecting
shutdown_if_disconnecting-SameState c =
    if_either (SameState c) _ _ c (λ _. shutdown_in_reactor-SameState c) (λ _. refl)

pub finish_writing-SameState : (c : Connection) → SameState c (finish_writing c)
unfolding finish_writing
finish_writing-SameState c =
    if_either (SameState c) (is_idle c.sending_state) _ c
      (λ _.
        shutdown_if_disconnecting-SameState (notify_write_complete (with_channel end_writing c))
        ∙ notify_write_complete-SameState (with_channel end_writing c))
      (λ _. refl)

pub start_read-SameState : (c : Connection) → SameState c (start_read_in_reactor c)
unfolding start_read_in_reactor
start_read-SameState c = if_either (SameState c) _ _ c (λ _. refl) (λ _. refl)

pub stop_read-SameState : (c : Connection) → SameState c (stop_read_in_reactor c)
unfolding stop_read_in_reactor
stop_read-SameState c = if_either (SameState c) _ _ c (λ _. refl) (λ _. refl)

pub Forward-step {ℓ} :
    {A : Type ℓ} (c : Connection) (m : Option A) (f : A → Option Connection)
    → ((a : A) → Forward c (f a))
    → Forward c (m >>= f)
Forward-step c none f h = Forward-none c
Forward-step c (some a) f h = h a
