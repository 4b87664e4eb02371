-- ===== src/Acceptor.antt =====
-- flute/net/Acceptor.h and Acceptor.cc: the acceptor of a server, in its reactor's thread. `held` are
-- the open descriptors that the acceptor has to close, and `handed_over` those that it gave to its
-- owner, the latest first. A descriptor below zero is `none`; the answers of the kernel are arguments,
-- and `none` as a result is a failed `assert`.
pub mod Held
mod Tests
use flute.Prelude.{
  ℕ, Bool, true, false, Option, none, some, List, [], ◌∷◌, ◌==◌, if◌then◌else◌, ◌>>=◌, ◌>>◌, assert,
}
use flute.Channel
use flute.Channel.{Channel, wang_to_read, end_all, remove_self_from_reactor}

pub record Acceptor : Type 0 where
  pub accept_sockfd : ℕ
  pub accept_channel : Channel
  pub has_callback : Bool
  pub is_listening : Bool
  pub reserved_fd : Option ℕ
  pub held : ℕ → Bool
  pub handed_over : List ℕ

abbrev pub mark : Option ℕ → Bool → (ℕ → Bool) → ℕ → Bool
mark none b held n = held n
mark (some fd) b held n = if fd == n then b else held n

-- `close` of -1 does nothing.
abbrev pub close : Option ℕ → Acceptor → Acceptor
close fd a = record a { held = mark fd false a.held }

abbrev pub got : Option ℕ → Acceptor → Acceptor
got fd a = record a { held = mark fd true a.held }

-- With the answers of `socket` and `open`.
unfoldable pub new : ℕ → Option ℕ → Option Acceptor
new sockfd none = none
new sockfd (some reserved) = some (record {
  accept_sockfd = sockfd;
  accept_channel = Channel.new sockfd;
  has_callback = false;
  is_listening = false;
  reserved_fd = some reserved;
  held = mark (some reserved) true (mark (some sockfd) true (λ n. false));
  handed_over = [];
})

abbrev pub set_new_conn_callback : Acceptor → Acceptor
set_new_conn_callback a = record a { has_callback = true }

unfoldable pub listen : Acceptor → Acceptor
listen a = record a { is_listening = true; accept_channel = wang_to_read a.accept_channel }

-- What `accept` answers, and, where the descriptors are used up, the second `accept` and `open`.
pub data Arrival : Type 0 where
  accepts : ℕ → Arrival
  too_many_files : Option ℕ → Option ℕ → Arrival
  fails : Arrival

unfoldable pub new_connection : ℕ → Acceptor → Acceptor
new_connection connfd a =
    if a.has_callback
    then record (close (some connfd) a) { handed_over = connfd ∷ a.handed_over }
    else close (some connfd) a

unfoldable pub handle_conn_arrival : Arrival → Acceptor → Acceptor
handle_conn_arrival (accepts connfd) a = new_connection connfd (got (some connfd) a)
handle_conn_arrival (too_many_files accepted reopened) a =
    let a₁ = close a.reserved_fd a in
    let a₂ = got accepted (record a₁ { reserved_fd = accepted }) in
    let a₃ = close a₂.reserved_fd a₂ in got reopened (record a₃ { reserved_fd = reopened })
handle_conn_arrival fails a = a

-- The destructor, and then that of its socket.
unfoldable pub destroy : Acceptor → Option Acceptor
destroy a = do
  channel ← remove_self_from_reactor (end_all a.accept_channel)
  let a' = close a.reserved_fd (record a { accept_channel = channel; is_listening = false })
  some (close (some a.accept_sockfd) a')
