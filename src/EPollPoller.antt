-- ===== src/EPollPoller.antt =====
-- flute/net/poller/EPollPoller.h and EPollPoller.cc: the poller over epoll. A channel is known by its
-- address, a number, and `channels` is the store of all of them. The calls of `epoll_ctl` are put in
-- front of `ctls`, the latest first. `none` is a failed `assert` or a fatal log line.
pub mod Interest
mod Tests
use flute.Prelude.{
  ℕ, ◌*◌, ◌≤◌, Bool, true, false, ◌||◌, Option, none, some, List, [], ◌∷◌, ◌++◌, length, leb, ltb,
  ◌==◌, if◌then◌else◌, ◌>>=◌, ◌>>◌, assert,
}
use flute.Channel.{Channel, Events, is_none_event}

pub data Operation : Type 0 where
  epoll_ctl_add epoll_ctl_mod epoll_ctl_del : Operation

-- One call of `epoll_ctl`, with the events and the address that it registers.
pub record Ctl : Type 0 where
  pub operation : Operation
  pub fd : ℕ
  pub events : Events
  pub ptr : ℕ

pub record EPollPoller : Type 0 where
  pub channels : ℕ → Channel
  pub channel_map : ℕ → Option ℕ
  pub ctls : List Ctl
  pub n_events_list : ℕ

abbrev pub k_added : ℕ
k_added = 1

abbrev pub k_deleted : ℕ
k_deleted = 2

abbrev pub set_at {ℓ} : {A : Type ℓ} → ℕ → A → (ℕ → A) → ℕ → A
set_at k a f j = if k == j then a else f j

abbrev pub is_absent : Option ℕ → Bool
is_absent none = true
is_absent (some _) = false

abbrev pub is_at : ℕ → Option ℕ → Bool
is_at ptr none = false
is_at ptr (some p) = ptr == p

abbrev is_del : Operation → Bool
is_del epoll_ctl_del = true
is_del _ = false

abbrev pub set_index : ℕ → Option ℕ → EPollPoller → EPollPoller
set_index ptr idx e = record e {
  channels = set_at ptr (record (e.channels ptr) { idx = idx }) e.channels;
}

-- `ok` says that `epoll_ctl` succeeded; only a failed removal is survived.
unfoldable pub update : Bool → Operation → ℕ → EPollPoller → Option EPollPoller
update ok operation ptr e = do
  assert (ok || is_del operation)
  some (record e {
    ctls =
        record {
          operation = operation;
          fd = (e.channels ptr).fd;
          events = (e.channels ptr).concerned_events;
          ptr = ptr;
        }
        ∷ e.ctls;
  })

-- The three cases of `update_channel`.
unfoldable pub add_new : Bool → ℕ → EPollPoller → Option EPollPoller
add_new ok ptr e = do
  assert (is_absent (e.channel_map (e.channels ptr).fd))
  update ok epoll_ctl_add ptr (
      set_index ptr (some k_added)
        (record e { channel_map = set_at (e.channels ptr).fd (some ptr) e.channel_map }))

unfoldable pub add_again : Bool → ℕ → EPollPoller → Option EPollPoller
add_again ok ptr e = do
  assert (is_at ptr (e.channel_map (e.channels ptr).fd))
  update ok epoll_ctl_add ptr (set_index ptr (some k_added) e)

unfoldable pub modify_or_delete : Bool → ℕ → EPollPoller → Option EPollPoller
modify_or_delete ok ptr e =
    if is_none_event (e.channels ptr)
    then (do e' ← update ok epoll_ctl_del ptr e; some (set_index ptr (some k_deleted) e'))
    else update ok epoll_ctl_mod ptr e

unfoldable pub modify : Bool → ℕ → ℕ → EPollPoller → Option EPollPoller
modify ok index ptr e = do
  assert (is_at ptr (e.channel_map (e.channels ptr).fd))
  assert (index == k_added)
  modify_or_delete ok ptr e

-- `idx` is the channel's index, with `none` for `kNew`.
unfoldable pub update_by_index : Option ℕ → Bool → ℕ → EPollPoller → Option EPollPoller
update_by_index none ok ptr e = add_new ok ptr e
update_by_index (some index) ok ptr e =
    if index == k_deleted then add_again ok ptr e else modify ok index ptr e

unfoldable pub update_channel : Bool → ℕ → EPollPoller → Option EPollPoller
update_channel ok ptr e = update_by_index (e.channels ptr).idx ok ptr e

unfoldable pub remove_by_index : Option ℕ → Bool → ℕ → EPollPoller → Option EPollPoller
remove_by_index none ok ptr e = none
remove_by_index (some index) ok ptr e = do
  assert ((index == k_added) || (index == k_deleted))
  let e₁ = record e { channel_map = set_at (e.channels ptr).fd none e.channel_map }
  e₂ ← if index == k_added then update ok epoll_ctl_del ptr e₁ else some e₁
  some (set_index ptr none e₂)

unfoldable pub remove_channel : Bool → ℕ → EPollPoller → Option EPollPoller
remove_channel ok ptr e = do
  assert (is_at ptr (e.channel_map (e.channels ptr).fd))
  assert (is_none_event (e.channels ptr))
  remove_by_index (e.channels ptr).idx ok ptr e

-- One event that `epoll_wait` returned.
pub record Event : Type 0 where
  pub events : Events
  pub ptr : ℕ

-- The active channels, in the order of their events.
unfoldable pub register_active_channels : List Event → EPollPoller → Option (List ℕ × EPollPoller)
register_active_channels [] e = some ([], e)
register_active_channels (event ∷ rest) e = do
  assert (is_at event.ptr (e.channel_map (e.channels event.ptr).fd))
  let received = record (e.channels event.ptr) { recv_events = event.events }
  (active, e') ←
      register_active_channels rest (record e { channels = set_at event.ptr received e.channels })
  some (event.ptr ∷ active, e')

-- `none` is a failed `epoll_wait`.
unfoldable pub poll : Option (List Event) → EPollPoller → Option (List ℕ × EPollPoller)
poll none e = some ([], e)
poll (some []) e = some ([], e)
poll (some (event ∷ rest)) e = do
  assert (leb (length (event ∷ rest)) e.n_events_list)
  (active, e') ← register_active_channels (event ∷ rest) e
  some (
    active,
    if length (event ∷ rest) == e.n_events_list
        then record e' { n_events_list = e.n_events_list * 2 }
        else e',
  )
