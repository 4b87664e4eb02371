-- ===== src/PollPoller.antt =====
-- flute/net/poller/PollPoller.h and PollPoller.cc: the poller over poll. A channel is known by its
-- address, a number, and `channels` is the store of all of them. `none` is a failed `assert` or an
-- access out of range.
pub mod Inv
pub mod Places
pub mod Active
mod Tests
use flute.Prelude.{
  zero, suc, ℕ, ◌+◌, ◌-◌, Bool, true, false, not, ◌&&◌, Option, none, some, List, [], ◌∷◌, ◌++◌,
  length, take, set, get_elem?, ltb, ◌==◌, if◌then◌else◌, ◌>>=◌, ◌>>◌, assert,
}
use flute.Channel.{Channel, Events, is_none, is_none_event}

-- An entry is ignored by the kernel where its descriptor stands as -fd-1.
pub record PollFd : Type 0 where
  pub fd : ℕ
  pub ignored : Bool
  pub events : Events
  pub revents : Option Events

pub record PollPoller : Type 0 where
  pub channels : ℕ → Channel
  pub channel_map : ℕ → Option ℕ
  pub pollfds : List PollFd

abbrev pub set_at {ℓ} : {A : Type ℓ} → ℕ → A → (ℕ → A) → ℕ → A
set_at k a f j = if k == j then a else f j

abbrev pub is_absent : Option ℕ → Bool
is_absent none = true
is_absent (some _) = false

abbrev pub is_at : ℕ → Option ℕ → Bool
is_at ptr none = false
is_at ptr (some p) = ptr == p

abbrev pub set_index : ℕ → ℕ → PollPoller → PollPoller
set_index ptr idx p = record p {
  channels = set_at ptr (record (p.channels ptr) { idx = some idx }) p.channels;
}

-- An entry for a channel.
abbrev pub entry_for : Channel → Bool → PollFd
entry_for c ignored = record {
  fd = c.fd;
  ignored = ignored;
  events = c.concerned_events;
  revents = none;
}

unfoldable pub add_new : ℕ → PollPoller → Option PollPoller
add_new ptr p = do
  assert (is_absent (p.channel_map (p.channels ptr).fd))
  some (
      set_index ptr (length p.pollfds) (record p {
        pollfds = p.pollfds ++ (entry_for (p.channels ptr) false ∷ []);
        channel_map = set_at (p.channels ptr).fd (some ptr) p.channel_map;
      }))

unfoldable pub modify : ℕ → ℕ → PollPoller → Option PollPoller
modify idx ptr p = do
  assert (is_at ptr (p.channel_map (p.channels ptr).fd))
  pfd ← get_elem? p.pollfds idx
  assert (pfd.fd == (p.channels ptr).fd)
  some (record p {
    pollfds = set p.pollfds idx (entry_for (p.channels ptr) (is_none_event (p.channels ptr)));
  })

-- `idx` is the channel's index, with `none` for a negative one.
abbrev pub update_by_index : Option ℕ → ℕ → PollPoller → Option PollPoller
update_by_index none ptr p = add_new ptr p
update_by_index (some idx) ptr p = modify idx ptr p

unfoldable pub update_channel : ℕ → PollPoller → Option PollPoller
update_channel ptr p = update_by_index (p.channels ptr).idx ptr p

abbrev pub pop_back : List PollFd → List PollFd
pop_back pollfds = take (length pollfds - 1) pollfds

-- The last entry takes the place of the one that goes.
unfoldable pub move_last : ℕ → PollPoller → Option PollPoller
move_last idx p = do
  last ← get_elem? p.pollfds (length p.pollfds - 1)
  ptr ← p.channel_map last.fd
  some (set_index ptr idx (record p { pollfds = pop_back (set p.pollfds idx last) }))

unfoldable pub erase_entry : ℕ → PollPoller → Option PollPoller
erase_entry idx p =
    if idx == length p.pollfds - 1
    then some (record p { pollfds = pop_back p.pollfds })
    else move_last idx p

unfoldable pub remove_channel : ℕ → PollPoller → Option PollPoller
remove_channel ptr p = do
  assert (is_at ptr (p.channel_map (p.channels ptr).fd))
  assert (is_none_event (p.channels ptr))
  idx ← (p.channels ptr).idx
  pfd ← get_elem? p.pollfds idx
  assert (pfd.ignored && (pfd.fd == (p.channels ptr).fd))
  assert (is_none pfd.events)
  erase_entry idx (record p { channel_map = set_at (p.channels ptr).fd none p.channel_map })

-- The kernel writes the events of each entry.
abbrev pub with_revents : List (Option Events) → List PollFd → List PollFd
with_revents (r ∷ rs) (e ∷ es) = record e { revents = r } ∷ with_revents rs es
with_revents _ es = es

abbrev pub set_revents : ℕ → Events → PollPoller → PollPoller
set_revents ptr events p = record p {
  channels = set_at ptr (record (p.channels ptr) { recv_events = events }) p.channels;
}

-- The loop over the entries, up to the number of those with events.
unfoldable pub register_active_channels :
    ℕ → List PollFd → PollPoller → Option (List ℕ × PollPoller)
register_active_channels zero es p = some ([], p)
register_active_channels (suc n) [] p = some ([], p)
register_active_channels (suc n) (e ∷ es) p = elim (e.revents) [
  | none ↦ register_active_channels (suc n) es p
  | some events ↦ do
    ptr ← p.channel_map e.fd
    assert ((p.channels ptr).fd == e.fd)
    (active, p') ← register_active_channels n es (set_revents ptr events p)
    some (ptr ∷ active, p')
]

-- `none` is a failed `poll`; else it is the number of entries with events, and these events.
unfoldable pub poll : Option (ℕ × List (Option Events)) → PollPoller → Option (List ℕ × PollPoller)
poll none p = some ([], p)
poll (some (num_events, revents)) p =
    let told : PollPoller = record p { pollfds = with_revents revents p.pollfds } in
    register_active_channels num_events told.pollfds told
