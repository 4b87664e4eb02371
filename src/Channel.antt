-- ===== src/Channel.antt =====
-- flute/net/Channel.h and Channel.cc: what one descriptor waits for and what is done when it
-- happens. An `int` of poll flags is the record of its flags.
pub mod Dispatch
mod Tests
use flute.Prelude.{
  ℕ, Bool, true, false, not, ◌&&◌, ◌||◌, Option, none, some, List, [], ◌∷◌, ◌++◌, if◌then◌else◌,
  ◌>>=◌, ◌>>◌, assert,
}

pub record Events : Type 0 where
  pub pollin : Bool
  pub pollpri : Bool
  pub pollout : Bool
  pub pollerr : Bool
  pub pollhup : Bool
  pub pollnval : Bool
  pub pollrdhup : Bool

abbrev pub k_none_event : Events
k_none_event = record {
  pollin = false;
  pollpri = false;
  pollout = false;
  pollerr = false;
  pollhup = false;
  pollnval = false;
  pollrdhup = false;
}

-- `idx` is -1 (`none`) until a poller knows the channel.
pub record Channel : Type 0 where
  pub fd : ℕ
  pub concerned_events : Events
  pub recv_events : Events
  pub idx : Option ℕ
  pub tied : Bool
  pub is_handing_event : Bool
  pub is_in_reactor : Bool

unfoldable pub new : ℕ → Channel
new fd = record {
  fd = fd;
  concerned_events = k_none_event;
  recv_events = k_none_event;
  idx = none;
  tied = false;
  is_handing_event = false;
  is_in_reactor = false;
}

-- `|= kReadEvent`, `&= ~kReadEvent` and their counterparts for `kWriteEvent`.
abbrev pub with_read : Bool → Events → Events
with_read on e = record e { pollin = on; pollpri = on }

abbrev pub with_write : Bool → Events → Events
with_write on e = record e { pollout = on }

-- The part of `update_self_in_reactor` that the channel keeps; the poller's part is
-- `EPoll.update_channel`.
abbrev concerned_with : Events → Channel → Channel
concerned_with e c = record c { concerned_events = e; is_in_reactor = true }

abbrev pub wang_to_read : Channel → Channel
wang_to_read c = concerned_with (with_read true c.concerned_events) c

abbrev pub end_reading : Channel → Channel
end_reading c = concerned_with (with_read false c.concerned_events) c

abbrev pub want_to_write : Channel → Channel
want_to_write c = concerned_with (with_write true c.concerned_events) c

abbrev pub end_writing : Channel → Channel
end_writing c = concerned_with (with_write false c.concerned_events) c

abbrev pub end_all : Channel → Channel
end_all c = concerned_with k_none_event c

abbrev pub is_writing : Channel → Bool
is_writing c = c.concerned_events.pollout

abbrev pub is_reading : Channel → Bool
is_reading c = c.concerned_events.pollin || c.concerned_events.pollpri

abbrev pub is_none : Events → Bool
is_none e =
    not (e.pollin || e.pollpri || e.pollout || e.pollerr || e.pollhup || e.pollnval || e.pollrdhup)

abbrev pub is_none_event : Channel → Bool
is_none_event c = is_none c.concerned_events

abbrev pub tie : Channel → Channel
tie c = record c { tied = true }

-- `remove_self_from_reactor`, without the poller's part.
unfoldable pub remove_self_from_reactor : Channel → Option Channel
remove_self_from_reactor c = do assert (is_none_event c); some (record c { is_in_reactor = false })

pub data Callback : Type 0 where
  on_read on_write on_close on_error : Callback

-- Which callbacks are set.
pub record Callbacks : Type 0 where
  pub read_callback : Bool
  pub write_callback : Bool
  pub close_callback : Bool
  pub error_callback : Bool

abbrev when : Bool → Callback → List Callback
when true c = c ∷ []
when false c = []

-- The callbacks that `handle_event_with_guard` makes, in order.
unfoldable pub handle_event_with_guard : Callbacks → Events → List Callback
handle_event_with_guard k e =
    when ((e.pollhup && not e.pollin) && k.close_callback) on_close
    ++ (when ((e.pollerr || e.pollnval) && k.error_callback) on_error
        ++ (when ((e.pollin || e.pollpri || e.pollrdhup) && k.read_callback) on_read
            ++ when (e.pollout && k.write_callback) on_write))

-- `handle_event`; `alive` says that the tied object could be locked.
unfoldable pub handle_event : Callbacks → Channel → Bool → List Callback
handle_event k c alive =
    if c.tied
    then (if alive then handle_event_with_guard k c.recv_events else [])
    else handle_event_with_guard k c.recv_events
