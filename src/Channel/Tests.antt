-- ===== src/Channel/Tests.antt =====
-- An event of flute/net/Channel.cc.
use flute.Prelude.{true, false, none, ◌≡◌, refl, ◌∷◌, []}
use flute.Channel.{
  Channel, Callbacks, k_none_event, handle_event, on_read, on_write, handle_event_with_guard,
}
use flute.Channel.Dispatch.{IsAnswer, handle_event-IsAnswer}

abbrev all_set : Callbacks
all_set = record {
  read_callback = true;
  write_callback = true;
  close_callback = true;
  error_callback = false;
}

abbrev hung_up : Channel
hung_up = record {
  fd = 5;
  concerned_events = k_none_event;
  recv_events = record k_none_event {
    pollin = true;
    pollout = true;
    pollhup = true;
    pollerr = true;
  };
  idx = none;
  tied = true;
  is_handing_event = false;
  is_in_reactor = true;
}

-- The peer is gone but bytes are left to read, and no error callback is set.
hung_up_test : handle_event all_set hung_up true ≡ on_read ∷ on_write ∷ []
unfolding handle_event handle_event_with_guard
hung_up_test = refl

handle_event-IsAnswer_example :
    IsAnswer all_set hung_up.recv_events (handle_event all_set hung_up true)
handle_event-IsAnswer_example = handle_event-IsAnswer all_set hung_up true
