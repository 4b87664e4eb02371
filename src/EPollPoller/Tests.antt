-- ===== src/EPollPoller/Tests.antt =====
-- A poller of flute/net/poller/EPollPoller.cc with one channel.
use flute.Prelude.{◌≡◌, refl, true, none, some, [], ◌∷◌, ◌==◌, if◌then◌else◌}
use flute.Channel
use flute.Channel.{Channel, want_to_write, end_all}
use flute.EPollPoller.{EPollPoller, epoll_ctl_add, update_channel, remove_channel}
use flute.EPollPoller.Interest.{
  UpdatesTo, is_new, is_added, Removed, update_channel-Updated, remove_channel-Removed,
}

-- The channel of descriptor 7 stands at address 1.
abbrev fresh : EPollPoller
fresh = record {
  channels = λ ptr. want_to_write (Channel.new 7);
  channel_map = λ fd. none;
  ctls = [];
  n_events_list = 16;
}

abbrev quiet : EPollPoller
quiet = record {
  channels = λ ptr. record (end_all (Channel.new 7)) { idx = some 1 };
  channel_map = λ fd. if fd == 7 then some 1 else none;
  ctls =
      record {
        operation = epoll_ctl_add;
        fd = 7;
        events = (want_to_write (Channel.new 7)).concerned_events;
        ptr = 1;
      }
      ∷ [];
  n_events_list = 16;
}

update_channel-Updated_example : UpdatesTo 1 fresh (update_channel true 1 fresh)
unfolding Channel.new
update_channel-Updated_example = update_channel-Updated 1 fresh tt (is_new refl refl refl)

remove_channel-Removed_example :
    (e' : EPollPoller) × (remove_channel true 1 quiet ≡ some e') × Removed quiet 1 e'
unfolding Channel.new
remove_channel-Removed_example =
    remove_channel-Removed 1 quiet (refl, tt)
      (is_added (want_to_write (Channel.new 7)).concerned_events refl refl refl) refl refl
