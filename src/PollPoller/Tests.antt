-- ===== src/PollPoller/Tests.antt =====
-- Runs of the definitions of flute/net/poller/PollPoller.cc.
use flute.Prelude.{
  ℕ, zero, suc, ◌≡◌, refl, subst, inl, inr, true, false, Option, none, some, List, [], ◌∷◌, arith,
  get_elem?, ◌==◌, if◌then◌else◌, Bool-cases,
}
use mathlib.Core.Option.{some-injective}
use flute.Channel.{Channel, Events, k_none_event, with_read}
use flute.PollPoller.{
  poll, register_active_channels, set_revents, PollFd, PollPoller, update_channel, modify,
  remove_channel, erase_entry, move_last,
}
use flute.PollPoller.Active.{Told, poll-Told}
use flute.PollPoller.Inv.{Placed, Inv, Erased}
use flute.PollPoller.Places.{remove_channel-Erased}

-- Two channels, of which the first has no event of interest.
abbrev idle : Channel
idle = record {
  fd = 3;
  concerned_events = k_none_event;
  recv_events = k_none_event;
  idx = some 0;
  tied = false;
  is_handing_event = false;
  is_in_reactor = true;
}

abbrev reading : Channel
reading = record idle { fd = 4; concerned_events = with_read true k_none_event; idx = some 1 }

abbrev idle_entry : PollFd
idle_entry = record { fd = 3; ignored = true; events = k_none_event; revents = none }

abbrev reading_entry : PollFd
reading_entry = record {
  fd = 4;
  ignored = false;
  events = with_read true k_none_event;
  revents = none;
}

abbrev two : PollPoller
two = record {
  channels = λ ptr. if ptr == 100 then idle else reading;
  channel_map = λ fd. if fd == 3 then some 100 else (if fd == 4 then some 200 else none);
  pollfds = idle_entry ∷ (reading_entry ∷ []);
}

idle-Placed : Placed two 0 idle_entry 100
idle-Placed = record { at = refl; mapped = refl; fd = refl; idx = refl }

reading-Placed : Placed two 1 reading_entry 200
reading-Placed = record { at = refl; mapped = refl; fd = refl; idx = refl }

two-entries :
    (i : ℕ) (e : PollFd) → get_elem? two.pollfds i ≡ some e → (ptr : ℕ) × Placed two i e ptr
two-entries zero e h =
    (100, subst (λ x. Placed two 0 x 100) (some-injective idle_entry e h) idle-Placed)
two-entries (suc zero) e h =
    (200, subst (λ x. Placed two 1 x 200) (some-injective reading_entry e h) reading-Placed)
two-entries (suc (suc i)) e h = absurd (ground (arith, h))

two-Inv : Inv two
two-Inv = record {
  entries = two-entries;
  mapped = λ fd ptr h. elim (Bool-cases (fd == 3)) [
    | inl e ↦ (
      0,
      idle_entry,
      ground (arith, e),
      subst (Placed two 0 idle_entry) (some-injective 100 ptr (simp e at h)) idle-Placed,
    )
    | inr e ↦ elim (Bool-cases (fd == 4)) [
      | inl f ↦ (
        1,
        reading_entry,
        ground (arith, f),
        subst (Placed two 1 reading_entry) (some-injective 200 ptr (simp (e, f) at h))
            reading-Placed,
      )
      | inr f ↦ absurd (ground (arith, h, e, f))
    ]
  ];
}

abbrev places : Option PollPoller → List PollFd
places none = []
places (some p) = p.pollfds

-- The second entry comes first.
moved_first : places (remove_channel 100 two) ≡ reading_entry ∷ []
unfolding remove_channel erase_entry move_last
moved_first = refl

ignored_by_update :
    places (
      update_channel 200
        (record two { channels = λ ptr. record reading { concerned_events = k_none_event } }))
    ≡ idle_entry ∷ (record idle_entry { fd = 4 } ∷ [])
unfolding update_channel modify
ignored_by_update = refl

remove_channel-Erased_example :
    (p' : PollPoller) × (remove_channel 100 two ≡ some p') × Erased two 3 p'
remove_channel-Erased_example =
    remove_channel-Erased two 100 0 idle_entry two-Inv idle-Placed refl refl refl

-- The kernel has events for the second entry.
abbrev readable : Events
readable = with_read true k_none_event

one_active :
    poll (some (1, none ∷ some readable ∷ [])) two
    ≡ some (
      200 ∷ [],
      set_revents 200 readable (record two {
        pollfds = idle_entry ∷ record reading_entry { revents = some readable } ∷ [];
      }),
    )
unfolding poll register_active_channels
one_active = refl

poll-Told_example :
    (active : List ℕ) × (p' : PollPoller) × (poll (some (1, none ∷ some readable ∷ [])) two
      ≡ some (active, p'))
    × Told
        ((4, readable) ∷ [])
        (record two {
          pollfds = idle_entry ∷ record reading_entry { revents = some readable } ∷ [];
        })
        active
        p'
poll-Told_example = poll-Told two 1 (none ∷ some readable ∷ []) two-Inv refl
