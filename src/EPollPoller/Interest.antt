-- ===== src/EPollPoller/Interest.antt =====
-- What epoll watches for under flute/net/poller/EPollPoller.cc.
use flute.Prelude.{
  ℕ, ◌≡◌, ◌≢◌, refl, inl, inr, Bool, true, false, ◌&&◌, Option, none, some, List, [], ◌∷◌, arith,
  ◌==◌, if◌then◌else◌, Bool-cases,
}
use flute.Channel.{Events, is_none_event}
use flute.EPollPoller.{
  EPollPoller, Operation, epoll_ctl_add, epoll_ctl_mod, epoll_ctl_del, Ctl, k_added, k_deleted,
  set_at, set_index, update, add_new, add_again, modify, modify_or_delete, update_by_index,
  update_channel, remove_by_index, remove_channel,
}

-- The interest list that the calls leave, by the manual page of `epoll_ctl`: an added or modified
-- descriptor is watched for the events of the call, and a deleted one is not.
abbrev pub interest : List Ctl → ℕ → Option Events
interest [] fd = none
interest (ctl ∷ ctls) fd =
    let rest = interest ctls fd in
    if ctl.fd == fd then elim ctl.operation [ epoll_ctl_del ↦ none | _ ↦ some ctl.events ] else rest

abbrev is_some_events : Option Events → Bool
is_some_events none = false
is_some_events (some _) = true

-- No call is refused: what is added is not in the list yet, what is modified or deleted is.
abbrev pub AllApt : List Ctl → Type 0
AllApt [] = Unit
AllApt (ctl ∷ ctls) =
    (is_some_events (interest ctls ctl.fd)
      ≡ elim ctl.operation [ epoll_ctl_add ↦ false | _ ↦ true ])
    × AllApt ctls

-- A channel is watched if its index says so, and then the map has it under its descriptor.
abbrev pub is_watched : Option ℕ → Bool
is_watched none = false
is_watched (some index) = index == k_added

-- The map's entry for a channel's descriptor, what epoll watches it for, and the channel's index
-- agree.
pub data Agree (ptr : ℕ) (mapped : Option ℕ) (watched : Option Events) (idx : Option ℕ)
    : Type 0 where
  is_new : mapped ≡ none → watched ≡ none → idx ≡ none → Agree ptr mapped watched idx
  is_added :
      (ev : Events)
      → mapped ≡ some ptr
      → watched ≡ some ev
      → idx ≡ some k_added
      → Agree ptr mapped watched idx
  is_deleted :
      mapped ≡ some ptr → watched ≡ none → idx ≡ some k_deleted → Agree ptr mapped watched idx

abbrev pub Registered : EPollPoller → ℕ → Type 0
Registered e ptr =
    Agree ptr (e.channel_map (e.channels ptr).fd) (interest e.ctls (e.channels ptr).fd)
      (e.channels ptr).idx

-- What an update has done for its channel: epoll watches for the channel's events, or for none if
-- the channel was deleted for having none; other descriptors are watched as before, and no call of
-- `epoll_ctl` was one that epoll refuses.
pub record Updated (e : EPollPoller) (ptr : ℕ) (e' : EPollPoller) : Type 0 where
  pub channel_kept : e'.channels ptr ≡ record (e.channels ptr) { idx = (e'.channels ptr).idx }
  pub registered : Registered e' ptr
  pub apt : AllApt e'.ctls
  pub watched : interest e'.ctls (e.channels ptr).fd ≡ (
      if is_watched (e.channels ptr).idx && is_none_event (e.channels ptr)
      then none
      else some (e.channels ptr).concerned_events)
  pub others :
      (fd : ℕ)
      → fd ≢ (e.channels ptr).fd
      → (interest e'.ctls fd ≡ interest e.ctls fd) × (e'.channel_map fd ≡ e.channel_map fd)

same : (n : ℕ) → (n == n) ≡ true
same n = ground arith

different : (m n : ℕ) → n ≢ m → (m == n) ≡ false
different m n h = ground (arith, h)

-- The states after the three kinds of call.
abbrev called : Operation → ℕ → EPollPoller → EPollPoller
called operation ptr e = record e {
  ctls =
      record {
        operation = operation;
        fd = (e.channels ptr).fd;
        events = (e.channels ptr).concerned_events;
        ptr = ptr;
      }
      ∷ e.ctls;
}

abbrev added_new : ℕ → EPollPoller → EPollPoller
added_new ptr e = called epoll_ctl_add ptr (
    set_index ptr (some k_added)
      (record e { channel_map = set_at (e.channels ptr).fd (some ptr) e.channel_map }))

abbrev added_again : ℕ → EPollPoller → EPollPoller
added_again ptr e = called epoll_ctl_add ptr (set_index ptr (some k_added) e)

abbrev deleted : ℕ → EPollPoller → EPollPoller
deleted ptr e = set_index ptr (some k_deleted) (called epoll_ctl_del ptr e)

abbrev pub UpdatesTo : ℕ → EPollPoller → Option EPollPoller → Type 0
UpdatesTo ptr e r = (e' : EPollPoller) × (r ≡ some e') × Updated e ptr e'

module _ (ptr : ℕ) (e : EPollPoller) (a : AllApt e.ctls) where
  added_new-Updated :
      (e.channels ptr).idx ≡ none
      → interest e.ctls (e.channels ptr).fd ≡ none
      → Updated e ptr (added_new ptr e)
  added_new-Updated x i = record {
    channel_kept = rw (same ptr) refl;
    registered =
        is_added (e.channels ptr).concerned_events (simp (same ptr, same (e.channels ptr).fd))
          (simp (same ptr, same (e.channels ptr).fd)) (simp (same ptr));
    apt = (simp (same ptr, i), a);
    watched = simp (same ptr, same (e.channels ptr).fd, x);
    others = λ fd h. (
      simp (same ptr, different (e.channels ptr).fd fd h),
      simp (same ptr, different (e.channels ptr).fd fd h),
    );
  }

  added_again-Updated :
      e.channel_map (e.channels ptr).fd ≡ some ptr
      → interest e.ctls (e.channels ptr).fd ≡ none
      → (e.channels ptr).idx ≡ some k_deleted
      → Updated e ptr (added_again ptr e)
  added_again-Updated m i x = record {
    channel_kept = rw (same ptr) refl;
    registered =
        is_added (e.channels ptr).concerned_events (simp (same ptr, m))
          (simp (same ptr, same (e.channels ptr).fd)) (simp (same ptr));
    apt = (simp (same ptr, i), a);
    watched = simp (same ptr, same (e.channels ptr).fd, x);
    others = λ fd h. (simp (same ptr, different (e.channels ptr).fd fd h), refl);
  }

  module _ (ev : Events) (m : e.channel_map (e.channels ptr).fd ≡ some ptr)
      (i : interest e.ctls (e.channels ptr).fd ≡ some ev)
      (x : (e.channels ptr).idx ≡ some k_added) where
    deleted-Updated : is_none_event (e.channels ptr) ≡ true → Updated e ptr (deleted ptr e)
    deleted-Updated n = record {
      channel_kept = rw (same ptr) refl;
      registered =
          is_deleted (simp (same ptr, m)) (simp (same ptr, same (e.channels ptr).fd))
            (simp (same ptr));
      apt = (simp i, a);
      watched = simp (same ptr, same (e.channels ptr).fd, x, n);
      others = λ fd h. (simp (different (e.channels ptr).fd fd h), refl);
    }

    modified-Updated :
        is_none_event (e.channels ptr) ≡ false → Updated e ptr (called epoll_ctl_mod ptr e)
    modified-Updated n = record {
      channel_kept = refl;
      registered = is_added (e.channels ptr).concerned_events m (simp (same (e.channels ptr).fd)) x;
      apt = (simp i, a);
      watched = simp (same (e.channels ptr).fd, x, n);
      others = λ fd h. (simp (different (e.channels ptr).fd fd h), refl);
    }

-- Where epoll accepts what its manual allows, an update of a channel whose registration is in order
-- succeeds, asks of epoll nothing that it refuses, and leaves the registration in order: epoll
-- watches for just the channel's events of interest, or no longer if they became none.
pub update_channel-Updated :
    (ptr : ℕ) (e : EPollPoller)
    → AllApt e.ctls
    → Registered e ptr
    → UpdatesTo ptr e (update_channel true ptr e)
unfolding update_channel update_by_index add_new add_again modify modify_or_delete update
update_channel-Updated ptr e a (is_new m i x) =
    (added_new ptr e, simp (x, m), added_new-Updated ptr e a x i)
update_channel-Updated ptr e a (is_deleted m i x) =
    (added_again ptr e, simp (x, m, same ptr), added_again-Updated ptr e a m i x)
update_channel-Updated ptr e a (is_added ev m i x) =
    elim (Bool-cases (is_none_event (e.channels ptr))) [
      | inl n ↦ (deleted ptr e, simp (x, m, n, same ptr), deleted-Updated ptr e a ev m i x n)
      | inr n ↦ (
        called epoll_ctl_mod ptr e,
        simp (x, m, n, same ptr),
        modified-Updated ptr e a ev m i x n,
      )
    ]

-- What a removal has done: the channel is new again, and neither the map nor epoll has it.
pub record Removed (e : EPollPoller) (ptr : ℕ) (e' : EPollPoller) : Type 0 where
  pub idx_new : (e'.channels ptr).idx ≡ none
  pub unmapped : e'.channel_map (e.channels ptr).fd ≡ none
  pub unwatched : interest e'.ctls (e.channels ptr).fd ≡ none
  pub apt : AllApt e'.ctls

abbrev unmap : ℕ → EPollPoller → EPollPoller
unmap ptr e = record e { channel_map = set_at (e.channels ptr).fd none e.channel_map }

-- The removal of a channel without events of interest, whose registration is in order, succeeds and
-- leaves it in no table, neither the poller's nor epoll's, by calls that epoll does not refuse.
pub remove_channel-Removed :
    (ptr : ℕ) (e : EPollPoller)
    → AllApt e.ctls
    → Registered e ptr
    → e.channel_map (e.channels ptr).fd ≡ some ptr
    → is_none_event (e.channels ptr) ≡ true
    → (e' : EPollPoller) × (remove_channel true ptr e ≡ some e') × Removed e ptr e'
unfolding remove_channel remove_by_index update
remove_channel-Removed ptr e a (is_new m i x) r n = absurd (ground (arith, m, r))
remove_channel-Removed ptr e a (is_deleted m i x) r n = (
  set_index ptr none (unmap ptr e),
  simp (x, r, n, same ptr),
  record {
    idx_new = simp (same ptr);
    unmapped = simp (same (e.channels ptr).fd);
    unwatched = i;
    apt = a;
  },
)
remove_channel-Removed ptr e a (is_added ev m i x) r n = (
  set_index ptr none (called epoll_ctl_del ptr (unmap ptr e)),
  simp (x, r, n, same ptr),
  record {
    idx_new = simp (same ptr);
    unmapped = simp (same (e.channels ptr).fd);
    unwatched = simp (same (e.channels ptr).fd);
    apt = (simp i, a);
  },
)
