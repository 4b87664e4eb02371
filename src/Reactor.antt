-- ===== src/Reactor.antt =====
-- flute/net/Reactor.h and Reactor.cc: the loop of one thread, and the tasks that other threads queue
-- for it. A task is a value, and what it does to its reactor when it is called is a parameter,
-- `does`. The eventfd is the number that it counts: a write adds one, a read sets it to zero.
pub mod Threads
pub mod Line
pub mod Turn
pub mod Sound
mod Tests
use flute.Prelude.{
  ℕ, ◌+◌, Bool, true, false, not, ◌||◌, Option, none, some, List, [], ◌∷◌, ◌++◌, ◌==◌,
  if◌then◌else◌, ◌>>=◌, ◌>>◌, assert,
}

-- An active channel: the reactor's own, or another, known by the value that stands for its callbacks.
pub data Active {ℓ} (A : Type ℓ) : Type ℓ where
  wakeup_channel : Active A
  channel : A → Active A

-- Where the thread of the reactor stands: outside of `loop`, in the poller's wait, before the rest of
-- the active channels, before the rest of the tasks of `do_queueing_tasks`.
pub data Phase {ℓ} (A : Type ℓ) : Type ℓ where
  outside in_poll : Phase A
  in_events : List (Active A) → Phase A
  in_tasks : List A → Phase A

-- `ran` are the tasks that `do_queueing_tasks` has called, in order.
pub record Reactor {ℓ} (A : Type ℓ) : Type ℓ where
  pub phase : Phase A
  pub is_looping : Bool
  pub going_to_quit : Bool
  pub is_handling_event : Bool
  pub is_calling_pending_tasks : Bool
  pub iter_count : ℕ
  pub pending_tasks : List A
  pub wakeup_count : ℕ
  pub ran : List A

-- A callback does these in the thread of the reactor, one after the other.
pub data Act {ℓ} (A : Type ℓ) : Type ℓ where
  queues : A → Act A
  marks_quit : Act A

module _ {ℓ} {A : Type ℓ} where
  abbrev pub new : Reactor A
  new = record {
    phase = outside;
    is_looping = false;
    going_to_quit = false;
    is_handling_event = false;
    is_calling_pending_tasks = false;
    iter_count = 0;
    pending_tasks = [];
    wakeup_count = 0;
    ran = [];
  }

  abbrev pub wakeup_from_waiting_pool : Reactor A → Reactor A
  wakeup_from_waiting_pool r = record r { wakeup_count = r.wakeup_count + 1 }

  abbrev pub handle_wakeup : Reactor A → Reactor A
  handle_wakeup r = record r { wakeup_count = 0 }

  -- The two parts of `queue_in_reactor`: under the lock, and behind it.
  abbrev pub push_pending : A → Reactor A → Reactor A
  push_pending task r = record r { pending_tasks = r.pending_tasks ++ (task ∷ []) }

  abbrev pub wake_if_needed : Bool → Reactor A → Reactor A
  wake_if_needed in_thread r =
      if not in_thread || r.is_calling_pending_tasks then wakeup_from_waiting_pool r else r

  unfoldable pub queue_in_reactor : Bool → A → Reactor A → Reactor A
  queue_in_reactor in_thread task r = wake_if_needed in_thread (push_pending task r)

  unfoldable pub mark_quit : Bool → Reactor A → Reactor A
  mark_quit in_thread r =
      let r' = record r { going_to_quit = true } in
      if not in_thread then wakeup_from_waiting_pool r' else r'

  -- `call` is what the task does when it is called.
  unfoldable pub run_asap_in_reactor :
      (A → Reactor A → Reactor A) → Bool → A → Reactor A → Reactor A
  run_asap_in_reactor call in_thread task r =
      if in_thread then call task r else queue_in_reactor in_thread task r

  unfoldable pub perform : Act A → Reactor A → Reactor A
  perform (queues task) r = queue_in_reactor true task r
  perform marks_quit r = mark_quit true r

  unfoldable pub perform_all : List (Act A) → Reactor A → Reactor A
  perform_all [] r = r
  perform_all (act ∷ acts) r = perform_all acts (perform act r)

  -- The head of the `while` in `loop`.
  abbrev pub next_turn : Reactor A → Reactor A
  next_turn r =
      if r.going_to_quit
      then record r { is_looping = false; phase = outside }
      else record r { phase = in_poll }

  unfoldable pub loop : Reactor A → Option (Reactor A)
  loop r = do
    assert (not r.is_looping)
    some (next_turn (record r { is_looping = true; going_to_quit = false }))

  -- `poll` returns with the active channels.
  abbrev pub poll_returned : List (Active A) → Reactor A → Reactor A
  poll_returned channels r = record r {
    phase = in_events channels;
    iter_count = r.iter_count + 1;
    is_handling_event = true;
  }

  -- The end of the events, and `do_queueing_tasks` up to its loop.
  unfoldable pub swap_tasks : Reactor A → Reactor A
  swap_tasks r = record r {
    phase = in_tasks r.pending_tasks;
    is_handling_event = false;
    is_calling_pending_tasks = true;
    pending_tasks = [];
  }

  unfoldable pub end_of_tasks : Reactor A → Reactor A
  end_of_tasks r = next_turn (record r { is_calling_pending_tasks = false })

  -- One step of the thread of the reactor at its phase; `does` is what the callbacks and tasks do, and
  -- `active` what the poller would return. Outside of the loop it does nothing.
  unfoldable pub advance_at : (A → List (Act A)) → List (Active A) → Phase A → Reactor A → Reactor A
  advance_at does active outside r = r
  advance_at does active in_poll r = poll_returned active r
  advance_at does active (in_events []) r = swap_tasks r
  advance_at does active (in_events (wakeup_channel ∷ rest)) r =
      handle_wakeup (record r { phase = in_events rest })
  advance_at does active (in_events (channel x ∷ rest)) r =
      perform_all (does x) (record r { phase = in_events rest })
  advance_at does active (in_tasks []) r = end_of_tasks r
  advance_at does active (in_tasks (task ∷ rest)) r =
      perform_all (does task) (record r { phase = in_tasks rest; ran = r.ran ++ (task ∷ []) })

  unfoldable pub advance : (A → List (Act A)) → List (Active A) → Reactor A → Reactor A
  advance does active r = advance_at does active r.phase r

-- `remove_channel` of a reactor: the test that it makes while it handles events, with the channel
-- at hand and the active ones. Channels are known by their addresses.
abbrev pub is_listed : ℕ → List ℕ → Bool
is_listed x [] = false
is_listed x (y ∷ ys) = (x == y) || is_listed x ys

abbrev pub is_current : ℕ → Option ℕ → Bool
is_current x none = false
is_current x (some y) = x == y

unfoldable pub may_remove_channel : Bool → Option ℕ → List ℕ → ℕ → Bool
may_remove_channel is_handling_event current active ptr =
    if is_handling_event then is_current ptr current || not (is_listed ptr active) else true
