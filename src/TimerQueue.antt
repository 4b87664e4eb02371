-- ===== src/TimerQueue.antt =====
-- flute/net/TimerQueue.h and TimerQueue.cc, Timer.h, Timer.cc and TimerId.h: timers by expiration and
-- by pointer, and the timerfd that goes off for the first of them. The calls are those of the
-- reactor's thread. A timer stands in `heap` at its pointer until it is deleted; a timestamp is its
-- microseconds since the epoch, `clock` is a later reading of the clock than `now`, and a failed assertion or the use of a deleted timer is `none`.
pub mod Sets
pub mod Split
pub mod Inv
pub mod Calls
pub mod Expired
pub mod Reset
pub mod Alarms
pub mod Runs
pub mod Armed
mod Tests
use flute.Prelude.{
  ℕ, ◌+◌, ◌-◌, ◌*◌, ◌/◌, ◌%◌, ◌^◌, Bool, true, false, not, ◌&&◌, ◌||◌, Option, none, some, List, [],
  ◌∷◌, ◌++◌, length, ltb, ◌==◌, if◌then◌else◌, ◌>>=◌, ◌>>◌, assert,
}
use flute.TimerQueue.Sets.{Entry, contains, set_insert, erase, before_bound, from_bound}

-- An interval is a `double`: what the code reads of it is whether it is over 0.0, and its product with
-- a million as an integer.
pub record Interval : Type 0 where
  pub over_zero : Bool
  pub micro_seconds : ℕ

pub record Timer {ℓ} (A : Type ℓ) : Type ℓ where
  pub callback : A
  pub time_expire : ℕ
  pub interval : Interval
  pub is_repeated : Bool
  pub global_timer_id : ℕ

pub record Timespec : Type 0 where
  pub tv_sec : ℕ
  pub tv_nsec : ℕ

-- The last `timerfd_settime` that has not gone off: the expiration meant, and the delay set.
pub record Alarm : Type 0 where
  pub expiration : ℕ
  pub it_value : Timespec

-- `alarmed` lists the callbacks called so far.
pub record TimerQueue {ℓ} (A : Type ℓ) : Type ℓ where
  pub timers_set : List Entry
  pub active_timers_set : List Entry
  pub is_calling_expired_timers : Bool
  pub canceling_timers : List Entry
  pub heap : ℕ → Option (Timer A)
  pub global_timer_count : ℕ
  pub timer_fd : Option Alarm
  pub alarmed : List A

abbrev pub k_micro_seconds_per_second : ℕ
k_micro_seconds_per_second = 1000000

-- A time before `now` is as far away as no time at all.
unfoldable pub how_long_from_now : ℕ → ℕ → Timespec
how_long_from_now when now =
    let microseconds = if ltb (when - now) 100 then 100 else when - now in
    record {
      tv_sec = microseconds / k_micro_seconds_per_second;
      tv_nsec = microseconds % k_micro_seconds_per_second * 1000;
    }

-- `UINTPTR_MAX`
unfoldable pub uintptr_max : ℕ
uintptr_max = 2 ^ 64 - 1

abbrev pub is_earliest : ℕ → List Entry → Bool
is_earliest when [] = true
is_earliest when (x ∷ s) = ltb when x.first

abbrev pub is_later : ℕ → List Entry → Bool
is_later now [] = true
is_later now (x ∷ s) = ltb now x.first

abbrev pub sentry : ℕ → Entry
sentry now = record { first = now; second = uintptr_max }

-- What a callback does with the queue: it adds a timer and learns its TimerId, or removes one.
pub data Act {ℓ} (A : Type ℓ) : Type ℓ where
  adds : (cb : A) (when : ℕ) (interval : Interval) (now : ℕ) → Act A
  removes : (timer_ptr sequence : ℕ) → Act A

module _ {ℓ} {A : Type ℓ} where
  abbrev pub put : ℕ → Option (Timer A) → (ℕ → Option (Timer A)) → ℕ → Option (Timer A)
  put k v h p = if p == k then v else h p

  abbrev pub new : TimerQueue A
  new = record {
    timers_set = [];
    active_timers_set = [];
    is_calling_expired_timers = false;
    canceling_timers = [];
    heap = λ p. none;
    global_timer_count = 0;
    timer_fd = none;
    alarmed = [];
  }

  abbrev pub new_timer : A → ℕ → Interval → ℕ → Timer A
  new_timer cb when interval id = record {
    callback = cb;
    time_expire = when;
    interval = interval;
    is_repeated = interval.over_zero;
    global_timer_id = id;
  }

  unfoldable pub restart : ℕ → Timer A → Timer A
  restart now t =
      if t.is_repeated
      then record t { time_expire = now + t.interval.micro_seconds }
      else record t { time_expire = 0 }

  -- A timerfd that has gone off is disarmed.
  abbrev pub read_timer_fd : TimerQueue A → TimerQueue A
  read_timer_fd q = record q { timer_fd = none }

  abbrev pub reset_timer_fd : ℕ → ℕ → TimerQueue A → TimerQueue A
  reset_timer_fd expiration now q = record q {
    timer_fd =
        some (record { expiration = expiration; it_value = how_long_from_now expiration now });
  }

  abbrev pub same_sizes : TimerQueue A → Bool
  same_sizes q = length q.timers_set == length q.active_timers_set

  abbrev pub entry_of : ℕ → Timer A → Entry
  entry_of ptr t = record { first = t.time_expire; second = ptr }

  abbrev pub active_of : ℕ → Timer A → Entry
  active_of ptr t = record { first = ptr; second = t.global_timer_id }

  -- The queue with the timer in both sets.
  abbrev pub with_entries : ℕ → Timer A → TimerQueue A → TimerQueue A
  with_entries ptr t q = record q {
    timers_set = set_insert (entry_of ptr t) q.timers_set;
    active_timers_set = set_insert (active_of ptr t) q.active_timers_set;
  }

  unfoldable pub insert : ℕ → TimerQueue A → Option (Bool × TimerQueue A)
  insert ptr q = do
    timer ← q.heap ptr
    assert (same_sizes q)
    assert (not (contains (entry_of ptr timer) q.timers_set))
    assert (not (contains (active_of ptr timer) q.active_timers_set))
    assert (same_sizes (with_entries ptr timer q))
    some (is_earliest timer.time_expire q.timers_set, with_entries ptr timer q)

  abbrev pub rearm : ℕ → ℕ → Bool × TimerQueue A → TimerQueue A
  rearm when now (changed, q) = if changed then reset_timer_fd when now q else q

  unfoldable pub add_timer_in_reactor : ℕ → ℕ → TimerQueue A → Option (TimerQueue A)
  add_timer_in_reactor ptr now q = do
    timer ← q.heap ptr
    r ← insert ptr q
    some (rearm timer.time_expire now r)

  -- The queue without the timer, which is deleted.
  abbrev pub without : ℕ → Timer A → Entry → TimerQueue A → TimerQueue A
  without ptr t active q = record q {
    timers_set = erase (entry_of ptr t) q.timers_set;
    active_timers_set = erase active q.active_timers_set;
    heap = put ptr none q.heap;
  }

  abbrev pub erase_timer : ℕ → Entry → TimerQueue A → Option (TimerQueue A)
  erase_timer ptr active q = do
    timer ← q.heap ptr
    assert (contains (entry_of ptr timer) q.timers_set)
    some (without ptr timer active q)

  unfoldable pub cancel_in_reactor : ℕ → ℕ → TimerQueue A → Option (TimerQueue A)
  cancel_in_reactor timer_ptr sequence q =
      let timer : Entry = record { first = timer_ptr; second = sequence } in
      do
        assert (same_sizes q)
        r ←
            if contains timer q.active_timers_set
            then erase_timer timer_ptr timer q
            else if q.is_calling_expired_timers
            then some (record q { canceling_timers = set_insert timer q.canceling_timers })
            else some q
        assert (same_sizes r)
        some r

  abbrev pub erase_active : (ℕ → Option (Timer A)) → List Entry → List Entry → Option (List Entry)
  erase_active heap [] s = some s
  erase_active heap (it ∷ expired) s = do
    timer ← heap it.second
    assert (contains (active_of it.second timer) s)
    erase_active heap expired (erase (active_of it.second timer) s)

  unfoldable pub retrieve_expired_timers : ℕ → TimerQueue A → Option (List Entry × TimerQueue A)
  retrieve_expired_timers now q =
      let expired = before_bound (sentry now) q.timers_set in
      let later = from_bound (sentry now) q.timers_set in
      do
        assert (same_sizes q)
        assert (is_later now later)
        active ← erase_active q.heap expired q.active_timers_set
        assert (length later == length active)
        some (expired, record q { timers_set = later; active_timers_set = active })

  abbrev pub ignore_changed : Bool × TimerQueue A → Option (TimerQueue A)
  ignore_changed (changed, q) = some q

  unfoldable pub reset_one : Entry → ℕ → TimerQueue A → Option (TimerQueue A)
  reset_one it now q = do
    timer ← q.heap it.second
    if timer.is_repeated && not (contains (active_of it.second timer) q.canceling_timers)
        then (insert it.second (record q { heap = put it.second (some (restart now timer)) q.heap })
            >>= ignore_changed)
        else some (record q { heap = put it.second none q.heap })

  abbrev pub reset_all : List Entry → ℕ → TimerQueue A → Option (TimerQueue A)
  reset_all [] now q = some q
  reset_all (it ∷ expired) now q = reset_one it now q >>= λ r. reset_all expired now r

  -- The timerfd is set for the first timer, where its time is valid.
  abbrev pub arm_for : Option (Timer A) → ℕ → TimerQueue A → Option (TimerQueue A)
  arm_for none clock q = none
  arm_for (some timer) clock q =
      some (if ltb 0 timer.time_expire then reset_timer_fd timer.time_expire clock q else q)

  abbrev pub arm_for_first : List Entry → ℕ → TimerQueue A → Option (TimerQueue A)
  arm_for_first [] clock q = some q
  arm_for_first (x ∷ s) clock q = arm_for (q.heap x.second) clock q

  unfoldable pub reset : List Entry → ℕ → ℕ → TimerQueue A → Option (TimerQueue A)
  reset expired now clock q = reset_all expired now q >>= λ r. arm_for_first r.timers_set clock r

-- `malloc` gives the address of a new timer.
module _ {ℓ} {A : Type ℓ} (malloc : (ℕ → Option (Timer A)) → Option ℕ) where
  -- The constructor of the timer, and its task. Where there is no memory, `new` throws before the
  -- queue is changed.
  unfoldable pub add_timer : A → ℕ → Interval → ℕ → TimerQueue A → Option (TimerQueue A)
  add_timer cb when interval now q = elim (malloc q.heap) [
    | none ↦ some q
    | some ptr ↦
        let id = q.global_timer_count + 1 in
        add_timer_in_reactor ptr now (record q {
          heap = put ptr (some (new_timer cb when interval id)) q.heap;
          global_timer_count = id;
        })
  ]

  abbrev pub perform : Act A → TimerQueue A → Option (TimerQueue A)
  perform (adds cb when interval now) q = add_timer cb when interval now q
  perform (removes timer_ptr sequence) q = cancel_in_reactor timer_ptr sequence q

  abbrev pub perform_all : List (Act A) → TimerQueue A → Option (TimerQueue A)
  perform_all [] q = some q
  perform_all (act ∷ acts) q = perform act q >>= λ r. perform_all acts r

-- `does` is what a callback does.
module _ {ℓ} {A : Type ℓ} (malloc : (ℕ → Option (Timer A)) → Option ℕ)
    (does : A → List (Act A)) where
  -- The callbacks of the expired timers, in order.
  abbrev pub alarm_all : List Entry → TimerQueue A → Option (TimerQueue A)
  alarm_all [] q = some q
  alarm_all (it ∷ expired) q = do
    timer ← q.heap it.second
    r ←
        perform_all malloc (does timer.callback)
          (record q { alarmed = q.alarmed ++ (timer.callback ∷ []) })
    alarm_all expired r

  unfoldable pub handle_timerfd_read : ℕ → ℕ → TimerQueue A → Option (TimerQueue A)
  handle_timerfd_read now clock q = do
    (expired, r) ← retrieve_expired_timers now (read_timer_fd q)
    s ← alarm_all expired (record r { is_calling_expired_timers = true; canceling_timers = [] })
    reset expired now clock (record s { is_calling_expired_timers = false })
