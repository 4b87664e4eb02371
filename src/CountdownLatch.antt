-- ===== src/CountdownLatch.antt =====
-- flute/common/CountdownLatch.h, with the threads that wait at it. A method holds the lock but while
-- it waits for the condition, so that it is one step up to there, and one more from there on.
pub mod Waiters
mod Tests
use flute.Prelude.{ℕ, ◌==◌, Bool, if◌then◌else◌, ℤ, pos, ◌-ℤ◌, ltb_ℤ, eqb_ℤ}

-- Where a thread is: not in `wait`, in the queue of the condition, woken and about to take the lock
-- again, or returned from `wait`.
pub data Place : Type 0 where
  outside asleep woken returned : Place

pub record CountdownLatch : Type 0 where
  pub count : ℤ
  pub place : ℕ → Place

unfoldable pub new : ℤ → CountdownLatch
new count = record { count = count; place = λ thread. outside }

abbrev pub put : ℕ → Place → CountdownLatch → CountdownLatch
put thread place l = record l { place = λ t. if t == thread then place else l.place t }

-- The test of the loop in `wait`, with the lock.
unfoldable pub test : ℕ → CountdownLatch → CountdownLatch
test thread l = if ltb_ℤ (pos 0) l.count then put thread asleep l else put thread returned l

abbrev pub wake : Place → Place
wake asleep = woken
wake place = place

abbrev pub notify_all : CountdownLatch → CountdownLatch
notify_all l = record l { place = λ t. wake (l.place t) }

unfoldable pub countdown : CountdownLatch → CountdownLatch
countdown l =
    let count = l.count -ℤ pos 1 in
    let l' : CountdownLatch = record l { count = count } in
    if eqb_ℤ count (pos 0) then notify_all l' else l'

-- What may happen: a thread calls `wait`, one is woken without a reason, a woken one goes on with the
-- loop, or some thread counts down.
pub data Event : Type 0 where
  waits spuriously_wakes goes_on : ℕ → Event
  counts_down : Event

abbrev pub if_asleep : ℕ → Place → CountdownLatch → CountdownLatch
if_asleep thread asleep l = put thread woken l
if_asleep thread _ l = l

abbrev pub if_woken : ℕ → Place → CountdownLatch → CountdownLatch
if_woken thread woken l = test thread l
if_woken thread _ l = l

abbrev pub if_outside : ℕ → Place → CountdownLatch → CountdownLatch
if_outside thread outside l = test thread l
if_outside thread _ l = l

unfoldable pub perform : Event → CountdownLatch → CountdownLatch
perform (waits thread) l = if_outside thread (l.place thread) l
perform (spuriously_wakes thread) l = if_asleep thread (l.place thread) l
perform (goes_on thread) l = if_woken thread (l.place thread) l
perform counts_down l = countdown l
