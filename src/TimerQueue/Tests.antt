-- ===== src/TimerQueue/Tests.antt =====
-- Runs of the definitions of flute/net/TimerQueue.cc.
use flute.Prelude.{
  ℕ, ◌≡◌, refl, true, false, inl, inr, List, [], ◌∷◌, take, Option, none, some, All, arith,
  if◌then◌else◌, ◌==◌, Bool-cases,
}
use flute.TimerQueue.{
  Timer, TimerQueue, Act, adds, removes, Interval, new, handle_timerfd_read, uintptr_max, add_timer,
  add_timer_in_reactor, insert, cancel_in_reactor, retrieve_expired_timers, reset, reset_one,
  restart, how_long_from_now,
}
use flute.TimerQueue.Inv.{is_live}
use flute.TimerQueue.Calls.{IsValidAct, GivesFree}
use flute.TimerQueue.Alarms.{handle_timerfd_read-Fired, Fired}
use flute.TimerQueue.Runs.{Op, acts, goes_off, Good, new-Good, run, run-Good}

-- Three addresses.
abbrev malloc : (ℕ → Option (Timer ℕ)) → Option ℕ
malloc h =
    if is_live (h 16)
    then (if is_live (h 32) then (if is_live (h 48) then none else some 48) else some 32)
    else some 16

malloc-GivesFree : GivesFree malloc
unfolding uintptr_max
malloc-GivesFree h p e = ground (arith, e)

abbrev once : Interval
once = record { over_zero = false; micro_seconds = 0 }

abbrev every_half : Interval
every_half = record { over_zero = true; micro_seconds = 500000 }

-- The callback 7 adds a timer, the callback 9 removes the timer 1.
abbrev does : ℕ → List (Act ℕ)
does cb =
    if cb == 7 then adds 8 2000000 once 1000 ∷ [] else if cb == 9 then removes 16 1 ∷ [] else []

does-valid : (cb : ℕ) → All IsValidAct (does cb)
does-valid cb = elim (Bool-cases (cb == 7)) [
  | inl e ↦ rw e (omega arith, tt)
  | inr e ↦ elim (Bool-cases (cb == 9)) [ inl f ↦ rw (e, f) (tt, tt) | inr f ↦ rw (e, f) tt ]
]

abbrev ops : List (Op ℕ)
ops =
    acts (adds 7 1000000 every_half 500000)
    ∷ (acts (adds 9 1200000 once 500000) ∷ (goes_off 1300000 1300001 ∷ []))

abbrev alarmed_of : Option (TimerQueue ℕ) → List ℕ
alarmed_of none = []
alarmed_of (some q) = q.alarmed

-- The second callback removes the first timer, which repeats, so that only the new one is left.
called_in_order : alarmed_of (run malloc does ops new) ≡ 7 ∷ (9 ∷ [])
unfolding add_timer add_timer_in_reactor insert cancel_in_reactor retrieve_expired_timers reset
    reset_one restart handle_timerfd_read uintptr_max how_long_from_now
called_in_order = refl

run-Good_example : (r : TimerQueue ℕ) × (run malloc does ops new ≡ some r) × Good r
run-Good_example = run-Good malloc does malloc-GivesFree does-valid ops new (omega arith) new-Good

two_timers : (r : TimerQueue ℕ) × (run malloc does (take 2 ops) new ≡ some r) × Good r
two_timers =
    run-Good malloc does malloc-GivesFree does-valid (take 2 ops) new (omega arith) new-Good

handle_timerfd_read-Fired_example :
    (r : TimerQueue ℕ) × (handle_timerfd_read malloc does 1300000 1300001 two_timers.0 ≡ some r)
    × Fired 1300000 two_timers.0 r
handle_timerfd_read-Fired_example =
    handle_timerfd_read-Fired malloc does malloc-GivesFree does-valid 1300000 1300001 two_timers.0
      (omega arith) two_timers.2.inv
