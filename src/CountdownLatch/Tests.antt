-- ===== src/CountdownLatch/Tests.antt =====
-- Runs of the definitions of flute/common/CountdownLatch.h.
use flute.Prelude.{◌≡◌, ◌≢◌, refl, [], ◌∷◌, List, pos, ◌-ℤ◌, ◌≤ℤ◌}
use flute.CountdownLatch.{Place, Event, waits, goes_on, counts_down, new, perform, test, countdown}
use flute.CountdownLatch.Waiters.{run, run-wakes_all}

-- Two threads wait for two countdowns.
abbrev two_waiters : List Event
two_waiters = waits 7 ∷ counts_down ∷ waits 8 ∷ counts_down ∷ goes_on 7 ∷ []

first_returned : (run two_waiters (new (pos 2))).place 7 ≡ Place.returned
unfolding run perform new test countdown ◌-ℤ◌
first_returned = refl

second_woken : (run two_waiters (new (pos 2))).place 8 ≡ Place.woken
unfolding run perform new test countdown ◌-ℤ◌
second_woken = refl

run-wakes_all_example :
    ((run two_waiters (new (pos 2))).place 8 ≡ Place.returned
      → (run two_waiters (new (pos 2))).count ≤ℤ pos 0)
    × ((run two_waiters (new (pos 2))).count ≤ℤ pos 0
        → ((run two_waiters (new (pos 2))).place 8 ≢ Place.asleep)
          × ((run two_waiters (new (pos 2))).place 8 ≡ Place.woken
              → (perform (goes_on 8) (run two_waiters (new (pos 2)))).place 8 ≡ Place.returned))
run-wakes_all_example = run-wakes_all (pos 2) two_waiters 8
