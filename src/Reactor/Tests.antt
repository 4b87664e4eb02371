-- ===== src/Reactor/Tests.antt =====
-- A reactor of flute/net/Reactor.cc and one other thread.
use flute.Prelude.{ℕ, zero, suc, true, List, [], ◌∷◌}
use flute.Reactor.{Reactor, Act, queues, in_poll, new, push_pending}
use flute.Reactor.Threads.{World}

-- Task 1 queues task 2.
abbrev work : ℕ → List (Act ℕ)
work (suc zero) = queues 2 ∷ []
work _ = []

abbrev waiting : Reactor ℕ
waiting = record new { is_looping = true; phase = in_poll }

-- Another thread pushes task 1 while the reactor waits.
abbrev pushed : World ℕ
pushed = record { reactor = push_pending 1 waiting; wakers = 1; early = 0 }
