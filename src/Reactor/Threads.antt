-- ===== src/Reactor/Threads.antt =====
-- The reactor of flute/net/Reactor.cc among threads: any number of them queue tasks and ask it to quit,
-- in any order, while its own thread goes round its loop.
use flute.Prelude.{suc, ◌≡◌, Bool, true, false, some, List, ℕ}
use flute.Reactor.{
  Reactor, Phase, outside, in_poll, Active, Act, new, wakeup_from_waiting_pool, push_pending,
  perform, loop, advance,
}

-- `wakers` counts the threads that have pushed a task or asked the reactor to quit, and that have not
-- yet written to the eventfd. `early` counts what the reactor's own thread did outside of the loop
-- since the poll last returned; there it queues tasks without a write to the eventfd.
pub record World {ℓ} (A : Type ℓ) : Type ℓ where
  pub reactor : Reactor A
  pub wakers : ℕ
  pub early : ℕ

module _ {ℓ} {A : Type ℓ} where
  abbrev pub is_outside : Phase A → Bool
  is_outside outside = true
  is_outside _ = false

  abbrev pub early_after : Phase A → ℕ → ℕ
  early_after in_poll early = 0
  early_after _ early = early

  -- One step of one of the threads; `does` is what the callbacks and tasks do.
  pub data Step (does : A → List (Act A)) (w w' : World A) : Type ℓ where
    goes_on :
        (active : List (Active A))
        → w' ≡ record w {
          reactor = advance does active w.reactor;
          early = early_after w.reactor.phase w.early;
        }
        → Step does w w'
    acts_outside :
        (act : Act A)
        → is_outside w.reactor.phase ≡ true
        → w' ≡ record w { reactor = perform act w.reactor; early = suc w.early }
        → Step does w w'
    enters_loop :
        is_outside w.reactor.phase ≡ true
        → loop w.reactor ≡ some w'.reactor
        → w'.wakers ≡ w.wakers
        → w'.early ≡ w.early
        → Step does w w'
    pushes :
        (task : A)
        → w' ≡ record w { reactor = push_pending task w.reactor; wakers = suc w.wakers }
        → Step does w w'
    asks_to_quit :
        w' ≡ record w {
          reactor = record (w.reactor) { going_to_quit = true };
          wakers = suc w.wakers;
        }
        → Step does w w'
    wakes :
        w.wakers ≡ suc w'.wakers
        → w'.reactor ≡ wakeup_from_waiting_pool w.reactor
        → w'.early ≡ w.early
        → Step does w w'

  pub data Reach (does : A → List (Act A)) (w : World A) : World A → Type ℓ where
    here : Reach does w w
    next : {v u : World A} → Reach does w v → Step does v u → Reach does w u

  abbrev pub begin : World A
  begin = record { reactor = new; wakers = 0; early = 0 }
