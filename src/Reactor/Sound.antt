-- ===== src/Reactor/Sound.antt =====
-- No task of flute/net/Reactor.cc is lost, run twice, overtaken, or left while its thread waits.
use flute.Prelude.{◌≡◌, List, ◌++◌}
use flute.Reactor.{Reactor}
use flute.Reactor.Threads.{World}
use flute.Reactor.Line.{line, IsAwake}

module _ {ℓ} {A : Type ℓ} where
  -- What holds of the reactor and the other threads, and how a run goes on from it.
  pub record GoesOn (w w' : World A) : Type ℓ where
    pub awake : IsAwake w'.reactor w'.wakers w'.early
    pub added : List A
    pub order : line w'.reactor ≡ line w.reactor ++ added
