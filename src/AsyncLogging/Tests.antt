-- ===== src/AsyncLogging/Tests.antt =====
-- The backend of flute/common/AsyncLogging.cc on a few lines.
use flute.Prelude.{refl, inl, none, [], ◌∷◌}
use flute.AsyncLogging.{Backend, new, start}
use flute.AsyncLogging.Turns.{IsReady, InOrder, backend_loop, backend_loop-InOrder}

start-IsReady : IsReady start
start-IsReady = record { first = refl; second = refl; nothing = refl }

abbrev full_hands : Backend
full_hands = record start {
  new_buffer1 = none;
  new_buffer2 = none;
  buffers_to_write = (1 ∷ []) ∷ (2 ∷ []) ∷ (3 ∷ []) ∷ [];
}

backend_loop-InOrder_example :
    InOrder (backend_loop (λ n. []) (((1 ∷ []) ∷ [], (2 ∷ []) ∷ []) ∷ ([], []) ∷ []) new start)
backend_loop-InOrder_example =
    backend_loop-InOrder (λ n. []) (((1 ∷ []) ∷ [], (2 ∷ []) ∷ []) ∷ ([], []) ∷ []) new start
      (inl refl) start-IsReady
