-- ===== src/Deques/Tests.antt =====
-- Runs of the queue of flute/common/BoundedBlockingDeque.h.
use flute.Prelude.{ℕ, ◌≡◌, refl, true, false, List, [], ◌∷◌, arith}
use flute.Deques.{new, done, aborts, push}
use flute.Deques.Order.{
  History, Ideal, Op, push_op, take_op, set_size_op, run, ideals, Agrees, Refines, run-Refines,
}

abbrev small : History ℕ
small = record { queue = new 2; taken = [] }

abbrev ideal_small : Ideal ℕ
ideal_small = record { size = 2; values = []; taken = [] }

abbrev busy_ops : List (Op ℕ)
busy_ops =
    push_op true 1
    ∷ push_op true 2
    ∷ push_op true 3
    ∷ take_op
    ∷ set_size_op 3
    ∷ push_op false 4
    ∷ push_op true 5
    ∷ []

small-Agrees : Agrees small ideal_small
small-Agrees = record { size = refl; content = refl; taken = refl; bounded = omega arith }

-- The third push finds the queue full and waits.
busy_values :
    ideals busy_ops ideal_small ≡ record { size = 3; values = 4 ∷ 2 ∷ 5 ∷ []; taken = 1 ∷ [] }
busy_values = refl

-- A size below the number of the values makes the next push fail its assertion.
shrunk_aborts :
    run (push_op true 1 ∷ push_op true 2 ∷ set_size_op 1 ∷ push_op true 3 ∷ []) (done small)
    ≡ aborts
unfolding push
shrunk_aborts = refl

run-Refines_example : Refines (ideals busy_ops ideal_small) (run busy_ops (done small))
run-Refines_example =
    run-Refines busy_ops small ideal_small small-Agrees
      (tt, (tt, (tt, (tt, (omega arith, (tt, (tt, tt)))))))
