-- ===== src/TaskDeque/Tests.antt =====
-- A queue of flute/common/TaskDeque.cc with one thread.
use flute.Prelude.{
  replicate, ℕ, ◌+◌, ◌≡◌, refl, some, false, true, List, [], ◌∷◌, ◌++◌, arith, if◌then◌else◌, ltb,
}
use flute.TaskDeque.{
  TaskDeque, new, start, tests, asleep, finished, push_task, take_one, worker_loop,
}
use flute.TaskDeque.Workers.{Op, pushes, stops, works, perform, run}
use flute.TaskDeque.Weights.{weight, weights}
use flute.TaskDeque.Accepted.{accepted, run-Called}

abbrev started : TaskDeque ℕ
started = record (new 0) {
  is_running = true;
  num_threads = 1;
  worker = λ i. if ltb i 1 then tests else finished;
}

does_start : start 1 (new 0) ≡ some started
unfolding start
does_start = refl

abbrev before : List (Op ℕ)
before =
    (replicate 32 (works 0) ++ pushes 7 false 0 ∷ pushes 8 true 0 ∷ []) ++ replicate 8 (works 0)

abbrev later : List (Op ℕ)
later = works 0 ∷ (works 0 ∷ (works 0 ∷ []))

-- The thread has called the ten empty functions and the two tasks, and is asleep; it wakes up when the
-- queue is stopped.
sleeps : (run before started).worker 0 ≡ asleep
unfolding perform worker_loop push_task take_one
sleeps = refl

run-Called_example :
    ((i : ℕ) → (run (before ++ stops ∷ later) started).worker i ≡ finished)
    × (weight (λ task. task) (run (before ++ stops ∷ later) started).ran
          + weights (λ task. task) (run (before ++ stops ∷ later) started).task_deque
        ≡ weight (λ task. task) (accepted (before ++ stops ∷ later) started))
run-Called_example =
    run-Called 0 1 started before later (λ task. task) does_start (λ i h. ground (arith, h))
