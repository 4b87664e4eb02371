-- ===== src/TaskDeque/Accepted.antt =====
-- The tasks that flute/common/TaskDeque.cc takes in, and what becomes of them.
use flute.Prelude.{
  ℕ, ◌+◌, ◌≤◌, ◌<◌, ◌≡◌, ◌≢◌, refl, ap, subst, inl, inr, Bool, true, false, Option, none, some,
  List, [], ◌∷◌, ◌++◌, ltb, ◌==◌, if◌then◌else◌, Bool-cases, arith,
}
use mathlib.Core.Option.{some-injective}
use native.Mathlib.Nat.{add-zero}
use flute.Deques.{Call, waits, aborts, done}
use flute.TaskDeque.{
  Worker, tests, takes, asleep, finished, runs, woken, is_asleep, notify, TaskDeque, stop, new,
  start, is_full, push_task, take_one, set_worker, work, worker_loop,
}
use flute.TaskDeque.Weights.{
  weight, weights, in_hand, in_hands, weight-append, weights-append, in_hands-set, in_hands-tests,
  in_hands-woken, in_hands-finished,
}
use flute.TaskDeque.Workers.{
  Op, pushes, stops, works, wakes, after_push, perform, run, steps_of, run-stop,
}

module _ {ℓ} {A : Type ℓ} where
  -- The tasks that were taken in, those whose push waited left out.
  abbrev pub if_done : A → Call (TaskDeque A) → List A
  if_done task waits = []
  if_done task aborts = []
  if_done task (done q) = task ∷ []

  abbrev pub accepted_by : Op A → TaskDeque A → List A
  accepted_by (pushes task push_back i) q = if_done task (push_task task push_back i q)
  accepted_by stops q = []
  accepted_by (works i) q = []
  accepted_by (wakes i) q = []

  abbrev pub accepted : List (Op A) → TaskDeque A → List A
  accepted [] q = []
  accepted (op ∷ ops) q = accepted_by op q ++ accepted ops (perform op q)

  module _ (q : TaskDeque A) where
    take_one-waits : q.task_deque ≡ [] → q.is_running ≡ true → take_one q ≡ waits
    unfolding take_one
    take_one-waits e on = ground (arith, e, on)

    take_one-none : q.task_deque ≡ [] → q.is_running ≡ false → take_one q ≡ done (none, q)
    unfolding take_one
    take_one-none e off = ground (arith, e, off)

    take_one-some :
        (task : Option A) (rest : List (Option A))
        → q.task_deque ≡ task ∷ rest
        → take_one q ≡ done (task, record q { task_deque = rest })
    unfolding take_one
    take_one-some task rest e = ground (arith, e)

  module _ (f : A → ℕ) where
    -- What was called, what the threads have and what waits weigh so much together.
    record Weighs (n total : ℕ) (q : TaskDeque A) : Type ℓ where
      balance : weight f q.ran + in_hands f n q.worker + weights f q.task_deque ≡ total
      threads : q.num_threads ≡ n
      others : (i : ℕ) → n ≤ i → q.worker i ≡ finished

    -- A thread that has not come to its end is one of those that were started.
    own_thread :
        {n total : ℕ} (i : ℕ) (q : TaskDeque A) → Weighs n total q → q.worker i ≢ finished → i < n
    own_thread {n} i q v busy = elim (Bool-cases (ltb i n)) [
      | inl e ↦ ground (arith, e)
      | inr e ↦ absurd (busy (v.others i (ground (arith, e))))
    ]

    -- A thread moves on, with the tasks called and waiting as they are then.
    moved-Weighs :
        {n total : ℕ} (i : ℕ) (w : Worker A) (q : TaskDeque A) (ran : List A)
        (tasks : List (Option A))
        → Weighs n total q
        → q.worker i ≢ finished
        → weight f ran + in_hand f w + weights f tasks
          ≡ weight f q.ran + in_hand f (q.worker i) + weights f q.task_deque
        → Weighs n total (set_worker i w (record q { ran = ran; task_deque = tasks }))
    moved-Weighs {n} i w q ran tasks v busy same =
        let small = own_thread i q v busy in
        record {
          balance = omega (arith, same, v.balance, in_hands-set f n i w q.worker small);
          threads = v.threads;
          others = λ j h. ground (arith, v.others j h, small, h);
        }

    taken-Weighs :
        {n total : ℕ} (i : ℕ) (tasks : List (Option A)) (q : TaskDeque A)
        → q.task_deque ≡ tasks
        → q.worker i ≡ takes
        → Weighs n total q
        → Weighs n total (work i takes q)
    taken-Weighs i [] q e h v = elim (Bool-cases q.is_running) [
      | inl on ↦
          rw (take_one-waits q e on)
            (moved-Weighs i asleep q q.ran q.task_deque v (ground (arith, h)) (ground (arith, h)))
      | inr off ↦ rw (take_one-none q e off) (
          moved-Weighs i (runs none) q q.ran q.task_deque v (ground (arith, h)) (ground (arith, h)))
    ]
    taken-Weighs i (task ∷ rest) q e h v =
        rw (take_one-some q task rest e)
          (moved-Weighs i (runs task) q q.ran rest v (ground (arith, h)) (ground (arith, h, e)))

    work-Weighs :
        {n total : ℕ} (i : ℕ) (w : Worker A) (q : TaskDeque A)
        → q.worker i ≡ w
        → Weighs n total q
        → Weighs n total (work i w q)
    work-Weighs i tests q h v =
        moved-Weighs i (if q.is_running then takes else finished) q q.ran q.task_deque v
          (ground (arith, h)) (ground (arith, h))
    work-Weighs i takes q h v = taken-Weighs i q.task_deque q refl h v
    work-Weighs i (runs none) q h v =
        moved-Weighs i tests q q.ran q.task_deque v (ground (arith, h)) (ground (arith, h))
    work-Weighs i (runs (some task)) q h v =
        moved-Weighs i tests q (q.ran ++ task ∷ []) q.task_deque v (ground (arith, h))
          (ground (arith, h, weight-append f q.ran (task ∷ [])))
    work-Weighs i asleep q h v = v
    work-Weighs i finished q h v = v

    notify-Weighs :
        {n total : ℕ} (i : ℕ) (q : TaskDeque A) → Weighs n total q → Weighs n total (notify i q)
    notify-Weighs i q v = elim (Bool-cases (is_asleep (q.worker i))) [
      | inl e ↦ rw e (
          moved-Weighs i takes q q.ran q.task_deque v (λ h. absurd (ground (arith, e, h)))
            (ground (arith, e)))
      | inr e ↦ rw e v
    ]

    pushed-Weighs :
        {n total : ℕ} (task : A) (push_back : Bool) (i : ℕ) (q : TaskDeque A)
        → Weighs n total q
        → Weighs n
            (total + weight f (if_done task (push_task task push_back i q)))
            (after_push (push_task task push_back i q) q)
    unfolding push_task
    pushed-Weighs {n} task push_back i q v = elim (Bool-cases (q.num_threads == 0)) [
      | inl e ↦ rw e (record {
        balance = omega (arith, v.balance, weight-append f q.ran (task ∷ []));
        threads = v.threads;
        others = v.others;
      })
      | inr e ↦ elim (Bool-cases (is_full q)) [
        | inl full ↦ rw (e, full, add-zero) v
        | inr room ↦
            rw (e, room)
              (notify-Weighs i _ (record {
                balance = ground (arith, v.balance, weights-append f q.task_deque (some task ∷ []));
                threads = v.threads;
                others = v.others;
              }))
      ]
    ]

    perform-Weighs :
        {n total : ℕ} (op : Op A) (q : TaskDeque A)
        → Weighs n total q
        → Weighs n (total + weight f (accepted_by op q)) (perform op q)
    unfolding perform worker_loop stop
    perform-Weighs (pushes task push_back i) q v = pushed-Weighs task push_back i q v
    perform-Weighs (wakes i) q v = rw add-zero (notify-Weighs i q v)
    perform-Weighs stops q v = rw add-zero (record {
      balance = omega (arith, v.balance, in_hands-woken f _ q.worker);
      threads = v.threads;
      others = λ i h. ap woken (v.others i h);
    })
    perform-Weighs (works i) q v = rw add-zero (work-Weighs i (q.worker i) q refl v)

    run-Weighs :
        {n : ℕ} (ops : List (Op A)) (total : ℕ) (q : TaskDeque A)
        → Weighs n total q
        → Weighs n (total + weight f (accepted ops q)) (run ops q)
    run-Weighs [] total q v = rw add-zero v
    run-Weighs {n} (op ∷ ops) total q v =
        let sum : total + weight f (accepted_by op q) + weight f (accepted ops (perform op q))
            ≡ total + weight f (accepted (op ∷ ops) q) =
          omega (arith, weight-append f (accepted_by op q) (accepted ops (perform op q))) in
        subst (λ t. Weighs n t (run ops (perform op q))) sum
          (run-Weighs ops (total + weight f (accepted_by op q)) (perform op q)
            (perform-Weighs op q v))

    start-Weighs : (size n : ℕ) (q : TaskDeque A) → start n (new size) ≡ some q → Weighs n 0 q
    unfolding start
    start-Weighs size n q e = subst (Weighs n 0) (some-injective _ _ e) (record {
      balance = omega (arith, in_hands-tests f n n);
      threads = refl;
      others = λ i h. ground (arith, h);
    })

  run-append :
      (ops more : List (Op A)) (q : TaskDeque A) → run (ops ++ more) q ≡ run more (run ops q)
  run-append [] more q = refl
  run-append (op ∷ ops) more q = run-append ops more (perform op q)

  -- After `stop` each thread has come to its end.
  stopped-finished :
      (f : A → ℕ) (n total : ℕ) (q : TaskDeque A) (before later : List (Op A))
      → Weighs f n total (run (before ++ stops ∷ later) q)
      → ((i : ℕ) → i < n → 3 ≤ steps_of i later)
      → (i : ℕ) → (run (before ++ stops ∷ later) q).worker i ≡ finished
  unfolding perform
  stopped-finished f n total q before later v enough i = elim (Bool-cases (ltb i n)) [
    | inl e ↦
        rw (run-append before (stops ∷ later) q)
          ((run-stop later i (run before q) (enough i (ground (arith, e)))).1)
    | inr e ↦ v.others i (ground (arith, e))
  ]

  -- A queue is made and started with so many threads, tasks are pushed at either end and the threads take
  -- their steps, sleep where the queue is empty and wake up, then it is stopped, and more happens, in
  -- whatever order. When each thread has taken three steps since, all are at the end of their loops, so that `stop` returns; and no task was lost
  -- or called twice: whatever weight the tasks have, those that were called and those that still wait
  -- have together that of those that were taken in.
  pub run-Called :
      (size n : ℕ) (q : TaskDeque A) (before later : List (Op A)) (f : A → ℕ)
      → start n (new size) ≡ some q
      → ((i : ℕ) → i < n → 3 ≤ steps_of i later)
      → ((i : ℕ) → (run (before ++ stops ∷ later) q).worker i ≡ finished)
        × (weight f (run (before ++ stops ∷ later) q).ran
              + weights f (run (before ++ stops ∷ later) q).task_deque
            ≡ weight f (accepted (before ++ stops ∷ later) q))
  run-Called size n q before later f e enough =
      let ops : List (Op A) = before ++ (stops ∷ later) in
      let v = run-Weighs f ops 0 q (start-Weighs f size n q e) in
      let over = stopped-finished f n _ q before later v enough in
      (over, omega (arith, v.balance, in_hands-finished f n ((run ops q).worker) over))
