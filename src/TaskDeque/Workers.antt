-- ===== src/TaskDeque/Workers.antt =====
-- The threads of flute/common/TaskDeque.cc.
use flute.Prelude.{
  ℕ, ◌+◌, ◌-◌, ◌≤◌, ◌≡◌, refl, inl, inr, Bool, false, Option, some, List, [], ◌∷◌, ◌++◌, ◌==◌,
  if◌then◌else◌, Bool-cases, arith,
}
use flute.Deques.{Call, waits, aborts, done}
use flute.TaskDeque.{
  Worker, tests, takes, asleep, finished, runs, woken, is_asleep, notify, TaskDeque, stop, is_full,
  push_task, take_one, work, worker_loop,
}

-- What may happen: a task is pushed, which may wake up the thread that is named, the queue is stopped, a
-- thread takes a step, or it wakes up by itself.
pub data Op {ℓ} (A : Type ℓ) : Type ℓ where
  pushes : A → Bool → ℕ → Op A
  stops : Op A
  works wakes : ℕ → Op A

module _ {ℓ} {A : Type ℓ} where
  abbrev pub after_push : Call (TaskDeque A) → TaskDeque A → TaskDeque A
  after_push waits q = q
  after_push aborts q = q
  after_push (done q') q = q'

  unfoldable pub perform : Op A → TaskDeque A → TaskDeque A
  perform (pushes task push_back i) q = after_push (push_task task push_back i q) q
  perform stops q = stop q
  perform (works i) q = worker_loop i q
  perform (wakes i) q = notify i q

  abbrev pub run : List (Op A) → TaskDeque A → TaskDeque A
  run [] q = q
  run (op ∷ ops) q = run ops (perform op q)

  -- The steps that a thread takes.
  abbrev pub steps_of : ℕ → List (Op A) → ℕ
  steps_of i [] = 0
  steps_of i (works j ∷ ops) = (if i == j then 1 else 0) + steps_of i ops
  steps_of i (pushes _ _ _ ∷ ops) = steps_of i ops
  steps_of i (wakes _ ∷ ops) = steps_of i ops
  steps_of i (stops ∷ ops) = steps_of i ops

  -- How many steps a thread has to take once the queue is stopped.
  abbrev steps_left : Worker A → ℕ
  steps_left tests = 1
  steps_left takes = 3
  steps_left asleep = 3
  steps_left (runs _) = 2
  steps_left finished = 0

  steps_left-le : (w : Worker A) → steps_left w ≤ 3
  steps_left-le w = ground arith

  none_left : (w : Worker A) → steps_left w ≤ 0 → w ≡ finished
  none_left w h = ground (arith, h)

  steps_of-cons :
      (i : ℕ) (op : Op A) (ops : List (Op A))
      → steps_of i (op ∷ ops) ≡ steps_of i (op ∷ []) + steps_of i ops
  steps_of-cons i (works j) ops = ground arith
  steps_of-cons i (pushes _ _ _) ops = ground arith
  steps_of-cons i (wakes _) ops = ground arith
  steps_of-cons i stops ops = ground arith

  -- A queue that is stopped stays so, nobody falls asleep, and a step of a thread brings this thread on.
  record Ends (i : ℕ) (steps : ℕ) (q q' : TaskDeque A) : Type ℓ where
    stopped : q'.is_running ≡ false
    awake : is_asleep (q'.worker i) ≡ false
    left : steps_left (q'.worker i) ≤ steps_left (q.worker i) - steps

  taken-Ends :
      (j i : ℕ) (tasks : List (Option A)) (q : TaskDeque A)
      → q.task_deque ≡ tasks
      → q.worker j ≡ takes
      → q.is_running ≡ false
      → is_asleep (q.worker i) ≡ false
      → Ends i (if i == j then 1 else 0) q (work j takes q)
  unfolding take_one
  taken-Ends j i [] q e h off up =
      rw (e, off) (record { stopped = refl; awake = ground (arith, up); left = ground (arith, h) })
  taken-Ends j i (task ∷ rest) q e h off up =
      rw e (record { stopped = off; awake = ground (arith, up); left = ground (arith, h) })

  work-Ends :
      (j i : ℕ) (w : Worker A) (q : TaskDeque A)
      → q.worker j ≡ w
      → q.is_running ≡ false
      → is_asleep (q.worker i) ≡ false
      → Ends i (if i == j then 1 else 0) q (work j w q)
  unfolding take_one
  work-Ends j i tests q h off up = record {
    stopped = off;
    awake = ground (arith, up, off);
    left = ground (arith, h, off);
  }
  work-Ends j i takes q h off up = taken-Ends j i q.task_deque q refl h off up
  work-Ends j i (runs task) q h off up = record {
    stopped = off;
    awake = ground (arith, up);
    left = ground (arith, h);
  }
  work-Ends j i asleep q h off up = elim (Bool-cases (i == j)) [
    | inl e ↦ absurd (ground (arith, e, h, up))
    | inr e ↦ rw e (record { stopped = off; awake = up; left = omega arith })
  ]
  work-Ends j i finished q h off up = record { stopped = off; awake = up; left = ground (arith, h) }

  notify-Ends :
      (j i : ℕ) (q : TaskDeque A)
      → q.is_running ≡ false
      → is_asleep (q.worker i) ≡ false
      → Ends i 0 q (notify j q)
  notify-Ends j i q off up = elim (Bool-cases (is_asleep (q.worker j))) [
    | inr e ↦ rw e (record { stopped = off; awake = up; left = omega arith })
    | inl e ↦ elim (Bool-cases (i == j)) [
      | inl f ↦ absurd (ground (arith, e, f, up))
      | inr f ↦ rw e (record { stopped = off; awake = rw f up; left = rw f (omega arith) })
    ]
  ]

  push_task-Ends :
      (i : ℕ) (task : A) (push_back : Bool) (j : ℕ) (q : TaskDeque A)
      → q.is_running ≡ false
      → is_asleep (q.worker i) ≡ false
      → Ends i 0 q (after_push (push_task task push_back j q) q)
  unfolding push_task
  push_task-Ends i task push_back j q off up = elim (Bool-cases (q.num_threads == 0)) [
    | inl e ↦ rw e (record { stopped = off; awake = up; left = omega arith })
    | inr e ↦ elim (Bool-cases (is_full q)) [
      | inl f ↦ rw (e, f) (record { stopped = off; awake = up; left = omega arith })
      | inr f ↦
          let k =
            notify-Ends j i
              (record q {
                task_deque =
                    if push_back
                    then q.task_deque ++ (some task ∷ [])
                    else some task ∷ q.task_deque;
              })
              off up in
          rw (e, f) (record { stopped = k.stopped; awake = k.awake; left = k.left })
    ]
  ]

  woken_up : (w : Worker A) → is_asleep (woken w) ≡ false
  woken_up w = ground arith

  perform-Ends :
      (op : Op A) (i : ℕ) (q : TaskDeque A)
      → q.is_running ≡ false
      → is_asleep (q.worker i) ≡ false
      → Ends i (steps_of i (op ∷ [])) q (perform op q)
  unfolding perform worker_loop stop
  perform-Ends (pushes task push_back j) i q off up = push_task-Ends i task push_back j q off up
  perform-Ends stops i q off up = record {
    stopped = refl;
    awake = woken_up (q.worker i);
    left = ground arith;
  }
  perform-Ends (wakes j) i q off up = notify-Ends j i q off up
  perform-Ends (works j) i q off up =
      let e = work-Ends j i (q.worker j) q refl off up in
      record { stopped = e.stopped; awake = e.awake; left = omega (arith, e.left) }

  run-Ends :
      (ops : List (Op A)) (i : ℕ) (q : TaskDeque A)
      → q.is_running ≡ false
      → is_asleep (q.worker i) ≡ false
      → Ends i (steps_of i ops) q (run ops q)
  run-Ends [] i q off up = record { stopped = off; awake = up; left = omega arith }
  run-Ends (op ∷ ops) i q off up =
      let first = perform-Ends op i q off up in
      let rest = run-Ends ops i (perform op q) first.stopped first.awake in
      record {
        stopped = rest.stopped;
        awake = rest.awake;
        left = omega (arith, first.left, rest.left, steps_of-cons i op ops);
      }

  -- Wherever the threads of a queue are when it is stopped, asleep or not, and whatever is pushed and whichever of them
  -- take their steps then, in whatever order: it stays stopped, and a thread that has taken three
  -- steps is at the end of its loop, so that `stop` waits for it no longer.
  pub run-stop :
      (ops : List (Op A)) (i : ℕ) (q : TaskDeque A)
      → 3 ≤ steps_of i ops
      → ((run ops (stop q)).is_running ≡ false) × ((run ops (stop q)).worker i ≡ finished)
  unfolding stop
  run-stop ops i q three =
      let e = run-Ends ops i (stop q) refl (woken_up (q.worker i)) in
      (
        e.stopped,
        none_left ((run ops (stop q)).worker i)
            (omega (arith, e.left, three, steps_left-le (woken (q.worker i)))),
      )
