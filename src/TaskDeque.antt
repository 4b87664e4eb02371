-- ===== src/TaskDeque.antt =====
-- flute/common/TaskDeque.h and TaskDeque.cc: a queue of tasks with the threads that run them. A method
-- holds the lock from its first test on, so that it is one step, or a wait for a condition. A thread of
-- the queue takes a step for each test of `m_is_running`, each `take_one` and each call of a task, and
-- none while it sleeps in `m_cond_not_empty.wait()`. The callers of `push_task` are not threads of the
-- model: a push that waits for room leaves the queue alone, and is called again. `none` in the queue is
-- an empty function. No task throws.
pub mod Workers
pub mod Weights
pub mod Accepted
mod Tests
use flute.Prelude.{
  ℕ, ◌+◌, Bool, true, false, ◌&&◌, Option, none, some, List, [], ◌∷◌, ◌++◌, length, replicate, leb,
  ltb, ◌==◌, if◌then◌else◌, ◌>>=◌, ◌>>◌, assert,
}
use flute.Deques.{Call, waits, aborts, done}

-- Where a thread is in `worker_loop`: at its test, before the test in `take_one`, asleep there, with a
-- task, or at its end.
pub data Worker {ℓ} (A : Type ℓ) : Type ℓ where
  tests takes asleep finished : Worker A
  runs : Option A → Worker A

-- `ran` are the tasks that were called, in their order.
pub record TaskDeque {ℓ} (A : Type ℓ) : Type ℓ where
  pub task_deque : List (Option A)
  pub max_queue_size : ℕ
  pub num_threads : ℕ
  pub is_running : Bool
  pub worker : ℕ → Worker A
  pub ran : List A

module _ {ℓ} {A : Type ℓ} where
  -- The constructor fills the queue with ten empty functions, and leaves its size to chance.
  abbrev pub new : ℕ → TaskDeque A
  new max_queue_size = record {
    task_deque = replicate 10 none;
    max_queue_size = max_queue_size;
    num_threads = 0;
    is_running = false;
    worker = λ i. finished;
    ran = [];
  }

  unfoldable pub start : ℕ → TaskDeque A → Option (TaskDeque A)
  start num_threads q = do
    assert (q.num_threads == 0)
    some (record q {
      is_running = true;
      num_threads = num_threads;
      worker = λ i. if ltb i num_threads then tests else finished;
    })

  abbrev pub woken : Worker A → Worker A
  woken asleep = takes
  woken tests = tests
  woken takes = takes
  woken finished = finished
  woken (runs task) = runs task

  abbrev pub is_asleep : Worker A → Bool
  is_asleep asleep = true
  is_asleep _ = false

  -- `notify_all` of `m_cond_not_empty`.
  abbrev pub notify_all : TaskDeque A → TaskDeque A
  notify_all q = record q { worker = λ i. woken (q.worker i) }

  abbrev pub set_worker : ℕ → Worker A → TaskDeque A → TaskDeque A
  set_worker i w q = record q { worker = λ j. if j == i then w else q.worker j }

  -- `notify` of `m_cond_not_empty`, or a spurious wakeup: the thread `i` wakes up, if it is asleep.
  abbrev pub notify : ℕ → TaskDeque A → TaskDeque A
  notify i q = if is_asleep (q.worker i) then set_worker i takes q else q

  -- Until `stop` returns the threads are joined.
  unfoldable pub stop : TaskDeque A → TaskDeque A
  stop q = notify_all (record q { is_running = false })

  -- The destructor.
  unfoldable pub destroy : TaskDeque A → TaskDeque A
  destroy q = if q.is_running then stop q else q

  abbrev pub is_full : TaskDeque A → Bool
  is_full q = ltb 0 q.max_queue_size && leb q.max_queue_size (length q.task_deque)

  -- `i` is the thread that the system chooses to wake up.
  unfoldable pub push_task : A → Bool → ℕ → TaskDeque A → Call (TaskDeque A)
  push_task task push_back i q =
      if q.num_threads == 0
      then done (record q { ran = q.ran ++ (task ∷ []) })
      else if is_full q
      then waits
      else done (
          notify i (record q {
            task_deque =
                if push_back then q.task_deque ++ (some task ∷ []) else some task ∷ q.task_deque;
          }))

  abbrev pub take_from : TaskDeque A → List (Option A) → Call (Option A × TaskDeque A)
  take_from q [] = if q.is_running then waits else done (none, q)
  take_from q (front ∷ rest) = done (front, record q { task_deque = rest })

  -- Where it waits, the thread goes to sleep.
  unfoldable pub take_one : TaskDeque A → Call (Option A × TaskDeque A)
  take_one q = take_from q q.task_deque

  abbrev pub called : Option A → List A → List A
  called none ran = ran
  called (some task) ran = ran ++ (task ∷ [])

  abbrev pub after_take : ℕ → Call (Option A × TaskDeque A) → TaskDeque A → TaskDeque A
  after_take i waits q = set_worker i asleep q
  after_take i aborts q = q
  after_take i (done (task, q')) q = set_worker i (runs task) q'

  -- One step of the loop of a thread.
  abbrev pub work : ℕ → Worker A → TaskDeque A → TaskDeque A
  work i tests q = set_worker i (if q.is_running then takes else finished) q
  work i takes q = after_take i (take_one q) q
  work i (runs task) q = set_worker i tests (record q { ran = called task q.ran })
  work i asleep q = q
  work i finished q = q

  unfoldable pub worker_loop : ℕ → TaskDeque A → TaskDeque A
  worker_loop i q = work i (q.worker i) q
