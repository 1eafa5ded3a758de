-- ===== src/ThreadPool.antt =====
-- C++ Project/src/include/thread_pool.h: a pool of workers on a queue of tasks, or a thread for each
-- task where no maximum is given. A turn is what a thread does under one hold of the mutex, or one
-- run of a task; a wait on a condition is a turn that changes nothing until its predicate holds.
pub mod Events
pub mod Counting
pub mod Invariant
pub mod History
pub mod Waiting
pub mod Progress
pub mod Finishing
pub mod Leaving
pub mod Due
pub mod Modes
pub mod Settled
pub mod Blocked
pub mod Sleeping
mod Tests
use spdlog_stress_test.Prelude.{
  ℕ, zero, suc, ◌+◌, ◌-◌, ◌^◌, Bool, true, false, not, ◌&&◌, ◌||◌, List, [], ◌∷◌, ◌++◌, Option,
  none, some, ◌==◌, if◌then◌else◌, is_empty,
}

-- `struct QueuedTask`; what the function does when it runs is a parameter of the turns below.
pub record QueuedTask {ℓ} (F : Type ℓ) : Type ℓ where
  pub id : ℕ
  pub function : F

-- Where a thread stands: in `workerLoop`, or in a task of its own (`spawned`).
pub data Phase {ℓ κ} (F : Type ℓ) (E : Type κ) : Type (ℓ ⊔ κ) where
  waiting : Phase F E
  running : QueuedTask F → Phase F E
  catching : QueuedTask F → E → Phase F E
  finishing : QueuedTask F → Phase F E
  spawned : F → Phase F E
  gone : Phase F E

-- The members under `mutex_`.
pub record Shared {ℓ κ} (F : Type ℓ) (E : Type κ) : Type (ℓ ⊔ κ) where
  pub queued_tasks : List (QueuedTask F)
  pub in_progress_tasks : List ℕ
  pub next_task_id : ℕ
  pub stopping : Bool
  pub first_exception : Option E

-- The pool, and four records of what happened: the tasks that were taken and those that were
-- finished, the exceptions caught since the last one was rethrown, and whether an exception left a
-- thread and so ended the program.
pub record ThreadPool {ℓ κ} (F : Type ℓ) (E : Type κ) : Type (ℓ ⊔ κ) where
  pub max_threads : Option ℕ
  pub shared : Shared F E
  pub worker_threads : List (Phase F E)
  pub started : List ℕ
  pub finished : List ℕ
  pub unreported : List E
  pub terminated : Bool

abbrev pub int_max : ℕ
int_max = 2 ^ 31 - 1

-- `insert` and `erase` of the set of identifiers.
unfoldable pub insert : ℕ → List ℕ → List ℕ
insert i [] = i ∷ []
insert i (j ∷ js) = let rest = insert i js in if j == i then j ∷ js else j ∷ rest

unfoldable pub erase : ℕ → List ℕ → List ℕ
erase i [] = []
erase i (j ∷ js) = let rest = erase i js in if j == i then rest else j ∷ rest

-- The handler: the first exception is kept, until `wait` takes it.
pub keep_first {κ} : {E : Type κ} → Option E → E → Option E
keep_first none e = some e
keep_first (some first) e = some first

module _ {ℓ κ} {F : Type ℓ} {E : Type κ} where
  abbrev pub workers : ℕ → List (Phase F E)
  workers zero = []
  workers (suc n) = waiting ∷ workers n

  abbrev pub threads_of : Option ℕ → List (Phase F E)
  threads_of none = []
  threads_of (some n) = workers n

  -- The constructor. (A negative maximum, which `reserve` refuses, is never passed.)
  abbrev pub create : Option ℕ → ThreadPool F E
  create max = record {
    max_threads = max;
    shared = record {
      queued_tasks = [];
      in_progress_tasks = [];
      next_task_id = 0;
      stopping = false;
      first_exception = none;
    };
    worker_threads = threads_of max;
    started = [];
    finished = [];
    unreported = [];
    terminated = false;
  }

  -- `none` is the overflow of the `int` that numbers the tasks.
  pub enqueue : F → Shared F E → Option (Shared F E)
  enqueue f m =
      if m.next_task_id == int_max
      then none
      else some (record m {
        next_task_id = m.next_task_id + 1;
        queued_tasks = m.queued_tasks ++ record { id = m.next_task_id; function = f } ∷ [];
      })

  with_shared : ThreadPool F E → Option (Shared F E) → Option (ThreadPool F E)
  with_shared p none = none
  with_shared p (some m) = some (record p { shared = m })

  pub submit_in : Option ℕ → F → ThreadPool F E → Option (ThreadPool F E)
  submit_in none f p = some (record p { worker_threads = p.worker_threads ++ spawned f ∷ [] })
  submit_in (some n) f p = with_shared p (enqueue f p.shared)

  unfoldable pub submit : F → ThreadPool F E → Option (ThreadPool F E)
  unfolding submit_in with_shared enqueue
  submit f p = submit_in p.max_threads f p

  -- A worker at its wait on `workCondition_`: it sleeps on, leaves, or takes the first task.
  pub take_task : List (QueuedTask F) → ThreadPool F E → ThreadPool F E × Phase F E
  take_task [] p = (p, if p.shared.stopping then gone else waiting)
  take_task (t ∷ ts) p = (
    record p {
      shared = record p.shared {
        queued_tasks = ts;
        in_progress_tasks = insert t.id p.shared.in_progress_tasks;
      };
      started = p.started ++ t.id ∷ [];
    },
    running t,
  )

  pub ran : QueuedTask F → Option E → Phase F E
  ran t none = finishing t
  ran t (some e) = catching t e

  pub spawned_turn : Option E → ThreadPool F E → ThreadPool F E × Phase F E
  spawned_turn none p = (p, gone)
  spawned_turn (some e) p = (record p { terminated = true }, gone)

  -- One turn of a thread; `outcome f` is the exception that the task `f` throws, if any.
  unfoldable pub worker_turn :
      (F → Option E) → Phase F E → ThreadPool F E → ThreadPool F E × Phase F E
  unfolding take_task ran keep_first spawned_turn
  worker_turn outcome waiting p = take_task p.shared.queued_tasks p
  worker_turn outcome (running t) p = (p, ran t (outcome t.function))
  worker_turn outcome (catching t e) p = (
    record p {
      shared = record p.shared { first_exception = keep_first p.shared.first_exception e };
      unreported = p.unreported ++ e ∷ [];
    },
    finishing t,
  )
  worker_turn outcome (finishing t) p = (
    record p {
      shared = record p.shared { in_progress_tasks = erase t.id p.shared.in_progress_tasks };
      finished = p.finished ++ t.id ∷ [];
    },
    waiting,
  )
  worker_turn outcome (spawned f) p = spawned_turn (outcome f) p
  worker_turn outcome gone p = (p, gone)

  -- A turn of the `i`th thread of the list.
  pub turn_at :
      (F → Option E) → ℕ → List (Phase F E) → ThreadPool F E → ThreadPool F E × List (Phase F E)
  turn_at outcome i [] p = (p, [])
  turn_at outcome zero (w ∷ ws) p = let (p', w') = worker_turn outcome w p in (p', w' ∷ ws)
  turn_at outcome (suc i) (w ∷ ws) p = let (p', ws') = turn_at outcome i ws p in (p', w ∷ ws')

  unfoldable pub turn : (F → Option E) → ℕ → ThreadPool F E → ThreadPool F E
  unfolding turn_at
  turn outcome i p =
      let (p', ws) = turn_at outcome i p.worker_threads p in record p' { worker_threads = ws }

  -- The predicate of the wait on `doneCondition_`.
  abbrev pub is_done : Shared F E → Bool
  is_done m = is_empty m.queued_tasks && is_empty m.in_progress_tasks

  abbrev pub all_gone : List (Phase F E) → Bool
  all_gone [] = true
  all_gone (gone ∷ ws) = all_gone ws
  all_gone (_ ∷ ws) = false

-- What a call of `wait` comes to: it is still blocked, it has returned, or it has thrown.
pub data WaitResult {κ} (E : Type κ) : Type κ where
  blocked : WaitResult E
  returned : WaitResult E
  rethrown : E → WaitResult E

module _ {ℓ κ} {F : Type ℓ} {E : Type κ} where
  pub rethrow : Option E → ThreadPool F E → ThreadPool F E × WaitResult E
  rethrow none p = (p, returned)
  rethrow (some e) p = (
    record p { shared = record p.shared { first_exception = none }; unreported = [] },
    rethrown e,
  )

  pub wait_in : Option ℕ → ThreadPool F E → ThreadPool F E × WaitResult E
  wait_in none p =
      if all_gone p.worker_threads
      then (record p { worker_threads = [] }, returned)
      else (p, blocked)
  wait_in (some n) p = if is_done p.shared then rethrow p.shared.first_exception p else (p, blocked)

  unfoldable pub wait : ThreadPool F E → ThreadPool F E × WaitResult E
  unfolding wait_in rethrow
  wait p = wait_in p.max_threads p

  -- The destructor after its `wait` has returned: the workers are told to leave, and joined.
  pub begin_stop : ThreadPool F E → ThreadPool F E
  begin_stop p = record p { shared = record p.shared { stopping = true } }
