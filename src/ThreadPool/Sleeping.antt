-- ===== src/ThreadPool/Sleeping.antt =====
-- The condition variables of a pool with a maximum. A thread whose predicate fails falls asleep, and
-- runs on only when it is notified, or wakes by chance. `notify_one` in `submit` and `notify_all` in the
-- destructor come after the mutex is released, so they are steps of their own.
pub mod Turns
pub mod Staff
pub mod Watching
pub mod Wakeups
pub mod Forgetting
pub mod Refining
pub mod Deadlock
mod Tests
use spdlog_stress_test.Prelude.{
  ℕ, zero, suc, ◌+◌, ◌-◌, Bool, true, false, not, ◌&&◌, List, [], ◌∷◌, Option, none, some, ltb,
  if◌then◌else◌, is_empty,
}
use spdlog_stress_test.ThreadPool.{
  Phase, waiting, finishing, ThreadPool, create, submit, worker_turn, is_done, wait, begin_stop,
}

pub record Thread {ℓ κ} (F : Type ℓ) (E : Type κ) : Type (ℓ ⊔ κ) where
  pub phase : Phase F E
  pub asleep : Bool

-- The pool, whose own list of threads is left empty; its threads; whether the caller of `wait`
-- sleeps; and the notifications that are still to come.
pub record System {ℓ κ} (F : Type ℓ) (E : Type κ) : Type (ℓ ⊔ κ) where
  pub pool : ThreadPool F E
  pub threads : List (Thread F E)
  pub caller_asleep : Bool
  pub notifies : ℕ
  pub notify_all_due : Bool

module _ {ℓ κ} {F : Type ℓ} {E : Type κ} where
  abbrev pub awake_threads : ℕ → List (Thread F E)
  awake_threads zero = []
  awake_threads (suc n) = record { phase = waiting; asleep = false } ∷ awake_threads n

  abbrev pub launch : ℕ → System F E
  launch n = record {
    pool = record (create (some n)) { worker_threads = [] };
    threads = awake_threads n;
    caller_asleep = false;
    notifies = 0;
    notify_all_due = false;
  }

  -- The thread that `notify_one` wakes: any one that sleeps, chosen by the number.
  abbrev pub some_asleep : List (Thread F E) → Bool
  some_asleep [] = false
  some_asleep (t ∷ ts) = if t.asleep then true else some_asleep ts

  unfoldable pub wake_one : ℕ → List (Thread F E) → List (Thread F E)
  wake_one k [] = []
  wake_one zero (t ∷ ts) =
      let rest = wake_one zero ts in if t.asleep then record t { asleep = false } ∷ ts else t ∷ rest
  wake_one (suc k) (t ∷ ts) =
      let skipped = wake_one k ts in
      let rest = wake_one (suc k) ts in
      if t.asleep
      then (if some_asleep ts then t ∷ skipped else record t { asleep = false } ∷ ts)
      else t ∷ rest

  unfoldable pub wake_all : List (Thread F E) → List (Thread F E)
  wake_all [] = []
  wake_all (t ∷ ts) = record t { asleep = false } ∷ wake_all ts

  -- A thread that wakes by chance.
  unfoldable pub wake_at : ℕ → List (Thread F E) → List (Thread F E)
  wake_at i [] = []
  wake_at zero (t ∷ ts) = record t { asleep = false } ∷ ts
  wake_at (suc i) (t ∷ ts) = t ∷ wake_at i ts

  -- A worker at its wait whose predicate fails falls asleep.
  abbrev pub falls_asleep : Phase F E → ThreadPool F E → Bool
  falls_asleep waiting p = is_empty p.shared.queued_tasks && not p.shared.stopping
  falls_asleep _ p = false

  -- `notify_all` on `doneCondition_`, under the lock.
  abbrev pub wakes_caller : Phase F E → ThreadPool F E → Bool
  wakes_caller (finishing t) p = is_done p.shared
  wakes_caller _ p = false

  abbrev pub submitted : System F E → Option (ThreadPool F E) → Option (System F E)
  submitted s none = none
  submitted s (some p) = some (record s { pool = p; notifies = s.notifies + 1 })

  unfoldable pub call_wait : System F E → System F E
  unfolding wait
  call_wait s =
      if s.caller_asleep
      then s
      else if is_done s.pool.shared
      then record s { pool = (wait s.pool).0 }
      else record s { caller_asleep = true }

  abbrev pub then_run :
      (System F E → Option (System F E)) → Option (System F E) → Option (System F E)
  then_run k none = none
  then_run k (some s) = k s

-- The pool behind a turn, the thread or the threads, and whether the caller was woken.
pub record Turned {ℓ κ μ} (F : Type ℓ) (E : Type κ) (T : Type μ) : Type (ℓ ⊔ κ ⊔ μ) where
  pub pool : ThreadPool F E
  pub threads : T
  pub woken : Bool

-- What can happen; the number of a notification says which sleeper it wakes.
pub data Event {ℓ} (F : Type ℓ) : Type ℓ where
  submits : F → Event F
  notifies_one : ℕ → Event F
  turns : ℕ → Event F
  waits : Event F
  stops : Event F
  notifies_all : Event F
  wakes : ℕ → Event F
  caller_wakes : Event F

module _ {ℓ κ} {F : Type ℓ} {E : Type κ} (outcome : F → Option E) where
  unfoldable pub one_turn : Thread F E → ThreadPool F E → Turned F E (Thread F E)
  unfolding worker_turn
  one_turn t p =
      let r = worker_turn outcome t.phase p in
      if t.asleep then record { pool = p; threads = t; woken = false } else record {
        pool = r.0;
        threads = record { phase = r.1; asleep = falls_asleep t.phase p };
        woken = wakes_caller t.phase r.0;
      }

  unfoldable pub turn_at : ℕ → List (Thread F E) → ThreadPool F E → Turned F E (List (Thread F E))
  unfolding one_turn
  turn_at i [] p = record { pool = p; threads = []; woken = false }
  turn_at zero (t ∷ ts) p =
      let r = one_turn t p in record { pool = r.pool; threads = r.threads ∷ ts; woken = r.woken }
  turn_at (suc i) (t ∷ ts) p =
      let r = turn_at i ts p in record { pool = r.pool; threads = t ∷ r.threads; woken = r.woken }

  unfoldable pub turn : ℕ → System F E → System F E
  unfolding turn_at
  turn i s =
      let r = turn_at i s.threads s.pool in
      record s {
        pool = r.pool;
        threads = r.threads;
        caller_asleep = s.caller_asleep && not r.woken;
      }

  -- `none` where the numbering of the tasks has overflowed.
  unfoldable pub step : System F E → Event F → Option (System F E)
  unfolding submit turn call_wait begin_stop wake_one wake_all wake_at
  step s (submits f) = submitted s (submit f s.pool)
  step s (notifies_one k) =
      if ltb 0 s.notifies
      then some (record s { notifies = s.notifies - 1; threads = wake_one k s.threads })
      else some s
  step s (turns i) = some (turn i s)
  step s waits = some (call_wait s)
  step s stops = some (record s { pool = begin_stop s.pool; notify_all_due = true })
  step s notifies_all =
      if s.notify_all_due
      then some (record s { threads = wake_all s.threads; notify_all_due = false })
      else some s
  step s (wakes i) = some (record s { threads = wake_at i s.threads })
  step s caller_wakes = some (record s { caller_asleep = false })

  unfoldable pub run : System F E → List (Event F) → Option (System F E)
  unfolding step
  run s [] = some s
  run s (e ∷ es) = then_run (λ t. run t es) (step s e)
