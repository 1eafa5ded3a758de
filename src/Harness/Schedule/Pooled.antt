-- ===== src/Harness/Schedule/Pooled.antt =====
-- main.cpp from its third phase on together with include/thread_pool.h: the tests are tasks of the
-- pool, and a worker runs the test that it has taken, an access to the shared state at a time.
pub mod Kept
pub mod Moves
pub mod Refining
pub mod Numbering
pub mod Progress
pub mod Closing
pub mod Ending
mod Tests
use spdlog_stress_test.Prelude.{
  ℕ, zero, suc, Bool, true, false, List, [], ◌∷◌, Option, none, some, if◌then◌else◌, length,
}
use spdlog_stress_test.ThreadPool as Base
use spdlog_stress_test.ThreadPool.{
  Phase, running, spawned, ThreadPool, create, submit, WaitResult, blocked, wait,
}
use spdlog_stress_test.ThreadPool.Due.{silent, phase_at}
use spdlog_stress_test.Harness.Schedule as Schedule
use spdlog_stress_test.Harness.Schedule.{
  Task, submitting, waiting, closed, Harness, launch, is_ended, main_turn,
}
use spdlog_stress_test.Harness.Schedule.Failures.{test_turn}

-- The function of a task in the pool is the place of its test.
pub record Program {κ} (E : Type κ) : Type κ where
  pub harness : Harness
  pub pool : ThreadPool ℕ E

pub data Event : Type 0 where
  main_turns : Event
  worker_turns : ℕ → Event
  passes : ℕ → Event

abbrev pub is_over_at : ℕ → List Task → Bool
is_over_at i [] = true
is_over_at zero (t ∷ ts) = is_ended t
is_over_at (suc i) (t ∷ ts) = is_over_at i ts

module _ {κ} {E : Type κ} where
  abbrev pub begin : ℕ → Option ℕ → Program E
  begin n max = record { harness = launch n; pool = create max }

  -- `wait` in main, which is behind it once it is over; it throws nothing, as no task does.
  unfoldable pub closing : Program E → ThreadPool ℕ E → WaitResult E → Program E
  closing s p blocked = s
  closing s p r = record { harness = record s.harness { phase = closed }; pool = p }

  abbrev pub submitted : Harness → Option (ThreadPool ℕ E) → Option (Program E)
  submitted h none = none
  submitted h (some p) = some (record { harness = h; pool = p })

  -- `none` where the numbering of the pool's tasks has overflowed.
  unfoldable pub main_step : ℕ → Schedule.Phase → Program E → Option (Program E)
  unfolding main_turn submit wait closing
  main_step seconds (submitting n) s =
      submitted (main_turn seconds (submitting n) s.harness)
        (submit (length s.harness.tasks) s.pool)
  main_step seconds waiting s = some (closing s (wait s.pool).0 (wait s.pool).1)
  main_step seconds p s = some (record s { harness = main_turn seconds p s.harness })

  abbrev pub then_run : (Program E → Option (Program E)) → Option (Program E) → Option (Program E)
  then_run k none = none
  then_run k (some s) = k s

module _ {κ} {E : Type κ} (until_stop : ℕ → Bool) (seconds : ℕ) where
  -- The thread `i` is in the task of the test `f`: the test goes on, or the task is over.
  unfoldable pub work_on : ℕ → ℕ → Program E → Program E
  unfolding test_turn Base.turn
  work_on f i s =
      if is_over_at f s.harness.tasks
      then record s { pool = Base.turn silent i s.pool }
      else record s { harness = test_turn until_stop seconds f s.harness }

  unfoldable pub worker_step : Phase ℕ E → ℕ → Program E → Program E
  unfolding work_on Base.turn
  worker_step (running t) i s = work_on t.function i s
  worker_step (spawned f) i s = work_on f i s
  worker_step w i s = record s { pool = Base.turn silent i s.pool }

  unfoldable pub step : Program E → Event → Option (Program E)
  unfolding main_step worker_step Schedule.step
  step s main_turns = main_step seconds s.harness.phase s
  step s (worker_turns i) = some (worker_step (phase_at i s.pool.worker_threads) i s)
  step s (passes t) =
      some (record s { harness = Schedule.step seconds s.harness (Schedule.passes t) })

  unfoldable pub run : Program E → List Event → Option (Program E)
  unfolding step
  run s [] = some s
  run s (e ∷ es) = then_run (λ t. run t es) (step s e)
