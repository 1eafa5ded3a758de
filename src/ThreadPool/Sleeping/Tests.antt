-- ===== src/ThreadPool/Sleeping/Tests.antt =====
-- A small run with sleeping workers: tasks are numbers, and none throws.
use spdlog_stress_test.Prelude.{
  ℕ, ◌+◌, ◌≡◌, refl, true, false, not, ◌&&◌, ◌||◌, List, [], ◌∷◌, Option, none, some, ltb, ◌==◌,
  is_empty,
}
use spdlog_stress_test.ThreadPool.{worker_turn, is_done}
use spdlog_stress_test.ThreadPool.Sleeping.{
  Event, System, launch, submits, notifies_one, turns, waits, run,
}
use spdlog_stress_test.ThreadPool.Sleeping.Turns.{count_awake, count_asleep}
use spdlog_stress_test.ThreadPool.{insert, erase}
use spdlog_stress_test.ThreadPool.Sleeping.Deadlock.{no_deadlock}
use spdlog_stress_test.ThreadPool.Sleeping.Wakeups.{no_lost_wakeups}

abbrev throws_nothing : ℕ → Option ℕ
throws_nothing n = none

abbrev state_of : Option (System ℕ ℕ) → System ℕ ℕ
state_of none = launch 0
state_of (some s) = s

-- Both workers fall asleep, a task comes, the caller waits, and the second worker is woken.
abbrev sleepy_schedule : List (Event ℕ)
sleepy_schedule = turns 0 ∷ turns 1 ∷ submits 5 ∷ waits ∷ notifies_one 1 ∷ turns 1 ∷ submits 6 ∷ []

abbrev sleepy : System ℕ ℕ
sleepy = state_of (run throws_nothing (launch 2) sleepy_schedule)

sleepy_runs : run throws_nothing (launch 2) sleepy_schedule ≡ some sleepy
unfolding run
sleepy_runs = refl

-- The first worker sleeps on, the second runs its task, and the caller sleeps.
sleepy_sleepers :
    (count_awake sleepy.threads ≡ 1)
    × (count_asleep sleepy.threads ≡ 1)
    × (sleepy.caller_asleep ≡ true)
unfolding run
sleepy_sleepers = (refl, refl, refl)

no_lost_wakeups_example :
    ((sleepy.pool.shared.stopping
        || is_empty sleepy.pool.shared.queued_tasks
        || ltb 0 (count_awake sleepy.threads + sleepy.notifies))
      ≡ true)
    × ((sleepy.caller_asleep && is_done sleepy.pool.shared) ≡ false)
    × ((not sleepy.pool.shared.stopping
          || sleepy.notify_all_due
          || count_asleep sleepy.threads == 0)
        ≡ true)
no_lost_wakeups_example = no_lost_wakeups throws_nothing 1 sleepy_schedule sleepy sleepy_runs

-- One worker: it sleeps, is woken for a task, wakes the caller, and sleeps again.
abbrev rested_schedule : List (Event ℕ)
rested_schedule =
    turns 0 ∷ submits 5 ∷ waits ∷ notifies_one 0 ∷ turns 0 ∷ turns 0 ∷ turns 0 ∷ turns 0 ∷ []

abbrev rested : System ℕ ℕ
rested = state_of (run throws_nothing (launch 1) rested_schedule)

rested_runs : run throws_nothing (launch 1) rested_schedule ≡ some rested
unfolding run
rested_runs = refl

rested_on : rested.pool.shared.stopping ≡ false
unfolding run worker_turn insert erase
rested_on = refl

rested_asleep : count_awake rested.threads ≡ 0
unfolding run worker_turn insert erase
rested_asleep = refl

rested_told : rested.notifies ≡ 0
unfolding run worker_turn insert erase
rested_told = refl

-- The task has run.
rested_finished : rested.pool.finished ≡ 0 ∷ []
unfolding run worker_turn insert erase
rested_finished = refl

no_deadlock_example : (is_done rested.pool.shared ≡ true) × (rested.caller_asleep ≡ false)
no_deadlock_example =
    no_deadlock throws_nothing 0 rested_schedule rested rested_runs rested_on rested_asleep
      rested_told
