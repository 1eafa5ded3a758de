-- ===== src/Harness/Schedule/Pooled/Tests.antt =====
-- Two tests and one worker: the second test starts only when the first has seen `stop`.
use spdlog_stress_test.Prelude.{ℕ, ◌≡◌, refl, Bool, true, List, [], ◌∷◌, Option, none, some}
use spdlog_stress_test.ThreadPool as Base
use spdlog_stress_test.ThreadPool.{int_max, insert, erase}
use spdlog_stress_test.Harness.Schedule as Schedule
use spdlog_stress_test.Harness.Schedule.{queued, running, ended, closed, launch}
use spdlog_stress_test.Harness.Schedule.Pooled.{
  Program, Event, main_turns, worker_turns, passes, begin, run,
}
use spdlog_stress_test.Harness.Schedule.Pooled.Refining.{run-refines_schedule}

abbrev runs_until_stop : ℕ → Bool
runs_until_stop i = true

abbrev state_of : Option (Program ℕ) → Program ℕ
state_of none = begin 0 none
state_of (some s) = s

abbrev busy_schedule : List Event
busy_schedule =
    main_turns
    ∷ main_turns
    ∷ worker_turns 0
    ∷ worker_turns 0
    ∷ main_turns
    ∷ main_turns
    ∷ main_turns
    ∷ worker_turns 0
    ∷ worker_turns 0
    ∷ []

abbrev busy : Program ℕ
busy = state_of (run runs_until_stop 5 (begin 2 (some 1)) busy_schedule)

busy_runs : run runs_until_stop 5 (begin 2 (some 1)) busy_schedule ≡ some busy
unfolding run Base.worker_turn insert
busy_runs = refl

-- The first test goes on, and the second waits in the queue.
busy_tasks : busy.harness.tasks ≡ running ∷ queued ∷ []
unfolding run Base.worker_turn insert
busy_tasks = refl

-- From there main stops them, and both come to their end.
abbrev rest_schedule : List Event
rest_schedule =
    passes 9
    ∷ main_turns
    ∷ main_turns
    ∷ main_turns
    ∷ worker_turns 0
    ∷ worker_turns 0
    ∷ worker_turns 0
    ∷ worker_turns 0
    ∷ main_turns
    ∷ worker_turns 0
    ∷ worker_turns 0
    ∷ worker_turns 0
    ∷ worker_turns 0
    ∷ worker_turns 0
    ∷ worker_turns 0
    ∷ main_turns
    ∷ []

abbrev finished : Program ℕ
finished = state_of (run runs_until_stop 5 busy rest_schedule)

finished_phase : finished.harness.phase ≡ closed
unfolding run Base.worker_turn insert erase
finished_phase = refl

run-refines_schedule_example :
    (fs : List Schedule.Event) × (Schedule.run 5 (launch 2) fs ≡ busy.harness)
run-refines_schedule_example =
    run-refines_schedule runs_until_stop (some 1) 5 2 busy_schedule busy (λ h. cc h) busy_runs
