-- ===== src/Harness/Main/Tests.antt =====
-- One thread for a selection of two tests, and no test is made where the log of main cannot be.
use spdlog_stress_test.Prelude.{
  ℕ, ◌≡◌, refl, Bool, true, false, List, [], ◌∷◌, Option, none, some, Text, codes, text_eq, map,
  length,
}
use spdlog_stress_test.ThreadPool as Base
use spdlog_stress_test.ThreadPool.{insert}
use spdlog_stress_test.TestContext.Numbers.{strtol}
use spdlog_stress_test.ThreadPool.Due.{silent}
use spdlog_stress_test.ThreadPool.Events.{destroy, joins_workers}
use spdlog_stress_test.ThreadPool.Leaving.{Leaves}
use spdlog_stress_test.TestContext.{Levels, TestContext, parse, should_run, insert_tokens, split}
use spdlog_stress_test.Harness.{Machine, Test, could_not_create, failed_to_open, prepare}
use spdlog_stress_test.Harness.Schedule.{queued, running, closed}
use spdlog_stress_test.Harness.Schedule.Invariant.{live}
use spdlog_stress_test.Harness.Schedule.Pooled.{
  Program, Event, main_turns, worker_turns, begin, run,
}
use spdlog_stress_test.Harness.Main.{set_up, run_tests}
use spdlog_stress_test.Harness.Main.Ending.{program_ends}

-- A log directory that cannot be made, and a file in it.
abbrev denied : Bool → Machine
denied there = record {
  parent_path = λ t. codes "logs";
  create_directories = λ t. some (codes "denied");
  opens = λ t. there;
  makes_pool = λ t n. true;
}

abbrev arguments : List Text
arguments =
    codes "--filename"
    ∷ codes "logs/all.log"
    ∷ codes "--maxthreads"
    ∷ codes "1"
    ∷ codes "--ignoretests"
    ∷ codes "string_uaf,diagnostics,sink_callback,level5,ride_state_manager"
    ∷ codes "--ignoretests"
    ∷ codes "concurrent_metrics_test,producer_consumer_queue"
    ∷ []

abbrev text_levels : Levels Text
text_levels = record {
  from_str = λ t. t;
  off = codes "off";
  info = codes "info";
  same_level = text_eq;
}

abbrev ctx : TestContext Text
ctx = (parse text_levels arguments).0

abbrev tests_of : Option (List (Test Text)) → List (Test Text)
tests_of none = []
tests_of (some ts) = ts

abbrev tests : List (Test Text)
tests = tests_of (set_up (denied true) ctx).1

set_up_names : map (λ t. t.name) tests ≡ codes "timebase" ∷ codes "level" ∷ []
unfolding set_up parse strtol should_run prepare insert_tokens split
set_up_names = refl

set_up_made : (set_up (denied true) ctx).1 ≡ some tests
unfolding set_up parse strtol should_run prepare insert_tokens split
set_up_made = refl

-- A directory that cannot be made is only warned of, and a file that cannot be opened ends main.
set_up_fails : set_up (denied false) ctx ≡ (
  could_not_create (codes "logs") (codes "denied") ∷ failed_to_open (codes "logs/all.log") ∷ [],
  none,
)
unfolding set_up parse strtol should_run prepare insert_tokens split
set_up_fails = refl

abbrev runs_until_stop : ℕ → Bool
runs_until_stop i = true

abbrev state_of : Option (Program ℕ) → Program ℕ
state_of none = begin 0 none
state_of (some s) = s

-- The one thread is in the first test, and the second test waits in the queue.
abbrev schedule : List Event
schedule =
    main_turns
    ∷ main_turns
    ∷ worker_turns 0
    ∷ worker_turns 0
    ∷ main_turns
    ∷ main_turns
    ∷ worker_turns 0
    ∷ []

abbrev busy : Program ℕ
busy = state_of (run runs_until_stop 5 (begin 2 (some 1)) schedule)

busy_tasks : busy.harness.tasks ≡ running ∷ queued ∷ []
unfolding run Base.worker_turn insert
busy_tasks = refl

arguments_read : (ctx.seconds ≡ 5) × (ctx.max_threads ≡ some 1) × (length tests ≡ 2)
unfolding set_up parse strtol should_run prepare insert_tokens split
arguments_read = (refl, refl, refl)

pooled_runs : run runs_until_stop 5 (begin 2 (some 1)) schedule ≡ some busy
unfolding run Base.worker_turn insert
pooled_runs = refl

busy_runs : run_tests runs_until_stop ctx tests schedule ≡ some busy
busy_runs = rw (arguments_read.0, arguments_read.1, arguments_read.2) pooled_runs

program_ends_example :
    (fs : List Event) × (t : Program ℕ) × (run runs_until_stop ctx.seconds busy fs ≡ some t)
    × (t.harness.phase ≡ closed)
    × (t.harness.stop ≡ true)
    × (length t.harness.tasks ≡ length tests)
    × (live t.harness.tasks ≡ 0)
    × ((destroy t.pool).1 ≡ joins_workers)
    × Leaves silent (destroy t.pool).0
program_ends_example =
    program_ends ℕ text_levels (denied true) runs_until_stop arguments tests set_up_made schedule
      busy busy_runs
