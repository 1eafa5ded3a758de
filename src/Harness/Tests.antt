-- ===== src/Harness/Tests.antt =====
-- A selection of tests, and a task whose test throws.
use spdlog_stress_test.Prelude.{
  ◌&&◌, ℕ, ◌≡◌, refl, true, [], ◌∷◌, map, none, some, if◌then◌else◌, codes,
}
use spdlog_stress_test.TestContext.{TestContext, should_run}
use spdlog_stress_test.Harness.{
  handled, Machine, Test, main_logger, Ran, registry, start, task, test_threw, test_started,
  from_run, threw,
}
use spdlog_stress_test.Harness.Selection.{chosen, configured_test, all_open}
use spdlog_stress_test.Harness.Main.{set_up}
use spdlog_stress_test.Harness.Main.Startup.{main_file, set_up_lem}

abbrev own_files : TestContext ℕ
own_files = record {
  seconds = 5;
  stress = true;
  log_level = 2;
  queue_size = 8192;
  filename = none;
  max_threads = some 2;
  ignore_tests =
      codes "string_uaf"
      ∷ codes "diagnostics"
      ∷ codes "sink_callback"
      ∷ codes "level5"
      ∷ codes "concurrent_metrics_test"
      ∷ codes "producer_consumer_queue"
      ∷ codes "ride_state_manager"
      ∷ [];
}

-- Every file can be opened, and no path has a directory.
abbrev any_file : Machine
any_file = record {
  parent_path = λ t. [];
  create_directories = λ t. some (codes "denied");
  opens = λ t. true;
  makes_pool = λ t n. true;
}

two_chosen : chosen own_files registry ≡ codes "timebase" ∷ codes "level" ∷ []
unfolding should_run
two_chosen = refl

set_up_lem_example : (set_up any_file own_files).1 ≡ (
    if any_file.makes_pool (codes "main") own_files.queue_size
      && any_file.opens (main_file own_files.filename)
      && all_open any_file own_files (chosen own_files registry)
    then some (map (configured_test own_files) (chosen own_files registry))
    else none)
set_up_lem_example = set_up_lem any_file own_files

abbrev throwing : Test ℕ × Ran ℕ
throwing = (
  record { name = codes "level"; logger = some main_logger },
  record { lines = codes "tick" ∷ []; exception = some 7 },
)

throwing_lines :
    start throwing.0 throwing.1
    ≡ (test_started (codes "level") ∷ from_run (codes "tick") ∷ [], threw 7)
unfolding start
throwing_lines = refl

throwing_task :
    task throwing.0 throwing.1
    ≡ test_started (codes "level") ∷ from_run (codes "tick") ∷ test_threw (codes "level") ∷ []
unfolding task start handled
throwing_task = refl
