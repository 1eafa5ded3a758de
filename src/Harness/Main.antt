-- ===== src/Harness/Main.antt =====
-- C++ Project/src/main.cpp as a whole: the command line, main's logger, the tests, and then main and
-- the threads of the pool that runs them.
pub mod Startup
pub mod Ending
mod Tests
use spdlog_stress_test.Prelude.{
  ℕ, Bool, List, [], ◌∷◌, ◌++◌, Option, none, some, Text, codes, length,
}
use spdlog_stress_test.TestContext.{Levels, TestContext, parse}
use spdlog_stress_test.Harness.{Machine, OwnLogger, Test, Line, make_own, prepare}
use spdlog_stress_test.Harness.Schedule.Pooled.{Program, Event, begin, run as run_pooled}

abbrev pub default_logfile_name : Text
default_logfile_name = codes "output.log"

abbrev pub value_or : Option Text → Text → Text
value_or none t = t
value_or (some s) t = s

module _ {ℓ} {L : Type ℓ} where
  -- What main's call of `makeLogger` is told.
  abbrev pub main_told : TestContext L → OwnLogger L
  main_told ctx = record {
    filename = value_or ctx.filename default_logfile_name;
    logger_name = codes "main";
    queue_size = ctx.queue_size;
    log_level = ctx.log_level;
    overruns_oldest = ctx.stress;
  }

module _ {ℓ} {L : Type ℓ} (machine : Machine) where
  -- The rest of the set-up, with main's logger or without.
  pub with_main : Option (OwnLogger L) → TestContext L → List Line × Option (List (Test L))
  with_main none ctx = ([], none)
  with_main (some l) ctx = prepare machine ctx

  -- Up to the third phase; `none` is an exception, after which main returns 1.
  pub set_up : TestContext L → List Line × Option (List (Test L))
  unfolding make_own with_main
  set_up ctx =
      let made = make_own machine (main_told ctx) in
      let rest = with_main made.1 ctx in (made.0 ++ rest.0, rest.1)

module _ {ℓ κ} {L : Type ℓ} {E : Type κ} (until_stop : ℕ → Bool) where
  -- The third phase and the rest, under a schedule of main and the threads of the pool.
  abbrev pub run_tests : TestContext L → List (Test L) → List Event → Option (Program E)
  run_tests ctx tests es =
      run_pooled until_stop ctx.seconds (begin (length tests) ctx.max_threads) es
