-- ===== src/Harness.antt =====
-- C++ Project/src/main.cpp and include/test_base.h: the registry, the selection of the tests, their
-- loggers, and a test's start. What the file system answers, and what a test's `run` does, are
-- parameters.
pub mod Selection
pub mod Schedule
pub mod Main
mod Tests
use spdlog_stress_test.Prelude.{
  ℕ, Bool, List, [], ◌∷◌, ◌++◌, Option, none, some, if◌then◌else◌, Text, codes, is_empty,
}
use spdlog_stress_test.TestContext.{TestContext, should_run}

-- What `makeLogger` is told for a test of its own file.
pub record OwnLogger {ℓ} (L : Type ℓ) : Type ℓ where
  pub filename : Text
  pub logger_name : Text
  pub queue_size : ℕ
  pub log_level : L
  pub overruns_oldest : Bool

-- main's logger, or a test's own.
pub data Logger {ℓ} (L : Type ℓ) : Type ℓ where
  main_logger : Logger L
  own_logger : OwnLogger L → Logger L

-- `TestBase`, with the name of the class.
pub record Test {ℓ} (L : Type ℓ) : Type ℓ where
  pub name : Text
  pub logger : Option (Logger L)

-- What the file system answers for a path: its parent, the error of making the directories, and
-- whether the file can be opened; and whether the pool of the logger of a name, with a queue of a
-- size, can be made. Nothing is asked for twice in one run of the program.
pub record Machine : Type 0 where
  pub parent_path : Text → Text
  pub create_directories : Text → Option Text
  pub opens : Text → Bool
  pub makes_pool : Text → ℕ → Bool

-- What main and the tests' base write; `from_run` is a line of a test itself. The last four go to
-- stderr.
pub data Line : Type 0 where
  skipping : Text → Line
  test_configured : Text → Line
  test_started : Text → Line
  from_run : Text → Line
  test_finished : Text → Line
  flushed : Text → Line
  could_not_create : Text → Text → Line
  failed_to_open : Text → Line
  failed_to_configure : Text → Line
  test_threw : Text → Line

-- `k_registry`: each entry's factory makes a test of that name.
abbrev pub registry : List Text
registry =
    codes "string_uaf"
    ∷ codes "timebase"
    ∷ codes "level"
    ∷ codes "diagnostics"
    ∷ codes "sink_callback"
    ∷ codes "level5"
    ∷ codes "concurrent_metrics_test"
    ∷ codes "producer_consumer_queue"
    ∷ codes "ride_state_manager"
    ∷ []

-- What a call of `run` did: the lines it wrote, and the exception that it threw, if any.
pub record Ran {κ} (E : Type κ) : Type κ where
  pub lines : List Text
  pub exception : Option E

pub data StartResult {κ} (E : Type κ) : Type κ where
  unconfigured : StartResult E
  completed : StartResult E
  threw : E → StartResult E

abbrev pub run_lines : List Text → List Line
run_lines [] = []
run_lines (t ∷ ts) = from_run t ∷ run_lines ts

pub start_run {κ} : {E : Type κ} → Text → List Text → Option E → List Line × StartResult E
start_run name lines none =
    (test_started name ∷ run_lines lines ++ test_finished name ∷ flushed name ∷ [], completed)
start_run name lines (some e) = (test_started name ∷ run_lines lines, threw e)

pub start_with {ℓ κ} :
    {L : Type ℓ} {E : Type κ} → Option (Logger L) → Text → Ran E → List Line × StartResult E
unfolding start_run
start_with none name ran = ([], unconfigured)
start_with (some l) name ran = start_run name ran.lines ran.exception

pub start {ℓ κ} : {L : Type ℓ} {E : Type κ} → Test L → Ran E → List Line × StartResult E
unfolding start_with
start t ran = start_with t.logger t.name ran

pub handled {κ} : {E : Type κ} → Text → List Line × StartResult E → List Line
handled name (lines, threw e) = lines ++ test_threw name ∷ []
handled name (lines, r) = lines

-- The task that main submits, with its handlers: what it writes. It lets nothing out.
pub task {ℓ κ} : {L : Type ℓ} {E : Type κ} → Test L → Ran E → List Line
unfolding start
task t ran = handled t.name (start t ran)

-- Phase 1.
pub create_tests {ℓ} : {L : Type ℓ} → TestContext L → List Text → List (Test L) × List Line
unfolding should_run
create_tests ctx [] = ([], [])
create_tests ctx (name ∷ names) =
    let rest = create_tests ctx names in
    if should_run ctx name
    then (record { name = name; logger = none } ∷ rest.0, rest.1)
    else (rest.0, skipping name ∷ rest.1)

module _ {ℓ} {L : Type ℓ} where
  abbrev pub own_of : TestContext L → Text → OwnLogger L
  own_of ctx name = record {
    filename = name ++ codes ".log";
    logger_name = name;
    queue_size = ctx.queue_size;
    log_level = ctx.log_level;
    overruns_oldest = ctx.stress;
  }

  abbrev pub and_then : Test L → Option (List (Test L)) → Option (List (Test L))
  and_then t none = none
  and_then t (some ts) = some (t ∷ ts)

  abbrev pub with_first : Option (Test L) → Option (List (Test L)) → Option (List (Test L))
  with_first none rest = none
  with_first (some t) rest = and_then t rest

  abbrev pub first_lines : Option (Test L) → List Line → List Line
  first_lines none rest = []
  first_lines (some t) rest = rest

  -- `configure` behind its pool and its call of `makeLogger`.
  pub with_own : Test L → Option (OwnLogger L) → List Line × Option (Test L)
  with_own t none = (failed_to_configure t.name ∷ [], none)
  with_own t (some l) =
      (test_configured t.name ∷ [], some (record t { logger = some (own_logger l) }))

abbrev pub directory_lines : Text → Option Text → List Line
directory_lines parent none = []
directory_lines parent (some message) = could_not_create parent message ∷ []

module _ (machine : Machine) where
  -- The directory of a log file is made if the path has one.
  pub make_parent : Text → List Line
  make_parent parent =
      if is_empty parent then [] else directory_lines parent (machine.create_directories parent)

module _ {ℓ} {L : Type ℓ} (machine : Machine) where
  -- `none` is an exception.
  pub make_logger : OwnLogger L → List Line × Option (OwnLogger L)
  unfolding make_parent
  make_logger told =
      let warned = make_parent machine (machine.parent_path told.filename) in
      if machine.opens told.filename
      then (warned, some told)
      else (warned ++ failed_to_open told.filename ∷ [], none)

  -- A pool of its own, and the logger on it; either may throw.
  pub make_own : OwnLogger L → List Line × Option (OwnLogger L)
  unfolding make_logger
  make_own told =
      if machine.makes_pool told.logger_name told.queue_size then make_logger told else ([], none)

  -- `configure`, as main calls it; `none` is an exception, which ends the program.
  pub configure_for : Option Text → TestContext L → Test L → List Line × Option (Test L)
  unfolding make_own with_own
  configure_for (some file) ctx t =
      (test_configured t.name ∷ [], some (record t { logger = some main_logger }))
  configure_for none ctx t =
      let made = make_own (own_of ctx t.name) in
      let own = with_own t made.1 in (made.0 ++ own.0, own.1)

  pub configure : TestContext L → Test L → List Line × Option (Test L)
  unfolding configure_for
  configure ctx t = configure_for ctx.filename ctx t

  -- Phase 2.
  pub configure_all : TestContext L → List (Test L) → List Line × Option (List (Test L))
  unfolding configure
  configure_all ctx [] = ([], some [])
  configure_all ctx (t ∷ ts) =
      let first = configure ctx t in
      let rest = configure_all ctx ts in
      (first.0 ++ first_lines first.1 rest.0, with_first first.1 rest.1)

  pub prepare : TestContext L → List Line × Option (List (Test L))
  unfolding create_tests configure_all
  prepare ctx =
      let created = create_tests ctx registry in
      let configured = configure_all ctx created.0 in (created.1 ++ configured.0, configured.1)
