-- ===== src/Harness/Schedule/Failures.antt =====
-- main.cpp with its exceptions: what ends the program with 1, and what an exception from a submission
-- leads to. The set-up is one turn; the rest of main is in Schedule. The constructor of the pool is
-- taken to throw nothing.
pub mod Exits
pub mod Hanging
mod Tests
use spdlog_stress_test.Prelude.{
  ℕ, zero, suc, Bool, true, false, not, ◌&&◌, List, [], ◌∷◌, if◌then◌else◌,
}
use spdlog_stress_test.Harness.Schedule as Schedule
use spdlog_stress_test.Harness.Schedule.{
  Task, running, Phase, counting, submitting, closed, Harness, launch, all_ended, main_turn,
}

-- In the set-up; in the try block from its third phase on; in the destructor of the pool, with an
-- exception on its way out; or over, with the code that main returns.
pub data Stage : Type 0 where
  preparing working unwinding : Stage
  exited : ℕ → Stage

pub record Program : Type 0 where
  pub stage : Stage
  pub harness : Harness

abbrev pub begin : ℕ → Program
begin n = record { stage = preparing; harness = launch n }

-- What happens; `throws` is an exception from what main is about to do.
pub data Event : Type 0 where
  happens : Schedule.Event → Event
  throws : Event

-- main is behind the pool's `wait`: it clears up and returns 0.
unfoldable pub working_turn : ℕ → Phase → Harness → Program
unfolding main_turn
working_turn seconds closed h = record { stage = exited 0; harness = h }
working_turn seconds p h = record { stage = working; harness = main_turn seconds p h }

unfoldable pub program_turn : ℕ → Stage → Harness → Program
unfolding working_turn
program_turn seconds preparing h = record { stage = working; harness = h }
program_turn seconds working h = working_turn seconds h.phase h
program_turn seconds unwinding h =
    if all_ended h.tasks
    then record { stage = exited 1; harness = h }
    else record { stage = unwinding; harness = h }
program_turn seconds (exited c) h = record { stage = exited c; harness = h }

-- The stage behind an exception, which only the set-up and `submit` throw.
unfoldable pub thrown_stage : Stage → Phase → Stage
thrown_stage preparing p = exited 1
thrown_stage working (submitting n) = unwinding
thrown_stage working p = working
thrown_stage s p = s

abbrev pub is_running_at : ℕ → List Task → Bool
is_running_at i [] = false
is_running_at zero (running ∷ ts) = true
is_running_at zero (_ ∷ ts) = false
is_running_at (suc i) (t ∷ ts) = is_running_at i ts

-- `until_stop` says which tests leave their `start` only once `stop` is set.
module _ (until_stop : ℕ → Bool) (seconds : ℕ) where
  unfoldable pub test_turn : ℕ → Harness → Harness
  unfolding Schedule.step
  test_turn i h =
      if until_stop i && is_running_at i h.tasks && not h.stop
      then h
      else Schedule.step seconds h (Schedule.task_turns i)

  unfoldable pub step : Program → Event → Program
  unfolding test_turn program_turn thrown_stage Schedule.step
  step s (happens Schedule.main_turns) = program_turn seconds s.stage s.harness
  step s (happens (Schedule.task_turns i)) = record s { harness = test_turn i s.harness }
  step s (happens (Schedule.passes t)) = record s {
    harness = Schedule.step seconds s.harness (Schedule.passes t);
  }
  step s throws = record s { stage = thrown_stage s.stage s.harness.phase }

  unfoldable pub run : Program → List Event → Program
  unfolding step
  run s [] = s
  run s (e ∷ es) = run (step s e) es
