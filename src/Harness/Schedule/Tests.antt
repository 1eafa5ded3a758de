-- ===== src/Harness/Schedule/Tests.antt =====
-- Small schedules of main and two tests.
use spdlog_stress_test.Prelude.{◌≡◌, refl, true, List, [], ◌∷◌}
use spdlog_stress_test.Harness.Schedule.{
  heartbeat, all_finished_early, Harness, launch, Event, main_turns, task_turns, passes, closed,
  run,
}
use spdlog_stress_test.Harness.Schedule.Invariant.{said_early}

-- The first test is submitted and run while main submits the second; main sees both finished.
abbrev both_short : List Event
both_short =
    main_turns
    ∷ main_turns
    ∷ task_turns 0
    ∷ task_turns 0
    ∷ main_turns
    ∷ task_turns 0
    ∷ main_turns
    ∷ main_turns
    ∷ main_turns
    ∷ passes 50
    ∷ task_turns 1
    ∷ task_turns 1
    ∷ task_turns 1
    ∷ main_turns
    ∷ main_turns
    ∷ main_turns
    ∷ []

abbrev over : Harness
over = run 5000 (launch 2) both_short

over_said : over.said ≡ heartbeat ∷ all_finished_early ∷ []
unfolding run
over_said = refl

over_early : said_early over.said ≡ true
unfolding run
over_early = refl

over_closed : over.phase ≡ closed
unfolding run
over_closed = refl
