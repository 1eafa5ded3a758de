-- ===== src/Harness/Schedule/Failures/Tests.antt =====
-- Two tests, the second of which cannot be submitted.
use spdlog_stress_test.Prelude.{
  ℕ, ◌≡◌, refl, Bool, true, false, not, ◌||◌, List, [], ◌∷◌, ◌++◌, if◌then◌else◌, length, ◌==◌,
}
use spdlog_stress_test.Harness.Schedule.{main_turns, task_turns}
use spdlog_stress_test.Harness.Schedule.Invariant.{live}
use spdlog_stress_test.Harness.Schedule.Failures.{
  begin, unwinding, exited, Event, happens, throws, run, is_running_at,
}
use spdlog_stress_test.Harness.Schedule.Failures.Exits.{exits_complete}
use spdlog_stress_test.Harness.Schedule.Failures.Hanging.{submission-hangs}

abbrev leaves_early : ℕ → Bool
leaves_early i = false

abbrev runs_until_stop : ℕ → Bool
runs_until_stop i = true

abbrev failure : ℕ
failure = 1

abbrev failed_schedule : List Event
failed_schedule =
    happens main_turns
    ∷ happens main_turns
    ∷ happens main_turns
    ∷ happens main_turns
    ∷ happens (task_turns 0)
    ∷ throws
    ∷ []

abbrev rest_schedule : List Event
rest_schedule = happens (task_turns 0) ∷ happens (task_turns 0) ∷ happens main_turns ∷ []

failed_exits :
    (run leaves_early 5 (begin 2) (failed_schedule ++ rest_schedule)).stage ≡ exited failure
unfolding run
failed_exits = refl

exits_complete_example :
    let h = (run leaves_early 5 (begin 2) (failed_schedule ++ rest_schedule)).harness in
    (live h.tasks ≡ 0)
    × (failure ≡ (if h.stop then 0 else 1))
    × ((not h.stop || length h.tasks == 2) ≡ true)
exits_complete_example =
    exits_complete leaves_early 5 2 (failed_schedule ++ rest_schedule) failure failed_exits

failed_unwinds : (run runs_until_stop 5 (begin 2) failed_schedule).stage ≡ unwinding
unfolding run
failed_unwinds = refl

failed_busy : is_running_at 0 (run runs_until_stop 5 (begin 2) failed_schedule).harness.tasks ≡ true
unfolding run
failed_busy = refl

submission-hangs_example :
    let s = run runs_until_stop 5 (run runs_until_stop 5 (begin 2) failed_schedule) rest_schedule in
    (s.stage ≡ unwinding) × (s.harness.stop ≡ false)
submission-hangs_example =
    submission-hangs runs_until_stop 5 2 0 failed_schedule rest_schedule failed_unwinds failed_busy
      refl
