-- ===== src/Harness/Schedule.antt =====
-- main.cpp from its third phase on: the submission of the tests, the loop of the heartbeat, and the
-- end, together with the tasks of the tests. A turn is one access to the state that they share.
pub mod Invariant
pub mod Active
pub mod Ending
pub mod Failures
pub mod Pooled
mod Tests
use spdlog_stress_test.Prelude.{
  ℕ, zero, suc, ◌+◌, ◌-◌, Bool, true, false, List, [], ◌∷◌, ◌++◌, ltb, ◌==◌, if◌then◌else◌,
}

-- A test: in the pool, in its `start`, behind it, or over with the count brought down.
pub data Task : Type 0 where
  queued running leaving ended : Task

-- main: about to count the next of so many tests, or to submit it when it is counted; in the loop;
-- behind it; in the pool's `wait`; or behind that.
pub data Phase : Type 0 where
  counting : ℕ → Phase
  submitting : ℕ → Phase
  looping : Phase
  stopping : Phase
  waiting : Phase
  closed : Phase

pub data Said : Type 0 where
  heartbeat all_finished_early : Said

pub record Harness : Type 0 where
  pub stop : Bool
  pub active_tests_count : ℕ
  pub tasks : List Task
  pub phase : Phase
  pub now : ℕ
  pub end_time : ℕ
  pub said : List Said

abbrev pub launch : ℕ → Harness
launch n = record {
  stop = false;
  active_tests_count = 0;
  tasks = [];
  phase = counting n;
  now = 0;
  end_time = 0;
  said = [];
}

abbrev pub is_ended : Task → Bool
is_ended ended = true
is_ended _ = false

abbrev pub all_ended : List Task → Bool
all_ended [] = true
all_ended (ended ∷ ts) = all_ended ts
all_ended (_ ∷ ts) = false

-- One pass of the loop.
pub beat : Harness → Harness
beat s =
    if ltb s.now s.end_time
    then (if s.active_tests_count == 0
        then record s { said = s.said ++ all_finished_early ∷ []; phase = stopping }
        else record s { said = s.said ++ heartbeat ∷ [] })
    else record s { phase = stopping }

pub main_turn : ℕ → Phase → Harness → Harness
unfolding beat
main_turn seconds (counting zero) s = record s { end_time = s.now + seconds; phase = looping }
main_turn seconds (counting (suc n)) s = record s {
  active_tests_count = s.active_tests_count + 1;
  phase = submitting n;
}
main_turn seconds (submitting n) s = record s { tasks = s.tasks ++ queued ∷ []; phase = counting n }
main_turn seconds looping s = beat s
main_turn seconds stopping s = record s { stop = true; phase = waiting }
main_turn seconds waiting s = if all_ended s.tasks then record s { phase = closed } else s
main_turn seconds closed s = s

-- The count after a turn of a task: it is brought down behind the test, however `start` came out.
pub task_count : Task → ℕ → ℕ
task_count leaving n = n - 1
task_count _ n = n

pub task_next : Task → Task
task_next queued = running
task_next running = leaving
task_next leaving = ended
task_next ended = ended

-- A turn of the `i`th task.
pub task_turn : ℕ → ℕ → List Task → ℕ × List Task
unfolding task_count task_next
task_turn i n [] = (n, [])
task_turn zero n (t ∷ ts) = (task_count t n, task_next t ∷ ts)
task_turn (suc i) n (t ∷ ts) = let (m, us) = task_turn i n ts in (m, t ∷ us)

pub data Event : Type 0 where
  main_turns : Event
  task_turns : ℕ → Event
  passes : ℕ → Event

pub step : ℕ → Harness → Event → Harness
unfolding main_turn task_turn
step seconds s main_turns = main_turn seconds s.phase s
step seconds s (task_turns i) =
    let (n, ts) = task_turn i s.active_tests_count s.tasks in
    record s { active_tests_count = n; tasks = ts }
step seconds s (passes n) = record s { now = s.now + n }

pub run : ℕ → Harness → List Event → Harness
unfolding step
run seconds s [] = s
run seconds s (e ∷ es) = run seconds (step seconds s e) es
