-- ===== src/Harness/Schedule/Ending.antt =====
-- main comes to its end: the tests' tasks are never in its way for ever.
use spdlog_stress_test.Prelude.{
  ◌∙◌, ap, dec_lt, ℕ, zero, suc, ◌+◌, ◌*◌, ◌<◌, ◌≡◌, refl, false, List, [], ◌∷◌, ◌++◌, arith, ltb,
  Bool-cases, inl, inr,
}
use spdlog_stress_test.Harness.Schedule.{
  Task, queued, running, leaving, ended, Phase, counting, submitting, looping, stopping, waiting,
  closed, Harness, all_ended, beat, main_turn, task_turn, Event, main_turns, task_turns, passes,
  step, run,
}

-- How many turns a task has still to take.
abbrev pub turns_left : Task → ℕ
turns_left queued = 3
turns_left running = 2
turns_left leaving = 1
turns_left ended = 0

abbrev pub all_turns_left : List Task → ℕ
all_turns_left [] = 0
all_turns_left (t ∷ ts) = turns_left t + all_turns_left ts

-- main's own turns, and those of the tests that it has still to submit.
abbrev pub phase_left : Phase → ℕ
phase_left (counting n) = 6 * n + 4
phase_left (submitting n) = 6 * n + 9
phase_left looping = 3
phase_left stopping = 2
phase_left waiting = 1
phase_left closed = 0

abbrev pub work_left : Harness → ℕ
work_left s = all_turns_left s.tasks + phase_left s.phase

pub all_turns_left-append :
    (ts : List Task) → all_turns_left (ts ++ queued ∷ []) ≡ all_turns_left ts + 3
all_turns_left-append [] = refl
all_turns_left-append (t ∷ ts) = omega (arith, all_turns_left-append ts)

-- A task that is not over takes a turn.
busy_task :
    (m : ℕ) (ts : List Task)
    → all_ended ts ≡ false
    → (i : ℕ) × (all_turns_left (task_turn i m ts).1 < all_turns_left ts)
unfolding task_turn
busy_task m [] h = cc
busy_task m (queued ∷ ts) h = (0, omega arith)
busy_task m (running ∷ ts) h = (0, omega arith)
busy_task m (leaving ∷ ts) h = (0, omega arith)
busy_task m (ended ∷ ts) h = let (i, less) = busy_task m ts h in (suc i, omega (arith, less))

-- Some events bring the work down.
abbrev pub Advances : ℕ → Harness → Type 0
Advances seconds s = (es : List Event) × (work_left (run seconds s es) < work_left s)

advance :
    (seconds : ℕ) (p : Phase) (s : Harness) → s.phase ≡ p → 0 < phase_left p → Advances seconds s
unfolding run step main_turn beat
advance seconds (counting zero) s at more = (main_turns ∷ [], rw at (omega arith))
advance seconds (counting (suc n)) s at more = (main_turns ∷ [], rw at (omega arith))
advance seconds (submitting n) s at more =
    (main_turns ∷ [], rw at (omega (arith, all_turns_left-append s.tasks)))
advance seconds looping s at more = (
  passes s.end_time ∷ main_turns ∷ [],
  let late : ltb (s.now + s.end_time) s.end_time ≡ false = ground arith in
      rw (at, late) (omega arith),
)
advance seconds stopping s at more = (main_turns ∷ [], rw at (omega arith))
advance seconds waiting s at more = elim (Bool-cases (all_ended s.tasks)) [
  | inl idle ↦ (main_turns ∷ [], rw (at, idle) (omega arith))
  | inr busy ↦
      let (i, less) = busy_task s.active_tests_count s.tasks busy in
      (task_turns i ∷ [], omega (arith, less))
]
advance seconds closed s at more = absurd (omega arith)

pub run-append :
    (seconds : ℕ) (s : Harness) (es fs : List Event)
    → run seconds s (es ++ fs) ≡ run seconds (run seconds s es) fs
unfolding run
run-append seconds s [] fs = refl
run-append seconds s (e ∷ es) fs = run-append seconds (step seconds s e) es fs

closed_of : (p : Phase) → phase_left p ≡ 0 → p ≡ closed
closed_of (counting n) h = absurd (omega arith)
closed_of (submitting n) h = absurd (omega arith)
closed_of looping h = absurd (omega arith)
closed_of stopping h = absurd (omega arith)
closed_of waiting h = absurd (omega arith)
closed_of closed h = refl

abbrev pub CanClose : ℕ → Harness → Type 0
CanClose seconds s = (es : List Event) × ((run seconds s es).phase ≡ closed)

CanClose-after :
    (seconds : ℕ) (s : Harness) (es : List Event)
    → CanClose seconds (run seconds s es)
    → CanClose seconds s
CanClose-after seconds s es (fs, over) =
    (es ++ fs, ap (λ t. t.phase) (run-append seconds s es fs) ∙ over)

end_within : (k seconds : ℕ) (s : Harness) → work_left s < k → CanClose seconds s
unfolding run
end_within zero seconds s h = absurd (omega arith)
end_within (suc k) seconds s h = elim (dec_lt 0 (phase_left s.phase)) [
  | yes more ↦
      let (es, less) = advance seconds s.phase s refl more in
      CanClose-after seconds s es (end_within k seconds (run seconds s es) (omega (arith, less)))
  | no over ↦ ([], closed_of s.phase (omega (arith, over)))
]

-- No deadlock: from every state of main and of the tests' tasks, whatever the number of seconds,
-- some schedule of main, the tasks and the clock brings main behind the pool's `wait`.
pub main_ends : (seconds : ℕ) (s : Harness) → CanClose seconds s
main_ends seconds s = end_within (suc (work_left s)) seconds s (omega arith)
