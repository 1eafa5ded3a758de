-- ===== src/Harness/Schedule/Pooled/Numbering.antt =====
-- The pool never numbers more tasks than main has submitted tests.
use mathlib.Core.Option.{some_inj}
use spdlog_stress_test.Prelude.{
  ℕ, zero, suc, ◌≤◌, ◌≡◌, refl, ap, subst, Bool, not, ◌&&◌, List, [], ◌∷◌, Option, none, some,
  arith, length, length-append, Bool-cases, inl, inr,
}
use spdlog_stress_test.ThreadPool as Base
use spdlog_stress_test.ThreadPool.{
  Phase, running, spawned, ThreadPool, submit, WaitResult, blocked, returned, rethrown, wait,
}
use spdlog_stress_test.ThreadPool.Due.{silent, phase_at}
use spdlog_stress_test.ThreadPool.Blocked.{
  turn-next_task_id, wait-next_task_id, submit-next_task_id,
}
use spdlog_stress_test.Harness.Schedule as Schedule
use spdlog_stress_test.Harness.Schedule.{
  Task, queued, counting, submitting, looping, stopping, waiting, closed, Harness, main_turn,
  task_turn, beat,
}
use spdlog_stress_test.Harness.Schedule.Failures.{is_running_at, test_turn}
use spdlog_stress_test.Harness.Schedule.Pooled.{
  Program, Event, main_turns, worker_turns, passes, is_over_at, closing, submitted, main_step,
  work_on, worker_step, step, run,
}
use spdlog_stress_test.Harness.Schedule.Pooled.Refining.{then_run-eq-some}
use spdlog_stress_test.Harness.Schedule.Pooled.Moves.{beat-tasks}

length-task_turn : (i m : ℕ) (ts : List Task) → length (task_turn i m ts).1 ≡ length ts
unfolding task_turn
length-task_turn i m [] = refl
length-task_turn zero m (t ∷ ts) = refl
length-task_turn (suc i) m (t ∷ ts) = ap suc (length-task_turn i m ts)

length-test_turn :
    (until_stop : ℕ → Bool) (seconds f : ℕ) (h : Harness)
    → length (test_turn until_stop seconds f h).tasks ≡ length h.tasks
unfolding test_turn Schedule.step
length-test_turn until_stop seconds f h =
    elim (Bool-cases (until_stop f && is_running_at f h.tasks && not h.stop)) [
      | inl held_up ↦ simp held_up
      | inr free ↦ simp free (length-task_turn f h.active_tests_count h.tasks)
    ]

module _ {κ} {E : Type κ} where
  abbrev pub Numbered : Program E → Type 0
  Numbered s = s.pool.shared.next_task_id ≤ length s.harness.tasks

  submitted-Numbered :
      (seconds n : ℕ) (s t : Program E) (o : Option (ThreadPool ℕ E))
      → submit (length s.harness.tasks) s.pool ≡ o
      → submitted (main_turn seconds (submitting n) s.harness) o ≡ some t
      → Numbered s
      → Numbered t
  unfolding main_turn
  submitted-Numbered seconds n s t none e h v = cc h
  submitted-Numbered seconds n s t (some q) e h v = subst Numbered (some_inj.0 h) (
      omega (
        arith,
        v,
        submit-next_task_id (length s.harness.tasks) s.pool q e,
        length-append s.harness.tasks (queued ∷ []),
      ))

  closing-Numbered :
      (s : Program E) (r : WaitResult E) → Numbered s → Numbered (closing s (wait s.pool).0 r)
  unfolding closing
  closing-Numbered s blocked v = v
  closing-Numbered s returned v = omega (arith, v, wait-next_task_id s.pool)
  closing-Numbered s (rethrown e) v = omega (arith, v, wait-next_task_id s.pool)

  main_step-Numbered :
      (seconds : ℕ) (ph : Schedule.Phase) (s t : Program E)
      → main_step seconds ph s ≡ some t
      → Numbered s
      → Numbered t
  unfolding main_step main_turn
  main_step-Numbered seconds (counting zero) s t h v = subst Numbered (some_inj.0 h) v
  main_step-Numbered seconds (counting (suc n)) s t h v = subst Numbered (some_inj.0 h) v
  main_step-Numbered seconds (submitting n) s t h v =
      submitted-Numbered seconds n s t (submit (length s.harness.tasks) s.pool) refl h v
  main_step-Numbered seconds looping s t h v =
      subst Numbered (some_inj.0 h)
        (omega (arith, v, ap (length {A = Task}) (beat-tasks s.harness)))
  main_step-Numbered seconds stopping s t h v = subst Numbered (some_inj.0 h) v
  main_step-Numbered seconds waiting s t h v =
      subst Numbered (some_inj.0 h) (closing-Numbered s (wait s.pool).1 v)
  main_step-Numbered seconds closed s t h v = subst Numbered (some_inj.0 h) v

module _ {κ} {E : Type κ} (until_stop : ℕ → Bool) (seconds : ℕ) where
  turned-Numbered :
      (i : ℕ) (s : Program E)
      → Numbered s
      → Numbered (record s { pool = Base.turn silent i s.pool })
  turned-Numbered i s v = omega (arith, v, turn-next_task_id i s.pool)

  work_on-Numbered :
      (f i : ℕ) (s : Program E) → Numbered s → Numbered (work_on until_stop seconds f i s)
  unfolding work_on
  work_on-Numbered f i s v = elim (Bool-cases (is_over_at f s.harness.tasks)) [
    | inl over ↦ simp over (turned-Numbered i s v)
    | inr left ↦ simp left (omega (arith, v, length-test_turn until_stop seconds f s.harness))
  ]

  worker_step-Numbered :
      (w : Phase ℕ E) (i : ℕ) (s : Program E)
      → Numbered s
      → Numbered (worker_step until_stop seconds w i s)
  unfolding worker_step
  worker_step-Numbered (running t) i s v = work_on-Numbered t.function i s v
  worker_step-Numbered (spawned f) i s v = work_on-Numbered f i s v
  worker_step-Numbered w i s v = turned-Numbered i s v

  step-Numbered :
      (s t : Program E) (e : Event) → step until_stop seconds s e ≡ some t → Numbered s → Numbered t
  unfolding step Schedule.step
  step-Numbered s t main_turns h v = main_step-Numbered seconds s.harness.phase s t h v
  step-Numbered s t (worker_turns i) h v =
      subst Numbered (some_inj.0 h) (worker_step-Numbered (phase_at i s.pool.worker_threads) i s v)
  step-Numbered s t (passes n) h v = subst Numbered (some_inj.0 h) v

  pub run-Numbered :
      (es : List Event) (s t : Program E)
      → run until_stop seconds s es ≡ some t
      → Numbered s
      → Numbered t
  unfolding run
  run-Numbered [] s t h v = subst Numbered (some_inj.0 h) v
  run-Numbered (e ∷ es) s t h v =
      let (u, stepped, rest) =
        then_run-eq-some (λ r. run until_stop seconds r es) (step until_stop seconds s e) h in
      run-Numbered es u t rest (step-Numbered s u e stepped v)
