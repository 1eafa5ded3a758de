-- ===== src/Harness/Schedule/Pooled/Progress.antt =====
-- Turns that bring main and the pool nearer to the end.
use spdlog_stress_test.Prelude.{
  ℕ, zero, suc, ◌+◌, ◌*◌, ◌<◌, ◌≡◌, refl, ap, ◌∙◌, Bool, true, false, not, ◌&&◌, List, [], ◌∷◌,
  Option, some, arith, Bool-cases, inl, inr,
}
use spdlog_stress_test.ThreadPool as Base
use spdlog_stress_test.ThreadPool.{
  Phase, running, spawned, ThreadPool, create, submit, WaitResult, blocked, returned, rethrown,
  wait, int_max,
}
use spdlog_stress_test.ThreadPool.Due.{silent, phase_at}
use spdlog_stress_test.ThreadPool.Blocked.{pool_left, wait-left, wait-pool_left}
use spdlog_stress_test.Harness.Schedule as Schedule
use spdlog_stress_test.Harness.Schedule.{
  Task, queued, counting, submitting, looping, stopping, waiting, closed, Harness, launch, is_ended,
  main_turn, task_turn, beat,
}
use spdlog_stress_test.Harness.Schedule.Ending.{all_turns_left}
use spdlog_stress_test.Harness.Schedule.Failures.{is_running_at, test_turn}
use spdlog_stress_test.Harness.Schedule.Pooled.{
  Program, Event, main_turns, worker_turns, is_over_at, closing, main_step, work_on, worker_step,
  step, run,
}
use spdlog_stress_test.Harness.Schedule.Pooled.Kept.{Kept}

-- A test that is not over takes a turn.
task_turn-left :
    (f m : ℕ) (ts : List Task)
    → is_over_at f ts ≡ false
    → all_turns_left (task_turn f m ts).1 < all_turns_left ts
unfolding task_turn
task_turn-left f m [] h = cc
task_turn-left zero m (queued ∷ ts) h = omega arith
task_turn-left zero m (Task.running ∷ ts) h = omega arith
task_turn-left zero m (Task.leaving ∷ ts) h = omega arith
task_turn-left zero m (Task.ended ∷ ts) h = cc
task_turn-left (suc f) m (t ∷ ts) h = omega (arith, task_turn-left f m ts h)

free_of : (b c stop : Bool) → stop ≡ true → (b && c && not stop) ≡ false
free_of b c stop on = ground arith

test_turn-left :
    (until_stop : ℕ → Bool) (seconds f : ℕ) (h : Harness)
    → h.stop ≡ true
    → is_over_at f h.tasks ≡ false
    → let k = test_turn until_stop seconds f h in
      (all_turns_left k.tasks < all_turns_left h.tasks) × (k.phase ≡ h.phase)
unfolding test_turn Schedule.step
test_turn-left until_stop seconds f h on open_yet =
    simp (free_of (until_stop f) (is_running_at f h.tasks) h.stop on)
      (task_turn-left f h.active_tests_count h.tasks open_yet, refl)

-- main's own turns, and those of the tests that it has still to submit.
abbrev pub phase_left : Schedule.Phase → ℕ
phase_left (counting n) = 10 * n + 4
phase_left (submitting n) = 10 * n + 13
phase_left looping = 3
phase_left stopping = 2
phase_left waiting = 1
phase_left closed = 0

abbrev pub left {κ} : {E : Type κ} → Option ℕ → Program E → ℕ
left max s = all_turns_left s.harness.tasks + phase_left s.harness.phase + pool_left max s.pool

module _ {κ} {E : Type κ} (until_stop : ℕ → Bool) (max : Option ℕ) (seconds : ℕ) where
  -- Where `stop` is set, a thread's turn brings its test or the pool nearer to the end.
  work_on-left :
      (f i : ℕ) (s : Program E)
      → s.harness.stop ≡ true
      → pool_left max (Base.turn silent i s.pool) < pool_left max s.pool
      → left max (work_on until_stop seconds f i s) < left max s
  unfolding work_on
  work_on-left f i s on less = elim (Bool-cases (is_over_at f s.harness.tasks)) [
    | inl over ↦ simp over (omega (arith, less))
    | inr open_yet ↦
        let (nearer, same) = test_turn-left until_stop seconds f s.harness on open_yet in
        simp open_yet (omega (arith, nearer, ap phase_left same))
  ]

  worker_step-left :
      (w : Phase ℕ E) (i : ℕ) (s : Program E)
      → s.harness.stop ≡ true
      → pool_left max (Base.turn silent i s.pool) < pool_left max s.pool
      → left max (worker_step until_stop seconds w i s) < left max s
  unfolding worker_step
  worker_step-left (running t) i s on less = work_on-left t.function i s on less
  worker_step-left (spawned f) i s on less = work_on-left f i s on less
  worker_step-left Phase.waiting i s on less = omega (arith, less)
  worker_step-left (Phase.catching t e) i s on less = omega (arith, less)
  worker_step-left (Phase.finishing t) i s on less = omega (arith, less)
  worker_step-left Phase.gone i s on less = omega (arith, less)

  -- Some events bring the program nearer to its end.
  abbrev pub Advances : Program E → Type κ
  Advances s =
      (es : List Event) × (t : Program E) × (run until_stop seconds s es ≡ some t)
      × (left max t < left max s)

  one_event :
      (s t : Program E) (e : Event)
      → step until_stop seconds s e ≡ some t
      → left max t < left max s
      → Advances s
  unfolding run
  one_event s t e h less = (e ∷ [], t, rw h, less)

  pub main_event :
      (s t : Program E) (ph : Schedule.Phase)
      → s.harness.phase ≡ ph
      → main_step seconds ph s ≡ some t
      → left max t < left max s
      → Advances s
  unfolding step
  main_event s t ph at h less =
      one_event s t main_turns (ap (λ q. main_step seconds q s) at ∙ h) less

  advance_closing :
      (s : Program E) (r : WaitResult E)
      → s.harness.phase ≡ waiting
      → Kept max s.harness.tasks s.pool
      → (wait s.pool).1 ≡ r
      → closing s (wait s.pool).0 r
        ≡ record { harness = record s.harness { phase = closed }; pool = (wait s.pool).0 }
      → Advances s
  unfolding main_step
  advance_closing s r at v h e =
      main_event s
        (record { harness = record s.harness { phase = closed }; pool = (wait s.pool).0 }) waiting
        at (ap (λ q. some (closing s (wait s.pool).0 q)) h ∙ ap some e)
        (omega (arith, ap phase_left at, wait-pool_left max s.pool v.same_max))

  pub advance_waiting :
      (s : Program E) (r : WaitResult E)
      → s.harness.phase ≡ waiting
      → s.harness.stop ≡ true
      → Kept max s.harness.tasks s.pool
      → (wait s.pool).1 ≡ r
      → Advances s
  unfolding step closing
  advance_waiting s blocked at on v h =
      let (i, less) = wait-left max s.pool v.same_max v.fits v.pool_kept h in
      one_event s _ (worker_turns i) refl
        (worker_step-left (phase_at i s.pool.worker_threads) i s on less)
  advance_waiting s returned at on v h = advance_closing s returned at v h refl
  advance_waiting s (rethrown e) at on v h = advance_closing s (rethrown e) at v h refl
