-- ===== src/Harness/Schedule/Pooled/Refining.antt =====
-- What main and the threads of the pool do, main and the tests do in some order.
use mathlib.Core.Option.{some_inj}
use spdlog_stress_test.Prelude.{
  ℕ, ◌≡◌, ◌≢◌, refl, ap, subst, ◌∙◌, Bool, false, not, ◌&&◌, List, [], ◌∷◌, Option, none, some,
  Bool-cases, inl, inr,
}
use spdlog_stress_test.ThreadPool as Base
use spdlog_stress_test.ThreadPool.{
  Phase, running, spawned, ThreadPool, create, submit, WaitResult, blocked, returned, rethrown,
  wait,
}
use spdlog_stress_test.ThreadPool.Counting.{occurs}
use spdlog_stress_test.ThreadPool.Due.{silent, phase_at, active}
use spdlog_stress_test.Harness.Schedule as Schedule
use spdlog_stress_test.Harness.Schedule.{
  Task, queued, submitting, waiting, closed, Harness, launch, is_ended, all_ended, main_turn,
  task_turn, counting, looping, stopping, beat, run as plain_run,
}
use spdlog_stress_test.Harness.Schedule.Failures.{is_running_at, test_turn}
use spdlog_stress_test.Harness.Schedule.Pooled.Moves.{
  Leads-trans, Leads-same, Leads-one, clear_of, Steps, quiet-Steps, main_step-Steps,
}
use spdlog_stress_test.Harness.Schedule.Pooled.Kept.{Kept, turned-Kept, tested-Kept, begin-Kept}
use spdlog_stress_test.Harness.Schedule.Pooled.{
  Program, Event, main_turns, worker_turns, passes, is_over_at, begin, work_on, worker_step, step,
  run, then_run,
}

module _ {κ} {E : Type κ} where
  pub then_run-eq-some :
      {t : Program E} (k : Program E → Option (Program E)) (o : Option (Program E))
      → then_run k o ≡ some t
      → (u : Program E) × (o ≡ some u) × (k u ≡ some t)
  then_run-eq-some k none h = cc
  then_run-eq-some k (some u) h = (u, refl, h)

module _ {κ} {E : Type κ} (until_stop : ℕ → Bool) (max : Option ℕ) (seconds : ℕ) where
  test_turn-Steps :
      (f : ℕ) (s : Program E)
      → Kept max s.harness.tasks s.pool
      → Steps max seconds s (record s { harness = test_turn until_stop seconds f s.harness })
  unfolding test_turn Schedule.step
  test_turn-Steps f s v =
      elim (Bool-cases (until_stop f && is_running_at f s.harness.tasks && not s.harness.stop)) [
        | inl held_up ↦ simp held_up (record { kept = v; leads = Leads-same seconds s.harness })
        | inr free ↦ simp free (record {
          kept = tested-Kept max f s.harness.active_tests_count s.harness.tasks s.pool v;
          leads = Leads-one seconds (Schedule.task_turns f) s.harness;
        })
      ]

  pool_turn-Steps :
      (i : ℕ) (s : Program E)
      → ((g : ℕ)
          → is_over_at g s.harness.tasks ≡ false
          → occurs g (active (phase_at i s.pool.worker_threads)) ≡ 0)
      → Kept max s.harness.tasks s.pool
      → Steps max seconds s (record s { pool = Base.turn silent i s.pool })
  pool_turn-Steps i s clear v = record {
    kept = turned-Kept max i s.harness.tasks s.pool clear v;
    leads = Leads-same seconds s.harness;
  }

  work_on-Steps :
      (f i : ℕ) (s : Program E)
      → active (phase_at i s.pool.worker_threads) ≡ f ∷ []
      → Kept max s.harness.tasks s.pool
      → Steps max seconds s (work_on until_stop seconds f i s)
  unfolding work_on
  work_on-Steps f i s at v = elim (Bool-cases (is_over_at f s.harness.tasks)) [
    | inl over ↦ simp over (
        pool_turn-Steps i s (λ g left. ap (occurs g) at ∙ clear_of f g s.harness.tasks over left) v)
    | inr left ↦ simp left (test_turn-Steps f s v)
  ]

  worker_step-Steps :
      (w : Phase ℕ E) (i : ℕ) (s : Program E)
      → phase_at i s.pool.worker_threads ≡ w
      → Kept max s.harness.tasks s.pool
      → Steps max seconds s (worker_step until_stop seconds w i s)
  unfolding worker_step
  worker_step-Steps (running t) i s at v = work_on-Steps t.function i s (ap active at) v
  worker_step-Steps (spawned f) i s at v = work_on-Steps f i s (ap active at) v
  worker_step-Steps Phase.waiting i s at v =
      pool_turn-Steps i s (λ g left. ap (λ w. occurs g (active w)) at) v
  worker_step-Steps (Phase.catching t e) i s at v =
      pool_turn-Steps i s (λ g left. ap (λ w. occurs g (active w)) at) v
  worker_step-Steps (Phase.finishing t) i s at v =
      pool_turn-Steps i s (λ g left. ap (λ w. occurs g (active w)) at) v
  worker_step-Steps Phase.gone i s at v =
      pool_turn-Steps i s (λ g left. ap (λ w. occurs g (active w)) at) v

  pub step-Steps :
      (s t : Program E) (e : Event)
      → step until_stop seconds s e ≡ some t
      → Kept max s.harness.tasks s.pool
      → Steps max seconds s t
  unfolding step Schedule.step
  step-Steps s t main_turns h v = main_step-Steps max seconds s.harness.phase s t refl h v
  step-Steps s t (worker_turns i) h v =
      subst (Steps max seconds s) (some_inj.0 h)
        (worker_step-Steps (phase_at i s.pool.worker_threads) i s refl v)
  step-Steps s t (passes n) h v =
      quiet-Steps max seconds s t _ h refl (Leads-one seconds (Schedule.passes n) s.harness) v

  pub run-Steps :
      (es : List Event) (s t : Program E)
      → run until_stop seconds s es ≡ some t
      → Kept max s.harness.tasks s.pool
      → Steps max seconds s t
  unfolding run
  run-Steps [] s t h v =
      subst (Steps max seconds s) (some_inj.0 h)
        (record { kept = v; leads = Leads-same seconds s.harness })
  run-Steps (e ∷ es) s t h v =
      let (u, stepped, rest) =
        then_run-eq-some (λ r. run until_stop seconds r es) (step until_stop seconds s e) h in
      let first = step-Steps s u e stepped v in
      let later = run-Steps es u t rest first.kept in
      record {
        kept = later.kept;
        leads = Leads-trans seconds s.harness u.harness t.harness first.leads later.leads;
      }

  -- Whatever the maximum of the pool, if it is not 0, and in whatever order main and the threads of
  -- the pool take their turns: what main and the tests come to, they come to in some schedule of main
  -- and of tasks that take their turns freely.
  pub run-refines_schedule :
      (n : ℕ) (es : List Event) (s : Program E)
      → max ≢ some 0
      → run until_stop seconds (begin n max) es ≡ some s
      → (fs : List Schedule.Event) × (Schedule.run seconds (launch n) fs ≡ s.harness)
  run-refines_schedule n es s allowed h =
      (run-Steps es (begin n max) s h (begin-Kept E max allowed)).leads
