-- ===== src/Harness/Schedule/Pooled/Closing.antt =====
-- Where main is behind the pool's `wait`, the pool stays settled until its destructor.
use mathlib.Core.Option.{some_inj}
use spdlog_stress_test.Prelude.{
  ℕ, zero, suc, ◌≡◌, ◌≢◌, refl, ap, sym, subst, ◌∙◌, Bool, not, ◌&&◌, ◌==◌, ltb, List, [], ◌∷◌,
  Option, none, some, Bool-cases, inl, inr,
}
use spdlog_stress_test.ThreadPool.{
  Phase, running, spawned, ThreadPool, WaitResult, blocked, returned, rethrown, wait,
}
use spdlog_stress_test.ThreadPool.Due.{silent, phase_at}
use spdlog_stress_test.ThreadPool.Leaving.{all_idle, Leaves}
use spdlog_stress_test.ThreadPool.Events.{destroy, joins_workers}
use spdlog_stress_test.ThreadPool.Settled.{
  Settled, wait-Settled, turn-Settled, Settled-idle, destroy-Settled,
}
use spdlog_stress_test.Harness.Schedule as Schedule
use spdlog_stress_test.Harness.Schedule.{
  counting, submitting, looping, stopping, waiting, closed, Harness, main_turn, beat,
}
use spdlog_stress_test.Harness.Schedule.Failures.{is_running_at, test_turn}
use spdlog_stress_test.Harness.Schedule.Pooled.Kept.{Kept, begin-Kept}
use spdlog_stress_test.Harness.Schedule.Pooled.Refining.{step-Steps, run-Steps, then_run-eq-some}
use spdlog_stress_test.Harness.Schedule.Pooled.{
  begin, Program, Event, main_turns, worker_turns, passes, is_over_at, submitted, closing,
  main_step, work_on, worker_step, step, run,
}

-- A turn of the loop leaves main in it or behind it.
beat-open : (h : Harness) → h.phase ≡ looping → (beat h).phase ≢ closed
unfolding beat
beat-open h at = elim (Bool-cases (ltb h.now h.end_time)) [
  | inr late ↦ simp late (λ over. cc over)
  | inl early ↦ elim (Bool-cases (h.active_tests_count == 0)) [
    | inl none_left ↦ simp (early, none_left) (λ over. cc over)
    | inr some_left ↦ simp (early, some_left) (λ over. cc (at, over))
  ]
]

test_turn-phase :
    (until_stop : ℕ → Bool) (seconds f : ℕ) (h : Harness)
    → (test_turn until_stop seconds f h).phase ≡ h.phase
unfolding test_turn Schedule.step
test_turn-phase until_stop seconds f h =
    elim (Bool-cases (until_stop f && is_running_at f h.tasks && not h.stop)) [
      | inl held ↦ simp held refl
      | inr free ↦ simp free refl
    ]

module _ {κ} {E : Type κ} (until_stop : ℕ → Bool) (max : Option ℕ) (seconds : ℕ) where
  AtRest : Program E → Type κ
  AtRest s = s.harness.phase ≡ closed → Settled max s.pool

  work_on-phase :
      (f i : ℕ) (s : Program E) → (work_on until_stop seconds f i s).harness.phase ≡ s.harness.phase
  unfolding work_on
  work_on-phase f i s = elim (Bool-cases (is_over_at f s.harness.tasks)) [
    | inl over ↦ simp over refl
    | inr left ↦ simp left (test_turn-phase until_stop seconds f s.harness)
  ]

  worker_step-AtRest :
      (w : Phase ℕ E) (i : ℕ) (s : Program E)
      → phase_at i s.pool.worker_threads ≡ w
      → AtRest s
      → AtRest (worker_step until_stop seconds w i s)
  unfolding worker_step AtRest
  worker_step-AtRest (running t) i s at r over =
      let idle = Settled-idle max i s.pool (r (sym (work_on-phase t.function i s) ∙ over)) in
      cc (ap (λ p. all_idle (p ∷ [])) at, idle)
  worker_step-AtRest (spawned f) i s at r over =
      let idle = Settled-idle max i s.pool (r (sym (work_on-phase f i s) ∙ over)) in
      cc (ap (λ p. all_idle (p ∷ [])) at, idle)
  worker_step-AtRest Phase.waiting i s at r over = turn-Settled max i s.pool (r over)
  worker_step-AtRest (Phase.catching t e) i s at r over = turn-Settled max i s.pool (r over)
  worker_step-AtRest (Phase.finishing t) i s at r over = turn-Settled max i s.pool (r over)
  worker_step-AtRest Phase.gone i s at r over = turn-Settled max i s.pool (r over)

  closing-AtRest :
      (q : WaitResult E) (s : Program E)
      → s.harness.phase ≡ waiting
      → (wait s.pool).1 ≡ q
      → Kept max s.harness.tasks s.pool
      → AtRest (closing s (wait s.pool).0 q)
  unfolding closing AtRest
  closing-AtRest blocked s at h v over = cc (at, over)
  closing-AtRest returned s at h v over =
      wait-Settled max s.pool v.same_max v.fits v.pool_kept (λ b. cc (h, b))
  closing-AtRest (rethrown e) s at h v over =
      wait-Settled max s.pool v.same_max v.fits v.pool_kept (λ b. cc (h, b))

  submitted-AtRest :
      (h : Harness) (o : Option (ThreadPool ℕ E)) (t : Program E)
      → submitted h o ≡ some t
      → h.phase ≢ closed
      → AtRest t
  unfolding AtRest
  submitted-AtRest h none t e still_on over = cc
  submitted-AtRest h (some p) t e still_on over =
      absurd (still_on (ap (λ u. u.harness.phase) (some_inj.0 e) ∙ over))

  opened : (t : Program E) → t.harness.phase ≢ closed → AtRest t
  unfolding AtRest
  opened t still_on over = absurd (still_on over)

  kept_phase :
      (s t : Program E) → t.harness.phase ≡ s.harness.phase → t.pool ≡ s.pool → AtRest s → AtRest t
  unfolding AtRest
  kept_phase s t same pool r over = subst (Settled max) (sym pool) (r (sym same ∙ over))

  main_step-AtRest :
      (ph : Schedule.Phase) (s t : Program E)
      → s.harness.phase ≡ ph
      → main_step seconds ph s ≡ some t
      → Kept max s.harness.tasks s.pool
      → AtRest s
      → AtRest t
  unfolding main_step main_turn
  main_step-AtRest (submitting n) s t at e v r =
      submitted-AtRest (main_turn seconds (submitting n) s.harness) _ t e (λ c. cc)
  main_step-AtRest waiting s t at e v r =
      subst AtRest (some_inj.0 e) (closing-AtRest (wait s.pool).1 s at refl v)
  main_step-AtRest (counting zero) s t at e v r = subst AtRest (some_inj.0 e) (opened _ (λ c. cc))
  main_step-AtRest (counting (suc n)) s t at e v r =
      subst AtRest (some_inj.0 e) (opened _ (λ c. cc))
  main_step-AtRest looping s t at e v r =
      subst AtRest (some_inj.0 e) (opened _ (beat-open s.harness at))
  main_step-AtRest stopping s t at e v r = subst AtRest (some_inj.0 e) (opened _ (λ c. cc))
  main_step-AtRest closed s t at e v r = subst AtRest (some_inj.0 e) r

  step-AtRest :
      (s t : Program E) (e : Event)
      → step until_stop seconds s e ≡ some t
      → Kept max s.harness.tasks s.pool
      → AtRest s
      → AtRest t
  unfolding step Schedule.step
  step-AtRest s t main_turns h v r = main_step-AtRest s.harness.phase s t refl h v r
  step-AtRest s t (worker_turns i) h v r =
      subst AtRest (some_inj.0 h) (worker_step-AtRest (phase_at i s.pool.worker_threads) i s refl r)
  step-AtRest s t (passes n) h v r = subst AtRest (some_inj.0 h) (kept_phase s _ refl refl r)

  pub run-Settled :
      (es : List Event) (s t : Program E)
      → run until_stop seconds s es ≡ some t
      → Kept max s.harness.tasks s.pool
      → (s.harness.phase ≡ closed → Settled max s.pool)
      → t.harness.phase ≡ closed
      → Settled max t.pool
  unfolding run AtRest
  run-Settled [] s t h v r = subst AtRest (some_inj.0 h) r
  run-Settled (e ∷ es) s t h v r =
      let (u, stepped, rest) =
        then_run-eq-some (λ r. run until_stop seconds r es) (step until_stop seconds s e) h in
      run-Settled es u t rest (step-Steps until_stop max seconds s u e stepped v).kept
        (step-AtRest s u e stepped v r)

  -- The destructor of the pool comes to its joins, and these come to their end.
  abbrev pub IsDestroyed : ThreadPool ℕ E → Type κ
  IsDestroyed p = ((destroy p).1 ≡ joins_workers) × Leaves silent (destroy p).0

  pub pool-IsDestroyed :
      (n : ℕ) (es : List Event) (s : Program E)
      → max ≢ some 0
      → run until_stop seconds (begin n max) es ≡ some s
      → s.harness.phase ≡ closed
      → IsDestroyed s.pool
  pool-IsDestroyed n es s allowed h over =
      let fresh = begin-Kept E max allowed in
      destroy-Settled max s.pool
        (run-Steps until_stop max seconds es (begin n max) s h fresh).kept.same_max
        (run-Settled es (begin n max) s h fresh (λ c. cc c) over)
