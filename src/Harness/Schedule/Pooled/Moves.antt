-- ===== src/Harness/Schedule/Pooled/Moves.antt =====
-- What main does with the pool, it does with the tests in some order.
use mathlib.Core.Option.{some_inj}
use spdlog_stress_test.Prelude.{
  ℕ, zero, suc, ◌≡◌, ◌≢◌, refl, ap, sym, subst, ◌∙◌, true, false, List, [], ◌∷◌, ◌++◌, Option, none,
  some, arith, length, ◌==◌, Bool-cases, inl, inr,
}
use spdlog_stress_test.ThreadPool.{
  ThreadPool, submit, WaitResult, blocked, returned, rethrown, wait,
}
use spdlog_stress_test.ThreadPool.Counting.{occurs}
use spdlog_stress_test.Harness.Schedule as Schedule
use spdlog_stress_test.Harness.Schedule.{
  Task, queued, submitting, waiting, closed, Harness, launch, is_ended, all_ended, main_turn,
  task_turn, counting, looping, stopping, beat, run as plain_run,
}
use spdlog_stress_test.Harness.Schedule.Ending.{run-append}
use spdlog_stress_test.Harness.Schedule.Pooled.Kept.{Kept, submitted-Kept, waited-over, waited-Kept}
use spdlog_stress_test.Harness.Schedule.Pooled.{Program, is_over_at, closing, submitted, main_step}

-- That some events of main and the tests lead from one state to the other.
abbrev pub Leads : ℕ → Harness → Harness → Type 0
Leads seconds h k = (fs : List Schedule.Event) × (Schedule.run seconds h fs ≡ k)

pub Leads-trans :
    (seconds : ℕ) (h k l : Harness) → Leads seconds h k → Leads seconds k l → Leads seconds h l
Leads-trans seconds h k l (fs, e) (gs, d) =
    (fs ++ gs, run-append seconds h fs gs ∙ ap (λ r. Schedule.run seconds r gs) e ∙ d)

pub Leads-same : (seconds : ℕ) (h : Harness) → Leads seconds h h
unfolding Schedule.run
Leads-same seconds h = ([], refl)

pub Leads-one :
    (seconds : ℕ) (e : Schedule.Event) (h : Harness) → Leads seconds h (Schedule.step seconds h e)
unfolding Schedule.run
Leads-one seconds e h = (e ∷ [], refl)

pub clear_of :
    (f g : ℕ) (tasks : List Task)
    → is_over_at f tasks ≡ true
    → is_over_at g tasks ≡ false
    → occurs g (f ∷ []) ≡ 0
clear_of f g tasks over left = elim (Bool-cases (f == g)) [
  | inl same ↦
      let e : f ≡ g = ground (arith, same) in cc (sym (ap (λ k. is_over_at k tasks) e) ∙ over, left)
  | inr other ↦ ground (arith, other)
]

main-Leads :
    (seconds : ℕ) (ph : Schedule.Phase) (h : Harness)
    → h.phase ≡ ph
    → Leads seconds h (main_turn seconds ph h)
unfolding Schedule.step
main-Leads seconds ph h at =
    subst (λ q. Leads seconds h (main_turn seconds q h)) at
      (Leads-one seconds Schedule.main_turns h)

pub beat-tasks : (h : Harness) → (beat h).tasks ≡ h.tasks
unfolding beat
beat-tasks h = ground arith

module _ {κ} {E : Type κ} (max : Option ℕ) (seconds : ℕ) where
  -- What a step keeps, and what it does to main and the tests.
  pub record Steps (s t : Program E) : Type κ where
    pub kept : Kept max t.harness.tasks t.pool
    pub leads : Leads seconds s.harness t.harness

  pub quiet-Steps :
      (s t : Program E) (k : Harness)
      → some (record s { harness = k }) ≡ some t
      → k.tasks ≡ s.harness.tasks
      → Leads seconds s.harness k
      → Kept max s.harness.tasks s.pool
      → Steps s t
  quiet-Steps s t k h same l v =
      subst (Steps s) (some_inj.0 h)
        (record { kept = subst (λ ts. Kept max ts s.pool) (sym same) v; leads = l })

  submitted-Steps :
      (n : ℕ) (s t : Program E) (o : Option (ThreadPool ℕ E))
      → s.harness.phase ≡ submitting n
      → submit (length s.harness.tasks) s.pool ≡ o
      → submitted (main_turn seconds (submitting n) s.harness) o ≡ some t
      → Kept max s.harness.tasks s.pool
      → Steps s t
  unfolding main_turn
  submitted-Steps n s t none at e h v = cc h
  submitted-Steps n s t (some q) at e h v = subst (Steps s) (some_inj.0 h) (record {
    kept = submitted-Kept max s.harness.tasks s.pool q e v;
    leads = main-Leads seconds (submitting n) s.harness at;
  })

  over-Steps :
      (s : Program E)
      → s.harness.phase ≡ waiting
      → (wait s.pool).1 ≢ blocked
      → Kept max s.harness.tasks s.pool
      → Steps s (record { harness = record s.harness { phase = closed }; pool = (wait s.pool).0 })
  unfolding main_turn
  over-Steps s at open_now v = record {
    kept = waited-Kept max s.harness.tasks s.pool open_now v;
    leads =
        simp (waited-over max s.harness.tasks s.pool open_now v) at
          (main-Leads seconds waiting s.harness at);
  }

  closing-Steps :
      (s : Program E) (r : WaitResult E)
      → s.harness.phase ≡ waiting
      → (wait s.pool).1 ≡ r
      → Kept max s.harness.tasks s.pool
      → Steps s (closing s (wait s.pool).0 r)
  unfolding closing
  closing-Steps s blocked at e v = record { kept = v; leads = Leads-same seconds s.harness }
  closing-Steps s returned at e v = over-Steps s at (λ b. cc (e, b)) v
  closing-Steps s (rethrown x) at e v = over-Steps s at (λ b. cc (e, b)) v

  pub main_step-Steps :
      (ph : Schedule.Phase) (s t : Program E)
      → s.harness.phase ≡ ph
      → main_step seconds ph s ≡ some t
      → Kept max s.harness.tasks s.pool
      → Steps s t
  unfolding main_step main_turn
  main_step-Steps (counting zero) s t at h v =
      quiet-Steps s t _ h refl (main-Leads seconds (counting zero) s.harness at) v
  main_step-Steps (counting (suc n)) s t at h v =
      quiet-Steps s t _ h refl (main-Leads seconds (counting (suc n)) s.harness at) v
  main_step-Steps (submitting n) s t at h v =
      submitted-Steps n s t (submit (length s.harness.tasks) s.pool) at refl h v
  main_step-Steps looping s t at h v =
      quiet-Steps s t _ h (beat-tasks s.harness) (main-Leads seconds looping s.harness at) v
  main_step-Steps stopping s t at h v =
      quiet-Steps s t _ h refl (main-Leads seconds stopping s.harness at) v
  main_step-Steps waiting s t at h v =
      subst (Steps s) (some_inj.0 h) (closing-Steps s (wait s.pool).1 at refl v)
  main_step-Steps closed s t at h v =
      quiet-Steps s t _ h refl (main-Leads seconds closed s.harness at) v
