-- ===== src/ThreadPool/Sleeping/Refining.antt =====
-- Every run of the pool with sleeping threads is, with the sleep forgotten, a run of the plain pool.
use mathlib.Core.Option.{some_inj}
use spdlog_stress_test.Prelude.{
  ℕ, zero, suc, ◌≡◌, refl, ap, sym, ◌∙◌, List, [], ◌∷◌, ◌++◌, Option, some, ltb, Bool-cases, inl,
  inr,
}
use spdlog_stress_test.ThreadPool as Base
use spdlog_stress_test.ThreadPool.{ThreadPool, create}
use spdlog_stress_test.ThreadPool.Events as Plain
use spdlog_stress_test.ThreadPool.History.{run-max, then_run-eq-some}
use spdlog_stress_test.ThreadPool.Sleeping.{
  System, launch, awake_threads, turn, Event, submits, notifies_one, turns, waits, stops,
  notifies_all, wakes, caller_wakes, call_wait, step, run,
}
use spdlog_stress_test.ThreadPool.Sleeping.Wakeups as Wakeups
use spdlog_stress_test.ThreadPool.Sleeping.Forgetting.{
  forget, phases, phases-wake_one, phases-wake_all, phases-wake_at, turn-forget, submit-forget,
  call_wait-forget, with_threads,
}

module _ {ℓ κ} {F : Type ℓ} {E : Type κ} (outcome : F → Option E) where
  -- That some events of the plain pool lead from one pool to the other.
  pub Leads : ThreadPool F E → ThreadPool F E → Type (ℓ ⊔ κ)
  Leads p q = (ds : List (Plain.Event F)) × (Plain.run outcome p ds ≡ some q)

  append-run :
      (ds : List (Plain.Event F)) (es : List (Plain.Event F)) (p q : ThreadPool F E)
      → Plain.run outcome p ds ≡ some q
      → Plain.run outcome p (ds ++ es) ≡ Plain.run outcome q es
  unfolding Plain.run
  append-run [] es p q h = ap (λ r. Plain.run outcome r es) (some_inj.0 h)
  append-run (d ∷ ds) es p q h =
      let (p', stepped, rest) =
        then_run-eq-some (λ r. Plain.run outcome r ds) (Plain.step outcome p d) h in
      ap (Plain.then_run (λ r. Plain.run outcome r (ds ++ es))) stepped ∙ append-run ds es p' q rest

  Leads-trans : (p q r : ThreadPool F E) → Leads p q → Leads q r → Leads p r
  unfolding Leads
  Leads-trans p q r (ds, h) (es, k) = (ds ++ es, append-run ds es p q h ∙ k)

  Leads-same : (p q : ThreadPool F E) → q ≡ p → Leads p q
  unfolding Leads Plain.run
  Leads-same p q e = ([], ap some (sym e))

  Leads-one :
      (d : Plain.Event F) (p q : ThreadPool F E) → Plain.step outcome p d ≡ some q → Leads p q
  unfolding Leads Plain.run
  Leads-one d p q h = (d ∷ [], simp h)

  same-Leads :
      (s u t : System F E) → forget u ≡ forget s → some u ≡ some t → Leads (forget s) (forget t)
  same-Leads s u t same h = Leads-same (forget s) (forget t) (ap forget (sym (some_inj.0 h)) ∙ same)

  step-Leads :
      (n : ℕ) (s t : System F E) (e : Event F)
      → s.pool.max_threads ≡ some n
      → step outcome s e ≡ some t
      → Leads (forget s) (forget t)
  unfolding step Plain.step
  step-Leads n s t (submits f) m =
      λ h. Leads-one (Plain.submits f) (forget s) (forget t) (submit-forget n f s t m h)
  step-Leads n s t (notifies_one k) m = elim (Bool-cases (ltb 0 s.notifies)) [
    | inl due ↦
        simp due (λ h. same-Leads s _ t (ap (with_threads s.pool) (phases-wake_one k s.threads)) h)
    | inr none_due ↦ simp none_due (λ h. same-Leads s s t refl h)
  ]
  step-Leads n s t (turns i) m = λ h. elim (turn-forget outcome i s) [
    | inl same ↦ same-Leads s (turn outcome i s) t same h
    | inr e ↦
        Leads-one (Plain.turns i) (forget s) (forget t) (ap some (e ∙ ap forget (some_inj.0 h)))
  ]
  step-Leads n s t waits m = λ h. elim (call_wait-forget n s m) [
    | inl same ↦ same-Leads s (call_wait s) t same h
    | inr e ↦ Leads-one Plain.waits (forget s) (forget t) (ap some (e ∙ ap forget (some_inj.0 h)))
  ]
  step-Leads n s t stops m =
      λ h. Leads-one Plain.stops (forget s) (forget t) (ap (λ u. some (forget u)) (some_inj.0 h))
  step-Leads n s t notifies_all m = elim (Bool-cases s.notify_all_due) [
    | inl due ↦
        simp due (λ h. same-Leads s _ t (ap (with_threads s.pool) (phases-wake_all s.threads)) h)
    | inr none_due ↦ simp none_due (λ h. same-Leads s s t refl h)
  ]
  step-Leads n s t (wakes i) m =
      λ h. same-Leads s _ t (ap (with_threads s.pool) (phases-wake_at i s.threads)) h
  step-Leads n s t caller_wakes m = λ h. same-Leads s _ t refl h

  run-Leads :
      (n : ℕ) (es : List (Event F)) (s t : System F E)
      → s.pool.max_threads ≡ some n
      → run outcome s es ≡ some t
      → Leads (forget s) (forget t)
  unfolding run Leads
  run-Leads n [] s t m h = Leads-same (forget s) (forget t) (ap forget (sym (some_inj.0 h)))
  run-Leads n (e ∷ es) s t m h =
      let (u, stepped, rest) =
        Wakeups.then_run-eq-some (λ r. run outcome r es) (step outcome s e) h in
      let first = step-Leads n s u e m stepped in
      Leads-trans (forget s) (forget u) (forget t) first
        (run-Leads n es u t (run-max outcome (forget s) (forget u) first.0 first.1 ∙ m) rest)

  launch-forget : (n : ℕ) → phases {F = F} {E = E} (awake_threads n) ≡ Base.workers n
  launch-forget zero = refl
  launch-forget (suc n) = ap (◌∷◌ Base.waiting) (launch-forget n)

  -- A pool with sleeping threads implements the plain pool: to every run that comes to a state there
  -- is a run of the plain pool that comes to the same state, less who sleeps and what is to be
  -- notified.
  pub run-refines :
      (n : ℕ) (es : List (Event F)) (s : System F E)
      → run outcome (launch n) es ≡ some s
      → (ds : List (Plain.Event F)) × (Plain.run outcome (create (some n)) ds ≡ some (forget s))
  unfolding Leads
  run-refines n es s h =
      let (ds, led) = run-Leads n es (launch n) s refl h in
      (
        ds,
        ap (λ p. Plain.run outcome p ds)
              (ap (with_threads (create (some n))) (sym (launch-forget n)))
            ∙ led,
      )
