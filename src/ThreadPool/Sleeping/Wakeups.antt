-- ===== src/ThreadPool/Sleeping/Wakeups.antt =====
-- No notification is lost: whoever sleeps has nothing to wake for, in every state that a run reaches.
use mathlib.Core.Option.{some_inj}
use spdlog_stress_test.Prelude.{
  ℕ, zero, suc, ◌+◌, ◌≡◌, refl, ap, sym, subst, ◌∙◌, true, false, not, ◌&&◌, ◌||◌, List, [], ◌∷◌,
  Option, none, some, arith, is_empty, length, Bool-cases, inl, inr, ltb, ◌==◌,
}
use spdlog_stress_test.ThreadPool.{is_done}
use spdlog_stress_test.ThreadPool.Sleeping.{
  System, launch, turn, Event, submits, notifies_one, turns, waits, stops, notifies_all, wakes,
  caller_wakes, step, then_run, run,
}
use spdlog_stress_test.ThreadPool.Sleeping.Turns.{count_awake, count_asleep, all_staff}
use spdlog_stress_test.ThreadPool.Sleeping.Watching.{
  Watched, one-Watched, all-Watched, at-Watched, stop-Watched, caller-Watched, wait-Watched,
  submit-Watched,
}
use spdlog_stress_test.ThreadPool.Sleeping.Staff.{turn_at-Keeps}

launch-staff {ℓ κ} :
    (F : Type ℓ) (E : Type κ) (n : ℕ)
    → let s : System F E = launch n in (all_staff s.threads ≡ true) × (length s.threads ≡ n)
launch-staff F E zero = (refl, refl)
launch-staff F E (suc n) = let r = launch-staff F E n in (r.0, ap suc r.1)

module _ {ℓ κ} {F : Type ℓ} {E : Type κ} where
  pub then_run-eq-some :
      {t : System F E} (k : System F E → Option (System F E)) (o : Option (System F E))
      → then_run k o ≡ some t
      → (u : System F E) × (o ≡ some u) × (k u ≡ some t)
  then_run-eq-some k none h = cc
  then_run-eq-some k (some u) h = (u, refl, h)

  pub launch-Watched : (n : ℕ) → Watched {F = F} {E = E} (launch (suc n))
  launch-Watched n = record {
    staff = λ on. (launch-staff F E n).0;
    manned = omega (arith, (launch-staff F E n).1);
    alert = λ on h. cc h;
    undone = λ h. cc h;
    leaving = λ h due. cc h;
  }

  module _ (outcome : F → Option E) where
    turn-Watched : (i : ℕ) (s : System F E) → Watched s → Watched (turn outcome i s)
    unfolding turn
    turn-Watched i s v =
        let k = turn_at-Keeps outcome i s.threads s.pool in
        record {
          staff = λ on. k.staff (sym k.stopping ∙ on) (v.staff (sym k.stopping ∙ on));
          manned = omega (arith, k.same_length, v.manned);
          alert = λ on h.
              let kept = k.alert (sym k.stopping ∙ on) h in
              omega (
                arith,
                kept.1 (v.staff (sym k.stopping ∙ on)),
                v.alert (sym k.stopping ∙ on) kept.0,
              );
          undone = λ h. ground (arith, h, v.undone, k.undone);
          leaving = λ down due.
              omega
                (arith, k.leaving (sym k.stopping ∙ down), v.leaving (sym k.stopping ∙ down) due);
        }

    step-Watched :
        (s t : System F E) (e : Event F) → step outcome s e ≡ some t → Watched s → Watched t
    unfolding step
    step-Watched s t (submits f) = λ h v. submit-Watched f s t v h
    step-Watched s t (notifies_one k) = elim (Bool-cases (ltb 0 s.notifies)) [
      | inl due ↦ simp due (λ h v. subst Watched (some_inj.0 h) (one-Watched k s v))
      | inr none_due ↦ simp none_due (λ h v. subst Watched (some_inj.0 h) v)
    ]
    step-Watched s t (turns i) = λ h v. subst Watched (some_inj.0 h) (turn-Watched i s v)
    step-Watched s t waits = λ h v. subst Watched (some_inj.0 h) (wait-Watched s v)
    step-Watched s t stops = λ h v. subst Watched (some_inj.0 h) (stop-Watched s v)
    step-Watched s t notifies_all = elim (Bool-cases s.notify_all_due) [
      | inl due ↦ simp due (λ h v. subst Watched (some_inj.0 h) (all-Watched s v))
      | inr none_due ↦ simp none_due (λ h v. subst Watched (some_inj.0 h) v)
    ]
    step-Watched s t (wakes i) = λ h v. subst Watched (some_inj.0 h) (at-Watched i s v)
    step-Watched s t caller_wakes = λ h v. subst Watched (some_inj.0 h) (caller-Watched s v)

    pub run-Watched :
        (es : List (Event F)) (s t : System F E) → run outcome s es ≡ some t → Watched s → Watched t
    unfolding run
    run-Watched [] s t h v = subst Watched (some_inj.0 h) v
    run-Watched (e ∷ es) s t h v =
        let (u, stepped, rest) = then_run-eq-some (λ r. run outcome r es) (step outcome s e) h in
        run-Watched es u t rest (step-Watched s u e stepped v)

    -- From a pool with a worker or more, in every state that a run comes to: with a queued task, before
    -- the pool stops, a worker is awake or a `notify_one` is still to come; the caller of `wait` does
    -- not sleep once all is done; and after the stop no worker sleeps that the `notify_all` has not
    -- still to wake.
    pub no_lost_wakeups :
        (n : ℕ) (es : List (Event F)) (s : System F E)
        → run outcome (launch (suc n)) es ≡ some s
        → ((s.pool.shared.stopping
              || is_empty s.pool.shared.queued_tasks
              || ltb 0 (count_awake s.threads + s.notifies))
            ≡ true)
          × ((s.caller_asleep && is_done s.pool.shared) ≡ false)
          × ((not s.pool.shared.stopping || s.notify_all_due || count_asleep s.threads == 0) ≡ true)
    no_lost_wakeups n es s h =
        let v = run-Watched es (launch (suc n)) s h (launch-Watched n) in
        (ground (arith, v.alert), ground (arith, v.undone), ground (arith, v.leaving))
