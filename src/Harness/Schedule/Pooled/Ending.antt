-- ===== src/Harness/Schedule/Pooled/Ending.antt =====
-- main comes to its end with a pool of any size.
use mathlib.Core.Option.{some_inj}
use spdlog_stress_test.Prelude.{
  ℕ, zero, suc, ◌+◌, ◌≤◌, ◌<◌, ◌≡◌, ◌≢◌, refl, ap, subst, ◌∙◌, Bool, false, List, [], ◌∷◌, ◌++◌,
  Option, some, arith, length, ltb, dec_lt,
}
use spdlog_stress_test.ThreadPool.{wait, int_max}
use spdlog_stress_test.ThreadPool.Blocked.{submit-left}
use spdlog_stress_test.Harness.Schedule as Schedule
use spdlog_stress_test.Harness.Schedule.{
  Task, queued, counting, submitting, looping, stopping, waiting, closed, Harness, launch, is_ended,
  main_turn, task_turn, beat,
}
use spdlog_stress_test.Harness.Schedule.Invariant.{Inv, run-Inv, launch-Inv, remaining, has_stopped}
use spdlog_stress_test.Harness.Schedule.Ending.{all_turns_left-append}
use spdlog_stress_test.Harness.Schedule.Pooled.{
  Program, Event, main_turns, passes, begin, submitted, main_step, step, then_run, run,
}
use spdlog_stress_test.Harness.Schedule.Pooled.Kept.{Kept, begin-Kept}
use spdlog_stress_test.Harness.Schedule.Pooled.Progress.{
  phase_left, left, Advances, main_event, advance_waiting,
}
use spdlog_stress_test.Harness.Schedule.Pooled.Numbering.{Numbered, run-Numbered}
use spdlog_stress_test.Harness.Schedule.Pooled.Refining.{run-Steps, then_run-eq-some}

closed_of : (p : Schedule.Phase) → phase_left p ≡ 0 → p ≡ closed
closed_of closed h = refl
closed_of (counting n) h = absurd (omega arith)
closed_of (submitting n) h = absurd (omega arith)
closed_of looping h = absurd (omega arith)
closed_of stopping h = absurd (omega arith)
closed_of waiting h = absurd (omega arith)

module _ {κ} {E : Type κ} (until_stop : ℕ → Bool) (max : Option ℕ) (seconds : ℕ) where
  -- What holds in every state of a run.
  record Good (n : ℕ) (s : Program E) : Type κ where
    kept : Kept max s.harness.tasks s.pool
    plain : Inv n s.harness
    numbered : Numbered s

  advance_submitting :
      (n k : ℕ) (s : Program E)
      → s.harness.phase ≡ submitting k
      → n ≤ int_max
      → Good n s
      → Advances until_stop max seconds s
  unfolding main_step main_turn
  advance_submitting n k s at fits v =
      let room : s.pool.shared.next_task_id < int_max =
        omega (arith, v.numbered, v.plain.total, ap remaining at) in
      let (q, taken, less) = submit-left max (length s.harness.tasks) s.pool v.kept.same_max room in
      main_event until_stop max seconds s
        (record { harness = main_turn seconds (submitting k) s.harness; pool = q }) (submitting k)
        at (ap (submitted (main_turn seconds (submitting k) s.harness)) taken)
        (omega (arith, less, ap phase_left at, all_turns_left-append s.harness.tasks))

  advance_looping : (s : Program E) → s.harness.phase ≡ looping → Advances until_stop max seconds s
  unfolding run step main_step main_turn beat Schedule.step
  advance_looping s at =
      let late : ltb (s.harness.now + s.harness.end_time) s.harness.end_time ≡ false =
        ground arith in
      (
        passes s.harness.end_time ∷ main_turns ∷ [],
        record s {
          harness = record s.harness { now = s.harness.now + s.harness.end_time; phase = stopping };
        },
        rw (at, late),
        omega (arith, ap phase_left at),
      )

  advance :
      (n : ℕ) (ph : Schedule.Phase) (s : Program E)
      → s.harness.phase ≡ ph
      → 0 < phase_left ph
      → n ≤ int_max
      → Good n s
      → Advances until_stop max seconds s
  unfolding main_step main_turn
  advance n (counting zero) s at more fits v =
      main_event until_stop max seconds s _ (counting zero) at refl
        (omega (arith, ap phase_left at))
  advance n (counting (suc k)) s at more fits v =
      main_event until_stop max seconds s _ (counting (suc k)) at refl
        (omega (arith, ap phase_left at))
  advance n (submitting k) s at more fits v = advance_submitting n k s at fits v
  advance n looping s at more fits v = advance_looping s at
  advance n stopping s at more fits v =
      main_event until_stop max seconds s _ stopping at refl (omega (arith, ap phase_left at))
  advance n waiting s at more fits v =
      advance_waiting until_stop max seconds s (wait s.pool).1 at
        (v.plain.stopped (ap has_stopped at)) v.kept refl
  advance n closed s at more fits v = absurd (omega arith)

  run-Good :
      (n : ℕ) (es : List Event) (s t : Program E)
      → run until_stop seconds s es ≡ some t
      → Good n s
      → Good n t
  run-Good n es s t h v =
      let steps = run-Steps until_stop max seconds es s t h v.kept in
      let (fs, led) = steps.leads in
      record {
        kept = steps.kept;
        plain = subst (Inv n) led (run-Inv n seconds s.harness fs v.plain);
        numbered = run-Numbered until_stop seconds es s t h v.numbered;
      }

  pub run-append :
      (es fs : List Event) (s t : Program E)
      → run until_stop seconds s es ≡ some t
      → run until_stop seconds s (es ++ fs) ≡ run until_stop seconds t fs
  unfolding run
  run-append [] fs s t h = ap (λ r. run until_stop seconds r fs) (some_inj.0 h)
  run-append (e ∷ es) fs s t h =
      let (u, stepped, rest) =
        then_run-eq-some (λ r. run until_stop seconds r es) (step until_stop seconds s e) h in
      ap (then_run (λ r. run until_stop seconds r (es ++ fs))) stepped ∙ run-append es fs u t rest

  -- Some events bring main behind the pool's `wait`.
  abbrev pub CanClose : Program E → Type κ
  CanClose s =
      (es : List Event) × (t : Program E) × (run until_stop seconds s es ≡ some t)
      × (t.harness.phase ≡ closed)

  end_within : (k n : ℕ) (s : Program E) → left max s < k → n ≤ int_max → Good n s → CanClose s
  unfolding run
  end_within zero n s h fits v = absurd (omega arith)
  end_within (suc k) n s h fits v = elim (dec_lt 0 (phase_left s.harness.phase)) [
    | yes more ↦
        let (es, t, ran, less) = advance n s.harness.phase s refl more fits v in
        let (fs, u, ran_on, over) =
          end_within k n t (omega (arith, less)) fits (run-Good n es s t ran v) in
        (es ++ fs, u, run-append es fs s t ran ∙ ran_on, over)
    | no over ↦ ([], s, refl, closed_of s.harness.phase (omega (arith, over)))
  ]

  -- No deadlock, however few threads the pool has: with any maximum but 0, in every state that main and
  -- the pool come to with at most `int_max` tests, some events bring main behind the pool's `wait`,
  -- also where tests leave their `start` only once `stop` is set.
  pub pooled_main_ends :
      (n : ℕ) (es : List Event) (s : Program E)
      → max ≢ some 0
      → n ≤ int_max
      → run until_stop seconds (begin n max) es ≡ some s
      → CanClose s
  pooled_main_ends n es s allowed fits h = end_within (suc (left max s)) n s (omega arith) fits (
      run-Good n es (begin n max) s h
        (record { kept = begin-Kept E max allowed; plain = launch-Inv n; numbered = omega arith }))
