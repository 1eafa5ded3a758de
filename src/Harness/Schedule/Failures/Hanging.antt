-- ===== src/Harness/Schedule/Failures/Hanging.antt =====
-- A submission that throws while a test waits for `stop`.
use spdlog_stress_test.Prelude.{
  ℕ, zero, suc, ◌≡◌, refl, ap, sym, subst, ◌∙◌, Bool, true, false, not, ◌&&◌, List, [], ◌∷◌, arith,
  ◌==◌, Bool-cases, inl, inr,
}
use spdlog_stress_test.Harness.Schedule as Schedule
use spdlog_stress_test.Harness.Schedule.{
  Task, queued, running, leaving, ended, Phase, Harness, all_ended, task_turn,
}
use spdlog_stress_test.Harness.Schedule.Failures.{
  Stage, unwinding, Program, begin, Event, happens, throws, program_turn, thrown_stage,
  is_running_at, test_turn, step, run,
}
use spdlog_stress_test.Harness.Schedule.Failures.Exits.{Fits, run-begin-Sound}

running-all_ended : (i : ℕ) (ts : List Task) → is_running_at i ts ≡ true → all_ended ts ≡ false
running-all_ended i [] h = cc
running-all_ended zero (running ∷ ts) h = refl
running-all_ended zero (queued ∷ ts) h = cc
running-all_ended zero (leaving ∷ ts) h = cc
running-all_ended zero (ended ∷ ts) h = cc
running-all_ended (suc i) (ended ∷ ts) h = running-all_ended i ts h
running-all_ended (suc i) (t ∷ ts) h = refl

-- A turn of another task.
task_turn-running_at :
    (j i m : ℕ) (ts : List Task)
    → (j == i) ≡ false
    → is_running_at i ts ≡ true
    → is_running_at i (task_turn j m ts).1 ≡ true
unfolding task_turn
task_turn-running_at j i m [] e h = h
task_turn-running_at zero zero m (t ∷ ts) e h = ground (arith, e)
task_turn-running_at zero (suc i) m (t ∷ ts) e h = h
task_turn-running_at (suc j) zero m (running ∷ ts) e h = refl
task_turn-running_at (suc j) zero m (t ∷ ts) e h = cc h
task_turn-running_at (suc j) (suc i) m (t ∷ ts) e h =
    task_turn-running_at j i m ts (ground (arith, e)) h

other-task :
    (until_stop : ℕ → Bool) (i j : ℕ) (h : Harness)
    → until_stop i ≡ true
    → h.stop ≡ false
    → is_running_at i h.tasks ≡ true
    → (until_stop j && is_running_at j h.tasks && not h.stop) ≡ false
    → (j == i) ≡ false
other-task until_stop i j h u unset busy free = elim (Bool-cases (j == i)) [
  | inl same ↦
      let e : j ≡ i = ground (arith, same) in
      let held_up =
        ap (λ k. until_stop k && is_running_at k h.tasks && not h.stop) (sym e) ∙ free in
      absurd (ground (arith, held_up, u, unset, busy))
  | inr other ↦ other
]

record Hung (i : ℕ) (s : Program) : Type 0 where
  stuck : s.stage ≡ unwinding
  unset : s.harness.stop ≡ false
  busy : is_running_at i s.harness.tasks ≡ true

thrown_stage-unwinding : (p : Phase) → thrown_stage unwinding p ≡ unwinding
unfolding thrown_stage
thrown_stage-unwinding p = refl

module _ (until_stop : ℕ → Bool) (seconds : ℕ) where
  test_turn-Hung :
      (i j : ℕ) (g : Stage) (h : Harness)
      → until_stop i ≡ true
      → Hung i (record { stage = g; harness = h })
      → Hung i (record { stage = g; harness = test_turn until_stop seconds j h })
  unfolding test_turn Schedule.step
  test_turn-Hung i j g h u v =
      elim (Bool-cases (until_stop j && is_running_at j h.tasks && not h.stop)) [
        | inl held_up ↦ simp held_up v
        | inr free ↦ simp free (record {
          stuck = v.stuck;
          unset = v.unset;
          busy =
              task_turn-running_at j i h.active_tests_count h.tasks
                (other-task until_stop i j h u v.unset v.busy free) v.busy;
        })
      ]

  program_turn-Hung :
      (i : ℕ) (g : Stage) (h : Harness)
      → g ≡ unwinding
      → h.stop ≡ false
      → is_running_at i h.tasks ≡ true
      → Hung i (program_turn seconds g h)
  unfolding program_turn
  program_turn-Hung i unwinding h at unset busy =
      simp (running-all_ended i h.tasks busy) (record { stuck = refl; unset = unset; busy = busy })
  program_turn-Hung i g h at unset busy = cc at

  step-Hung :
      (i : ℕ) (s : Program) (e : Event)
      → until_stop i ≡ true
      → Hung i s
      → Hung i (step until_stop seconds s e)
  unfolding step Schedule.step
  step-Hung i s (happens Schedule.main_turns) u v =
      program_turn-Hung i s.stage s.harness v.stuck v.unset v.busy
  step-Hung i s (happens (Schedule.task_turns j)) u v = test_turn-Hung i j s.stage s.harness u v
  step-Hung i s (happens (Schedule.passes t)) u v = record {
    stuck = v.stuck;
    unset = v.unset;
    busy = v.busy;
  }
  step-Hung i s throws u v = record {
    stuck =
        ap (λ g. thrown_stage g s.harness.phase) v.stuck ∙ thrown_stage-unwinding s.harness.phase;
    unset = v.unset;
    busy = v.busy;
  }

  run-Hung :
      (i : ℕ) (es : List Event) (s : Program)
      → until_stop i ≡ true
      → Hung i s
      → Hung i (run until_stop seconds s es)
  unfolding run
  run-Hung i [] s u v = v
  run-Hung i (e ∷ es) s u v = run-Hung i es (step until_stop seconds s e) u (step-Hung i s e u v)

  -- Where a submission has thrown while a test runs that leaves its `start` only once `stop` is set,
  -- main never ends, whatever happens from then on: it waits, in the destructor of the pool, for that
  -- test, and `stop` is never set.
  pub submission-hangs :
      (n i : ℕ) (es fs : List Event)
      → (run until_stop seconds (begin n) es).stage ≡ unwinding
      → is_running_at i (run until_stop seconds (begin n) es).harness.tasks ≡ true
      → until_stop i ≡ true
      → let s = run until_stop seconds (run until_stop seconds (begin n) es) fs in
        (s.stage ≡ unwinding) × (s.harness.stop ≡ false)
  submission-hangs n i es fs at busy u =
      let s = run until_stop seconds (begin n) es in
      let f : Fits unwinding s.harness =
        subst (λ g. Fits g s.harness) at (run-begin-Sound until_stop seconds n es).fits in
      let v = run-Hung i fs s u (record { stuck = at; unset = f.0; busy = busy }) in
      (v.stuck, v.unset)
