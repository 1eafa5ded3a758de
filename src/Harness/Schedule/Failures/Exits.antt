-- ===== src/Harness/Schedule/Failures/Exits.antt =====
-- How main ends: no test is left, and where a submission throws it may not end.
use spdlog_stress_test.Prelude.{
  ℕ, zero, suc, ◌+◌, ◌≤◌, ◌≡◌, refl, ap, sym, subst, ◌∙◌, Bool, true, false, not, ◌&&◌, ◌||◌, List,
  [], ◌∷◌, arith, if◌then◌else◌, length, ◌==◌, Bool-cases, inl, inr,
}
use spdlog_stress_test.Harness.Schedule as Schedule
use spdlog_stress_test.Harness.Schedule.{
  Task, queued, running, leaving, ended, Phase, counting, submitting, looping, stopping, waiting,
  closed, Harness, launch, all_ended, main_turn, beat, task_turn,
}
use spdlog_stress_test.Harness.Schedule.Invariant.{
  live, remaining, has_stopped, is_closed, Inv, step-Inv, launch-Inv, live-all_ended, task_turn_lem,
}
use spdlog_stress_test.Harness.Schedule.Failures.{
  Stage, preparing, working, unwinding, exited, Program, begin, Event, happens, throws,
  working_turn, program_turn, thrown_stage, is_running_at, test_turn, step, run,
}

-- What the stage says of the rest.
abbrev pub Fits : Stage → Harness → Type 0
Fits preparing h = (live h.tasks ≡ 0) × (h.stop ≡ false) × (has_stopped h.phase ≡ false)
Fits working h = h.stop ≡ has_stopped h.phase
Fits unwinding h = (h.stop ≡ false) × (is_closed h.phase ≡ false)
Fits (exited c) h =
    (live h.tasks ≡ 0) × (c ≡ (if h.stop then 0 else 1)) × (h.stop ≡ is_closed h.phase)

pub record Sound (n : ℕ) (s : Program) : Type 0 where
  pub harness_kept : Inv n s.harness
  pub fits : Fits s.stage s.harness

closed_behind : (p : Phase) → has_stopped p ≡ false → is_closed p ≡ false
closed_behind closed h = cc h
closed_behind p h = refl

beat-stop :
    (h : Harness) → h.phase ≡ looping → h.stop ≡ false → (beat h).stop ≡ has_stopped (beat h).phase
unfolding beat
beat-stop h at e = ground (arith, ap has_stopped at)

main_turn-stop :
    (seconds : ℕ) (p : Phase) (h : Harness)
    → h.phase ≡ p
    → h.stop ≡ has_stopped p
    → let r = main_turn seconds p h in r.stop ≡ has_stopped r.phase
unfolding main_turn
main_turn-stop seconds (counting zero) h at e = e
main_turn-stop seconds (counting (suc n)) h at e = e
main_turn-stop seconds (submitting n) h at e = e
main_turn-stop seconds looping h at e = beat-stop h at e
main_turn-stop seconds stopping h at e = refl
main_turn-stop seconds waiting h at e = ground (arith, ap has_stopped at)
main_turn-stop seconds closed h at e = e ∙ sym (ap has_stopped at)

working_turn-Sound :
    (n seconds : ℕ) (p : Phase) (h : Harness)
    → h.phase ≡ p
    → Inv n h
    → Inv n (main_turn seconds p h)
    → h.stop ≡ has_stopped p
    → Sound n (working_turn seconds p h)
unfolding working_turn main_turn
working_turn-Sound n seconds closed h at v w e = record {
  harness_kept = v;
  fits = (v.over (ap is_closed at), ground arith, e ∙ sym (ap is_closed at));
}
working_turn-Sound n seconds p h at v w e = record {
  harness_kept = w;
  fits = main_turn-stop seconds p h at e;
}

program_turn-Sound :
    (n seconds : ℕ) (g : Stage) (h : Harness)
    → Inv n h
    → Fits g h
    → Sound n (program_turn seconds g h)
unfolding program_turn Schedule.step
program_turn-Sound n seconds preparing h v f = record { harness_kept = v; fits = f.1 ∙ sym f.2 }
program_turn-Sound n seconds working h v f =
    working_turn-Sound n seconds h.phase h refl v (step-Inv n seconds h Schedule.main_turns v) f
program_turn-Sound n seconds unwinding h v f = elim (Bool-cases (all_ended h.tasks)) [
  | inl idle ↦ simp idle (record {
    harness_kept = v;
    fits = (live-all_ended h.tasks idle, ground (arith, f.0), f.0 ∙ sym f.1);
  })
  | inr busy ↦ simp busy (record { harness_kept = v; fits = f })
]
program_turn-Sound n seconds (exited c) h v f = record { harness_kept = v; fits = f }

-- A turn of a test leaves `stop` and main where they are, and no more tests are left than before.
record Apart (h k : Harness) : Type 0 where
  same_stop : k.stop ≡ h.stop
  same_phase : k.phase ≡ h.phase
  no_more : live k.tasks ≤ live h.tasks

Apart-Fits : (g : Stage) (h k : Harness) → Apart h k → Fits g h → Fits g k
Apart-Fits preparing h k a f =
    (omega (arith, a.no_more, f.0), a.same_stop ∙ f.1, ap has_stopped a.same_phase ∙ f.2)
Apart-Fits working h k a f = a.same_stop ∙ f ∙ sym (ap has_stopped a.same_phase)
Apart-Fits unwinding h k a f = (a.same_stop ∙ f.0, ap is_closed a.same_phase ∙ f.1)
Apart-Fits (exited c) h k a f = (
  omega (arith, a.no_more, f.0),
  f.1 ∙ ap (λ b. if b then 0 else 1) (sym a.same_stop),
  a.same_stop ∙ f.2 ∙ sym (ap is_closed a.same_phase),
)

thrown_stage-Fits :
    (n : ℕ) (g : Stage) (p : Phase) (h : Harness)
    → h.phase ≡ p
    → Fits g h
    → Fits (thrown_stage g p) h
unfolding thrown_stage
thrown_stage-Fits n preparing p h at f =
    (f.0, ground (arith, f.1), f.1 ∙ sym (closed_behind h.phase f.2))
thrown_stage-Fits n working (submitting k) h at f = (f ∙ ap has_stopped at, ap is_closed at)
thrown_stage-Fits n working p h at f = f
thrown_stage-Fits n unwinding p h at f = f
thrown_stage-Fits n (exited c) p h at f = f

module _ (until_stop : ℕ → Bool) (seconds : ℕ) where
  test_turn-Sound :
      (n i : ℕ) (g : Stage) (h : Harness)
      → Inv n h
      → Fits g h
      → Sound n (record { stage = g; harness = test_turn until_stop seconds i h })
  unfolding test_turn Schedule.step
  test_turn-Sound n i g h v f =
      elim (Bool-cases (until_stop i && is_running_at i h.tasks && not h.stop)) [
        | inl held_up ↦ simp held_up (record { harness_kept = v; fits = f })
        | inr free ↦ simp free (record {
          harness_kept = step-Inv n seconds h (Schedule.task_turns i) v;
          fits =
              Apart-Fits g h _
                (record {
                  same_stop = refl;
                  same_phase = refl;
                  no_more =
                      (task_turn_lem i h.active_tests_count h.tasks (omega (arith, v.counted))).1;
                })
                f;
        })
      ]

  step-Sound : (n : ℕ) (s : Program) (e : Event) → Sound n s → Sound n (step until_stop seconds s e)
  unfolding step Schedule.step
  step-Sound n s (happens Schedule.main_turns) v =
      program_turn-Sound n seconds s.stage s.harness v.harness_kept v.fits
  step-Sound n s (happens (Schedule.task_turns i)) v =
      test_turn-Sound n i s.stage s.harness v.harness_kept v.fits
  step-Sound n s (happens (Schedule.passes t)) v = record {
    harness_kept = step-Inv n seconds s.harness (Schedule.passes t) v.harness_kept;
    fits =
        Apart-Fits s.stage s.harness _
          (record { same_stop = refl; same_phase = refl; no_more = omega arith }) v.fits;
  }
  step-Sound n s throws v = record {
    harness_kept = v.harness_kept;
    fits = thrown_stage-Fits n s.stage s.harness.phase s.harness refl v.fits;
  }

  pub run-Sound :
      (n : ℕ) (es : List Event) (s : Program) → Sound n s → Sound n (run until_stop seconds s es)
  unfolding run
  run-Sound n [] s v = v
  run-Sound n (e ∷ es) s v = run-Sound n es (step until_stop seconds s e) (step-Sound n s e v)

begin-Sound : (n : ℕ) → Sound n (begin n)
begin-Sound n = record { harness_kept = launch-Inv n; fits = (refl, refl, refl) }

pub run-begin-Sound :
    (until_stop : ℕ → Bool) (seconds n : ℕ) (es : List Event)
    → Sound n (run until_stop seconds (begin n) es)
run-begin-Sound until_stop seconds n es =
    run-Sound until_stop seconds n es (begin n) (begin-Sound n)

submitted_all :
    (p : Phase) (m n : ℕ) (stop : Bool)
    → stop ≡ is_closed p
    → m + remaining p ≡ n
    → (not stop || m == n) ≡ true
submitted_all closed m n stop e t = ground (arith, e)
submitted_all p m n stop e t = ground (arith, e)

-- Under every schedule of main and the tests, with exceptions from the set-up and from submissions:
-- where main has ended with a code, no test that was submitted is left, the code is 0 where `stop` is
-- set and 1 where it is not, and where it is set each of the `n` tests was submitted.
pub exits_complete :
    (until_stop : ℕ → Bool) (seconds n : ℕ) (es : List Event) (c : ℕ)
    → (run until_stop seconds (begin n) es).stage ≡ exited c
    → let h = (run until_stop seconds (begin n) es).harness in
      (live h.tasks ≡ 0)
      × (c ≡ (if h.stop then 0 else 1))
      × ((not h.stop || length h.tasks == n) ≡ true)
exits_complete until_stop seconds n es c at =
    let s = run until_stop seconds (begin n) es in
    let v = run-begin-Sound until_stop seconds n es in
    let f : Fits (exited c) s.harness = subst (λ g. Fits g s.harness) at v.fits in
    (
      f.0,
      f.1,
      submitted_all s.harness.phase (length s.harness.tasks) n s.harness.stop f.2
          v.harness_kept.total,
    )
