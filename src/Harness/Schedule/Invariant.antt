-- ===== src/Harness/Schedule/Invariant.antt =====
-- What every turn of main and of the tests' tasks keeps: the count of the active tests, and what main
-- knows when it stops.
use spdlog_stress_test.Prelude.{
  ℕ, zero, suc, ◌+◌, ◌≤◌, ◌≡◌, refl, ap, sym, ◌∙◌, true, false, Bool, List, [], ◌∷◌, ◌++◌, arith,
  ltb, ◌==◌, length, length-append, Bool-cases, inl, inr, if◌then◌else◌,
}
use spdlog_stress_test.Harness.Schedule.{
  Task, queued, running, leaving, ended, Phase, counting, submitting, looping, stopping, waiting,
  closed, Said, heartbeat, all_finished_early, Harness, launch, is_ended, all_ended, beat,
  main_turn, task_turn, Event, main_turns, task_turns, passes, step, run,
}

-- The tasks that have not brought the count down.
abbrev pub live : List Task → ℕ
live [] = 0
live (t ∷ ts) = (if is_ended t then 0 else 1) + live ts

-- A test that is counted but not yet submitted.
abbrev pub counted_ahead : Phase → ℕ
counted_ahead (submitting n) = 1
counted_ahead _ = 0

-- The tests that main has still to submit.
abbrev pub remaining : Phase → ℕ
remaining (counting n) = n
remaining (submitting n) = n + 1
remaining _ = 0

abbrev pub said_early : List Said → Bool
said_early [] = false
said_early (heartbeat ∷ ls) = said_early ls
said_early (all_finished_early ∷ ls) = true

abbrev pub is_behind_loop : Phase → Bool
is_behind_loop stopping = true
is_behind_loop waiting = true
is_behind_loop closed = true
is_behind_loop _ = false

abbrev pub has_stopped : Phase → Bool
has_stopped waiting = true
has_stopped closed = true
has_stopped _ = false

abbrev pub is_closed : Phase → Bool
is_closed closed = true
is_closed _ = false

pub record Inv (n : ℕ) (s : Harness) : Type 0 where
  pub counted : s.active_tests_count ≡ live s.tasks + counted_ahead s.phase
  pub total : length s.tasks + remaining s.phase ≡ n
  pub early : said_early s.said ≡ true → (live s.tasks ≡ 0) × (is_behind_loop s.phase ≡ true)
  pub stopped : has_stopped s.phase ≡ true → s.stop ≡ true
  pub over : is_closed s.phase ≡ true → live s.tasks ≡ 0

live-append : (ts : List Task) → live (ts ++ queued ∷ []) ≡ live ts + 1
live-append [] = refl
live-append (t ∷ ts) = omega (arith, live-append ts)

pub live-all_ended : (ts : List Task) → all_ended ts ≡ true → live ts ≡ 0
live-all_ended [] h = refl
live-all_ended (queued ∷ ts) h = cc
live-all_ended (running ∷ ts) h = cc
live-all_ended (leaving ∷ ts) h = cc
live-all_ended (ended ∷ ts) h = omega (arith, live-all_ended ts h)

said_early-append : (ls : List Said) → said_early (ls ++ heartbeat ∷ []) ≡ said_early ls
said_early-append [] = refl
said_early-append (heartbeat ∷ ls) = said_early-append ls
said_early-append (all_finished_early ∷ ls) = refl

-- A turn of a task brings the count and the number of live tasks down together.
pub task_turn_lem :
    (i m : ℕ) (ts : List Task)
    → live ts ≤ m
    → let r = task_turn i m ts in
      (r.0 + live ts ≡ m + live r.1) × (live r.1 ≤ live ts) × (length r.1 ≡ length ts)
unfolding task_turn
task_turn_lem i m [] h = (refl, omega arith, refl)
task_turn_lem zero m (queued ∷ ts) h = (refl, omega arith, refl)
task_turn_lem zero m (running ∷ ts) h = (refl, omega arith, refl)
task_turn_lem zero m (leaving ∷ ts) h = (omega arith, omega arith, refl)
task_turn_lem zero m (ended ∷ ts) h = (refl, omega arith, refl)
task_turn_lem (suc i) m (t ∷ ts) h =
    let ih = task_turn_lem i m ts (omega arith) in
    (omega (arith, ih.0), omega (arith, ih.1), ap suc ih.2)

task_turns-Inv : (n seconds i : ℕ) (s : Harness) → Inv n s → Inv n (step seconds s (task_turns i))
unfolding step
task_turns-Inv n seconds i s v =
    let r = task_turn_lem i s.active_tests_count s.tasks (omega (arith, v.counted)) in
    record {
      counted = omega (arith, (r.0), v.counted);
      total = omega (arith, (r.2), v.total);
      early = λ h. (omega (arith, (r.1), ((v.early h).0)), (v.early h).1);
      stopped = v.stopped;
      over = λ h. omega (arith, (r.1), v.over h);
    }

beat-Inv : (n : ℕ) (s : Harness) → s.phase ≡ looping → Inv n s → Inv n (beat s)
unfolding beat
beat-Inv n s at v = elim (Bool-cases (ltb s.now s.end_time)) [
  | inr late ↦ simp late (record {
    counted = omega (arith, ap counted_ahead at, v.counted);
    total = omega (arith, ap remaining at, v.total);
    early = λ h. ((v.early h).0, refl);
    stopped = λ h. cc;
    over = λ h. cc;
  })
  | inl early ↦ elim (Bool-cases (s.active_tests_count == 0)) [
    | inl none_left ↦
        simp (early, none_left)
          (record {
            counted = omega (arith, ap counted_ahead at, v.counted);
            total = omega (arith, ap remaining at, v.total);
            early = λ h. (ground (arith, v.counted), refl);
            stopped = λ h. cc;
            over = λ h. cc;
          })
    | inr some_left ↦
        simp (early, some_left)
          (record {
            counted = v.counted;
            total = v.total;
            early = λ h. v.early (sym (said_early-append s.said) ∙ h);
            stopped = v.stopped;
            over = v.over;
          })
  ]
]

main_turn-Inv :
    (n seconds : ℕ) (p : Phase) (s : Harness)
    → s.phase ≡ p
    → Inv n s
    → Inv n (main_turn seconds p s)
unfolding main_turn
main_turn-Inv n seconds (counting zero) s at v = record {
  counted = omega (arith, ap counted_ahead at, v.counted);
  total = omega (arith, ap remaining at, v.total);
  early = λ h. absurd (ground (arith, v.early h, at));
  stopped = λ h. cc;
  over = λ h. cc;
}
main_turn-Inv n seconds (counting (suc k)) s at v = record {
  counted = omega (arith, ap counted_ahead at, v.counted);
  total = omega (arith, ap remaining at, v.total);
  early = λ h. absurd (ground (arith, v.early h, at));
  stopped = λ h. cc;
  over = λ h. cc;
}
main_turn-Inv n seconds (submitting k) s at v = record {
  counted = omega (arith, live-append s.tasks, ap counted_ahead at, v.counted);
  total = omega (arith, length-append s.tasks (queued ∷ []), ap remaining at, v.total);
  early = λ h. absurd (ground (arith, v.early h, at));
  stopped = λ h. cc;
  over = λ h. cc;
}
main_turn-Inv n seconds looping s at v = beat-Inv n s at v
main_turn-Inv n seconds stopping s at v = record {
  counted = omega (arith, ap counted_ahead at, v.counted);
  total = omega (arith, ap remaining at, v.total);
  early = λ h. ((v.early h).0, refl);
  stopped = λ h. refl;
  over = λ h. cc;
}
main_turn-Inv n seconds waiting s at v = elim (Bool-cases (all_ended s.tasks)) [
  | inr busy ↦ simp busy v
  | inl idle ↦ simp idle (record {
    counted = omega (arith, ap counted_ahead at, v.counted);
    total = omega (arith, ap remaining at, v.total);
    early = λ h. ((v.early h).0, refl);
    stopped = λ h. v.stopped (ap has_stopped at);
    over = λ h. live-all_ended s.tasks idle;
  })
]
main_turn-Inv n seconds closed s at v = v

pub step-Inv : (n seconds : ℕ) (s : Harness) (e : Event) → Inv n s → Inv n (step seconds s e)
unfolding step
step-Inv n seconds s main_turns v = main_turn-Inv n seconds s.phase s refl v
step-Inv n seconds s (task_turns i) v = task_turns-Inv n seconds i s v
step-Inv n seconds s (passes t) v = record {
  counted = v.counted;
  total = v.total;
  early = v.early;
  stopped = v.stopped;
  over = v.over;
}

pub run-Inv : (n seconds : ℕ) (s : Harness) (es : List Event) → Inv n s → Inv n (run seconds s es)
unfolding run
run-Inv n seconds s [] v = v
run-Inv n seconds s (e ∷ es) v = run-Inv n seconds (step seconds s e) es (step-Inv n seconds s e v)

pub launch-Inv : (n : ℕ) → Inv n (launch n)
launch-Inv n = record {
  counted = refl;
  total = omega arith;
  early = λ h. cc;
  stopped = λ h. cc;
  over = λ h. cc;
}
