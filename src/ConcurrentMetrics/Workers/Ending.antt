-- ===== src/ConcurrentMetrics/Workers/Ending.antt =====
-- Once a flag is set, the threads and `run` come to their ends, whatever the order of their turns.
use spdlog_stress_test.Prelude.{
  ◌≤◌, ◌≡◌, refl, ap, Bool, true, List, [], ◌∷◌, arith, Bool-cases, inl, inr,
}
use spdlog_stress_test.ConcurrentMetrics.{Doubles}
use spdlog_stress_test.ConcurrentMetrics.Workers.{
  WorkerId, first, second, third, System, Caller, starting, starting_reporter, joining, returned,
  threw, worker_over, reporter_over, all_over, caller_turn, Move, calls, step, run,
}
use spdlog_stress_test.ConcurrentMetrics.Workers.Left.{
  caller_left, has_ended, worker_over_of, reporter_over_of, worker_left-le, reporter_left-le,
  caller_left-le, caller_turns, worker_turns, reporter_turns, is_stopping, HasTurns,
}
use spdlog_stress_test.ConcurrentMetrics.Workers.Turns.{run-Brings}

module _ {ℓ} {D : Type ℓ} (doubles : Doubles D) where
  joined :
      (c : Caller) (b : Bool) (s : System D)
      → s.caller ≡ c
      → caller_left c ≡ 0
      → all_over s ≡ true
      → has_ended (caller_turn c b s).caller ≡ true
  unfolding caller_turn
  joined joining b s at a over = elim (Bool-cases s.internal_stop) [
    | inl asked ↦ simp (over, asked) refl
    | inr fine ↦ simp (over, fine) refl
  ]
  joined returned b s at a over = ap has_ended at
  joined threw b s at a over = ap has_ended at
  joined (starting first) b s at a over = absurd (omega arith)
  joined (starting second) b s at a over = absurd (omega arith)
  joined (starting third) b s at a over = absurd (omega arith)
  joined starting_reporter b s at a over = absurd (omega arith)

  worker_ends :
      (i : WorkerId) (s : System D) (ms : List (Move D))
      → is_stopping s ≡ true
      → caller_left s.caller ≡ 0
      → 3 ≤ worker_turns i ms
      → worker_over ((run doubles s ms).workers i).phase ≡ true
  worker_ends i s ms h a three = worker_over_of ((run doubles s ms).workers i).phase (
      omega
        (arith, (run-Brings doubles i ms s).worker h a, worker_left-le (s.workers i).phase, three))

  reporter_ends :
      (s : System D) (ms : List (Move D))
      → is_stopping s ≡ true
      → caller_left s.caller ≡ 0
      → 3 ≤ reporter_turns ms
      → reporter_over (run doubles s ms).reporter ≡ true
  reporter_ends s ms h a three = reporter_over_of (run doubles s ms).reporter (
      omega
        (arith, (run-Brings doubles first ms s).reporter h a, reporter_left-le s.reporter, three))

  all_over_of :
      (s : System D) (ms : List (Move D))
      → is_stopping s ≡ true
      → caller_left s.caller ≡ 0
      → HasTurns ms
      → all_over (run doubles s ms) ≡ true
  all_over_of s ms h a (works_turns, reports) =
      rw
        (
          worker_ends first s ms h a (works_turns first),
          worker_ends second s ms h a (works_turns second),
          worker_ends third s ms h a (works_turns third),
          reporter_ends s ms h a reports,
        )
        refl

  -- From any state in which `stop` or the test's own flag is set: after a schedule in which `run` has
  -- four turns, and one in which each worker and the reporter have three turns, the next turn of `run`
  -- ends it. What else happens in these schedules, failures included, and in what order, is free.
  pub stop_ends_run :
      (s : System D) (ms ns : List (Move D)) (b : Bool)
      → is_stopping s ≡ true
      → 4 ≤ caller_turns ms
      → HasTurns ns
      → has_ended (run doubles (run doubles (run doubles s ms) ns) (calls b ∷ [])).caller ≡ true
  unfolding run step
  stop_ends_run s ms ns b h four turns =
      let t = run doubles s ms in
      let u = run doubles t ns in
      let before = run-Brings doubles first ms s in
      let joins : caller_left t.caller ≡ 0 =
        omega (arith, before.caller, caller_left-le s.caller, four) in
      joined u.caller b u refl (omega (arith, (run-Brings doubles first ns t).caller, joins))
        (all_over_of t ns (before.stopping h) joins turns)
