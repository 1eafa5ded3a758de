-- ===== src/ConcurrentMetrics/Workers/Turns.antt =====
-- What each turn, and so a schedule, does to the turns left.
use spdlog_stress_test.Prelude.{
  ◌≡◌, refl, ap, Bool, true, false, List, [], ◌∷◌, arith, Bool-cases, inl, inr,
}
use spdlog_stress_test.ConcurrentMetrics.{Doubles, Event}
use spdlog_stress_test.ConcurrentMetrics.Workers.{
  WorkerId, Phase, not_started, checking, creating, last_flush, gone, System, Reporter, reporting,
  last_report, Caller, starting, starting_reporter, joining, returned, threw, create_event,
  worker_turn, fail_turn, all_over, caller_turn, reporter_turn, reporter_fail, Move, calls, works,
  fails, reports_now, report_fails, stops, step, run,
}
use spdlog_stress_test.ConcurrentMetrics.Workers.Left.{
  caller_left, worker_left, reporter_left, own, started, late, caller_turns, worker_turns,
  reporter_turns, Brings, updated, still, unmoved, stopped-Brings, unreported, idling, Brings-then,
}

module _ {ℓ} {D : Type ℓ} where
  caller_turn-Brings :
      (i : WorkerId) (c : Caller) (b : Bool) (s : System D)
      → s.caller ≡ c
      → Brings s (caller_turn c b s) 1 0 0 i
  unfolding caller_turn
  caller_turn-Brings i (starting j) true s at = record {
    stopping = λ h. h;
    caller = omega (arith, started j, ap caller_left at);
    worker = λ h a. absurd (omega (arith, late j, ap caller_left at));
    reporter = λ h a. omega arith;
  }
  caller_turn-Brings i (starting j) false s at = record {
    stopping = λ h. ground arith;
    caller = omega (arith, late j, ap caller_left at, started j);
    worker = λ h a. omega arith;
    reporter = λ h a. omega arith;
  }
  caller_turn-Brings i starting_reporter true s at = record {
    stopping = λ h. h;
    caller = omega (arith, ap caller_left at);
    worker = λ h a. omega arith;
    reporter = λ h a. absurd (omega (arith, ap caller_left at));
  }
  caller_turn-Brings i starting_reporter false s at = record {
    stopping = λ h. ground arith;
    caller = omega (arith, ap caller_left at);
    worker = λ h a. omega arith;
    reporter = λ h a. omega arith;
  }
  caller_turn-Brings i joining b s at = elim (Bool-cases (all_over s)) [
    | inl over ↦ simp over (record {
      stopping = λ h. h;
      caller = elim (Bool-cases s.internal_stop) [
        | inl asked ↦ simp asked (omega arith)
        | inr fine ↦ simp fine (omega arith)
      ];
      worker = λ h a. omega arith;
      reporter = λ h a. omega arith;
    })
    | inr busy ↦ simp busy (still i s (ap caller_left at))
  ]
  caller_turn-Brings i returned b s at = still i s (ap caller_left at)
  caller_turn-Brings i threw b s at = still i s (ap caller_left at)

  fail_turn-Brings :
      (i j : WorkerId) (p : Phase) (s : System D)
      → (s.workers j).phase ≡ p
      → Brings s (fail_turn j p s) 0 0 0 i
  unfolding fail_turn
  fail_turn-Brings i j creating s at = record {
    stopping = λ h. ground arith;
    caller = omega arith;
    worker = λ h a.
        let down =
          updated i j s.workers (record { phase = gone; unreported_events = [] }) (omega arith) in
        omega (arith, down);
    reporter = λ h a. omega arith;
  }
  fail_turn-Brings i j last_flush s at = record {
    stopping = λ h. ground arith;
    caller = omega arith;
    worker = λ h a.
        let down =
          updated i j s.workers (record { phase = gone; unreported_events = [] }) (omega arith) in
        omega (arith, down);
    reporter = λ h a. omega arith;
  }
  fail_turn-Brings i j not_started s at = unmoved i s
  fail_turn-Brings i j checking s at = unmoved i s
  fail_turn-Brings i j gone s at = unmoved i s

  reporter_turn-Brings :
      (i : WorkerId) (p : Reporter) (s : System D)
      → s.reporter ≡ p
      → Brings s (reporter_turn p s) 0 0 1 i
  unfolding reporter_turn
  reporter_turn-Brings i Reporter.checking s at = record {
    stopping = λ h. h;
    caller = omega arith;
    worker = λ h a. omega arith;
    reporter = λ h a. rw h (omega (arith, ap reporter_left at));
  }
  reporter_turn-Brings i reporting s at = record {
    stopping = λ h. h;
    caller = omega arith;
    worker = λ h a. omega arith;
    reporter = λ h a. omega (arith, ap reporter_left at);
  }
  reporter_turn-Brings i last_report s at = record {
    stopping = λ h. h;
    caller = omega arith;
    worker = λ h a. omega arith;
    reporter = λ h a. omega arith;
  }
  reporter_turn-Brings i Reporter.not_started s at = unreported i s (ap reporter_left at)
  reporter_turn-Brings i Reporter.gone s at = unreported i s (ap reporter_left at)

  reporter_fail-Brings :
      (i : WorkerId) (p : Reporter) (s : System D) → Brings s (reporter_fail p s) 0 0 0 i
  unfolding reporter_fail
  reporter_fail-Brings i reporting s = record {
    stopping = λ h. ground arith;
    caller = omega arith;
    worker = λ h a. omega arith;
    reporter = λ h a. omega arith;
  }
  reporter_fail-Brings i last_report s = record {
    stopping = λ h. ground arith;
    caller = omega arith;
    worker = λ h a. omega arith;
    reporter = λ h a. omega arith;
  }
  reporter_fail-Brings i Reporter.checking s = unmoved i s
  reporter_fail-Brings i Reporter.not_started s = unmoved i s
  reporter_fail-Brings i Reporter.gone s = unmoved i s

module _ {ℓ} {D : Type ℓ} (doubles : Doubles D) where
  worker_turn-Brings :
      (i j : WorkerId) (e : Event D) (p : Phase) (s : System D)
      → (s.workers j).phase ≡ p
      → Brings s (worker_turn doubles j e p s) 0 (own i j) 0 i
  unfolding worker_turn create_event
  worker_turn-Brings i j e checking s at = record {
    stopping = λ h. h;
    caller = omega arith;
    worker = λ h a. updated i j s.workers _ (rw (h, at) (omega arith));
    reporter = λ h a. omega arith;
  }
  worker_turn-Brings i j e creating s at = record {
    stopping = λ h. h;
    caller = omega arith;
    worker = λ h a. updated i j s.workers _ (omega (arith, ap worker_left at));
    reporter = λ h a. omega arith;
  }
  worker_turn-Brings i j e last_flush s at = record {
    stopping = λ h. h;
    caller = omega arith;
    worker = λ h a. updated i j s.workers _ (omega arith);
    reporter = λ h a. omega arith;
  }
  worker_turn-Brings i j e gone s at = idling i j s (ap worker_left at)
  worker_turn-Brings i j e not_started s at = idling i j s (ap worker_left at)

  pub run-Brings :
      (i : WorkerId) (ms : List (Move D)) (s : System D)
      → Brings s (run doubles s ms) (caller_turns ms) (worker_turns i ms) (reporter_turns ms) i
  unfolding run step
  run-Brings i [] s = unmoved i s
  run-Brings i (calls b ∷ ms) s =
      Brings-then (omega arith) (caller_turn-Brings i s.caller b s refl)
        (run-Brings i ms (caller_turn s.caller b s))
  run-Brings i (works j e ∷ ms) s =
      Brings-then (omega arith) (worker_turn-Brings i j e (s.workers j).phase s refl)
        (run-Brings i ms (worker_turn doubles j e (s.workers j).phase s))
  run-Brings i (fails j ∷ ms) s =
      Brings-then (omega arith) (fail_turn-Brings i j (s.workers j).phase s refl)
        (run-Brings i ms (fail_turn j (s.workers j).phase s))
  run-Brings i (reports_now ∷ ms) s =
      Brings-then (omega arith) (reporter_turn-Brings i s.reporter s refl)
        (run-Brings i ms (reporter_turn s.reporter s))
  run-Brings i (report_fails ∷ ms) s =
      Brings-then (omega arith) (reporter_fail-Brings i s.reporter s)
        (run-Brings i ms (reporter_fail s.reporter s))
  run-Brings i (stops ∷ ms) s =
      Brings-then (omega arith) (stopped-Brings i s) (run-Brings i ms (record s { stop = true }))
