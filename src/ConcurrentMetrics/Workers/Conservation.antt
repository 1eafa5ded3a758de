-- ===== src/ConcurrentMetrics/Workers/Conservation.antt =====
-- No count is lost, but for those of workers that an exception ends.
use mathlib.Core.Bool.{false}
use spdlog_stress_test.Prelude.{
  arith, ◌+◌, ◌≡◌, refl, Bool, true, List, [], ◌∷◌, ◌++◌, leb, length, Bool-cases, inl, inr,
  if◌then◌else◌, ◌||◌,
}
use spdlog_stress_test.ConcurrentMetrics.{Doubles, Event, u32}
use spdlog_stress_test.ConcurrentMetrics.Sums.{processed_sum, failed_sum, processed_of, failed_of}
use spdlog_stress_test.ConcurrentMetrics.Workers.{
  WorkerId, Phase, checking, creating, last_flush, gone, System, event_batch_size, initial,
  create_event, worker_turn, fail_turn, Move, works, fails, reports_now, report_fails, calls, stops,
  Reporter, reporting, last_report, Caller, starting, starting_reporter, joining, returned, threw,
  all_over, caller_turn, reporter_turn, reporter_fail, not_started, step, run,
}
use spdlog_stress_test.ConcurrentMetrics.Workers.Counts.{
  pending, Inv, full-Inv, room-Inv, last-Inv, checked-Inv, failed-Inv, Inv-same,
}

module _ {ℓ} {D : Type ℓ} (doubles : Doubles D) where
  create_event-Inv :
      (i : WorkerId) (e : Event D) (batch : List (Event D)) (s : System D)
      → (s.workers i).unreported_events ≡ batch
      → Inv s
      → Inv (create_event doubles i e batch s)
  unfolding create_event
  create_event-Inv i e batch s q v =
      elim (Bool-cases (leb event_batch_size (length (batch ++ e ∷ [])))) [
        | inl full ↦ simp full (full-Inv doubles i e batch s q v)
        | inr room ↦ simp room (room-Inv doubles i e batch s q v)
      ]

  worker_turn-Inv :
      (i : WorkerId) (e : Event D) (p : Phase) (s : System D)
      → Inv s
      → Inv (worker_turn doubles i e p s)
  unfolding worker_turn
  worker_turn-Inv i e checking s v =
      checked-Inv i (if s.stop || s.internal_stop then last_flush else creating) s v
  worker_turn-Inv i e creating s v = create_event-Inv i e (s.workers i).unreported_events s refl v
  worker_turn-Inv i e last_flush s v = last-Inv doubles i s v
  worker_turn-Inv i e gone s v = v
  worker_turn-Inv i e not_started s v = v

  fail_turn-Inv : (i : WorkerId) (p : Phase) (s : System D) → Inv s → Inv (fail_turn i p s)
  unfolding fail_turn
  fail_turn-Inv i creating s v = failed-Inv i s v
  fail_turn-Inv i last_flush s v = failed-Inv i s v
  fail_turn-Inv i not_started s v = v
  fail_turn-Inv i checking s v = v
  fail_turn-Inv i gone s v = v

  caller_turn-Inv : (c : Caller) (b : Bool) (s : System D) → Inv s → Inv (caller_turn c b s)
  unfolding caller_turn
  caller_turn-Inv (starting i) true s v =
      Inv-same _ _ refl refl refl refl (checked-Inv i checking s v)
  caller_turn-Inv (starting i) false s v = Inv-same s _ refl refl refl refl v
  caller_turn-Inv starting_reporter true s v = Inv-same s _ refl refl refl refl v
  caller_turn-Inv starting_reporter false s v = Inv-same s _ refl refl refl refl v
  caller_turn-Inv joining b s v = elim (Bool-cases (all_over s)) [
    | inl over ↦ simp over (Inv-same s _ refl refl refl refl v)
    | inr busy ↦ simp busy v
  ]
  caller_turn-Inv returned b s v = v
  caller_turn-Inv threw b s v = v

  reporter_turn-Inv : (p : Reporter) (s : System D) → Inv s → Inv (reporter_turn p s)
  unfolding reporter_turn
  reporter_turn-Inv Reporter.checking s v = Inv-same s _ refl refl refl refl v
  reporter_turn-Inv reporting s v = Inv-same s _ refl refl refl refl v
  reporter_turn-Inv last_report s v = Inv-same s _ refl refl refl refl v
  reporter_turn-Inv Reporter.not_started s v = v
  reporter_turn-Inv Reporter.gone s v = v

  reporter_fail-Inv : (p : Reporter) (s : System D) → Inv s → Inv (reporter_fail p s)
  unfolding reporter_fail
  reporter_fail-Inv reporting s v = Inv-same s _ refl refl refl refl v
  reporter_fail-Inv last_report s v = Inv-same s _ refl refl refl refl v
  reporter_fail-Inv Reporter.checking s v = v
  reporter_fail-Inv Reporter.not_started s v = v
  reporter_fail-Inv Reporter.gone s v = v

  step-Inv : (s : System D) (m : Move D) → Inv s → Inv (step doubles s m)
  unfolding step
  step-Inv s (works i e) v = worker_turn-Inv i e (s.workers i).phase s v
  step-Inv s (fails i) v = fail_turn-Inv i (s.workers i).phase s v
  step-Inv s (calls b) v = caller_turn-Inv s.caller b s v
  step-Inv s reports_now v = reporter_turn-Inv s.reporter s v
  step-Inv s report_fails v = reporter_fail-Inv s.reporter s v
  step-Inv s stops v = Inv-same s _ refl refl refl refl v

  pub run-Inv : (s : System D) (ms : List (Move D)) → Inv s → Inv (run doubles s ms)
  unfolding run
  run-Inv s [] v = v
  run-Inv s (m ∷ ms) v = run-Inv (step doubles s m) ms (step-Inv s m v)

  pub initial-Inv : Inv (initial {D = D})
  initial-Inv = record {
    processed = refl;
    failed = refl;
    processed_le = omega arith;
    failed_le = omega arith;
  }

  -- Under every schedule: modulo 2^32, the processed and the failed counts of the shared data,
  -- together with those that the workers have not flushed and those of workers that an exception
  -- ended, are the sums over all events created.
  pub counts_conserved :
      (ms : List (Move D))
      → let s = run doubles initial ms in
        (u32 (processed_of s.shared_data + pending processed_sum s.workers + processed_sum s.lost)
          ≡ u32 (processed_sum s.created))
        × (u32 (failed_of s.shared_data + pending failed_sum s.workers + failed_sum s.lost)
            ≡ u32 (failed_sum s.created))
  counts_conserved ms = let v = run-Inv initial ms initial-Inv in (v.processed, v.failed)
