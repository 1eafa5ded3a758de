-- ===== src/ConcurrentMetrics/Workers/Exact.antt =====
-- The counts of random events, as long as there are few enough of them.
use spdlog_stress_test.Prelude.{
  ◌+◌, ◌*◌, ◌^◌, ◌≤◌, ◌<◌, ◌≡◌, refl, ap, Bool, true, false, List, [], ◌∷◌, ◌++◌, arith, All,
  length, length-append,
}
use spdlog_stress_test.ConcurrentMetrics.{Doubles, Event}
use spdlog_stress_test.ConcurrentMetrics.Sums.{processed_sum, failed_sum, processed_of, failed_of}
use spdlog_stress_test.ConcurrentMetrics.Random.{Draws, create_random, IsDrawn}
use spdlog_stress_test.ConcurrentMetrics.Workers.{
  WorkerId, Phase, checking, creating, last_flush, gone, not_started, System, Move, calls, works,
  fails, reports_now, report_fails, stops, initial, create_event, worker_turn, fail_turn,
  caller_turn, reporter_turn, reporter_fail, Caller, starting, starting_reporter, joining, returned,
  threw, Reporter, reporting, step, run,
}
use spdlog_stress_test.ConcurrentMetrics.Workers.Counts.{
  pending, processed_sum-append, failed_sum-append,
}
use spdlog_stress_test.ConcurrentMetrics.Workers.Conservation.{run-Inv, initial-Inv}

module _ {ℓ} {D : Type ℓ} where
  -- That an event, if the move has one, is drawn.
  abbrev pub HasDraws : Move D → Type ℓ
  HasDraws (works i e) = (d : Draws D) × IsDrawn d × (e ≡ create_random d)
  HasDraws m = Unit {ℓ}

  record Few (s : System D) : Type 0 where
    few_processed : processed_sum s.created ≤ 500 * length s.created
    few_failed : failed_sum s.created ≤ 10 * length s.created

  fail_turn-created :
      (i : WorkerId) (p : Phase) (s : System D) → (fail_turn i p s).created ≡ s.created
  unfolding fail_turn
  fail_turn-created i creating s = refl
  fail_turn-created i last_flush s = refl
  fail_turn-created i checking s = refl
  fail_turn-created i gone s = refl
  fail_turn-created i not_started s = refl

  caller_turn-created :
      (c : Caller) (b : Bool) (s : System D) → (caller_turn c b s).created ≡ s.created
  unfolding caller_turn
  caller_turn-created (starting i) true s = refl
  caller_turn-created (starting i) false s = refl
  caller_turn-created starting_reporter true s = refl
  caller_turn-created starting_reporter false s = refl
  caller_turn-created joining b s = ground arith
  caller_turn-created returned b s = refl
  caller_turn-created threw b s = refl

  reporter_turn-created : (p : Reporter) (s : System D) → (reporter_turn p s).created ≡ s.created
  unfolding reporter_turn
  reporter_turn-created Reporter.checking s = refl
  reporter_turn-created reporting s = refl
  reporter_turn-created p s = refl

  reporter_fail-created : (p : Reporter) (s : System D) → (reporter_fail p s).created ≡ s.created
  unfolding reporter_fail
  reporter_fail-created reporting s = refl
  reporter_fail-created p s = refl

  kept_created : (s t : System D) → t.created ≡ s.created → Few s → Few t
  kept_created s t e v = record {
    few_processed = rw e v.few_processed;
    few_failed = rw e v.few_failed;
  }

module _ {ℓ} {D : Type ℓ} (doubles : Doubles D) where
  created-Few :
      (d : Draws D) (s t : System D)
      → IsDrawn d
      → t.created ≡ s.created ++ create_random d ∷ []
      → Few s
      → Few t
  unfolding create_random
  created-Few d s t r e v = record {
    few_processed = omega (
      arith,
      ap processed_sum e,
      ap (length {A = Event D}) e,
      processed_sum-append s.created (create_random d ∷ []),
      length-append s.created (create_random d ∷ []),
      r.processed_high,
      v.few_processed,
    );
    few_failed = omega (
      arith,
      ap failed_sum e,
      ap (length {A = Event D}) e,
      failed_sum-append s.created (create_random d ∷ []),
      length-append s.created (create_random d ∷ []),
      r.failed_high,
      v.few_failed,
    );
  }

  worker_turn-Few :
      (i : WorkerId) (e : Event D) (d : Draws D) (p : Phase) (s : System D)
      → IsDrawn d
      → e ≡ create_random d
      → Few s
      → Few (worker_turn doubles i e p s)
  unfolding worker_turn create_event
  worker_turn-Few i e d creating s r same v =
      created-Few d s _ r (ap (λ x. s.created ++ x ∷ []) same) v
  worker_turn-Few i e d checking s r same v = kept_created s _ refl v
  worker_turn-Few i e d last_flush s r same v = kept_created s _ refl v
  worker_turn-Few i e d gone s r same v = v
  worker_turn-Few i e d not_started s r same v = v

  step-Few : (m : Move D) (s : System D) → HasDraws m → Few s → Few (step doubles s m)
  unfolding step
  step-Few (works i e) s r v = worker_turn-Few i e r.0 (s.workers i).phase s r.1 r.2 v
  step-Few (calls b) s r v = kept_created s _ (caller_turn-created s.caller b s) v
  step-Few (fails i) s r v = kept_created s _ (fail_turn-created i (s.workers i).phase s) v
  step-Few reports_now s r v = kept_created s _ (reporter_turn-created s.reporter s) v
  step-Few report_fails s r v = kept_created s _ (reporter_fail-created s.reporter s) v
  step-Few stops s r v = kept_created s _ refl v

  run-Few : (ms : List (Move D)) (s : System D) → All HasDraws ms → Few s → Few (run doubles s ms)
  unfolding run
  run-Few [] s r v = v
  run-Few (m ∷ ms) s r v = run-Few ms (step doubles s m) r.1 (step-Few m s r.0 v)

  -- Under every schedule of events made by `createRandom`, from numbers that its distributions give, in
  -- which fewer than 2^32 / 500 events are created: no count overflows, so the processed and the failed
  -- counts of the shared data, together with those not flushed and those of workers that an exception
  -- ended, are exactly the sums over all events created.
  pub counts_exact :
      (ms : List (Move D))
      → All HasDraws ms
      → 500 * length (run doubles initial ms).created < 2 ^ 32
      → let s = run doubles initial ms in
        (processed_of s.shared_data + pending processed_sum s.workers + processed_sum s.lost
          ≡ processed_sum s.created)
        × (failed_of s.shared_data + pending failed_sum s.workers + failed_sum s.lost
            ≡ failed_sum s.created)
  counts_exact ms r few =
      let v = run-Inv doubles initial ms (initial-Inv doubles) in
      let w =
        run-Few ms initial r (record { few_processed = omega arith; few_failed = omega arith }) in
      (
        omega (arith, v.processed, v.processed_le, w.few_processed, few),
        omega (arith, v.failed, v.failed_le, w.few_failed, few),
      )
