-- ===== src/ConcurrentMetrics/Tests.antt =====
-- Small batches and schedules; latencies are whole numbers here.
use spdlog_stress_test.Prelude.{
  ◌≤◌, ℕ, arith, ◌+◌, ◌^◌, ◌<◌, All, length, decimal, ◌*◌, ◌/◌, ◌≡◌, refl, true, false, List, [],
  ◌∷◌, some, codes,
}
use spdlog_stress_test.ConcurrentMetrics.{Doubles, Event, u32, consolidate, flush}
use spdlog_stress_test.ConcurrentMetrics.Sums.{processed_sum, failed_sum, processed_of, failed_of}
use spdlog_stress_test.ConcurrentMetrics.Random.{Draws, create_random, IsDrawn}
use spdlog_stress_test.ConcurrentMetrics.Workers.Left.{
  has_ended, is_stopping, worker_turns, HasTurns,
}
use spdlog_stress_test.ConcurrentMetrics.Workers.Ending.{stop_ends_run}
use spdlog_stress_test.ConcurrentMetrics.Workers.Exact.{HasDraws, counts_exact}
use spdlog_stress_test.ConcurrentMetrics.Workers.{
  WorkerId, first, second, System, Move, works, fails, reports_now, stops, initial, run, calls,
  third, returned, threw, all_over,
}
use spdlog_stress_test.ConcurrentMetrics.Workers.Returning.{returns_complete}
use spdlog_stress_test.ConcurrentMetrics.Workers.Counts.{pending}

abbrev whole : Doubles ℕ
whole = record {
  zero_value = 0;
  of_unsigned = λ n. n;
  add = λ a b. a + b;
  mul = λ a b. a * b;
  div = λ a b. a / b;
}

abbrev fast : Event ℕ
fast = record {
  processed_count = 300;
  failed_count = 1;
  average_latency_us = 200;
  last_error_message = codes "late";
}

abbrev slow : Event ℕ
slow = record {
  processed_count = 100;
  failed_count = 2;
  average_latency_us = 1000;
  last_error_message = [];
}

-- The latency is averaged by the processed counts.
fast_and_slow :
    consolidate whole (fast ∷ slow ∷ [])
    ≡ some (record {
      processed_count = 400;
      failed_count = 3;
      average_latency_us = 400;
      last_error_message = codes "late";
    })
unfolding consolidate
fast_and_slow = refl

-- The third worker starts when the others are over.
abbrev good_moves : List (Move ℕ)
good_moves =
    calls true
    ∷ works first fast
    ∷ works first fast
    ∷ calls true
    ∷ works second slow
    ∷ works second slow
    ∷ stops
    ∷ works first fast
    ∷ works first fast
    ∷ works second slow
    ∷ works second slow
    ∷ calls true
    ∷ works third slow
    ∷ works third slow
    ∷ calls true
    ∷ reports_now
    ∷ reports_now
    ∷ calls true
    ∷ []

abbrev good : System ℕ
good = run whole initial good_moves

good_returned : good.caller ≡ returned
unfolding run
good_returned = refl

good_reports :
    good.reports
    ≡ some (record {
      processed_count = 400;
      failed_count = 3;
      average_latency_us = 400;
      last_error_message = codes "late";
    })
      ∷ []
unfolding run flush
good_reports = refl

returns_complete_example :
    (all_over good ≡ true)
    × (good.lost ≡ [])
    × ((i : WorkerId) → (good.workers i).unreported_events ≡ [])
    × (u32 (processed_of good.shared_data) ≡ u32 (processed_sum good.created))
    × (u32 (failed_of good.shared_data) ≡ u32 (failed_sum good.created))
returns_complete_example = returns_complete whole good_moves good_returned

-- A worker that cannot be started makes `run` throw.
unstarted_throws :
    (run whole initial (
      calls true
      ∷ calls false
      ∷ calls true
      ∷ works first fast
      ∷ works first fast
      ∷ reports_now
      ∷ reports_now
      ∷ calls true
      ∷ [])).caller
    ≡ threw
unfolding run
unstarted_throws = refl

abbrev lucky : Draws ℕ
lucky = record { processed = 500; failed = 0; latency = 150; has_error = false; error_id = 1000 }

abbrev unlucky : Draws ℕ
unlucky = record { processed = 50; failed = 10; latency = 4000; has_error = true; error_id = 9999 }

unlucky_message :
    (create_random unlucky).last_error_message ≡ codes "Random worker processing failure #9999"
unfolding create_random decimal
unlucky_message = refl

abbrev drawn_moves : List (Move ℕ)
drawn_moves =
    calls true
    ∷ works first (create_random lucky)
    ∷ works first (create_random lucky)
    ∷ works first (create_random unlucky)
    ∷ works first (create_random unlucky)
    ∷ stops
    ∷ works first (create_random lucky)
    ∷ works first (create_random lucky)
    ∷ []

lucky-IsDrawn : IsDrawn lucky
lucky-IsDrawn = omega arith

unlucky-IsDrawn : IsDrawn unlucky
unlucky-IsDrawn = omega arith

lucky-HasDraws : (d : Draws ℕ) × IsDrawn d × (create_random lucky ≡ create_random d)
lucky-HasDraws = (lucky, lucky-IsDrawn, refl)

unlucky-HasDraws : (d : Draws ℕ) × IsDrawn d × (create_random unlucky ≡ create_random d)
unlucky-HasDraws = (unlucky, unlucky-IsDrawn, refl)

drawn_moves-HasDraws : All HasDraws drawn_moves
drawn_moves-HasDraws = (
  tt,
  (
    lucky-HasDraws,
    (
      lucky-HasDraws,
      (unlucky-HasDraws, (unlucky-HasDraws, (tt, (lucky-HasDraws, (lucky-HasDraws, tt))))),
    ),
  ),
)

abbrev drawn_end : System ℕ
drawn_end = run whole initial drawn_moves

drawn_few : 500 * length drawn_end.created < 2 ^ 32
unfolding run
drawn_few = omega arith

counts_exact_example :
    (processed_of drawn_end.shared_data
        + pending processed_sum drawn_end.workers
        + processed_sum drawn_end.lost
      ≡ processed_sum drawn_end.created)
    × (failed_of drawn_end.shared_data
          + pending failed_sum drawn_end.workers
          + failed_sum drawn_end.lost
        ≡ failed_sum drawn_end.created)
counts_exact_example = counts_exact whole drawn_moves drawn_moves-HasDraws drawn_few

-- `stop` is set while two workers run; the second fails while it creates an event.
abbrev asked : System ℕ
asked =
    run whole initial (calls true ∷ calls true ∷ works first fast ∷ works second slow ∷ stops ∷ [])

abbrev first_moves : List (Move ℕ)
first_moves =
    calls true ∷ works first fast ∷ calls true ∷ fails second ∷ calls true ∷ calls true ∷ []

abbrev last_moves : List (Move ℕ)
last_moves =
    works first fast
    ∷ works second slow
    ∷ works third fast
    ∷ reports_now
    ∷ works third fast
    ∷ reports_now
    ∷ works second slow
    ∷ works first fast
    ∷ reports_now
    ∷ works third slow
    ∷ works second slow
    ∷ works first fast
    ∷ []

last_moves-HasTurns : HasTurns last_moves
last_moves-HasTurns = (three_turns, omega arith)
  where
    three_turns : (i : WorkerId) → 3 ≤ worker_turns i last_moves
    three_turns first = omega arith
    three_turns second = omega arith
    three_turns third = omega arith

asked_stopping : is_stopping asked ≡ true
unfolding run
asked_stopping = refl

stop_ends_run_example :
    has_ended
      (run whole (run whole (run whole asked first_moves) last_moves) (calls true ∷ [])).caller
    ≡ true
stop_ends_run_example =
    stop_ends_run whole asked first_moves last_moves true asked_stopping (omega arith)
      last_moves-HasTurns
