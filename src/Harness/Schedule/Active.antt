-- ===== src/Harness/Schedule/Active.antt =====
-- The count of the active tests, and what main knows when it stops.
use spdlog_stress_test.Prelude.{ℕ, ◌+◌, ◌≡◌, ap, true, List, arith, length}
use spdlog_stress_test.Harness.Schedule.{
  Phase, counting, submitting, looping, stopping, waiting, closed, launch, Event, run,
}
use spdlog_stress_test.Harness.Schedule.Invariant.{
  live, counted_ahead, remaining, said_early, is_behind_loop, has_stopped, is_closed, run-Inv,
  launch-Inv,
}

-- Behind the loop nothing remains to be submitted.
behind : (p : Phase) (m n : ℕ) → is_behind_loop p ≡ true → m + remaining p ≡ n → m ≡ n
behind (counting k) m n h t = cc
behind (submitting k) m n h t = cc
behind looping m n h t = cc
behind stopping m n h t = omega arith
behind waiting m n h t = omega arith
behind closed m n h t = omega arith

-- Under every schedule of main and of the tests' tasks: the active count is the number of tests that
-- have been counted and have not brought it down, and main has still to submit what is missing from
-- the `n` tests.
pub active_count :
    (n seconds : ℕ) (es : List Event)
    → let s = run seconds (launch n) es in
      (s.active_tests_count ≡ live s.tasks + counted_ahead s.phase)
      × (length s.tasks + remaining s.phase ≡ n)
active_count n seconds es =
    let v = run-Inv n seconds (launch n) es (launch-Inv n) in (v.counted, v.total)

-- Under every schedule, where main has said "all tests finished early", each of the `n` tests has
-- been submitted and is over.
pub early_complete :
    (n seconds : ℕ) (es : List Event)
    → said_early (run seconds (launch n) es).said ≡ true
    → let s = run seconds (launch n) es in (length s.tasks ≡ n) × (live s.tasks ≡ 0)
early_complete n seconds es h =
    let v = run-Inv n seconds (launch n) es (launch-Inv n) in
    let s = run seconds (launch n) es in
    (behind s.phase (length s.tasks) n (v.early h).1 v.total, (v.early h).0)

-- Under every schedule, where main is behind the pool's `wait`, `stop` is set and each of the `n`
-- tests has been submitted and is over.
pub closed_complete :
    (n seconds : ℕ) (es : List Event)
    → (run seconds (launch n) es).phase ≡ closed
    → let s = run seconds (launch n) es in
      (s.stop ≡ true) × (length s.tasks ≡ n) × (live s.tasks ≡ 0)
closed_complete n seconds es at =
    let v = run-Inv n seconds (launch n) es (launch-Inv n) in
    let s = run seconds (launch n) es in
    (
      v.stopped (ap has_stopped at),
      behind s.phase (length s.tasks) n (ap is_behind_loop at) v.total,
      v.over (ap is_closed at),
    )
