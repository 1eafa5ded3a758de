-- ===== src/Timebase.antt =====
-- C++ Project/src/include/timebase.h: the averages of measured sleeps. The microseconds that each
-- round measures are an input; the clock is steady, so they are not negative. `none` is the overflow
-- of the `long long` that sums them.
pub mod Chunks
mod Tests
use spdlog_stress_test.Prelude.{
  ℕ, ◌+◌, ◌-◌, ◌/◌, ◌^◌, Bool, List, [], ◌∷◌, Option, none, some, leb, if◌then◌else◌,
}

-- The variables of the loop.
pub record Sums : Type 0 where
  pub sample_count : ℕ
  pub sum_us : ℕ

-- A line of the log.
pub record Average : Type 0 where
  pub average_us : ℕ
  pub samples : ℕ

abbrev pub log_every : Bool → ℕ
log_every stress = if stress then 64 else 16

abbrev pub no_samples : Sums
no_samples = record { sample_count = 0; sum_us = 0 }

abbrev pub long_long_max : ℕ
long_long_max = 2 ^ 63 - 1

abbrev pub average : Sums → Average
average s = record { average_us = s.sum_us / s.sample_count; samples = s.sample_count }

abbrev pub add_sample : ℕ → Sums → Sums
add_sample us s = record { sample_count = s.sample_count + 1; sum_us = s.sum_us + us }

abbrev pub put_first : Average → Option (List Average) → Option (List Average)
put_first line none = none
put_first line (some rest) = some (line ∷ rest)

-- The rounds of the loop, with the lines that they log.
pub run_from : ℕ → Sums → List ℕ → Option (List Average)
run_from every s [] = some []
run_from every s (us ∷ rest) =
    let logged = put_first (average (add_sample us s)) (run_from every no_samples rest) in
    let silent = run_from every (add_sample us s) rest in
    if leb (s.sum_us + us) long_long_max
    then (if leb every (s.sample_count + 1) then logged else silent)
    else none

pub run : Bool → List ℕ → Option (List Average)
unfolding run_from
run stress samples = run_from (log_every stress) no_samples samples
