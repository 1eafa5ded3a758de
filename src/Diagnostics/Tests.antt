-- ===== src/Diagnostics/Tests.antt =====
-- Two rounds of the collector around one of the reporter; rates are fractions of whole numbers, and the
-- map is walked as it was filled.
use spdlog_stress_test.Prelude.{ℕ, ◌≡◌, refl, true, List, [], ◌∷◌, ◌++◌, codes, decimal}
use spdlog_stress_test.ThreadPair.{Event, starts, joins, first_turns, second_turns, stops}
use spdlog_stress_test.Diagnostics.{Doubles, Metrics, reported, summary, Shared, fresh, run}
use spdlog_stress_test.Diagnostics.Reporting.{reported_text, concat, reports_conserved}
use spdlog_stress_test.Diagnostics.Metrics.{metrics_after, ShowsThree, metrics_current}

abbrev fractions : Doubles (ℕ × ℕ)
fractions = record {
  of_int = λ n. (n, 1);
  div = λ a b. (a.0, b.0);
  to_text = λ a. decimal a.0 ++ codes "/" ++ decimal a.1;
}

abbrev as_filled : Metrics (ℕ × ℕ) → Metrics (ℕ × ℕ)
as_filled m = m

abbrev schedule : List Event
schedule =
    starts true
    ∷ starts true
    ∷ first_turns
    ∷ first_turns
    ∷ second_turns
    ∷ second_turns
    ∷ first_turns
    ∷ first_turns
    ∷ stops
    ∷ first_turns
    ∷ second_turns
    ∷ joins
    ∷ joins
    ∷ []

abbrev observed : Shared (ℕ × ℕ)
observed = (run fractions as_filled true fresh schedule).shared

observed_log :
    observed.log
    ≡ reported 3 (codes "iteration=0 rate=0/1 label=stress " ++ 10 ∷ []) ∷ summary 2 3 ∷ []
unfolding run decimal
observed_log = refl

reports_conserved_example :
    reported_text observed.log ++ observed.log_buffer ≡ concat observed.snapshots
reports_conserved_example = reports_conserved fractions as_filled true schedule

metrics_current_example :
    (observed.metrics ≡ metrics_after fractions as_filled true observed.iteration)
    × ShowsThree observed.log
metrics_current_example = metrics_current fractions as_filled true schedule
