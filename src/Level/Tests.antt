-- ===== src/Level/Tests.antt =====
-- The reader looks before and after the writer counts.
use spdlog_stress_test.Prelude.{◌≡◌, refl, true, List, [], ◌∷◌, map}
use spdlog_stress_test.ThreadPair.{Event, starts, joins, first_turns, second_turns, stops, returned}
use spdlog_stress_test.Level.{odd, even, Counter, u32, run}
use spdlog_stress_test.Level.Parity.{parity, Climbs, parity_log}

abbrev two_looks : List Event
two_looks =
    starts true
    ∷ starts true
    ∷ second_turns
    ∷ second_turns
    ∷ first_turns
    ∷ first_turns
    ∷ second_turns
    ∷ second_turns
    ∷ stops
    ∷ first_turns
    ∷ second_turns
    ∷ joins
    ∷ joins
    ∷ []

abbrev seen : Counter
seen = (run two_looks).shared

seen_log : seen.log ≡ even ∷ odd ∷ []
unfolding run
seen_log = refl

seen_end : (run two_looks).caller ≡ returned
unfolding run
seen_end = refl

parity_log_example :
    (seen.log ≡ map parity seen.looks)
    × Climbs 0 seen.increments seen.looks
    × (seen.level ≡ u32 seen.increments)
parity_log_example = parity_log two_looks
