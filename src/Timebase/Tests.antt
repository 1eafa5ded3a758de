-- ===== src/Timebase/Tests.antt =====
-- Seventeen samples outside stress mode: one line, for the first sixteen.
use spdlog_stress_test.Prelude.{ℕ, zero, suc, ◌≡◌, refl, false, List, [], ◌∷◌, map, some, arith}
use spdlog_stress_test.Timebase.{log_every, run}
use spdlog_stress_test.Timebase.Chunks.{IsChunked, mean, run_lem}

abbrev hundreds : ℕ → List ℕ
hundreds zero = []
hundreds (suc n) = 100 ∷ hundreds n

abbrev seventeen : List ℕ
seventeen = 260 ∷ hundreds 16

one_line : run false seventeen ≡ some (record { average_us = 110; samples = 16 } ∷ [])
unfolding run
one_line = refl

run_lem_example :
    (chunks : List (List ℕ)) × (rest : List ℕ) × IsChunked (log_every false) seventeen chunks rest
    × (run false seventeen ≡ some (map mean chunks))
run_lem_example = run_lem false seventeen (omega arith)
