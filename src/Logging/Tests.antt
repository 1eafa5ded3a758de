-- ===== src/Logging/Tests.antt =====
-- Levels are numbers, `debug` below `info`.
use spdlog_stress_test.Prelude.{ℕ, ◌≡◌, refl, true, [], ◌∷◌, leb, codes}
use spdlog_stress_test.Logging.{LogLevels, written, run_level5, run_sink_callback}

abbrev numbered : LogLevels ℕ
numbered = record { info = 2; debug = 1; lets_through = λ own level. leb own level }

silent_by_default : written numbered 2 (run_level5 numbered 3) ≡ []
unfolding written run_level5
silent_by_default = refl

shown_under_debug :
    written numbered 1 (run_level5 numbered 2) ≡ codes "level 5 logs" ∷ codes "level 5 logs" ∷ []
unfolding written run_level5
shown_under_debug = refl

reentry :
    written numbered 2 (run_sink_callback numbered true 1)
    ≡ codes "trigger" ∷ codes "sink_it_ re-entry" ∷ []
unfolding written run_sink_callback
reentry = refl
