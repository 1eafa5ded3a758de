-- ===== src/Logging/Levels.antt =====
-- What the log shows of the two tests, by the level of the logger.
use spdlog_stress_test.Prelude.{ℕ, zero, suc, ◌≡◌, List, [], ◌∷◌, if◌then◌else◌, codes, arith}
use spdlog_stress_test.Logging.{LogLevels, written, run_level5}

abbrev pub replicate {ℓ} : {A : Type ℓ} → ℕ → A → List A
replicate zero a = []
replicate (suc n) a = a ∷ replicate n a

module _ {ℓ} {L : Type ℓ} (levels : LogLevels L) where
  open levels use {info, debug, lets_through}

  -- A logger shows a line for each round of Level5Test if its level lets `debug` through, and none
  -- otherwise.
  pub written-run_level5 :
      (own : L) (n : ℕ)
      → written levels own (run_level5 levels n)
        ≡ (if lets_through own debug then replicate n (codes "level 5 logs") else [])
  unfolding written run_level5
  written-run_level5 own zero = ground arith
  written-run_level5 own (suc n) = ground (arith, written-run_level5 own n)
