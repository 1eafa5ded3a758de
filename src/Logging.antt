-- ===== src/Logging.antt =====
-- The tests that only log: C++ Project/src/include/sink_callback.h and level5.h. A logger passes on
-- the messages whose level its own level lets through; the order of spdlog's levels is a parameter.
mod Tests
pub mod Levels
use spdlog_stress_test.Prelude.{
  ℕ, zero, suc, Bool, true, false, List, [], ◌∷◌, ◌++◌, if◌then◌else◌, Text, codes,
}

-- What the two tests use of spdlog's levels.
pub record LogLevels {ℓ} (L : Type ℓ) : Type ℓ where
  pub info : L
  pub debug : L
  pub lets_through : L → L → Bool

pub record Message {ℓ} (L : Type ℓ) : Type ℓ where
  pub level : L
  pub payload : Text

module _ {ℓ} {L : Type ℓ} (levels : LogLevels L) where
  open levels use {info, debug, lets_through}

  -- What a logger of a level writes of the messages that it is given.
  pub written : L → List (Message L) → List Text
  written own [] = []
  written own (m ∷ ms) =
      let rest = written own ms in if lets_through own m.level then m.payload ∷ rest else rest

  -- `ReentrantSink::sink_it_`: what it logs through the test's own logger.
  pub sink_it : Message L → List (Message L)
  sink_it m =
      record { level = m.level; payload = m.payload }
      ∷ record { level = info; payload = codes "sink_it_ re-entry" }
      ∷ []

  -- The logger "reentrant" has the level `info`, which spdlog gives to a new logger.
  pub trigger : List (Message L)
  unfolding sink_it
  trigger =
      if lets_through info info
      then sink_it (record { level = info; payload = codes "trigger" })
      else []

  pub sink_rounds : ℕ → List (Message L)
  unfolding trigger
  sink_rounds zero = []
  sink_rounds (suc n) = trigger ++ sink_rounds n

  -- `SinkCallbackTest::run`, with the rounds of its loop.
  pub run_sink_callback : Bool → ℕ → List (Message L)
  unfolding sink_rounds
  run_sink_callback false n =
      record { level = info; payload = codes "sink_callback early exit in non-stress mode" } ∷ []
  run_sink_callback true n = sink_rounds n

  -- `Level5::print`.
  pub print : Text → Message L
  print s = record { level = debug; payload = s }

  -- `Level5Test::run`, with the rounds of its loop.
  pub run_level5 : ℕ → List (Message L)
  unfolding print
  run_level5 zero = []
  run_level5 (suc n) = print (codes "level 5 logs") ∷ run_level5 n
