-- ===== src/Harness/Selection.antt =====
-- Which tests are made, and with which loggers.
use spdlog_stress_test.Prelude.{
  ℕ, ◌≡◌, refl, Bool, true, false, ◌&&◌, List, [], ◌∷◌, ◌++◌, map, Option, none, some,
  if◌then◌else◌, Text, codes, Bool-cases, inl, inr, ap, ◌∙◌,
}
use spdlog_stress_test.TestContext.{TestContext, should_run}
use spdlog_stress_test.Harness.{
  Machine, make_own, make_logger, with_own, Test, Logger, main_logger, own_logger, registry,
  create_tests, configure_for, configure, with_first, configure_all, prepare,
}

module _ {ℓ} {L : Type ℓ} where
  -- The names that are not ignored, in order.
  abbrev pub chosen : TestContext L → List Text → List Text
  chosen ctx [] = []
  chosen ctx (name ∷ names) =
      if should_run ctx name then name ∷ chosen ctx names else chosen ctx names

  abbrev pub unconfigured_test : Text → Test L
  unconfigured_test name = record { name = name; logger = none }

  create_tests-chosen :
      (ctx : TestContext L) (names : List Text)
      → (create_tests ctx names).0 ≡ map unconfigured_test (chosen ctx names)
  unfolding create_tests
  create_tests-chosen ctx [] = refl
  create_tests-chosen ctx (name ∷ names) = elim (Bool-cases (should_run ctx name)) [
    | inl runs ↦ simp runs (ap (λ ts. unconfigured_test name ∷ ts) (create_tests-chosen ctx names))
    | inr ignored ↦ simp ignored (create_tests-chosen ctx names)
  ]

module _ {ℓ} {L : Type ℓ} where
  -- With `--filename`, main's logger; otherwise a logger to a file of the test's name.
  abbrev pub logger_of : Option Text → TestContext L → Text → Logger L
  logger_of (some file) ctx name = main_logger
  logger_of none ctx name = own_logger (record {
    filename = name ++ codes ".log";
    logger_name = name;
    queue_size = ctx.queue_size;
    log_level = ctx.log_level;
    overruns_oldest = ctx.stress;
  })

  abbrev pub configured_test : TestContext L → Text → Test L
  configured_test ctx name = record { name = name; logger = some (logger_of ctx.filename ctx name) }

module _ (machine : Machine) where
  -- The pool and the file of a test, where it has its own.
  abbrev pub can_open : Option Text → ℕ → Text → Bool
  can_open (some file) size name = true
  can_open none size name = machine.makes_pool name size && machine.opens (name ++ codes ".log")

module _ {ℓ} {L : Type ℓ} (machine : Machine) where
  abbrev pub all_open : TestContext L → List Text → Bool
  all_open ctx [] = true
  all_open ctx (name ∷ names) =
      can_open machine ctx.filename ctx.queue_size name && all_open ctx names

  configure_for_lem :
      (file : Option Text) (ctx : TestContext L) (name : Text)
      → (configure_for machine file ctx (unconfigured_test name)).1 ≡ (
          if can_open machine file ctx.queue_size name
          then some (record { name = name; logger = some (logger_of file ctx name) })
          else none)
  unfolding configure_for make_own make_logger with_own
  configure_for_lem none ctx name = elim (Bool-cases (machine.makes_pool name ctx.queue_size)) [
    | inr failed ↦ simp failed refl
    | inl made ↦ elim (Bool-cases (machine.opens (name ++ codes ".log"))) [
      | inl opened ↦ simp (made, opened) refl
      | inr failed ↦ simp (made, failed) refl
    ]
  ]
  configure_for_lem (some f) ctx name = refl

  with_first_lem :
      (a b : Bool) (t : Test L) (ts : List (Test L))
      → with_first (if a then some t else none) (if b then some ts else none)
        ≡ (if a && b then some (t ∷ ts) else none)
  with_first_lem true true t ts = refl
  with_first_lem true false t ts = refl
  with_first_lem false b t ts = refl

  configure_all_lem :
      (ctx : TestContext L) (names : List Text)
      → (configure_all machine ctx (map unconfigured_test names)).1
        ≡ (if all_open ctx names then some (map (configured_test ctx) names) else none)
  unfolding configure_all configure
  configure_all_lem ctx [] = refl
  configure_all_lem ctx (name ∷ names) =
      rw (configure_for_lem ctx.filename ctx name, configure_all_lem ctx names)
        (with_first_lem (can_open machine ctx.filename ctx.queue_size name) (all_open ctx names)
          (configured_test ctx name) (map (configured_test ctx) names))

  -- The tests that are prepared are those of the registry that are not ignored, in its order, each
  -- with main's logger if `--filename` is given, or else with a logger to a file of its own;
  -- and there is an exception exactly if one of these files cannot be opened or one of
  -- their pools cannot be made.
  pub prepare_lem :
      (ctx : TestContext L)
      → (prepare machine ctx).1 ≡ (
          if all_open ctx (chosen ctx registry)
          then some (map (configured_test ctx) (chosen ctx registry))
          else none)
  unfolding prepare
  prepare_lem ctx =
      ap (λ ts. (configure_all machine ctx ts).1) (create_tests-chosen ctx registry)
      ∙ configure_all_lem ctx (chosen ctx registry)
