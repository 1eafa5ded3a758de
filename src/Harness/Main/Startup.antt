-- ===== src/Harness/Main/Startup.antt =====
-- What main has made when it comes to its third phase.
use spdlog_stress_test.Prelude.{
  sym, Text, codes, Option, none, some, ◌≡◌, refl, ◌&&◌, map, none, some, if◌then◌else◌, Bool-cases,
  inl, inr,
}
use spdlog_stress_test.TestContext.{TestContext}
use spdlog_stress_test.Harness.{Machine, registry, make_own, make_logger}
use spdlog_stress_test.Harness.Selection.{chosen, configured_test, all_open, prepare_lem}
use spdlog_stress_test.Harness.Main.{value_or, default_logfile_name, main_told, with_main, set_up}

-- The file of `--filename`, or else the default.
abbrev pub main_file : Option Text → Text
main_file none = codes "output.log"
main_file (some file) = file

main_file_lem : (o : Option Text) → value_or o default_logfile_name ≡ main_file o
main_file_lem none = refl
main_file_lem (some file) = refl

module _ {ℓ} {L : Type ℓ} where
  -- The set-up succeeds exactly if the pool of main's logger can be made and its file be opened, and,
  -- without `--filename`, so can the pool and the file of each test that is not ignored, also where a
  -- directory could not be made; the tests are then those of the registry that are not ignored, in its order, each with main's logger, or, without
  -- `--filename`, with a logger of its own.
  pub set_up_lem :
      (machine : Machine) (ctx : TestContext L)
      → (set_up machine ctx).1 ≡ (
          if machine.makes_pool (codes "main") ctx.queue_size
            && machine.opens (main_file ctx.filename)
            && all_open machine ctx (chosen ctx registry)
          then some (map (configured_test ctx) (chosen ctx registry))
          else none)
  unfolding set_up make_own make_logger with_main
  set_up_lem machine ctx =
      rw (sym (main_file_lem ctx.filename))
        (elim (Bool-cases (machine.makes_pool (codes "main") ctx.queue_size)) [
          | inr failed ↦ simp failed refl
          | inl made ↦ elim (Bool-cases (machine.opens (main_told ctx).filename)) [
            | inl opened ↦ simp (made, opened) (prepare_lem machine ctx)
            | inr failed ↦ simp (made, failed) refl
          ]
        ])
