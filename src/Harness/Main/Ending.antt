-- ===== src/Harness/Main/Ending.antt =====
-- For every command line, main comes behind the pool's `wait` and destructor, and no test is left
-- behind.
use mathlib.Core.Option.{some_inj}
use spdlog_stress_test.Prelude.{
  ℕ, ◌≤◌, ◌≡◌, ◌≢◌, refl, ap, sym, ◌∙◌, Bool, true, false, List, [], ◌∷◌, ◌++◌, map, Option, none,
  some, if◌then◌else◌, arith, length, Text,
}
use spdlog_stress_test.ThreadPool as Base
use spdlog_stress_test.ThreadPool.Due.{silent}
use spdlog_stress_test.ThreadPool.Events.{destroy, joins_workers}
use spdlog_stress_test.ThreadPool.Leaving.{Leaves}
use spdlog_stress_test.Harness.Schedule.Pooled.Closing.{pool-IsDestroyed}
use spdlog_stress_test.TestContext.{Levels, TestContext, parse, int_max}
use spdlog_stress_test.TestContext.Bounds.{Within, parse-IsValid}
use spdlog_stress_test.Harness.{Machine, OwnLogger, Test, make_own, prepare, registry}
use spdlog_stress_test.Harness.Selection.{chosen, configured_test, all_open, prepare_lem}
use spdlog_stress_test.Harness.Schedule.{closed}
use spdlog_stress_test.Harness.Schedule.Invariant.{live}
use spdlog_stress_test.Harness.Schedule.Active.{closed_complete}
use spdlog_stress_test.Harness.Schedule.Pooled.{Program, Event, begin, run as run_pooled}
use spdlog_stress_test.Harness.Schedule.Pooled.Refining.{run-refines_schedule}
use spdlog_stress_test.Harness.Schedule.Pooled.Ending.{pooled_main_ends, run-append}
use spdlog_stress_test.Harness.Main.{main_told, with_main, set_up, run_tests}

module _ {ℓ} {L : Type ℓ} where
  length-chosen :
      (ctx : TestContext L) (names : List Text) → length (chosen ctx names) ≤ length names
  length-chosen ctx [] = omega arith
  length-chosen ctx (name ∷ names) = ground (arith, length-chosen ctx names)

  length-configured :
      (ctx : TestContext L) (names : List Text)
      → length (map (configured_test ctx) names) ≡ length names
  length-configured ctx [] = refl
  length-configured ctx (name ∷ names) = omega (arith, length-configured ctx names)

  picked : (b : Bool) (ts us : List (Test L)) → (if b then some ts else none) ≡ some us → ts ≡ us
  picked true ts us h = some_inj.0 h
  picked false ts us h = cc

  chosen_tests :
      (machine : Machine) (ctx : TestContext L) (tests : List (Test L))
      → (prepare machine ctx).1 ≡ some tests
      → tests ≡ map (configured_test ctx) (chosen ctx registry)
  chosen_tests machine ctx tests h =
      sym (
        picked (all_open machine ctx (chosen ctx registry)) _ _ (sym (prepare_lem machine ctx) ∙ h))

  prepare-length :
      (machine : Machine) (ctx : TestContext L) (tests : List (Test L))
      → (prepare machine ctx).1 ≡ some tests
      → length tests ≤ length registry
  prepare-length machine ctx tests h = omega (
    arith,
    ap length (chosen_tests machine ctx tests h),
    length-configured ctx (chosen ctx registry),
    length-chosen ctx registry,
  )

  with_main-length :
      (machine : Machine) (o : Option (OwnLogger L)) (ctx : TestContext L) (tests : List (Test L))
      → (with_main machine o ctx).1 ≡ some tests
      → length tests ≤ length registry
  unfolding with_main
  with_main-length machine none ctx tests h = cc
  with_main-length machine (some l) ctx tests h = prepare-length machine ctx tests h

-- `--maxthreads` sets no maximum of 0.
allowed_max : (o : Option ℕ) → Within int_max o → o ≢ some 0
allowed_max none w h = cc
allowed_max (some n) w h = omega (arith, w.0, some_inj.0 h)

module _ {κ} {E : Type κ} (until_stop : ℕ → Bool) (max : Option ℕ) (seconds : ℕ) where
  -- Where main is behind the pool's `wait`, every test is over.
  all_over :
      (n : ℕ) (es : List Event) (s : Program E)
      → max ≢ some 0
      → run_pooled until_stop seconds (begin n max) es ≡ some s
      → s.harness.phase ≡ closed
      → (s.harness.stop ≡ true) × (length s.harness.tasks ≡ n) × (live s.harness.tasks ≡ 0)
  all_over n es s allowed ran at =
      let (fs, led) = run-refines_schedule until_stop max seconds n es s allowed ran in
      let (stopped, whole, over) = closed_complete n seconds fs (ap (λ h. h.phase) led ∙ at) in
      (
        sym (ap (λ h. h.stop) led) ∙ stopped,
        sym (ap (λ h. length h.tasks) led) ∙ whole,
        sym (ap (λ h. live h.tasks) led) ∙ over,
      )

module _ {ℓ κ} {L : Type ℓ} (E : Type κ) (levels : Levels L) (machine : Machine) where
  -- Whatever the command line: where main has set up its logger and the tests, in every state that
  -- main and the threads of the pool come to in any order of their turns, some events bring main
  -- behind the pool's `wait`; then `stop` is set and each of the tests has been submitted and is over,
  -- also those that leave their `start` only once `stop` is set; and the pool's destructor comes from
  -- there to its joins, which some turns of the workers end.
  pub program_ends :
      (until_stop : ℕ → Bool) (args : List Text) (tests : List (Test L))
      → let ctx = (parse levels args).0 in
        (set_up machine ctx).1 ≡ some tests
        → (es : List Event) (s : Program E) → run_tests until_stop ctx tests es ≡ some s
        → (fs : List Event) × (t : Program E) × (run_pooled until_stop ctx.seconds s fs ≡ some t)
          × (t.harness.phase ≡ closed)
          × (t.harness.stop ≡ true)
          × (length t.harness.tasks ≡ length tests)
          × (live t.harness.tasks ≡ 0)
          × ((destroy t.pool).1 ≡ joins_workers)
          × Leaves silent (destroy t.pool).0
  unfolding set_up
  program_ends until_stop args tests made es s ran =
      let ctx = (parse levels args).0 in
      let valid = parse-IsValid levels args in
      let n = length tests in
      let allowed = allowed_max ctx.max_threads valid.threads_bounds in
      let few = with_main-length machine (make_own machine (main_told ctx)).1 ctx tests made in
      let fits : n ≤ Base.int_max = omega (arith, few) in
      let (fs, t, ran_on, at) =
        pooled_main_ends until_stop ctx.max_threads ctx.seconds n es s allowed fits ran in
      let whole = run-append until_stop ctx.max_threads ctx.seconds es fs _ s ran ∙ ran_on in
      let gone =
        pool-IsDestroyed until_stop ctx.max_threads ctx.seconds n (es ++ fs) t allowed whole at in
      let over = all_over until_stop ctx.max_threads ctx.seconds n (es ++ fs) t allowed whole at in
      (fs, t, ran_on, at, over.0, over.1, over.2, gone.0, gone.1)
