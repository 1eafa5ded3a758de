-- ===== src/TestContext/RoundTrip.antt =====
-- A command line that is written from given settings, and read back.
use spdlog_stress_test.Prelude.{
  ℕ, ◌-◌, ◌^◌, ◌≡◌, refl, ap, ◌∙◌, Bool, true, false, not, ◌&&◌, List, [], ◌∷◌, Option, none, some,
  arith, All, if◌then◌else◌, Text, codes, text_eq, decimal,
}
use spdlog_stress_test.TestContext.{
  Levels, TestContext, int_max, contains, insert_tokens, parse_args, parse, should_run, defaults,
}
use spdlog_stress_test.TestContext.Bounds.{Within, IsToken}
use spdlog_stress_test.TestContext.Tokens.{join, split-join, contains-insert_tokens}
use spdlog_stress_test.TestContext.Printing.{positive-decimal}

-- What a command line can ask for; the level by its name.
pub record Settings : Type 0 where
  pub seconds : ℕ
  pub stress : Bool
  pub level_name : Text
  pub queue_size : ℕ
  pub filename : Option Text
  pub max_threads : Option ℕ
  pub ignored : List Text

abbrev pub with_stress : Bool → List Text → List Text
with_stress b rest = if b then codes "--stress" ∷ rest else rest

abbrev pub with_filename : Option Text → List Text → List Text
with_filename none rest = rest
with_filename (some f) rest = codes "--filename" ∷ f ∷ rest

abbrev pub with_threads : Option ℕ → List Text → List Text
with_threads none rest = rest
with_threads (some n) rest = codes "--maxthreads" ∷ decimal n ∷ rest

abbrev pub names_option : List Text → List Text
names_option names = codes "--ignoretests" ∷ join names ∷ []

-- The arguments for the settings.
unfoldable pub command_line : Settings → List Text
command_line o =
    codes "--seconds"
    ∷ decimal o.seconds
    ∷ codes "--loglevel"
    ∷ o.level_name
    ∷ codes "--queuesize"
    ∷ decimal o.queue_size
    ∷ with_filename o.filename
        (with_threads o.max_threads (with_stress o.stress (names_option o.ignored)))

module _ {ℓ} {L : Type ℓ} (levels : Levels L) where
  open levels use {from_str, off, same_level}

  pub record IsPrintable (o : Settings) : Type 0 where
    pub seconds_bounds : Within int_max (some o.seconds)
    pub queue_bounds : Within (2 ^ 63 - 1) (some o.queue_size)
    pub threads_bounds : Within int_max o.max_threads
    pub known_level :
        same_level (from_str o.level_name) off && not (text_eq o.level_name (codes "off")) ≡ false
    pub names : All IsToken o.ignored

  -- What is read from them.
  abbrev pub context_of : Settings → TestContext L
  context_of o = record {
    seconds = o.seconds;
    stress = o.stress;
    log_level = from_str o.level_name;
    queue_size = o.queue_size;
    filename = o.filename;
    max_threads = o.max_threads;
    ignore_tests = insert_tokens o.ignored [];
  }

  parse_args-seconds :
      (n : ℕ) (rest : List Text) (ctx : TestContext L)
      → Within int_max (some n)
      → parse_args levels (codes "--seconds" ∷ decimal n ∷ rest) ctx
        ≡ parse_args levels rest (record ctx { seconds = n })
  unfolding parse_args
  parse_args-seconds n rest ctx w = rw (positive-decimal n int_max w.0 w.1 (omega arith)) refl

  parse_args-queue_size :
      (n : ℕ) (rest : List Text) (ctx : TestContext L)
      → Within (2 ^ 63 - 1) (some n)
      → parse_args levels (codes "--queuesize" ∷ decimal n ∷ rest) ctx
        ≡ parse_args levels rest (record ctx { queue_size = n })
  unfolding parse_args
  parse_args-queue_size n rest ctx w =
      rw (positive-decimal n (2 ^ 63 - 1) w.0 w.1 (omega arith)) refl

  parse_args-level :
      (v : Text) (rest : List Text) (ctx : TestContext L)
      → same_level (from_str v) off && not (text_eq v (codes "off")) ≡ false
      → parse_args levels (codes "--loglevel" ∷ v ∷ rest) ctx
        ≡ parse_args levels rest (record ctx { log_level = from_str v })
  unfolding parse_args
  parse_args-level v rest ctx known = rw known refl

  parse_args-filename :
      (f : Option Text) (rest : List Text) (ctx : TestContext L)
      → ctx.filename ≡ none
      → parse_args levels (with_filename f rest) ctx
        ≡ parse_args levels rest (record ctx { filename = f })
  unfolding parse_args
  parse_args-filename none rest ctx h =
      ap (λ g. parse_args levels rest (record ctx { filename = g })) h
  parse_args-filename (some f) rest ctx h = refl

  parse_args-threads :
      (m : Option ℕ) (rest : List Text) (ctx : TestContext L)
      → Within int_max m
      → ctx.max_threads ≡ none
      → parse_args levels (with_threads m rest) ctx
        ≡ parse_args levels rest (record ctx { max_threads = m })
  unfolding parse_args
  parse_args-threads none rest ctx w h =
      ap (λ m. parse_args levels rest (record ctx { max_threads = m })) h
  parse_args-threads (some n) rest ctx w h =
      rw (positive-decimal n int_max w.0 w.1 (omega arith)) refl

  parse_args-stress :
      (b : Bool) (names : List Text) (ctx : TestContext L)
      → ctx.stress ≡ false
      → parse_args levels (with_stress b (names_option names)) ctx
        ≡ parse_args levels (names_option names) (record ctx { stress = b })
  unfolding parse_args
  parse_args-stress true names ctx h = refl
  parse_args-stress false names ctx h =
      ap (λ b. parse_args levels (names_option names) (record ctx { stress = b })) h

  parse_args-names :
      (names : List Text) (ctx : TestContext L)
      → All IsToken names
      → ctx.ignore_tests ≡ []
      → parse_args levels (names_option names) ctx
        ≡ (record ctx { ignore_tests = insert_tokens names [] }, [])
  unfolding parse_args
  parse_args-names names ctx tokens h = rw (split-join names tokens, h) refl

  parse-settings :
      (o : Settings) → IsPrintable o → parse levels (command_line o) ≡ (context_of o, [])
  unfolding parse command_line
  parse-settings o p =
      let flags = with_stress o.stress (names_option o.ignored) in
      let limits = with_threads o.max_threads flags in
      let files = with_filename o.filename limits in
      let sizes = codes "--queuesize" ∷ decimal o.queue_size ∷ files in
      let timed = record (defaults levels) { seconds = o.seconds } in
      let levelled = record timed { log_level = from_str o.level_name } in
      let sized = record levelled { queue_size = o.queue_size } in
      let filed = record sized { filename = o.filename } in
      let limited = record filed { max_threads = o.max_threads } in
      parse_args-seconds o.seconds (codes "--loglevel" ∷ o.level_name ∷ sizes) (defaults levels)
        p.seconds_bounds
      ∙ parse_args-level o.level_name sizes timed p.known_level
      ∙ parse_args-queue_size o.queue_size files levelled p.queue_bounds
      ∙ parse_args-filename o.filename limits sized refl
      ∙ parse_args-threads o.max_threads flags filed p.threads_bounds refl
      ∙ parse_args-stress o.stress o.ignored limited refl
      ∙ parse_args-names o.ignored (record limited { stress = o.stress }) p.names refl

  -- The command line written from settings within their bounds, with a known level and with names that
  -- are not empty and have no comma, is read without a warning into the same settings; and the tests
  -- that do not run are exactly those whose names are to be ignored.
  pub parse-command_line :
      (o : Settings) (name : Text)
      → IsPrintable o
      → let r = parse levels (command_line o) in
        (r.1 ≡ [])
        × (r.0.seconds ≡ o.seconds)
        × (r.0.stress ≡ o.stress)
        × (r.0.log_level ≡ from_str o.level_name)
        × (r.0.queue_size ≡ o.queue_size)
        × (r.0.filename ≡ o.filename)
        × (r.0.max_threads ≡ o.max_threads)
        × (should_run r.0 name ≡ not (contains o.ignored name))
  unfolding should_run
  parse-command_line o name p =
      let e = parse-settings o p in
      (
        ap (λ r. r.1) e,
        ap (λ r. r.0.seconds) e,
        ap (λ r. r.0.stress) e,
        ap (λ r. r.0.log_level) e,
        ap (λ r. r.0.queue_size) e,
        ap (λ r. r.0.filename) e,
        ap (λ r. r.0.max_threads) e,
        ap (λ r. not (contains r.0.ignore_tests name)) e
            ∙ ground (arith, contains-insert_tokens o.ignored [] name p.names),
      )
