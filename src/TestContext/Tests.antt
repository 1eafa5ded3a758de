-- ===== src/TestContext/Tests.antt =====
-- Command lines: levels are texts, as `from_str` would read them.
use spdlog_stress_test.Prelude.{
  true, some, arith, decimal, ◌≡◌, refl, false, not, List, [], ◌∷◌, Text, codes, text_eq,
}
use spdlog_stress_test.TestContext.Numbers.{strtol}
use spdlog_stress_test.TestContext.{Levels, invalid_seconds, contains, parse, should_run}
use spdlog_stress_test.TestContext.Bounds.{IsValid, parse-IsValid}
use spdlog_stress_test.TestContext.RoundTrip.{
  Settings, command_line, IsPrintable, parse-command_line,
}

abbrev text_levels : Levels Text
text_levels = record {
  from_str = λ t. t;
  off = codes "off";
  info = codes "info";
  same_level = text_eq;
}

-- The value of an option is taken whatever it looks like: here `--stress` is.
stress_swallowed :
    ((parse text_levels (codes "--seconds" ∷ codes "--stress" ∷ [])).0.stress ≡ false)
    × ((parse text_levels (codes "--seconds" ∷ codes "--stress" ∷ [])).1
        ≡ invalid_seconds (codes "--stress") 5 ∷ [])
unfolding parse strtol
stress_swallowed = (refl, refl)

parse-IsValid_example :
    IsValid
      (parse text_levels (
        codes "--seconds"
        ∷ codes "0"
        ∷ codes "--maxthreads"
        ∷ codes "3"
        ∷ codes "--queuesize"
        ∷ [])).0
parse-IsValid_example =
    parse-IsValid text_levels
      (codes "--seconds" ∷ codes "0" ∷ codes "--maxthreads" ∷ codes "3" ∷ codes "--queuesize" ∷ [])

abbrev ignored : List Text
ignored = codes "level" ∷ codes "timebase" ∷ []

abbrev settings : Settings
settings = record {
  seconds = 120;
  stress = true;
  level_name = codes "debug";
  queue_size = 65536;
  filename = some (codes "all.log");
  max_threads = some 4;
  ignored = ignored;
}

printed :
    command_line settings
    ≡ codes "--seconds"
      ∷ codes "120"
      ∷ codes "--loglevel"
      ∷ codes "debug"
      ∷ codes "--queuesize"
      ∷ codes "65536"
      ∷ codes "--filename"
      ∷ codes "all.log"
      ∷ codes "--maxthreads"
      ∷ codes "4"
      ∷ codes "--stress"
      ∷ codes "--ignoretests"
      ∷ codes "level,timebase"
      ∷ []
unfolding command_line decimal
printed = refl

settings-IsPrintable : IsPrintable text_levels settings
settings-IsPrintable = record {
  seconds_bounds = omega arith;
  queue_bounds = omega arith;
  threads_bounds = omega arith;
  known_level = refl;
  names = ((refl, refl), ((refl, refl), tt));
}

parse-command_line_example :
    let r = parse text_levels (command_line settings) in
    (r.1 ≡ [])
    × (r.0.seconds ≡ 120)
    × (r.0.stress ≡ true)
    × (r.0.log_level ≡ codes "debug")
    × (r.0.queue_size ≡ 65536)
    × (r.0.filename ≡ some (codes "all.log"))
    × (r.0.max_threads ≡ some 4)
    × (should_run r.0 (codes "level") ≡ not (contains ignored (codes "level")))
parse-command_line_example =
    parse-command_line text_levels settings (codes "level") settings-IsPrintable
