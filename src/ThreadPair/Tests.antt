-- ===== src/ThreadPair/Tests.antt =====
-- A first thread that runs, and a second that cannot be started.
use spdlog_stress_test.Prelude.{arith, ℕ, ◌+◌, ◌≡◌, refl, true, false, List, [], ◌∷◌}
use spdlog_stress_test.ThreadPair.{
  launch, Event, starts, joins, first_turns, second_turns, stops, threw, run, gone, not_started,
}
use spdlog_stress_test.ThreadPair.Turns.{has_ended}
use spdlog_stress_test.ThreadPair.Ending.{after, stop_ends_pair}
use spdlog_stress_test.ThreadPair.Lifecycle.{IsKnown, launch-IsKnown}

abbrev next : ℕ → ℕ
next n = n + 1

abbrev half_started : List Event
half_started =
    starts true
    ∷ first_turns
    ∷ first_turns
    ∷ starts false
    ∷ joins
    ∷ stops
    ∷ first_turns
    ∷ joins
    ∷ []

half_end :
    run next next next (launch 0) half_started
    ≡ record { stop = true; caller = threw; first = gone; second = not_started; shared = 1 }
unfolding run
half_end = refl

launch-IsKnown_example : IsKnown (run next next next (launch 0) half_started)
launch-IsKnown_example = launch-IsKnown next next next 0 half_started

-- `stop` is set before the second thread is started.
abbrev first_events : List Event
first_events = starts true ∷ first_turns ∷ stops ∷ []

abbrev last_events : List Event
last_events = second_turns ∷ first_turns ∷ joins ∷ first_turns ∷ second_turns ∷ []

stop_ends_pair_example :
    has_ended
      (after next next next
        (after next next next
          (after next next next
            (after next next next (launch 0) first_events)
            (starts true ∷ starts true ∷ []))
          last_events)
        (joins ∷ joins ∷ [])).caller
    ≡ true
unfolding run
stop_ends_pair_example =
    stop_ends_pair next next next 0 first_events (starts true ∷ starts true ∷ []) last_events refl
      (omega arith) (omega arith) (omega arith)
