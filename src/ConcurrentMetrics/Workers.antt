-- ===== src/ConcurrentMetrics/Workers.antt =====
-- `run` of concurrent_metrics.h, its worker threads and its reporter, a turn at a time: a turn is a
-- read of the two flags, or one event created, with the flush that it may cause, or a report, or the
-- start of a thread, which may fail, or the joins behind them all.
pub mod Counts
pub mod Conservation
pub mod Returning
pub mod Exact
pub mod Left
pub mod Turns
pub mod Ending
use spdlog_stress_test.Prelude.{
  ℕ, Bool, true, false, ◌||◌, ◌&&◌, List, [], ◌∷◌, ◌++◌, Option, none, some, leb, if◌then◌else◌,
  length,
}
use spdlog_stress_test.ConcurrentMetrics.{Doubles, Event, flush}

-- The three workers.
pub data WorkerId : Type 0 where
  first second third : WorkerId

pub data Phase : Type 0 where
  not_started : Phase
  checking : Phase
  creating : Phase
  last_flush : Phase
  gone : Phase

pub record Worker {ℓ} (D : Type ℓ) : Type ℓ where
  pub phase : Phase
  pub unreported_events : List (Event D)

pub data Reporter : Type 0 where
  not_started checking reporting last_report gone : Reporter

-- Where `run` stands: about to start a worker, or the reporter; at the joins; or behind them, with
-- or without the `runtime_error`.
pub data Caller : Type 0 where
  starting : WorkerId → Caller
  starting_reporter joining returned threw : Caller

-- The members that the threads share, the threads, and two records of what happened: the events
-- created, and those of workers that an exception ended.
pub record System {ℓ} (D : Type ℓ) : Type ℓ where
  pub stop : Bool
  pub internal_stop : Bool
  pub shared_data : Option (Event D)
  pub workers : WorkerId → Worker D
  pub reporter : Reporter
  pub caller : Caller
  pub reports : List (Option (Event D))
  pub created : List (Event D)
  pub lost : List (Event D)

abbrev pub event_batch_size : ℕ
event_batch_size = 64

abbrev pub update {ℓ} : {A : Type ℓ} → (WorkerId → A) → WorkerId → A → WorkerId → A
update f first a first = a
update f first a other = f other
update f second a second = a
update f second a other = f other
update f third a third = a
update f third a other = f other

abbrev pub initial {ℓ} : {D : Type ℓ} → System D
initial = record {
  stop = false;
  internal_stop = false;
  shared_data = none;
  workers = λ i. record { phase = not_started; unreported_events = [] };
  reporter = Reporter.not_started;
  caller = starting first;
  reports = [];
  created = [];
  lost = [];
}

-- An exception while an event is created, or in the last flush, ends the worker, and asks all to stop.
pub fail_turn {ℓ} : {D : Type ℓ} → WorkerId → Phase → System D → System D
fail_turn i creating s = record s {
  internal_stop = true;
  workers = update s.workers i (record { phase = gone; unreported_events = [] });
  lost = s.lost ++ (s.workers i).unreported_events;
}
fail_turn i last_flush s = record s {
  internal_stop = true;
  workers = update s.workers i (record { phase = gone; unreported_events = [] });
  lost = s.lost ++ (s.workers i).unreported_events;
}
fail_turn i _ s = s

abbrev pub after_start : WorkerId → Caller
after_start first = starting second
after_start second = starting third
after_start third = starting_reporter

abbrev pub worker_over : Phase → Bool
worker_over not_started = true
worker_over gone = true
worker_over _ = false

abbrev pub reporter_over : Reporter → Bool
reporter_over Reporter.not_started = true
reporter_over Reporter.gone = true
reporter_over _ = false

module _ {ℓ} {D : Type ℓ} where
  -- The joins wait for every thread that was started.
  abbrev pub all_over : System D → Bool
  all_over s =
      worker_over (s.workers first).phase
      && worker_over (s.workers second).phase
      && worker_over (s.workers third).phase
      && reporter_over s.reporter

  -- A worker that cannot be started ends the loop; the Boolean says whether the start succeeds.
  pub caller_turn : Caller → Bool → System D → System D
  caller_turn (starting i) true s = record s {
    workers = update s.workers i (record (s.workers i) { phase = checking });
    caller = after_start i;
  }
  caller_turn (starting i) false s = record s { internal_stop = true; caller = starting_reporter }
  caller_turn starting_reporter true s = record s { reporter = Reporter.checking; caller = joining }
  caller_turn starting_reporter false s = record s { internal_stop = true; caller = joining }
  caller_turn joining b s =
      if all_over s then record s { caller = if s.internal_stop then threw else returned } else s
  caller_turn returned b s = s
  caller_turn threw b s = s

  pub reporter_turn : Reporter → System D → System D
  reporter_turn Reporter.checking s = record s {
    reporter = if s.stop || s.internal_stop then last_report else reporting;
  }
  reporter_turn reporting s = record s {
    reporter = Reporter.checking;
    reports = s.reports ++ s.shared_data ∷ [];
  }
  reporter_turn last_report s = record s {
    reporter = Reporter.gone;
    reports = s.reports ++ s.shared_data ∷ [];
  }
  reporter_turn _ s = s

  -- An exception in a report.
  pub reporter_fail : Reporter → System D → System D
  reporter_fail reporting s = record s { internal_stop = true; reporter = Reporter.gone }
  reporter_fail last_report s = record s { internal_stop = true; reporter = Reporter.gone }
  reporter_fail _ s = s

pub data Move {ℓ} (D : Type ℓ) : Type ℓ where
  calls : Bool → Move D
  works : WorkerId → Event D → Move D
  fails : WorkerId → Move D
  reports_now : Move D
  report_fails : Move D
  stops : Move D

module _ {ℓ} {D : Type ℓ} (doubles : Doubles D) where
  -- The new event joins the batch; a full batch is flushed and cleared.
  create_event : WorkerId → Event D → List (Event D) → System D → System D
  unfolding flush
  create_event i e batch s =
      let full = leb event_batch_size (length (batch ++ e ∷ [])) in
      record s {
        shared_data = if full then flush doubles (batch ++ e ∷ []) s.shared_data else s.shared_data;
        workers =
            update s.workers i (record {
              phase = checking;
              unreported_events = if full then [] else batch ++ e ∷ [];
            });
        created = s.created ++ e ∷ [];
      }

  pub worker_turn : WorkerId → Event D → Phase → System D → System D
  unfolding create_event
  worker_turn i e checking s = record s {
    workers = update s.workers i (record (s.workers i) {
      phase = if s.stop || s.internal_stop then last_flush else creating;
    });
  }
  worker_turn i e creating s = create_event i e (s.workers i).unreported_events s
  worker_turn i e last_flush s = record s {
    shared_data = flush doubles (s.workers i).unreported_events s.shared_data;
    workers = update s.workers i (record { phase = gone; unreported_events = [] });
  }
  worker_turn i e gone s = s
  worker_turn i e not_started s = s

  pub step : System D → Move D → System D
  unfolding caller_turn worker_turn fail_turn reporter_turn reporter_fail
  step s (calls b) = caller_turn s.caller b s
  step s (works i e) = worker_turn i e (s.workers i).phase s
  step s (fails i) = fail_turn i (s.workers i).phase s
  step s reports_now = reporter_turn s.reporter s
  step s report_fails = reporter_fail s.reporter s
  step s stops = record s { stop = true }

  unfoldable pub run : System D → List (Move D) → System D
  unfolding step
  run s [] = s
  run s (m ∷ ms) = run (step s m) ms
