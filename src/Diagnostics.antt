-- ===== src/Diagnostics.antt =====
-- C++ Project/src/include/diagnostics.h: a collector that writes metrics and appends their text to a
-- buffer, and a reporter that drains the buffer. `std::scoped_lock` takes both mutexes, so a locked
-- block is one step. `double` and the order in which the hash map is walked are parameters; the
-- counts are below 2^63.
pub mod Reporting
pub mod Metrics
mod Tests
use spdlog_stress_test.Prelude.{
  ℕ, ◌+◌, Bool, true, false, List, [], ◌∷◌, ◌++◌, is_empty, length, if◌then◌else◌, Text, codes,
  text_eq, decimal,
}
use spdlog_stress_test.ThreadPair
use spdlog_stress_test.ThreadPair.{System, Event, launch}

-- What the program uses of `double`.
pub record Doubles {ℓ} (D : Type ℓ) : Type ℓ where
  pub of_int : ℕ → D
  pub div : D → D → D
  pub to_text : D → Text

-- The alternatives of the `std::variant`.
pub data MetricValue {ℓ} (D : Type ℓ) : Type ℓ where
  integer : ℕ → MetricValue D
  double : D → MetricValue D
  label : Text → MetricValue D

abbrev pub Metrics {ℓ} : Type ℓ → Type ℓ
Metrics D = List (Text × MetricValue D)

-- A line of the log.
pub data Line : Type 0 where
  reported : ℕ → Text → Line
  summary : ℕ → ℕ → Line

-- The members and the atomic counter, the log, and a record of the snapshots that were appended.
pub record Shared {ℓ} (D : Type ℓ) : Type ℓ where
  pub iteration : ℕ
  pub metrics : Metrics D
  pub log_buffer : Text
  pub log : List Line
  pub snapshots : List Text

abbrev pub fresh {ℓ} : {D : Type ℓ} → Shared D
fresh = record { iteration = 0; metrics = []; log_buffer = []; log = []; snapshots = [] }

module _ {ℓ} {D : Type ℓ} where
  abbrev pub has_key : Text → Metrics D → Bool
  has_key k [] = false
  has_key k ((j, v) ∷ m) = if text_eq j k then true else has_key k m

  -- `m[k] = v`.
  pub assign : Text → MetricValue D → Metrics D → Metrics D
  assign k v [] = (k, v) ∷ []
  assign k v ((j, w) ∷ m) =
      let rest = assign k v m in if text_eq j k then (j, v) ∷ m else (j, w) ∷ rest

  -- `emplace` changes nothing where the key is there; the Boolean says whether it was inserted.
  pub emplace : Text → MetricValue D → Metrics D → Metrics D × Bool
  emplace k v m = if has_key k m then (m, false) else (m ++ (k, v) ∷ [], true)

  pub set_iteration : ℕ → Metrics D → Metrics D
  unfolding emplace assign
  set_iteration i m =
      let r = emplace (codes "iteration") (integer i) m in
      if r.1 then r.0 else assign (codes "iteration") (integer i) r.0

  -- One hold of both locks; an empty buffer is not logged.
  pub report_round : Shared D → Shared D
  report_round s = record s {
    log_buffer = [];
    log =
        if is_empty s.log_buffer
        then s.log
        else s.log ++ reported (length s.metrics) s.log_buffer ∷ [];
  }

  -- The summary behind the joins.
  pub summarise : Shared D → Shared D
  summarise s = record s { log = s.log ++ summary s.iteration (length s.metrics) ∷ [] }

module _ {ℓ} {D : Type ℓ} (doubles : Doubles D) (walk : Metrics D → Metrics D) (stress : Bool) where
  open doubles use {of_int, div, to_text}

  abbrev pub format_metric : MetricValue D → Text
  format_metric (integer n) = decimal n
  format_metric (double d) = to_text d
  format_metric (label t) = t

  -- The metrics as the collector sets them in its round `i`.
  pub update_metrics : ℕ → Metrics D → Metrics D
  unfolding set_iteration assign
  update_metrics i m =
      assign (codes "label") (label (if stress then codes "stress" else codes "normal"))
        (assign (codes "rate") (double (div (of_int i) (of_int (i + 1)))) (set_iteration i m))

  abbrev pub append_metrics : Metrics D → Text
  append_metrics [] = []
  append_metrics ((k, v) ∷ m) = k ++ codes "=" ++ format_metric v ++ codes " " ++ append_metrics m

  abbrev pub snapshot : Metrics D → Text
  snapshot m = append_metrics (walk m) ++ 10 ∷ []

  pub collect_round : Shared D → Shared D
  unfolding update_metrics
  collect_round s =
      let m = update_metrics s.iteration s.metrics in
      record s {
        iteration = s.iteration + 1;
        metrics = m;
        log_buffer = s.log_buffer ++ snapshot m;
        snapshots = s.snapshots ++ snapshot m ∷ [];
      }

  pub run : Shared D → List Event → System (Shared D)
  unfolding ThreadPair.run collect_round report_round summarise
  run s es = ThreadPair.run collect_round report_round summarise (launch s) es
