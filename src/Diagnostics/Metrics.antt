-- ===== src/Diagnostics/Metrics.antt =====
-- The metrics that the collector leaves, and the counts that are logged.
use spdlog_stress_test.Prelude.{
  ◌∙◌, ap, ℕ, suc, zero, ◌+◌, ◌≡◌, refl, ap, ◌∙◌, Bool, false, List, [], ◌∷◌, ◌++◌, arith, is_empty,
  length, ◌==◌, if◌then◌else◌, codes, Bool-cases, inl, inr,
}
use spdlog_stress_test.ThreadPair.{Event, launch}
use spdlog_stress_test.ThreadPair.Lifecycle.{run-keeps}
use spdlog_stress_test.Diagnostics.{
  Doubles, integer, double, label, Metrics, Line, reported, summary, Shared, fresh, report_round,
  summarise, update_metrics, collect_round, run,
}

-- A report shows three metrics, and the summary three, or none where there was no round.
abbrev pub ShowsThree : List Line → Type 0
ShowsThree [] = Unit
ShowsThree (reported n t ∷ ls) = (n ≡ 3) × ShowsThree ls
ShowsThree (summary i n ∷ ls) = (n ≡ (if i == 0 then 0 else 3)) × ShowsThree ls

ShowsThree-append : (ls ms : List Line) → ShowsThree ls → ShowsThree ms → ShowsThree (ls ++ ms)
ShowsThree-append [] ms h k = k
ShowsThree-append (reported n t ∷ ls) ms h k = (h.0, ShowsThree-append ls ms h.1 k)
ShowsThree-append (summary i n ∷ ls) ms h k = (h.0, ShowsThree-append ls ms h.1 k)

suc_is_next : (n : ℕ) → suc n ≡ n + 1
suc_is_next n = omega arith

module _ {ℓ} {D : Type ℓ} (doubles : Doubles D) (walk : Metrics D → Metrics D) (stress : Bool) where
  open doubles use {of_int, div}

  -- The metrics behind the round of number `i`.
  abbrev pub metrics_of_round : ℕ → Metrics D
  metrics_of_round i =
      (codes "iteration", integer i)
      ∷ (codes "rate", double (div (of_int i) (of_int (i + 1))))
      ∷ (codes "label", label (if stress then codes "stress" else codes "normal"))
      ∷ []

  abbrev pub metrics_after : ℕ → Metrics D
  metrics_after zero = []
  metrics_after (suc i) = metrics_of_round i

  update_metrics-after :
      (i n : ℕ) → update_metrics doubles walk stress i (metrics_after n) ≡ metrics_of_round i
  unfolding update_metrics
  update_metrics-after i zero = refl
  update_metrics-after i (suc n) = refl

  pub record Inv (s : Shared D) : Type ℓ where
    pub current : s.metrics ≡ metrics_after s.iteration
    pub unused : s.iteration ≡ 0 → s.log_buffer ≡ []
    pub shown : ShowsThree s.log

  collect_round-Inv : (s : Shared D) → Inv s → Inv (collect_round doubles walk stress s)
  unfolding collect_round
  collect_round-Inv s v = record {
    current =
        ap (update_metrics doubles walk stress s.iteration) v.current
        ∙ update_metrics-after s.iteration s.iteration
        ∙ ap metrics_after (suc_is_next s.iteration);
    unused = λ h. absurd (omega arith);
    shown = v.shown;
  }

  length-metrics_after : (n : ℕ) → length (metrics_after n) ≡ (if n == 0 then 0 else 3)
  length-metrics_after zero = refl
  length-metrics_after (suc n) = ground arith

  -- Where the buffer is not empty, there has been a round.
  used_buffer : (s : Shared D) → Inv s → is_empty s.log_buffer ≡ false → (s.iteration == 0) ≡ false
  used_buffer s v filled = elim (Bool-cases (s.iteration == 0)) [
    | inl none_yet ↦ cc (ap is_empty (v.unused (ground arith)), filled)
    | inr some_round ↦ some_round
  ]

  report_round-shown : (s : Shared D) → Inv s → ShowsThree (report_round s).log
  unfolding report_round
  report_round-shown s v = elim (Bool-cases (is_empty s.log_buffer)) [
    | inl none_left ↦ simp none_left v.shown
    | inr some_left ↦ simp some_left (
        ShowsThree-append s.log (reported (length s.metrics) s.log_buffer ∷ []) v.shown (
          ap length v.current
              ∙ length-metrics_after s.iteration
              ∙ ap (λ b. if b then 0 else 3) (used_buffer s v some_left),
          tt,
        ))
  ]

  report_round-Inv : (s : Shared D) → Inv s → Inv (report_round s)
  unfolding report_round
  report_round-Inv s v = record {
    current = v.current;
    unused = λ h. refl;
    shown = report_round-shown s v;
  }

  summarise-Inv : (s : Shared D) → Inv s → Inv (summarise s)
  unfolding summarise
  summarise-Inv s v = record {
    current = v.current;
    unused = v.unused;
    shown =
        ShowsThree-append s.log (summary s.iteration (length s.metrics) ∷ []) v.shown
          (ap length v.current ∙ length-metrics_after s.iteration, tt);
  }

  -- Under every schedule: once the collector has made a round, the metrics are exactly "iteration",
  -- "rate" and "label" with the values of its latest round; every report shows three metrics, and the
  -- summary shows three, or none if there was no round.
  pub metrics_current :
      (es : List Event)
      → let s = (run doubles walk stress fresh es).shared in
        (s.metrics ≡ metrics_after s.iteration) × ShowsThree s.log
  unfolding run
  metrics_current es =
      let v =
        run-keeps (collect_round doubles walk stress) report_round summarise Inv collect_round-Inv
          report_round-Inv summarise-Inv (launch fresh) es
          (record { current = refl; unused = λ h. refl; shown = tt }) in
      (v.current, v.shown)
