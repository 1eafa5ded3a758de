-- ===== src/Diagnostics/Reporting.antt =====
-- The text that is reported is the text that was collected.
use spdlog_stress_test.Prelude.{
  ◌≡◌, refl, ap, sym, ◌∙◌, Bool, List, [], ◌∷◌, ◌++◌, append-nil, append_assoc, Text, is_empty,
  length, Bool-cases, inl, inr,
}
use spdlog_stress_test.ThreadPair.{Event, launch}
use spdlog_stress_test.ThreadPair.Lifecycle.{run-keeps}
use spdlog_stress_test.Diagnostics.{
  true, Doubles, Metrics, Line, reported, summary, Shared, fresh, report_round, summarise, snapshot,
  collect_round, run, update_metrics,
}

-- The texts of the reports, one after the other.
abbrev pub reported_text : List Line → Text
reported_text [] = []
reported_text (reported n t ∷ ls) = t ++ reported_text ls
reported_text (summary i n ∷ ls) = reported_text ls

abbrev pub concat : List Text → Text
concat [] = []
concat (t ∷ ts) = t ++ concat ts

reported_text-append :
    (ls ms : List Line) → reported_text (ls ++ ms) ≡ reported_text ls ++ reported_text ms
reported_text-append [] ms = refl
reported_text-append (reported n t ∷ ls) ms =
    ap (λ x. t ++ x) (reported_text-append ls ms)
    ∙ sym (append_assoc t (reported_text ls) (reported_text ms))
reported_text-append (summary i n ∷ ls) ms = reported_text-append ls ms

concat-append : (ts us : List Text) → concat (ts ++ us) ≡ concat ts ++ concat us
concat-append [] us = refl
concat-append (t ∷ ts) us =
    ap (λ x. t ++ x) (concat-append ts us) ∙ sym (append_assoc t (concat ts) (concat us))

nil_of_empty : (t : Text) → is_empty t ≡ true → t ≡ []
nil_of_empty [] h = refl
nil_of_empty (c ∷ t) h = cc

module _ {ℓ} {D : Type ℓ} where
  abbrev pub IsConserved : Shared D → Type 0
  IsConserved s = reported_text s.log ++ s.log_buffer ≡ concat s.snapshots

  report_round-IsConserved : (s : Shared D) → IsConserved s → IsConserved (report_round s)
  unfolding report_round
  report_round-IsConserved s h = elim (Bool-cases (is_empty s.log_buffer)) [
    | inl none_left ↦
        simp none_left
          (ap (λ t. reported_text s.log ++ t) (sym (nil_of_empty s.log_buffer none_left)) ∙ h)
    | inr some_left ↦ simp some_left (
        append-nil _
        ∙ reported_text-append s.log (reported (length s.metrics) s.log_buffer ∷ [])
        ∙ ap (λ t. reported_text s.log ++ t) (append-nil s.log_buffer)
        ∙ h)
  ]

  summarise-IsConserved : (s : Shared D) → IsConserved s → IsConserved (summarise s)
  unfolding summarise
  summarise-IsConserved s h =
      ap (λ x. x ++ s.log_buffer)
        (reported_text-append s.log (summary s.iteration (length s.metrics) ∷ [])
          ∙ append-nil (reported_text s.log))
      ∙ h

module _ {ℓ} {D : Type ℓ} (doubles : Doubles D) (walk : Metrics D → Metrics D) (stress : Bool) where
  collect_round-IsConserved :
      (s : Shared D) → IsConserved s → IsConserved (collect_round doubles walk stress s)
  unfolding collect_round
  collect_round-IsConserved s h =
      let text =
        snapshot doubles walk stress (update_metrics doubles walk stress s.iteration s.metrics) in
      sym (append_assoc (reported_text s.log) s.log_buffer text)
      ∙ ap (λ x. x ++ text) h
      ∙ sym (
          concat-append s.snapshots (text ∷ [])
          ∙ ap (λ x. concat s.snapshots ++ x) (append-nil text))

  -- Under every schedule: the texts of the reports, one after the other, followed by what is in the
  -- buffer, are the snapshots that the collector appended, in their order: nothing is lost, repeated
  -- or mixed.
  pub reports_conserved :
      (es : List Event)
      → let s = (run doubles walk stress fresh es).shared in
        reported_text s.log ++ s.log_buffer ≡ concat s.snapshots
  unfolding run
  reports_conserved es =
      run-keeps (collect_round doubles walk stress) report_round summarise IsConserved
        collect_round-IsConserved report_round-IsConserved summarise-IsConserved (launch fresh) es
        refl
