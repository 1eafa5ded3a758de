-- ===== src/ConcurrentMetrics/Workers/Returning.antt =====
-- Where `run` returns without its `runtime_error`, every event is in the shared data.
use spdlog_stress_test.Prelude.{
  ◌≢◌, ℕ, ◌≡◌, refl, ap, Bool, true, false, List, [], ◌∷◌, ◌||◌, arith, Bool-cases, inl, inr,
  if◌then◌else◌,
}
use spdlog_stress_test.ConcurrentMetrics.{Doubles, Event, u32}
use spdlog_stress_test.ConcurrentMetrics.Sums.{processed_sum, failed_sum, processed_of, failed_of}
use spdlog_stress_test.ConcurrentMetrics.Workers.{
  WorkerId, first, second, third, Phase, not_started, checking, creating, last_flush, gone, Worker,
  System, Reporter, reporting, last_report, Caller, starting, starting_reporter, joining, returned,
  threw, update, initial, create_event, worker_turn, fail_turn, after_start, worker_over,
  reporter_over, all_over, caller_turn, reporter_turn, reporter_fail, Move, calls, works, fails,
  reports_now, report_fails, stops, step, run,
}
use spdlog_stress_test.ConcurrentMetrics.Workers.Counts.{pending}
use spdlog_stress_test.ConcurrentMetrics.Workers.Conservation.{counts_conserved}

after_start-ne : (i : WorkerId) → after_start i ≢ returned
after_start-ne first h = cc
after_start-ne second h = cc
after_start-ne third h = cc

module _ {ℓ} {D : Type ℓ} where
  -- A worker that does not run holds no event.
  abbrev pub IsEmptied : Worker D → Type ℓ
  IsEmptied w = worker_over w.phase ≡ true → w.unreported_events ≡ []

  pub record Inv (s : System D) : Type ℓ where
    pub none_lost : s.internal_stop ≡ false → s.lost ≡ []
    pub emptied : (i : WorkerId) → IsEmptied (s.workers i)
    pub ended : s.caller ≡ returned → (all_over s ≡ true) × (s.internal_stop ≡ false)

  update-IsEmptied :
      (ws : WorkerId → Worker D) (i : WorkerId) (w : Worker D)
      → IsEmptied w
      → ((j : WorkerId) → IsEmptied (ws j))
      → (j : WorkerId) → IsEmptied (update ws i w j)
  update-IsEmptied ws first w e es first = e
  update-IsEmptied ws first w e es second = es second
  update-IsEmptied ws first w e es third = es third
  update-IsEmptied ws second w e es first = es first
  update-IsEmptied ws second w e es second = e
  update-IsEmptied ws second w e es third = es third
  update-IsEmptied ws third w e es first = es first
  update-IsEmptied ws third w e es second = es second
  update-IsEmptied ws third w e es third = e

  -- Once `run` has returned no worker runs.
  over_of_all :
      (s : System D) (i : WorkerId) → all_over s ≡ true → worker_over (s.workers i).phase ≡ true
  over_of_all s first h = ground arith
  over_of_all s second h = ground arith
  over_of_all s third h = ground arith

  not_returned :
      (s : System D) (i : WorkerId)
      → Inv s
      → worker_over (s.workers i).phase ≡ false
      → s.caller ≢ returned
  not_returned s i v busy r = cc (over_of_all s i (v.ended r).0, busy)

  fail_turn-Inv :
      (i : WorkerId) (p : Phase) (s : System D)
      → (s.workers i).phase ≡ p
      → Inv s
      → Inv (fail_turn i p s)
  unfolding fail_turn
  fail_turn-Inv i creating s at v = record {
    none_lost = λ h. cc;
    emptied = update-IsEmptied s.workers i _ (λ h. refl) v.emptied;
    ended = λ r. absurd (not_returned s i v (ap worker_over at) r);
  }
  fail_turn-Inv i last_flush s at v = record {
    none_lost = λ h. cc;
    emptied = update-IsEmptied s.workers i _ (λ h. refl) v.emptied;
    ended = λ r. absurd (not_returned s i v (ap worker_over at) r);
  }
  fail_turn-Inv i not_started s at v = v
  fail_turn-Inv i checking s at v = v
  fail_turn-Inv i gone s at v = v

  caller_turn-Inv :
      (c : Caller) (b : Bool) (s : System D) → s.caller ≡ c → Inv s → Inv (caller_turn c b s)
  unfolding caller_turn
  caller_turn-Inv (starting i) true s at v = record {
    none_lost = v.none_lost;
    emptied = update-IsEmptied s.workers i _ (λ h. cc) v.emptied;
    ended = λ r. absurd (after_start-ne i r);
  }
  caller_turn-Inv (starting i) false s at v = record {
    none_lost = λ h. cc;
    emptied = v.emptied;
    ended = λ r. cc;
  }
  caller_turn-Inv starting_reporter true s at v = record {
    none_lost = v.none_lost;
    emptied = v.emptied;
    ended = λ r. cc;
  }
  caller_turn-Inv starting_reporter false s at v = record {
    none_lost = λ h. cc;
    emptied = v.emptied;
    ended = λ r. cc;
  }
  caller_turn-Inv joining b s at v = elim (Bool-cases (all_over s)) [
    | inr busy ↦ simp busy v
    | inl over ↦
        simp over (record {
          none_lost = v.none_lost;
          emptied = v.emptied;
          ended = λ r. (over, ground arith);
        })
  ]
  caller_turn-Inv returned b s at v = v
  caller_turn-Inv threw b s at v = v

  reporter_busy : (s : System D) → Inv s → reporter_over s.reporter ≡ false → s.caller ≢ returned
  reporter_busy s v busy r = cc (reporter_of_all s (v.ended r).0, busy)
    where
      reporter_of_all : (s : System D) → all_over s ≡ true → reporter_over s.reporter ≡ true
      reporter_of_all s h = ground arith

  reporter_turn-Inv :
      (p : Reporter) (s : System D) → s.reporter ≡ p → Inv s → Inv (reporter_turn p s)
  unfolding reporter_turn
  reporter_turn-Inv Reporter.checking s at v = record {
    none_lost = v.none_lost;
    emptied = v.emptied;
    ended = λ r. absurd (reporter_busy s v (ap reporter_over at) r);
  }
  reporter_turn-Inv reporting s at v = record {
    none_lost = v.none_lost;
    emptied = v.emptied;
    ended = λ r. absurd (reporter_busy s v (ap reporter_over at) r);
  }
  reporter_turn-Inv last_report s at v = record {
    none_lost = v.none_lost;
    emptied = v.emptied;
    ended = λ r. absurd (reporter_busy s v (ap reporter_over at) r);
  }
  reporter_turn-Inv Reporter.not_started s at v = v
  reporter_turn-Inv Reporter.gone s at v = v

  reporter_fail-Inv :
      (p : Reporter) (s : System D) → s.reporter ≡ p → Inv s → Inv (reporter_fail p s)
  unfolding reporter_fail
  reporter_fail-Inv reporting s at v = record {
    none_lost = λ h. cc;
    emptied = v.emptied;
    ended = λ r. absurd (reporter_busy s v (ap reporter_over at) r);
  }
  reporter_fail-Inv last_report s at v = record {
    none_lost = λ h. cc;
    emptied = v.emptied;
    ended = λ r. absurd (reporter_busy s v (ap reporter_over at) r);
  }
  reporter_fail-Inv Reporter.checking s at v = v
  reporter_fail-Inv Reporter.not_started s at v = v
  reporter_fail-Inv Reporter.gone s at v = v

  pending-nil :
      (sum : List (Event D) → ℕ) (ws : WorkerId → Worker D)
      → sum [] ≡ 0
      → ((i : WorkerId) → (ws i).unreported_events ≡ [])
      → pending sum ws ≡ 0
  pending-nil sum ws h e = omega (arith, ap sum (e first), ap sum (e second), ap sum (e third))

module _ {ℓ} {D : Type ℓ} (doubles : Doubles D) where
  worker_turn-Inv :
      (i : WorkerId) (e : Event D) (p : Phase) (s : System D)
      → (s.workers i).phase ≡ p
      → Inv s
      → Inv (worker_turn doubles i e p s)
  unfolding worker_turn create_event
  worker_turn-Inv i e checking s at v = record {
    none_lost = v.none_lost;
    emptied =
        update-IsEmptied s.workers i _ (λ h. cc (worker_asks (s.stop || s.internal_stop), h))
          v.emptied;
    ended = λ r. absurd (not_returned s i v (ap worker_over at) r);
  }
    where
      worker_asks : (b : Bool) → worker_over (if b then last_flush else creating) ≡ false
      worker_asks true = refl
      worker_asks false = refl
  worker_turn-Inv i e creating s at v = record {
    none_lost = v.none_lost;
    emptied = update-IsEmptied s.workers i _ (λ h. cc) v.emptied;
    ended = λ r. absurd (not_returned s i v (ap worker_over at) r);
  }
  worker_turn-Inv i e last_flush s at v = record {
    none_lost = v.none_lost;
    emptied = update-IsEmptied s.workers i _ (λ h. refl) v.emptied;
    ended = λ r. absurd (not_returned s i v (ap worker_over at) r);
  }
  worker_turn-Inv i e gone s at v = v
  worker_turn-Inv i e not_started s at v = v

  step-Inv : (s : System D) (m : Move D) → Inv s → Inv (step doubles s m)
  unfolding step
  step-Inv s (calls b) v = caller_turn-Inv s.caller b s refl v
  step-Inv s (works i e) v = worker_turn-Inv i e (s.workers i).phase s refl v
  step-Inv s (fails i) v = fail_turn-Inv i (s.workers i).phase s refl v
  step-Inv s reports_now v = reporter_turn-Inv s.reporter s refl v
  step-Inv s report_fails v = reporter_fail-Inv s.reporter s refl v
  step-Inv s stops v = record { none_lost = v.none_lost; emptied = v.emptied; ended = v.ended }

  run-Inv : (s : System D) (ms : List (Move D)) → Inv s → Inv (run doubles s ms)
  unfolding run
  run-Inv s [] v = v
  run-Inv s (m ∷ ms) v = run-Inv (step doubles s m) ms (step-Inv s m v)

  initial-Inv : Inv (initial {D = D})
  initial-Inv = record { none_lost = λ h. refl; emptied = λ i h. refl; ended = λ r. cc }

  -- Under every schedule, where `run` has returned without an exception: every thread is over, no
  -- event was lost or is left with a worker, and the processed and the failed counts of the shared
  -- data are, modulo 2^32, the sums over all events created.
  pub returns_complete :
      (ms : List (Move D))
      → (run doubles initial ms).caller ≡ returned
      → let s = run doubles initial ms in
        (all_over s ≡ true)
        × (s.lost ≡ [])
        × ((i : WorkerId) → (s.workers i).unreported_events ≡ [])
        × (u32 (processed_of s.shared_data) ≡ u32 (processed_sum s.created))
        × (u32 (failed_of s.shared_data) ≡ u32 (failed_sum s.created))
  returns_complete ms r =
      let s = run doubles initial ms in
      let v = run-Inv initial ms initial-Inv in
      let counts = counts_conserved doubles ms in
      let lost = v.none_lost (v.ended r).1 in
      let held = λ (i : WorkerId). v.emptied i (over_of_all s i (v.ended r).0) in
      (
        (v.ended r).0,
        lost,
        held,
        omega (
          arith,
          (counts.0),
          ap processed_sum lost,
          pending-nil processed_sum s.workers refl held,
        ),
        omega (arith, (counts.1), ap failed_sum lost, pending-nil failed_sum s.workers refl held),
      )
