-- ===== src/ThreadPool/Settled.antt =====
-- A pool behind its `wait`, and its destructor.
use spdlog_stress_test.Prelude.{
  ℕ, zero, suc, ◌≡◌, ◌≢◌, refl, ap, sym, subst, ◌∙◌, true, List, [], ◌∷◌, Option, none, some,
  Bool-cases, inl, inr,
}
use spdlog_stress_test.ThreadPool as Base
use spdlog_stress_test.ThreadPool.{
  Phase, running, catching, finishing, spawned, gone, ThreadPool, take_task, worker_turn, turn_at,
  is_done, all_gone, WaitResult, blocked, wait, wait_in, rethrow, begin_stop,
}
use spdlog_stress_test.ThreadPool.Counting.{occurs}
use spdlog_stress_test.ThreadPool.Invariant.{Inv}
use spdlog_stress_test.ThreadPool.Due.{silent, phase_at}
use spdlog_stress_test.ThreadPool.Modes.{Fits}
use spdlog_stress_test.ThreadPool.Events.{run, destroy, joins_workers, stop_if, after_wait}
use spdlog_stress_test.ThreadPool.Leaving.{
  all_idle, done_empty, idle_of_none_held, begin_stop-Leaves, Leaves,
}

module _ {κ} {E : Type κ} where
  -- No thread has anything to do, and no exception is to be thrown.
  abbrev pub Settled : Option ℕ → ThreadPool ℕ E → Type κ
  Settled none p = p.worker_threads ≡ []
  Settled (some n) p =
      (p.shared.queued_tasks ≡ [])
      × (p.shared.in_progress_tasks ≡ [])
      × (all_idle p.worker_threads ≡ true)
      × (p.shared.first_exception ≡ none)

  rethrow-Settled :
      (n : ℕ) (o : Option E) (p : ThreadPool ℕ E)
      → p.shared.first_exception ≡ o
      → (p.shared.queued_tasks ≡ []) × (p.shared.in_progress_tasks ≡ [])
      → all_idle p.worker_threads ≡ true
      → Settled (some n) (rethrow o p).0
  unfolding rethrow
  rethrow-Settled n none p at e idle = (e.0, e.1, idle, at)
  rethrow-Settled n (some x) p at e idle = (e.0, e.1, idle, refl)

  wait_in-Settled :
      (max : Option ℕ) (p : ThreadPool ℕ E)
      → Fits max p
      → Inv p
      → (wait_in max p).1 ≢ blocked
      → Settled max (wait_in max p).0
  unfolding wait_in
  wait_in-Settled none p s v over = elim (Bool-cases (all_gone p.worker_threads)) [
    | inl left ↦ simp left refl
    | inr busy ↦ absurd (over (simp busy refl))
  ]
  wait_in-Settled (some n) p s v over = elim (Bool-cases (is_done p.shared)) [
    | inl done ↦
        let e = done_empty p.shared.queued_tasks p.shared.in_progress_tasks done in
        simp done (
          rethrow-Settled n p.shared.first_exception p refl e (
            idle_of_none_held p.worker_threads s.workers_only
              (λ i. sym (v.marked i) ∙ ap (occurs i) e.1)))
    | inr busy ↦ absurd (over (simp busy refl))
  ]

  pub wait-Settled :
      (max : Option ℕ) (p : ThreadPool ℕ E)
      → p.max_threads ≡ max
      → Fits max p
      → Inv p
      → (wait p).1 ≢ blocked
      → Settled max (wait p).0
  unfolding wait
  wait-Settled max p e s v over =
      subst (λ m. Settled max (wait_in m p).0) (sym e)
        (wait_in-Settled max p s v (λ h. over (ap (λ m. (wait_in m p).1) e ∙ h)))

  -- An idle thread takes a turn.
  turn_at-idle :
      (i : ℕ) (ws : List (Phase ℕ E)) (p : ThreadPool ℕ E)
      → p.shared.queued_tasks ≡ []
      → all_idle ws ≡ true
      → ((turn_at silent i ws p).0 ≡ p) × (all_idle (turn_at silent i ws p).1 ≡ true)
  unfolding turn_at worker_turn take_task
  turn_at-idle i [] p e h = (refl, refl)
  turn_at-idle zero (Phase.waiting ∷ ws) p e h = elim (Bool-cases p.shared.stopping) [
    | inl down ↦ rw (e, down) (refl, h)
    | inr up ↦ rw (e, up) (refl, h)
  ]
  turn_at-idle zero (gone ∷ ws) p e h = (refl, h)
  turn_at-idle (suc i) (Phase.waiting ∷ ws) p e h = turn_at-idle i ws p e h
  turn_at-idle (suc i) (gone ∷ ws) p e h = turn_at-idle i ws p e h
  turn_at-idle i (running t ∷ ws) p e h = cc
  turn_at-idle i (catching t x ∷ ws) p e h = cc
  turn_at-idle i (finishing t ∷ ws) p e h = cc
  turn_at-idle i (spawned f ∷ ws) p e h = cc

  pub turn-Settled :
      (max : Option ℕ) (i : ℕ) (p : ThreadPool ℕ E)
      → Settled max p
      → Settled max (Base.turn silent i p)
  unfolding Base.turn turn_at
  turn-Settled none i p s = rw s refl
  turn-Settled (some n) i p s =
      let (same, idle) = turn_at-idle i p.worker_threads p s.0 s.2 in
      (
        ap (λ q. q.shared.queued_tasks) same ∙ s.0,
        ap (λ q. q.shared.in_progress_tasks) same ∙ s.1,
        idle,
        ap (λ q. q.shared.first_exception) same ∙ s.3,
      )

  idle_at :
      (i : ℕ) (ws : List (Phase ℕ E)) → all_idle ws ≡ true → all_idle (phase_at i ws ∷ []) ≡ true
  idle_at i [] h = refl
  idle_at zero (Phase.waiting ∷ ws) h = refl
  idle_at zero (gone ∷ ws) h = refl
  idle_at (suc i) (Phase.waiting ∷ ws) h = idle_at i ws h
  idle_at (suc i) (gone ∷ ws) h = idle_at i ws h
  idle_at i (running t ∷ ws) h = cc
  idle_at i (catching t x ∷ ws) h = cc
  idle_at i (finishing t ∷ ws) h = cc
  idle_at i (spawned f ∷ ws) h = cc

  pub Settled-idle :
      (max : Option ℕ) (i : ℕ) (p : ThreadPool ℕ E)
      → Settled max p
      → all_idle (phase_at i p.worker_threads ∷ []) ≡ true
  Settled-idle none i p s = rw s refl
  Settled-idle (some n) i p s = idle_at i p.worker_threads s.2

  -- The destructor comes to its joins, and some turns of the workers end these.
  pub destroy-Settled :
      (max : Option ℕ) (p : ThreadPool ℕ E)
      → p.max_threads ≡ max
      → Settled max p
      → ((destroy p).1 ≡ joins_workers) × Leaves silent (destroy p).0
  unfolding run destroy wait wait_in after_wait stop_if rethrow
  destroy-Settled none p e s =
      rw (e, s) (refl, ([], record p { max_threads = none; worker_threads = [] }, refl, refl, refl))
  destroy-Settled (some n) p e s =
      rw (e, s.0, s.1, s.3)
        (
          refl,
          begin_stop-Leaves silent
              (record p {
                max_threads = some n;
                shared = record p.shared {
                  queued_tasks = [];
                  in_progress_tasks = [];
                  first_exception = none;
                };
              })
              refl s.2,
        )
