-- ===== src/ThreadPool/Due.antt =====
-- The functions that a pool has still to run: in its queue, at a worker, or in a thread of their own.
use mathlib.Core.Option.{some_inj}
use spdlog_stress_test.Prelude.{
  ℕ, zero, suc, ◌+◌, ◌≡◌, refl, ap, sym, ◌∙◌, List, [], ◌∷◌, ◌++◌, Option, none, some, arith, map,
  count-append, ◌==◌, if◌then◌else◌, Bool-cases, inl, inr,
}
use spdlog_stress_test.ThreadPool.{
  QueuedTask, Phase, waiting, running, catching, finishing, spawned, gone, ThreadPool, submit,
  submit_in, enqueue, with_shared, int_max, take_task, ran, spawned_turn, worker_turn, turn_at,
  turn,
}
use spdlog_stress_test.ThreadPool.Counting.{occurs}

abbrev pub functions : List (QueuedTask ℕ) → List ℕ
functions = map (λ t. t.function)

functions-append :
    (i f n : ℕ) (q : List (QueuedTask ℕ))
    → occurs i (functions (q ++ record { id = n; function = f } ∷ []))
      ≡ occurs i (functions q) + (if f == i then 1 else 0)
functions-append i f n [] = ground arith
functions-append i f n (t ∷ ts) = omega (arith, functions-append i f n ts)

module _ {κ} {E : Type κ} where
  -- The outcome of a task that throws nothing.
  abbrev pub silent : ℕ → Option E
  silent f = none

  -- The thread at a place, or one that is gone.
  abbrev pub phase_at : ℕ → List (Phase ℕ E) → Phase ℕ E
  phase_at i [] = gone
  phase_at zero (w ∷ ws) = w
  phase_at (suc i) (w ∷ ws) = phase_at i ws

  abbrev pub active : Phase ℕ E → List ℕ
  active (running t) = t.function ∷ []
  active (spawned f) = f ∷ []
  active _ = []

  abbrev pub actives : List (Phase ℕ E) → List ℕ
  actives [] = []
  actives (w ∷ ws) = active w ++ actives ws

  -- How often a function is still to be run.
  abbrev pub due : ℕ → ThreadPool ℕ E → ℕ
  due i p = occurs i (functions p.shared.queued_tasks) + occurs i (actives p.worker_threads)

  taken-due :
      (i : ℕ) (q : List (QueuedTask ℕ)) (p : ThreadPool ℕ E)
      → p.shared.queued_tasks ≡ q
      → let r = take_task q p in
        occurs i (functions r.0.shared.queued_tasks) + occurs i (active r.1)
        ≡ occurs i (functions q)
  unfolding take_task
  taken-due i [] p e = ground (arith, ap functions e)
  taken-due i (t ∷ ts) p e = ground arith

  -- After a turn of a worker, what it was running is no longer due.
  worker_turn-due :
      (i : ℕ) (w : Phase ℕ E) (p : ThreadPool ℕ E)
      → let r = worker_turn silent w p in
        occurs i (functions r.0.shared.queued_tasks) + occurs i (active r.1)
        ≡ occurs i (functions p.shared.queued_tasks)
  unfolding worker_turn ran spawned_turn
  worker_turn-due i waiting p = taken-due i p.shared.queued_tasks p refl
  worker_turn-due i (running t) p = omega arith
  worker_turn-due i (catching t e) p = omega arith
  worker_turn-due i (finishing t) p = omega arith
  worker_turn-due i (spawned f) p = omega arith
  worker_turn-due i gone p = omega arith

  turn_at-due :
      (i j : ℕ) (ws : List (Phase ℕ E)) (p : ThreadPool ℕ E)
      → let r = turn_at silent j ws p in
        occurs i (functions r.0.shared.queued_tasks)
          + occurs i (actives r.1)
          + occurs i (active (phase_at j ws))
        ≡ occurs i (functions p.shared.queued_tasks) + occurs i (actives ws)
  unfolding turn_at
  turn_at-due i j [] p = omega arith
  turn_at-due i zero (w ∷ ws) p =
      let r = worker_turn silent w p in
      omega (
        arith,
        worker_turn-due i w p,
        count-append (λ k. k == i) (active w) (actives ws),
        count-append (λ k. k == i) (active r.1) (actives ws),
      )
  turn_at-due i (suc j) (w ∷ ws) p = omega (
    arith,
    turn_at-due i j ws p,
    count-append (λ k. k == i) (active w) (actives ws),
    count-append (λ k. k == i) (active w) (actives (turn_at silent j ws p).1),
  )

  -- A turn takes from what is due only what the worker was running.
  pub turn-due :
      (i j : ℕ) (p : ThreadPool ℕ E)
      → due i (turn silent j p) + occurs i (active (phase_at j p.worker_threads)) ≡ due i p
  unfolding turn
  turn-due i j p = turn_at-due i j p.worker_threads p

  actives-append :
      (i f : ℕ) (ws : List (Phase ℕ E))
      → occurs i (actives (ws ++ spawned f ∷ []))
        ≡ occurs i (actives ws) + (if f == i then 1 else 0)
  actives-append i f [] = ground arith
  actives-append i f (w ∷ ws) = omega (
    arith,
    actives-append i f ws,
    count-append (λ k. k == i) (active w) (actives ws),
    count-append (λ k. k == i) (active w) (actives (ws ++ spawned f ∷ [])),
  )

  submit_in-due :
      (max : Option ℕ) (i f : ℕ) (p q : ThreadPool ℕ E)
      → submit_in max f p ≡ some q
      → due i q ≡ due i p + (if f == i then 1 else 0)
  unfolding submit_in with_shared enqueue
  submit_in-due none i f p q =
      λ h. ap (due i) (sym (some_inj.0 h)) ∙ omega (arith, actives-append i f p.worker_threads)
  submit_in-due (some n) i f p q = elim (Bool-cases (p.shared.next_task_id == int_max)) [
    | inl full ↦ simp full (λ h. cc h)
    | inr room ↦ simp room (λ h.
        ap (due i) (sym (some_inj.0 h))
        ∙ omega (arith, functions-append i f p.shared.next_task_id p.shared.queued_tasks))
  ]

  pub submit-due :
      (i f : ℕ) (p q : ThreadPool ℕ E)
      → submit f p ≡ some q
      → due i q ≡ due i p + (if f == i then 1 else 0)
  unfolding submit
  submit-due i f p q h = submit_in-due p.max_threads i f p q h
