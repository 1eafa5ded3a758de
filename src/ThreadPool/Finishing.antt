-- ===== src/ThreadPool/Finishing.antt =====
-- The tasks of a pool come to their end: some schedule of its workers leaves `wait` unblocked.
use mathlib.Core.Option.{some_inj}
use spdlog_stress_test.Prelude.{
  is_empty, ◌&&◌, dec_lt, ℕ, zero, suc, ◌≤◌, ◌<◌, ◌≡◌, refl, subst, ◌∙◌, Bool, List, [], ◌∷◌,
  Option, none, some, arith, Bool-cases, inl, inr, true, false, length,
}
use spdlog_stress_test.ThreadPool.{
  QueuedTask, Phase, waiting, running, catching, finishing, spawned, gone, ThreadPool, create,
  workers, submit, submit_in, turn, turn_at, worker_turn, wait, wait_in, rethrow, is_done,
}
use spdlog_stress_test.ThreadPool.Events.{Event, submits, turns, waits, stops, run, step}
use spdlog_stress_test.ThreadPool.Counting.{occurs, held_ids}
use spdlog_stress_test.ThreadPool.Invariant.{Inv, turn-Inv}
use spdlog_stress_test.ThreadPool.History.{run-Inv, create-Inv, then_run-eq-some, step-max}
use spdlog_stress_test.ThreadPool.Progress.{
  total_weight, work, is_worker, all_workers, occurs-held_ids-le, IsStaffed, Turned, busy_turn,
  idle_turn,
}

abbrev pub only_turns {ℓ} : {F : Type ℓ} → List (Event F) → Bool
only_turns [] = true
only_turns (turns i ∷ es) = only_turns es
only_turns (_ ∷ es) = false

module _ {ℓ κ} {F : Type ℓ} {E : Type κ} (outcome : F → Option E) where
  queue_left :
      (q : List (QueuedTask F)) (js : List ℕ) (ws : List (Phase F E))
      → is_empty q && is_empty js ≡ false
      → ((j : ℕ) → occurs j js ≡ occurs j (held_ids ws))
      → total_weight ws ≡ 0
      → 1 ≤ length q
  queue_left (t ∷ ts) js ws h marked none_busy = omega arith
  queue_left [] [] ws h marked none_busy = cc
  queue_left [] (j ∷ js) ws h marked none_busy =
      absurd (ground (arith, marked j, occurs-held_ids-le j ws))

  pub next_turn :
      (p : ThreadPool F E)
      → Inv p
      → IsStaffed p
      → is_done p.shared ≡ false
      → (i : ℕ) × Turned outcome i p.worker_threads p
  next_turn p v s h = elim (dec_lt 0 (total_weight p.worker_threads)) [
    | yes busy ↦ busy_turn outcome p.worker_threads p busy
    | no idle ↦
        let left =
          queue_left p.shared.queued_tasks p.shared.in_progress_tasks p.worker_threads h v.marked
            (omega arith) in
        (
          0,
          idle_turn outcome p.worker_threads p p.shared.queued_tasks refl left s.someone
              (omega arith) s.workers_only,
        )
  ]

  turn-IsStaffed :
      (i : ℕ) (p : ThreadPool F E)
      → IsStaffed p
      → Turned outcome i p.worker_threads p
      → IsStaffed (turn outcome i p)
  unfolding turn
  turn-IsStaffed i p s n = record {
    workers_only = n.still_workers s.workers_only;
    someone = omega (arith, n.same_length, s.someone);
    running_on = n.same_stopping ∙ s.running_on;
  }

  pub work-turn :
      (i : ℕ) (p : ThreadPool F E)
      → Turned outcome i p.worker_threads p
      → work (turn outcome i p) < work p
  unfolding turn
  work-turn i p n = n.nearer

  -- A schedule of turns alone that ends in a state where `wait` is not blocked.
  abbrev pub Finishes : ThreadPool F E → Type (ℓ ⊔ κ)
  Finishes p =
      (es : List (Event F)) × (q : ThreadPool F E) × (only_turns es ≡ true)
      × (run outcome p es ≡ some q)
      × (is_done q.shared ≡ true)

  Finishes-turn : (i : ℕ) (p : ThreadPool F E) → Finishes (turn outcome i p) → Finishes p
  unfolding run step
  Finishes-turn i p (es, q, o, r, d) = (turns i ∷ es, q, o, r, d)

  finish_within : (k : ℕ) (p : ThreadPool F E) → work p < k → Inv p → IsStaffed p → Finishes p
  unfolding run
  finish_within zero p h v s = absurd (omega arith)
  finish_within (suc k) p h v s = elim (Bool-cases (is_done p.shared)) [
    | inl over ↦ ([], p, refl, refl, over)
    | inr not_yet ↦
        let (i, n) = next_turn p v s not_yet in
        Finishes-turn i p (
          finish_within k (turn outcome i p) (omega (arith, work-turn i p n))
            (turn-Inv outcome i p v) (turn-IsStaffed i p s n))
  ]

all_workers-create {ℓ κ} :
    (F : Type ℓ) (E : Type κ) (n : ℕ) → all_workers (workers {F = F} {E = E} n) ≡ true
all_workers-create F E zero = refl
all_workers-create F E (suc n) = all_workers-create F E n

-- No event of the list is the destructor's.
abbrev pub no_stops {ℓ} : {F : Type ℓ} → List (Event F) → Bool
no_stops [] = true
no_stops (stops ∷ es) = false
no_stops (_ ∷ es) = no_stops es

no_stops-split {ℓ} :
    {F : Type ℓ} (e : Event F) (es : List (Event F))
    → no_stops (e ∷ es) ≡ true
    → (no_stops (e ∷ []) ≡ true) × (no_stops es ≡ true)
no_stops-split (submits f) es h = (refl, h)
no_stops-split (turns i) es h = (refl, h)
no_stops-split waits es h = (refl, h)
no_stops-split stops es h = cc

module _ {ℓ κ} {F : Type ℓ} {E : Type κ} where
  pub create-IsStaffed : (n : ℕ) → IsStaffed (create {F = F} {E = E} (some (suc n)))
  create-IsStaffed n = record {
    workers_only = all_workers-create F E n;
    someone = omega arith;
    running_on = refl;
  }

  pub submit_in-IsStaffed :
      (max : Option ℕ) (n : ℕ) (f : F) (p q : ThreadPool F E)
      → max ≡ some n
      → submit_in max f p ≡ some q
      → IsStaffed p
      → IsStaffed q
  unfolding submit
  submit_in-IsStaffed none n f p q e h s = cc
  submit_in-IsStaffed (some m) n f p q e h s = record {
    workers_only = ground arith;
    someone = ground arith;
    running_on = ground arith;
  }

  pub wait_in-IsStaffed :
      (max : Option ℕ) (n : ℕ) (p : ThreadPool F E)
      → max ≡ some n
      → IsStaffed p
      → IsStaffed (wait_in max p).0
  unfolding wait_in rethrow
  wait_in-IsStaffed none n p e s = cc
  wait_in-IsStaffed (some m) n p e s = record {
    workers_only = ground arith;
    someone = ground arith;
    running_on = ground arith;
  }

  -- While the pool is not stopping, a worker stays one.
  worker_turn-is_worker :
      (outcome : F → Option E) (w : Phase F E) (p : ThreadPool F E)
      → is_worker w ≡ true
      → p.shared.stopping ≡ false
      → (is_worker (worker_turn outcome w p).1 ≡ true)
        × ((worker_turn outcome w p).0.shared.stopping ≡ false)
  unfolding worker_turn
  worker_turn-is_worker outcome waiting p w s = ground arith
  worker_turn-is_worker outcome (running t) p w s = ground arith
  worker_turn-is_worker outcome (catching t e) p w s = ground arith
  worker_turn-is_worker outcome (finishing t) p w s = ground arith
  worker_turn-is_worker outcome (spawned f) p w s = cc
  worker_turn-is_worker outcome gone p w s = cc

  turn_at-all_workers :
      (outcome : F → Option E) (i : ℕ) (ws : List (Phase F E)) (p : ThreadPool F E)
      → all_workers ws ≡ true
      → p.shared.stopping ≡ false
      → let r = turn_at outcome i ws p in
        (all_workers r.1 ≡ true) × (length r.1 ≡ length ws) × (r.0.shared.stopping ≡ false)
  unfolding turn_at
  turn_at-all_workers outcome i [] p h s = (refl, refl, s)
  turn_at-all_workers outcome zero (w ∷ ws) p h s =
      ground (arith, worker_turn-is_worker outcome w p)
  turn_at-all_workers outcome (suc i) (w ∷ ws) p h s =
      ground (arith, turn_at-all_workers outcome i ws p)

  pub turn-keeps_staff :
      (outcome : F → Option E) (i : ℕ) (p : ThreadPool F E)
      → IsStaffed p
      → IsStaffed (turn outcome i p)
  unfolding turn
  turn-keeps_staff outcome i p s =
      let (all, same, on) =
        turn_at-all_workers outcome i p.worker_threads p s.workers_only s.running_on in
      record { workers_only = all; someone = omega (arith, same, s.someone); running_on = on }

  step-IsStaffed :
      (outcome : F → Option E) (n : ℕ) (p q : ThreadPool F E) (e : Event F)
      → p.max_threads ≡ some n
      → no_stops (e ∷ []) ≡ true
      → step outcome p e ≡ some q
      → IsStaffed p
      → IsStaffed q
  unfolding step submit wait
  step-IsStaffed outcome n p q (submits f) m c h s = submit_in-IsStaffed p.max_threads n f p q m h s
  step-IsStaffed outcome n p q (turns i) m c h s =
      subst IsStaffed (some_inj.0 h) (turn-keeps_staff outcome i p s)
  step-IsStaffed outcome n p q waits m c h s =
      subst IsStaffed (some_inj.0 h) (wait_in-IsStaffed p.max_threads n p m s)
  step-IsStaffed outcome n p q stops m c h s = cc

  pub run-IsStaffed :
      (outcome : F → Option E) (n : ℕ) (p q : ThreadPool F E) (es : List (Event F))
      → p.max_threads ≡ some n
      → no_stops es ≡ true
      → run outcome p es ≡ some q
      → IsStaffed p
      → IsStaffed q
  unfolding run
  run-IsStaffed outcome n p q [] m c h s = subst IsStaffed (some_inj.0 h) s
  run-IsStaffed outcome n p q (e ∷ es) m c h s =
      let (p', stepped, rest) = then_run-eq-some (λ r. run outcome r es) (step outcome p e) h in
      let (now, later) = no_stops-split e es c in
      run-IsStaffed outcome n p' q es (step-max outcome p p' e stepped ∙ m) later rest
        (step-IsStaffed outcome n p p' e m now stepped s)

  -- No deadlock: from every state that a pool with at least one worker reaches before its
  -- destructor, some schedule of its workers alone, whatever the tasks throw, ends in a state where
  -- `wait` is not blocked.
  pub tasks_finish :
      (outcome : F → Option E) (n : ℕ) (es : List (Event F)) (p : ThreadPool F E)
      → no_stops es ≡ true
      → run outcome (create (some (suc n))) es ≡ some p
      → Finishes outcome p
  tasks_finish outcome n es p c h =
      finish_within outcome (suc (work p)) p (omega arith)
        (run-Inv outcome (create (some (suc n))) p es h (create-Inv (some (suc n))))
        (run-IsStaffed outcome (suc n) (create (some (suc n))) p es refl c h (create-IsStaffed n))
