-- ===== src/ThreadPool/History.antt =====
-- What every run of a pool keeps, and what a `wait` that is over promises.
use mathlib.Core.Option.{some_inj}
use spdlog_stress_test.Prelude.{
  ℕ, zero, suc, ◌≡◌, refl, ap, sym, subst, ◌∙◌, List, [], ◌∷◌, Option, none, some, arith,
  Bool-cases, inl, inr, true,
}
use spdlog_stress_test.ThreadPool.{
  gone, waiting, spawned, finishing, catching, QueuedTask, spawned_turn, submit_in, take_task,
  running, Phase, ThreadPool, create, workers, threads_of, submit, turn, turn_at, worker_turn, wait,
  wait_in, begin_stop, is_done, all_gone, rethrow,
}
use spdlog_stress_test.ThreadPool.Events.{then_run, Event, submits, turns, waits, stops, step, run}
use spdlog_stress_test.ThreadPool.Counting.{occurs, held_ids}
use spdlog_stress_test.ThreadPool.Invariant.{Keeps-cong, Inv, turn-Inv, submit-Inv}

held_ids-workers {ℓ κ} :
    (F : Type ℓ) (E : Type κ) (n : ℕ) → held_ids (workers {F = F} {E = E} n) ≡ []
held_ids-workers F E zero = refl
held_ids-workers F E (suc n) = held_ids-workers F E n

held_ids-threads_of {ℓ κ} :
    (F : Type ℓ) (E : Type κ) (max : Option ℕ) → held_ids (threads_of {F = F} {E = E} max) ≡ []
held_ids-threads_of F E none = refl
held_ids-threads_of F E (some n) = held_ids-workers F E n

module _ {ℓ κ} {F : Type ℓ} {E : Type κ} where
  pub create-Inv : (max : Option ℕ) → Inv (create {F = F} {E = E} max)
  create-Inv max =
      rw (held_ids-threads_of F E max)
        (record { numbered = refl; owned = λ i. omega arith; marked = λ i. refl; noted = refl })

  rethrow-Inv : (o : Option E) (p : ThreadPool F E) → Inv p → Inv (rethrow o p).0
  unfolding rethrow
  rethrow-Inv none p v = v
  rethrow-Inv (some e) p v = record {
    numbered = v.numbered;
    owned = v.owned;
    marked = v.marked;
    noted = refl;
  }

  all_gone-held_ids : (ws : List (Phase F E)) → all_gone ws ≡ true → held_ids ws ≡ []
  all_gone-held_ids [] h = refl
  all_gone-held_ids (Phase.gone ∷ ws) h = all_gone-held_ids ws h
  all_gone-held_ids (w ∷ ws) h = cc

  wait_in-Inv : (max : Option ℕ) (p : ThreadPool F E) → Inv p → Inv (wait_in max p).0
  unfolding wait_in
  wait_in-Inv none p v = elim (Bool-cases (all_gone p.worker_threads)) [
    | inl over ↦ simp over (
        Keeps-cong (λ i. ap (occurs i) (all_gone-held_ids p.worker_threads over))
          (record { numbered = v.numbered; owned = v.owned; marked = v.marked; noted = v.noted }))
    | inr not_yet ↦ simp not_yet v
  ]
  wait_in-Inv (some n) p v = elim (Bool-cases (is_done p.shared)) [
    | inl over ↦ simp over (rethrow-Inv p.shared.first_exception p v)
    | inr not_yet ↦ simp not_yet v
  ]

  pub wait-Inv : (p : ThreadPool F E) → Inv p → Inv (wait p).0
  unfolding wait
  wait-Inv p v = wait_in-Inv p.max_threads p v

  step-Inv :
      (outcome : F → Option E) (p q : ThreadPool F E) (e : Event F)
      → step outcome p e ≡ some q
      → Inv p
      → Inv q
  unfolding step wait
  step-Inv outcome p q (submits f) h v = submit-Inv f p q h v
  step-Inv outcome p q (turns i) h v = subst Inv (some_inj.0 h) (turn-Inv outcome i p v)
  step-Inv outcome p q waits h v = subst Inv (some_inj.0 h) (wait-Inv p v)
  step-Inv outcome p q stops h v =
      subst Inv (some_inj.0 h)
        (record { numbered = v.numbered; owned = v.owned; marked = v.marked; noted = v.noted })

  pub then_run-eq-some :
      (k : ThreadPool F E → Option (ThreadPool F E)) (o : Option (ThreadPool F E))
      {q : ThreadPool F E}
      → then_run k o ≡ some q
      → (p : ThreadPool F E) × (o ≡ some p) × (k p ≡ some q)
  then_run-eq-some k none h = cc
  then_run-eq-some k (some p) h = (p, refl, h)

  pub run-Inv :
      (outcome : F → Option E) (p q : ThreadPool F E) (es : List (Event F))
      → run outcome p es ≡ some q
      → Inv p
      → Inv q
  unfolding run
  run-Inv outcome p q [] h v = subst Inv (some_inj.0 h) v
  run-Inv outcome p q (e ∷ es) h v =
      let (p', stepped, rest) = then_run-eq-some (λ r. run outcome r es) (step outcome p e) h in
      run-Inv outcome p' q es rest (step-Inv outcome p p' e stepped v)

-- The pool keeps its maximum.
module _ {ℓ κ} {F : Type ℓ} {E : Type κ} where
  take_task-max :
      (q : List (QueuedTask F)) (p : ThreadPool F E) → (take_task q p).0.max_threads ≡ p.max_threads
  unfolding take_task
  take_task-max [] p = refl
  take_task-max (t ∷ ts) p = refl

  spawned_turn-max :
      (o : Option E) (p : ThreadPool F E) → (spawned_turn o p).0.max_threads ≡ p.max_threads
  unfolding spawned_turn
  spawned_turn-max none p = refl
  spawned_turn-max (some e) p = refl

  worker_turn-max :
      (outcome : F → Option E) (w : Phase F E) (p : ThreadPool F E)
      → (worker_turn outcome w p).0.max_threads ≡ p.max_threads
  unfolding worker_turn
  worker_turn-max outcome waiting p = take_task-max p.shared.queued_tasks p
  worker_turn-max outcome (running t) p = refl
  worker_turn-max outcome (catching t e) p = refl
  worker_turn-max outcome (finishing t) p = refl
  worker_turn-max outcome (spawned f) p = spawned_turn-max (outcome f) p
  worker_turn-max outcome gone p = refl

  turn_at-max :
      (outcome : F → Option E) (i : ℕ) (ws : List (Phase F E)) (p : ThreadPool F E)
      → (turn_at outcome i ws p).0.max_threads ≡ p.max_threads
  unfolding turn_at
  turn_at-max outcome i [] p = refl
  turn_at-max outcome zero (w ∷ ws) p = worker_turn-max outcome w p
  turn_at-max outcome (suc i) (w ∷ ws) p = turn_at-max outcome i ws p

  submit_in-max :
      (max : Option ℕ) (f : F) (p q : ThreadPool F E)
      → submit_in max f p ≡ some q
      → q.max_threads ≡ p.max_threads
  unfolding submit
  submit_in-max none f p q h = ground arith
  submit_in-max (some n) f p q h = ground arith

  wait_in-max :
      (max : Option ℕ) (p : ThreadPool F E) → (wait_in max p).0.max_threads ≡ p.max_threads
  unfolding wait_in rethrow
  wait_in-max none p = ground arith
  wait_in-max (some n) p = ground arith

  pub turn-max :
      (outcome : F → Option E) (i : ℕ) (p : ThreadPool F E)
      → (turn outcome i p).max_threads ≡ p.max_threads
  unfolding turn
  turn-max outcome i p = turn_at-max outcome i p.worker_threads p

  pub submit-max :
      (f : F) (p q : ThreadPool F E) → submit f p ≡ some q → q.max_threads ≡ p.max_threads
  unfolding submit
  submit-max f p q h = submit_in-max p.max_threads f p q h

  pub wait-max : (p : ThreadPool F E) → (wait p).0.max_threads ≡ p.max_threads
  unfolding wait
  wait-max p = wait_in-max p.max_threads p

  pub step-max :
      (outcome : F → Option E) (p q : ThreadPool F E) (e : Event F)
      → step outcome p e ≡ some q
      → q.max_threads ≡ p.max_threads
  unfolding step turn wait submit begin_stop
  step-max outcome p q (submits f) h = submit-max f p q h
  step-max outcome p q (turns i) h =
      ap (λ r. r.max_threads) (sym (some_inj.0 h)) ∙ turn-max outcome i p
  step-max outcome p q waits h = ap (λ r. r.max_threads) (sym (some_inj.0 h)) ∙ wait-max p
  step-max outcome p q stops h = ap (λ r. r.max_threads) (sym (some_inj.0 h))

  pub run-max :
      (outcome : F → Option E) (p q : ThreadPool F E) (es : List (Event F))
      → run outcome p es ≡ some q
      → q.max_threads ≡ p.max_threads
  unfolding run
  run-max outcome p q [] h = ap (λ r. r.max_threads) (sym (some_inj.0 h))
  run-max outcome p q (e ∷ es) h =
      let (p', stepped, rest) = then_run-eq-some (λ r. run outcome r es) (step outcome p e) h in
      run-max outcome p' q es rest ∙ step-max outcome p p' e stepped
