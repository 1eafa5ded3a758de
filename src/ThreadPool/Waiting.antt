-- ===== src/ThreadPool/Waiting.antt =====
-- What the pool promises of the order of its tasks, and what a `wait` that is over promises.
use spdlog_stress_test.Prelude.{
  ◌+◌, ℕ, ◌≡◌, ◌≢◌, refl, ap, sym, ◌∙◌, List, [], ◌∷◌, ◌++◌, Option, none, some, arith, Bool-cases,
  inl, inr, true, append-nil,
}
use spdlog_stress_test.ThreadPool.{
  Shared, ThreadPool, create, wait, wait_in, WaitResult, blocked, returned, rethrown, is_done,
  rethrow,
}
use spdlog_stress_test.ThreadPool.Events.{after_wait, ends_program, destroy, Event, run}
use spdlog_stress_test.ThreadPool.Counting.{occurs, upto, held_ids, ids}
use spdlog_stress_test.ThreadPool.Invariant.{Inv, first_of}
use spdlog_stress_test.ThreadPool.History.{run-Inv, create-Inv, run-max}

-- The result that a list of exceptions asks for: the first one is thrown again.
abbrev pub result_of {κ} : {E : Type κ} → List E → WaitResult E
result_of [] = returned
result_of (e ∷ es) = rethrown e

module _ {ℓ κ} {F : Type ℓ} {E : Type κ} where
  -- What holds where `wait` is over: every task submitted was finished, once, and none is left.
  pub record Over (p : ThreadPool F E) : Type (ℓ ⊔ κ) where
    pub queue : p.shared.queued_tasks ≡ []
    pub progress : p.shared.in_progress_tasks ≡ []
    pub finished_all : (i : ℕ) → occurs i p.finished ≡ occurs i (upto p.shared.next_task_id)

  empty-IsDone :
      (m : Shared F E) → is_done m ≡ true → (m.queued_tasks ≡ []) × (m.in_progress_tasks ≡ [])
  empty-IsDone m h = (ground arith, ground arith)

  done-Over : (p : ThreadPool F E) → Inv p → is_done p.shared ≡ true → Over p
  done-Over p v d = record {
    queue = empty.0;
    progress = empty.1;
    finished_all =
        λ i. omega (arith, v.owned i, v.marked i, ap (occurs i) all_started, none_held i);
  }
    where
      empty : (p.shared.queued_tasks ≡ []) × (p.shared.in_progress_tasks ≡ [])
      empty = empty-IsDone p.shared d

      all_started : p.started ≡ upto p.shared.next_task_id
      all_started =
          sym (append-nil p.started) ∙ ap (λ q. p.started ++ ids q) (sym empty.0) ∙ v.numbered

      none_held : (i : ℕ) → occurs i p.shared.in_progress_tasks ≡ 0
      none_held i = ap (occurs i) empty.1

  rethrow-result :
      (o : Option E) (es : List E) (p : ThreadPool F E)
      → o ≡ first_of es
      → (rethrow o p).1 ≡ result_of es
  unfolding rethrow
  rethrow-result none [] p h = refl
  rethrow-result none (e ∷ es) p h = cc
  rethrow-result (some x) [] p h = cc
  rethrow-result (some x) (e ∷ es) p h = cc

  wait_in-done :
      (max : Option ℕ) (n : ℕ) (p : ThreadPool F E)
      → max ≡ some n
      → Inv p
      → is_done p.shared ≡ true
      → (wait_in max p).1 ≡ result_of p.unreported
  unfolding wait_in
  wait_in-done none n p e v over = cc
  wait_in-done (some m) n p e v over =
      simp over (rethrow-result p.shared.first_exception p.unreported p v.noted)

  wait_in-Over :
      (max : Option ℕ) (n : ℕ) (p : ThreadPool F E)
      → max ≡ some n
      → Inv p
      → (wait_in max p).1 ≢ blocked
      → Over p × ((wait_in max p).1 ≡ result_of p.unreported)
  unfolding wait_in
  wait_in-Over none n p e v h = cc
  wait_in-Over (some m) n p e v h = elim (Bool-cases (is_done p.shared)) [
    | inl over ↦
        simp over
          (done-Over p v over, rethrow-result p.shared.first_exception p.unreported p v.noted)
    | inr not_yet ↦ absurd (h (simp not_yet))
  ]

module _ {ℓ κ} {F : Type ℓ} {E : Type κ} (outcome : F → Option E) where
  -- In every run the tasks are taken from the queue in the order of their submission, each once:
  -- those taken, followed by those in the queue, are the identifiers from 0 in order.
  pub tasks_in_order :
      (max : Option ℕ) (es : List (Event F)) (p : ThreadPool F E)
      → run outcome (create max) es ≡ some p
      → p.started ++ ids p.shared.queued_tasks ≡ upto p.shared.next_task_id
  tasks_in_order max es p h = (run-Inv outcome (create max) p es h (create-Inv max)).numbered

  -- In every run the set of the tasks in progress holds exactly the tasks that workers hold, and a
  -- task that was taken is either finished or held, once.
  pub tasks_accounted :
      (max : Option ℕ) (es : List (Event F)) (p : ThreadPool F E)
      → run outcome (create max) es ≡ some p
      → (i : ℕ)
      → (occurs i p.shared.in_progress_tasks ≡ occurs i (held_ids p.worker_threads))
        × (occurs i p.started ≡ occurs i p.finished + occurs i (held_ids p.worker_threads))
  tasks_accounted max es p h i =
      let v = run-Inv outcome (create max) p es h (create-Inv max) in (v.marked i, v.owned i)

  -- In every run of a pool with a maximum: when `wait` is over, no task is queued or in progress and
  -- every task submitted was finished exactly once; and it throws the first exception that was
  -- caught since the last one was rethrown, or returns if there is none.
  pub wait_complete :
      (n : ℕ) (es : List (Event F)) (p : ThreadPool F E)
      → run outcome (create (some n)) es ≡ some p
      → (wait p).1 ≢ blocked
      → Over p × ((wait p).1 ≡ result_of p.unreported)
  unfolding wait
  wait_complete n es p h over =
      wait_in-Over p.max_threads n p (run-max outcome (create (some n)) p es h)
        (run-Inv outcome (create (some n)) p es h (create-Inv (some n))) over

  after_wait-rethrown :
      (r : WaitResult E) (e : E) (p : ThreadPool F E)
      → r ≡ rethrown e
      → (after_wait p r).1 ≡ ends_program e
  unfolding after_wait
  after_wait-rethrown r e p h = rw h

  -- In every run of a pool with a maximum: where the tasks are done and one of them threw since the
  -- last report, the destructor ends the program.
  pub destroy-ends_program :
      (n : ℕ) (es : List (Event F)) (p : ThreadPool F E) (e : E) (rest : List E)
      → run outcome (create (some n)) es ≡ some p
      → is_done p.shared ≡ true
      → p.unreported ≡ e ∷ rest
      → (destroy p).1 ≡ ends_program e
  unfolding destroy wait
  destroy-ends_program n es p e rest h done thrown = after_wait-rethrown (wait p).1 e (wait p).0 (
      wait_in-done p.max_threads n p (run-max outcome (create (some n)) p es h)
        (run-Inv outcome (create (some n)) p es h (create-Inv (some n))) done
      ∙ ap result_of thrown)
