-- ===== src/ThreadPool/Progress.antt =====
-- A pool whose workers are at work always has a turn that brings it nearer to its end.
use spdlog_stress_test.Prelude.{
  if◌then◌else◌, ℕ, suc, ◌+◌, ◌*◌, ◌≤◌, ◌<◌, ◌≡◌, refl, ap, Bool, List, [], ◌∷◌, Option, none, some,
  arith, true, false, length, count-append, ◌==◌,
}
use spdlog_stress_test.ThreadPool.{
  QueuedTask, Phase, waiting, running, catching, finishing, spawned, gone, ThreadPool, turn_at,
  worker_turn, take_task, ran,
}
use spdlog_stress_test.ThreadPool.Counting.{occurs, held, held_ids}

-- What is left to do: turns of the threads, and of each task in the queue.
module _ {ℓ κ} {F : Type ℓ} {E : Type κ} where
  abbrev pub weight : Phase F E → ℕ
  weight (running t) = 3
  weight (catching t e) = 2
  weight (finishing t) = 1
  weight _ = 0

  abbrev pub total_weight : List (Phase F E) → ℕ
  total_weight [] = 0
  total_weight (w ∷ ws) = weight w + total_weight ws

  abbrev pub work : ThreadPool F E → ℕ
  work p = 4 * length p.shared.queued_tasks + total_weight p.worker_threads

  -- A thread in `workerLoop`.
  abbrev pub is_worker : Phase F E → Bool
  is_worker (spawned f) = false
  is_worker gone = false
  is_worker _ = true

  abbrev pub all_workers : List (Phase F E) → Bool
  all_workers [] = true
  all_workers (w ∷ ws) = if is_worker w then all_workers ws else false

  occurs-held-le : (j : ℕ) (w : Phase F E) → occurs j (held w) ≤ weight w
  occurs-held-le j (running t) = ground arith
  occurs-held-le j (catching t e) = ground arith
  occurs-held-le j (finishing t) = ground arith
  occurs-held-le j _ = omega arith

  pub occurs-held_ids-le :
      (j : ℕ) (ws : List (Phase F E)) → occurs j (held_ids ws) ≤ total_weight ws
  occurs-held_ids-le j [] = omega arith
  occurs-held_ids-le j (w ∷ ws) = omega (
    arith,
    count-append (λ k. k == j) (held w) (held_ids ws),
    occurs-held-le j w,
    occurs-held_ids-le j ws,
  )

  -- A pool with a maximum, before its destructor.
  pub record IsStaffed (p : ThreadPool F E) : Type (ℓ ⊔ κ) where
    pub workers_only : all_workers p.worker_threads ≡ true
    pub someone : 1 ≤ length p.worker_threads
    pub running_on : p.shared.stopping ≡ false

module _ {ℓ κ} {F : Type ℓ} {E : Type κ} (outcome : F → Option E) where
  -- A turn of one thread among `ws` that brings the pool nearer to its end.
  pub record Nearer (ws ws' : List (Phase F E)) (p p' : ThreadPool F E) : Type (ℓ ⊔ κ) where
    pub nearer :
        4 * length p'.shared.queued_tasks + total_weight ws'
        < 4 * length p.shared.queued_tasks + total_weight ws
    pub same_length : length ws' ≡ length ws
    pub same_stopping : p'.shared.stopping ≡ p.shared.stopping
    pub still_workers : all_workers ws ≡ true → all_workers ws' ≡ true

  Nearer-cons :
      (w : Phase F E) {ws ws' : List (Phase F E)} {p p' : ThreadPool F E}
      → Nearer ws ws' p p'
      → Nearer (w ∷ ws) (w ∷ ws') p p'
  Nearer-cons w n = record {
    nearer = omega (arith, n.nearer);
    same_length = ap suc n.same_length;
    same_stopping = n.same_stopping;
    still_workers = λ h. ground (arith, n.still_workers);
  }

  abbrev pub Turned : ℕ → List (Phase F E) → ThreadPool F E → Type (ℓ ⊔ κ)
  Turned i ws p = Nearer ws (turn_at outcome i ws p).1 p (turn_at outcome i ws p).0

  ran-turn :
      (t : QueuedTask F) (ws : List (Phase F E)) (p : ThreadPool F E) (o : Option E)
      → Nearer (running t ∷ ws) (ran t o ∷ ws) p p
  unfolding ran
  ran-turn t ws p none = record {
    nearer = omega arith;
    same_length = refl;
    same_stopping = refl;
    still_workers = λ h. h;
  }
  ran-turn t ws p (some e) = record {
    nearer = omega arith;
    same_length = refl;
    same_stopping = refl;
    still_workers = λ h. h;
  }

  -- Where some worker holds a task, its turn is such a turn.
  pub busy_turn :
      (ws : List (Phase F E)) (p : ThreadPool F E) → 1 ≤ total_weight ws → (i : ℕ) × Turned i ws p
  unfolding turn_at worker_turn
  busy_turn [] p h = absurd (omega arith)
  busy_turn (running t ∷ ws) p h = (0, ran-turn t ws p (outcome t.function))
  busy_turn (catching t e ∷ ws) p h = (
    0,
    record {
      nearer = omega arith;
      same_length = refl;
      same_stopping = refl;
      still_workers = λ h. h;
    },
  )
  busy_turn (finishing t ∷ ws) p h = (
    0,
    record {
      nearer = omega arith;
      same_length = refl;
      same_stopping = refl;
      still_workers = λ h. h;
    },
  )
  busy_turn (w ∷ ws) p h = let (i, n) = busy_turn ws p (omega arith) in (suc i, Nearer-cons w n)

  -- Where no worker holds a task, the first one takes a task from the queue.
  pub idle_turn :
      (ws : List (Phase F E)) (p : ThreadPool F E) (q : List (QueuedTask F))
      → p.shared.queued_tasks ≡ q
      → 1 ≤ length q
      → 1 ≤ length ws
      → total_weight ws ≡ 0
      → all_workers ws ≡ true
      → Turned 0 ws p
  unfolding turn_at worker_turn take_task
  idle_turn [] p q e some_task some_worker none_busy h = absurd (omega arith)
  idle_turn (waiting ∷ ws) p [] e some_task some_worker none_busy h = absurd (omega arith)
  idle_turn (waiting ∷ ws) p (t ∷ ts) e some_task some_worker none_busy h = rw e (record {
    nearer = omega arith;
    same_length = refl;
    same_stopping = refl;
    still_workers = λ h. h;
  })
  idle_turn (running t ∷ ws) p q e some_task some_worker none_busy h = absurd (omega arith)
  idle_turn (catching t x ∷ ws) p q e some_task some_worker none_busy h = absurd (omega arith)
  idle_turn (finishing t ∷ ws) p q e some_task some_worker none_busy h = absurd (omega arith)
  idle_turn (spawned f ∷ ws) p q e some_task some_worker none_busy h = cc
  idle_turn (gone ∷ ws) p q e some_task some_worker none_busy h = cc
