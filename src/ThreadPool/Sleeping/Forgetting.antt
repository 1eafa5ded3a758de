-- ===== src/ThreadPool/Sleeping/Forgetting.antt =====
-- The pool with sleeping threads implements the pool without: what it forgets is who sleeps.
use mathlib.Core.Option.{some_inj}
use spdlog_stress_test.Prelude.{
  ℕ, zero, suc, ◌≡◌, refl, ap, ap₂, Bool, true, false, List, [], ◌∷◌, Option, none, some, arith,
  map, Bool-cases, inl, inr, ◌⊎◌, ◌==◌,
}
use spdlog_stress_test.ThreadPool as Base
use spdlog_stress_test.ThreadPool.{
  Phase, waiting, running, catching, finishing, spawned, gone, QueuedTask, ThreadPool, create,
  worker_turn, take_task, spawned_turn,
}
use spdlog_stress_test.ThreadPool.Sleeping.{
  Thread, System, wake_one, wake_all, wake_at, one_turn, turn_at, turn, submitted, call_wait,
}

module _ {ℓ κ} {F : Type ℓ} {E : Type κ} where
  abbrev pub phases : List (Thread F E) → List (Phase F E)
  phases = map (λ t. t.phase)

  abbrev pub forget : System F E → ThreadPool F E
  forget s = record s.pool { worker_threads = phases s.threads }

  abbrev pub with_threads : ThreadPool F E → List (Phase F E) → ThreadPool F E
  with_threads p ws = record p { worker_threads = ws }

  pub phases-wake_one : (k : ℕ) (ts : List (Thread F E)) → phases (wake_one k ts) ≡ phases ts
  unfolding wake_one
  phases-wake_one k [] = refl
  phases-wake_one zero (t ∷ ts) = ground (arith, phases-wake_one zero ts)
  phases-wake_one (suc k) (t ∷ ts) =
      ground (arith, phases-wake_one k ts, phases-wake_one (suc k) ts)

  pub phases-wake_all : (ts : List (Thread F E)) → phases (wake_all ts) ≡ phases ts
  unfolding wake_all
  phases-wake_all [] = refl
  phases-wake_all (t ∷ ts) = ap (◌∷◌ t.phase) (phases-wake_all ts)

  pub phases-wake_at : (i : ℕ) (ts : List (Thread F E)) → phases (wake_at i ts) ≡ phases ts
  unfolding wake_at
  phases-wake_at i [] = refl
  phases-wake_at zero (t ∷ ts) = refl
  phases-wake_at (suc i) (t ∷ ts) = ap (◌∷◌ t.phase) (phases-wake_at i ts)

  -- A turn neither reads nor writes the list of threads.
  take_task-worker_threads :
      (q : List (QueuedTask F)) (ws : List (Phase F E)) (p : ThreadPool F E)
      → take_task q (record p { worker_threads = ws })
        ≡ (record (take_task q p).0 { worker_threads = ws }, (take_task q p).1)
  unfolding take_task
  take_task-worker_threads [] ws p = refl
  take_task-worker_threads (t ∷ ts) ws p = refl

  spawned_turn-worker_threads :
      (o : Option E) (ws : List (Phase F E)) (p : ThreadPool F E)
      → spawned_turn {F = F} o (record p { worker_threads = ws })
        ≡ (record (spawned_turn o p).0 { worker_threads = ws }, (spawned_turn o p).1)
  unfolding spawned_turn
  spawned_turn-worker_threads none ws p = refl
  spawned_turn-worker_threads (some e) ws p = refl

  module _ (outcome : F → Option E) where
    worker_turn-worker_threads :
        (w : Phase F E) (ws : List (Phase F E)) (p : ThreadPool F E)
        → let r = worker_turn outcome w p in
          worker_turn outcome w (record p { worker_threads = ws })
          ≡ (record r.0 { worker_threads = ws }, r.1)
    unfolding worker_turn
    worker_turn-worker_threads waiting ws p = take_task-worker_threads p.shared.queued_tasks ws p
    worker_turn-worker_threads (running t) ws p = refl
    worker_turn-worker_threads (catching t e) ws p = refl
    worker_turn-worker_threads (finishing t) ws p = refl
    worker_turn-worker_threads (spawned f) ws p = spawned_turn-worker_threads (outcome f) ws p
    worker_turn-worker_threads gone ws p = refl

    one_turn-phases :
        (w : Phase F E) (dormant : Bool) (ws : List (Phase F E)) (p : ThreadPool F E)
        → let t : Thread F E = record { phase = w; asleep = dormant } in
          let r = one_turn outcome t p in
          ((r.pool ≡ p) × (r.threads.phase ≡ w))
          ⊎ (worker_turn outcome w (record p { worker_threads = ws })
              ≡ (record r.pool { worker_threads = ws }, r.threads.phase))
    unfolding one_turn
    one_turn-phases w true ws p = inl (refl, refl)
    one_turn-phases w false ws p = inr (worker_turn-worker_threads w ws p)

    -- A turn is one of the plain pool, or, of a thread that sleeps, none.
    turn_at-phases :
        (i : ℕ) (ts : List (Thread F E)) (ws : List (Phase F E)) (p : ThreadPool F E)
        → let r = turn_at outcome i ts p in
          ((r.pool ≡ p) × (phases r.threads ≡ phases ts))
          ⊎ (Base.turn_at outcome i (phases ts) (record p { worker_threads = ws })
              ≡ (record r.pool { worker_threads = ws }, phases r.threads))
    unfolding turn_at Base.turn_at
    turn_at-phases i [] ws p = inr refl
    turn_at-phases zero (t ∷ ts) ws p = elim (one_turn-phases t.phase t.asleep ws p) [
      | inl same ↦ inl (same.0, ap (λ w. w ∷ phases ts) same.1)
      | inr e ↦ inr (ap (λ r. (r.0, r.1 ∷ phases ts)) e)
    ]
    turn_at-phases (suc i) (t ∷ ts) ws p = elim (turn_at-phases i ts ws p) [
      | inl same ↦ inl (same.0, ap (◌∷◌ t.phase) same.1)
      | inr e ↦ inr (ap (λ r. (r.0, t.phase ∷ r.1)) e)
    ]

    pub turn-forget :
        (i : ℕ) (s : System F E)
        → (forget (turn outcome i s) ≡ forget s)
          ⊎ (Base.turn outcome i (forget s) ≡ forget (turn outcome i s))
    unfolding turn Base.turn
    turn-forget i s = elim (turn_at-phases i s.threads (phases s.threads) s.pool) [
      | inl same ↦ inl (ap₂ with_threads same.0 same.1)
      | inr e ↦ inr (ap (λ r. with_threads r.0 r.1) e)
    ]

  submitted-forget :
      (max : Option ℕ) (n : ℕ) (f : F) (s t : System F E)
      → max ≡ some n
      → submitted s (Base.submit_in max f s.pool) ≡ some t
      → Base.submit_in max f (forget s) ≡ some (forget t)
  unfolding Base.submit_in Base.with_shared Base.enqueue
  submitted-forget none n f s t m = cc m
  submitted-forget (some k) n f s t m =
      elim (Bool-cases (s.pool.shared.next_task_id == Base.int_max)) [
        | inl full ↦ simp full (λ h. cc h)
        | inr room ↦ simp room (λ h. ap (λ u. some (forget u)) (some_inj.0 h))
      ]

  pub submit-forget :
      (n : ℕ) (f : F) (s t : System F E)
      → s.pool.max_threads ≡ some n
      → submitted s (Base.submit f s.pool) ≡ some t
      → Base.submit f (forget s) ≡ some (forget t)
  unfolding Base.submit
  submit-forget n f s t m h = submitted-forget s.pool.max_threads n f s t m h

  rethrow-forget :
      (o : Option E) (ws : List (Phase F E)) (p : ThreadPool F E)
      → (Base.rethrow o (record p { worker_threads = ws })).0
        ≡ record (Base.rethrow o p).0 { worker_threads = ws }
  unfolding Base.rethrow
  rethrow-forget none ws p = refl
  rethrow-forget (some e) ws p = refl

  wait_in-forget :
      (max : Option ℕ) (n : ℕ) (ws : List (Phase F E)) (p : ThreadPool F E)
      → max ≡ some n
      → (Base.wait_in max (record p { worker_threads = ws })).0
        ≡ record (Base.wait_in max p).0 { worker_threads = ws }
  unfolding Base.wait_in
  wait_in-forget none n ws p m = cc m
  wait_in-forget (some k) n ws p m = elim (Bool-cases (Base.is_done p.shared)) [
    | inl over ↦ simp over (rethrow-forget p.shared.first_exception ws p)
    | inr undone ↦ simp undone
  ]

  pub call_wait-forget :
      (n : ℕ) (s : System F E)
      → s.pool.max_threads ≡ some n
      → (forget (call_wait s) ≡ forget s) ⊎ ((Base.wait (forget s)).0 ≡ forget (call_wait s))
  unfolding call_wait Base.wait
  call_wait-forget n s m = elim (Bool-cases s.caller_asleep) [
    | inl asleep ↦ inl (simp asleep)
    | inr awake ↦ elim (Bool-cases (Base.is_done s.pool.shared)) [
      | inl over ↦
          inr (simp (awake, over) (wait_in-forget s.pool.max_threads n (phases s.threads) s.pool m))
      | inr undone ↦ inl (simp (awake, undone))
    ]
  ]
