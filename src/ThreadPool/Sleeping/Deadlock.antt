-- ===== src/ThreadPool/Sleeping/Deadlock.antt =====
-- Where all sleep, nothing is left to do.
use mathlib.Core.Option.{some_inj}
use spdlog_stress_test.Prelude.{
  ℕ, zero, suc, ◌≡◌, refl, ap, sym, ◌∙◌, Bool, true, false, not, ◌&&◌, ◌||◌, List, [], ◌∷◌, ◌++◌,
  Option, none, some, arith, ltb, Bool-cases, inl, inr, is_empty,
}
use spdlog_stress_test.ThreadPool.{
  Phase, waiting, spawned, gone, QueuedTask, ThreadPool, worker_turn, take_task, is_done,
}
use spdlog_stress_test.ThreadPool.Progress.{is_worker}
use spdlog_stress_test.ThreadPool.Counting.{occurs, held, held_ids}
use spdlog_stress_test.ThreadPool.Waiting.{tasks_accounted}
use spdlog_stress_test.ThreadPool.Sleeping.{
  Thread, System, launch, awake_threads, wake_one, wake_all, wake_at, falls_asleep, one_turn,
  turn_at, turn, Event, submits, notifies_one, turns, waits, stops, notifies_all, wakes,
  caller_wakes, submitted, call_wait, step, run,
}
use spdlog_stress_test.ThreadPool.Sleeping.Turns.{count_awake}
use spdlog_stress_test.ThreadPool.Sleeping.Watching.{Watched}
use spdlog_stress_test.ThreadPool.Sleeping.Wakeups.{then_run-eq-some, run-Watched, launch-Watched}
use spdlog_stress_test.ThreadPool.Sleeping.Forgetting.{phases, forget}
use spdlog_stress_test.ThreadPool.Sleeping.Refining.{run-refines}

module _ {ℓ κ} {F : Type ℓ} {E : Type κ} where
  abbrev is_waiting : Phase F E → Bool
  is_waiting waiting = true
  is_waiting _ = false

  -- Those who sleep are at their wait.
  abbrev sleepers_wait : List (Thread F E) → Bool
  sleepers_wait [] = true
  sleepers_wait (t ∷ ts) = (not t.asleep || is_waiting t.phase) && sleepers_wait ts

  wake_one-sleepers_wait :
      (k : ℕ) (ts : List (Thread F E))
      → sleepers_wait ts ≡ true
      → sleepers_wait (wake_one k ts) ≡ true
  unfolding wake_one
  wake_one-sleepers_wait k [] h = refl
  wake_one-sleepers_wait zero (t ∷ ts) h = ground (arith, wake_one-sleepers_wait zero ts)
  wake_one-sleepers_wait (suc k) (t ∷ ts) h =
      ground (arith, wake_one-sleepers_wait k ts, wake_one-sleepers_wait (suc k) ts)

  wake_all-sleepers_wait : (ts : List (Thread F E)) → sleepers_wait (wake_all ts) ≡ true
  unfolding wake_all
  wake_all-sleepers_wait [] = refl
  wake_all-sleepers_wait (t ∷ ts) = ground (arith, wake_all-sleepers_wait ts)

  wake_at-sleepers_wait :
      (i : ℕ) (ts : List (Thread F E))
      → sleepers_wait ts ≡ true
      → sleepers_wait (wake_at i ts) ≡ true
  unfolding wake_at
  wake_at-sleepers_wait i [] h = refl
  wake_at-sleepers_wait zero (t ∷ ts) h = ground arith
  wake_at-sleepers_wait (suc i) (t ∷ ts) h = ground (arith, wake_at-sleepers_wait i ts)

  -- A worker that falls asleep stays at its wait.
  take_task-is_waiting :
      (q : List (QueuedTask F)) (p : ThreadPool F E)
      → p.shared.queued_tasks ≡ q
      → (not (falls_asleep waiting p) || is_waiting (take_task q p).1) ≡ true
  unfolding take_task
  take_task-is_waiting [] p e = ground arith
  take_task-is_waiting (t ∷ ts) p e = ground (arith, ap is_empty e)

  launch-sleepers_wait :
      (n : ℕ) (s : System F E) → s.threads ≡ awake_threads n → sleepers_wait s.threads ≡ true
  launch-sleepers_wait n s e = ap sleepers_wait e ∙ awake n
    where
      awake : (k : ℕ) → sleepers_wait (awake_threads {F = F} {E = E} k) ≡ true
      awake zero = refl
      awake (suc k) = awake k

  module _ (outcome : F → Option E) where
    one_turn-is_waiting :
        (w : Phase F E) (dormant : Bool) (p : ThreadPool F E)
        → (not dormant || is_waiting w) ≡ true
        → let t : Thread F E = record { phase = w; asleep = dormant } in
          let u = (one_turn outcome t p).threads in (not u.asleep || is_waiting u.phase) ≡ true
    unfolding one_turn worker_turn
    one_turn-is_waiting w true p h = h
    one_turn-is_waiting waiting false p h = take_task-is_waiting p.shared.queued_tasks p refl
    one_turn-is_waiting w false p h = refl

    turn_at-sleepers_wait :
        (i : ℕ) (ts : List (Thread F E)) (p : ThreadPool F E)
        → sleepers_wait ts ≡ true
        → sleepers_wait (turn_at outcome i ts p).threads ≡ true
    unfolding turn_at
    turn_at-sleepers_wait i [] p h = refl
    turn_at-sleepers_wait zero (t ∷ ts) p h = ground (arith, one_turn-is_waiting t.phase t.asleep p)
    turn_at-sleepers_wait (suc i) (t ∷ ts) p h = ground (arith, turn_at-sleepers_wait i ts p)

  asleep-held :
      (w : Phase F E) (dormant : Bool)
      → (not dormant || is_waiting w) ≡ true
      → (is_worker w && not dormant) ≡ false
      → held w ≡ []
  asleep-held waiting b h a = refl
  asleep-held (spawned f) b h a = refl
  asleep-held gone b h a = refl
  asleep-held w true h a = cc h
  asleep-held w false h a = cc a

  -- Who is not awake holds no task.
  asleep-held_ids :
      (ts : List (Thread F E))
      → sleepers_wait ts ≡ true
      → count_awake ts ≡ 0
      → held_ids (phases ts) ≡ []
  asleep-held_ids [] h a = refl
  asleep-held_ids (t ∷ ts) h a =
      let none_held = asleep-held t.phase t.asleep (ground arith) (ground arith) in
      ap (λ js. js ++ held_ids (phases ts)) none_held
      ∙ asleep-held_ids ts (ground arith) (ground arith)

all_absent : (js : List ℕ) → ((i : ℕ) → occurs i js ≡ 0) → is_empty js ≡ true
all_absent [] h = refl
all_absent (j ∷ js) h = ground (arith, h j)

module _ {ℓ κ} {F : Type ℓ} {E : Type κ} (outcome : F → Option E) where
  submitted-threads :
      (s t : System F E) (o : Option (ThreadPool F E))
      → submitted s o ≡ some t
      → t.threads ≡ s.threads
  submitted-threads s t none h = cc h
  submitted-threads s t (some p) h = ap (λ u. u.threads) (sym (some_inj.0 h))

  call_wait-threads : (s : System F E) → (call_wait s).threads ≡ s.threads
  unfolding call_wait
  call_wait-threads s = ground arith

  now-sleepers_wait :
      (u t : System F E)
      → some u ≡ some t
      → sleepers_wait u.threads ≡ true
      → sleepers_wait t.threads ≡ true
  now-sleepers_wait u t h v = ap (λ r. sleepers_wait r.threads) (sym (some_inj.0 h)) ∙ v

  step-sleepers_wait :
      (s t : System F E) (e : Event F)
      → step outcome s e ≡ some t
      → sleepers_wait s.threads ≡ true
      → sleepers_wait t.threads ≡ true
  unfolding step turn
  step-sleepers_wait s t (submits f) = λ h v. ap sleepers_wait (submitted-threads s t _ h) ∙ v
  step-sleepers_wait s t (notifies_one k) = elim (Bool-cases (ltb 0 s.notifies)) [
    | inl due ↦ simp due (λ h v. now-sleepers_wait _ t h (wake_one-sleepers_wait k s.threads v))
    | inr none_due ↦ simp none_due (λ h v. now-sleepers_wait s t h v)
  ]
  step-sleepers_wait s t (turns i) =
      λ h v. now-sleepers_wait _ t h (turn_at-sleepers_wait outcome i s.threads s.pool v)
  step-sleepers_wait s t waits =
      λ h v. now-sleepers_wait _ t h (ap sleepers_wait (call_wait-threads s) ∙ v)
  step-sleepers_wait s t stops = λ h v. now-sleepers_wait _ t h v
  step-sleepers_wait s t notifies_all = elim (Bool-cases s.notify_all_due) [
    | inl due ↦ simp due (λ h v. now-sleepers_wait _ t h (wake_all-sleepers_wait s.threads))
    | inr none_due ↦ simp none_due (λ h v. now-sleepers_wait s t h v)
  ]
  step-sleepers_wait s t (wakes i) =
      λ h v. now-sleepers_wait _ t h (wake_at-sleepers_wait i s.threads v)
  step-sleepers_wait s t caller_wakes = λ h v. now-sleepers_wait _ t h v

  run-sleepers_wait :
      (es : List (Event F)) (s t : System F E)
      → run outcome s es ≡ some t
      → sleepers_wait s.threads ≡ true
      → sleepers_wait t.threads ≡ true
  unfolding run
  run-sleepers_wait [] s t h v = now-sleepers_wait s t h v
  run-sleepers_wait (e ∷ es) s t h v =
      let (u, stepped, rest) = then_run-eq-some (λ r. run outcome r es) (step outcome s e) h in
      run-sleepers_wait es u t rest (step-sleepers_wait s u e stepped v)

  nothing_queued :
      (s : System F E)
      → Watched s
      → s.pool.shared.stopping ≡ false
      → count_awake s.threads ≡ 0
      → s.notifies ≡ 0
      → is_empty s.pool.shared.queued_tasks ≡ true
  nothing_queued s v on a d = elim (Bool-cases (is_empty s.pool.shared.queued_tasks)) [
    | inl empty ↦ empty
    | inr queued ↦ absurd (omega (arith, v.alert on queued, a, d))
  ]

  -- From a pool with a worker or more, in every state that a run comes to before the pool stops:
  -- where every worker sleeps and no `notify_one` is still to come, every task is done, and the caller
  -- of `wait` does not sleep.
  pub no_deadlock :
      (n : ℕ) (es : List (Event F)) (s : System F E)
      → run outcome (launch (suc n)) es ≡ some s
      → s.pool.shared.stopping ≡ false
      → count_awake s.threads ≡ 0
      → s.notifies ≡ 0
      → (is_done s.pool.shared ≡ true) × (s.caller_asleep ≡ false)
  no_deadlock n es s h on a d =
      let v = run-Watched outcome es (launch (suc n)) s h (launch-Watched n) in
      let (ds, led) = run-refines outcome (suc n) es s h in
      let waits =
        run-sleepers_wait es (launch (suc n)) s h
          (launch-sleepers_wait (suc n) (launch (suc n)) refl) in
      let none_held = all_absent s.pool.shared.in_progress_tasks (λ i.
        (tasks_accounted outcome (some (suc n)) ds (forget s) led i).0
        ∙ ap (occurs i) (asleep-held_ids s.threads waits a)) in
      let none_queued = nothing_queued s v on a d in
      (ground (arith, none_held, none_queued), ground (arith, v.undone, none_held, none_queued))
