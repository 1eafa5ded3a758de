-- ===== src/Harness/Schedule/Pooled/Kept.antt =====
-- What holds of the pool and the tests: what is not over is due.
use spdlog_stress_test.Prelude.{
  ℕ, zero, suc, ◌≤◌, ◌≡◌, ◌≢◌, refl, ◌∙◌, true, false, List, [], ◌∷◌, ◌++◌, Option, some, arith,
  if◌then◌else◌, length, ◌==◌, Bool-cases, inl, inr,
}
use spdlog_stress_test.ThreadPool as Base
use spdlog_stress_test.ThreadPool.{
  Phase, running, spawned, ThreadPool, create, submit, WaitResult, blocked, returned, rethrown,
  wait,
}
use spdlog_stress_test.ThreadPool.Counting.{occurs}
use spdlog_stress_test.ThreadPool.Invariant.{Inv, turn-Inv, submit-Inv}
use spdlog_stress_test.ThreadPool.History.{create-Inv, wait-Inv, turn-max, submit-max, wait-max}
use spdlog_stress_test.ThreadPool.Due.{silent, phase_at, active, due, turn-due, submit-due}
use spdlog_stress_test.ThreadPool.Modes.{
  Fits, turn-Fits, submit-Fits, wait-Fits, create-Fits, wait-due,
}
use spdlog_stress_test.Harness.Schedule.{Task, queued, all_ended, task_turn, task_next}
use spdlog_stress_test.Harness.Schedule.Pooled.{is_over_at}

all_over : (ts : List Task) → ((i : ℕ) → is_over_at i ts ≡ true) → all_ended ts ≡ true
all_over [] h = refl
all_over (Task.ended ∷ ts) h = all_over ts (λ i. h (suc i))
all_over (t ∷ ts) h = cc (h 0)

over-append :
    (i : ℕ) (ts : List Task)
    → is_over_at i (ts ++ queued ∷ []) ≡ (if length ts == i then false else is_over_at i ts)
over-append zero [] = refl
over-append (suc i) [] = ground arith
over-append zero (t ∷ ts) = ground arith
over-append (suc i) (t ∷ ts) = ground (arith, over-append i ts)

over-task_turn :
    (i j m : ℕ) (ts : List Task) → is_over_at i ts ≡ true → is_over_at i (task_turn j m ts).1 ≡ true
unfolding task_turn task_next
over-task_turn i j m [] h = h
over-task_turn zero zero m (Task.ended ∷ ts) h = refl
over-task_turn zero zero m (t ∷ ts) h = cc
over-task_turn (suc i) zero m (t ∷ ts) h = h
over-task_turn zero (suc j) m (t ∷ ts) h = h
over-task_turn (suc i) (suc j) m (t ∷ ts) h = over-task_turn i j m ts h

still_open :
    (i j m : ℕ) (ts : List Task)
    → is_over_at i (task_turn j m ts).1 ≡ false
    → is_over_at i ts ≡ false
still_open i j m ts h = elim (Bool-cases (is_over_at i ts)) [
  | inl over ↦ cc (over-task_turn i j m ts over, h)
  | inr open_yet ↦ open_yet
]

ended-over : (i : ℕ) (ts : List Task) → all_ended ts ≡ true → is_over_at i ts ≡ true
ended-over i [] h = refl
ended-over zero (Task.ended ∷ ts) h = refl
ended-over (suc i) (Task.ended ∷ ts) h = ended-over i ts h
ended-over i (t ∷ ts) h = cc

module _ {κ} {E : Type κ} where
  -- Of a pool and the tests: what is not over is due.
  pub record Kept (max : Option ℕ) (tasks : List Task) (p : ThreadPool ℕ E) : Type κ where
    pub same_max : p.max_threads ≡ max
    pub pool_kept : Inv p
    pub fits : Fits max p
    pub all_due : (i : ℕ) → is_over_at i tasks ≡ false → 1 ≤ due i p

  pub turned-Kept :
      (max : Option ℕ) (i : ℕ) (tasks : List Task) (p : ThreadPool ℕ E)
      → ((g : ℕ) → is_over_at g tasks ≡ false → occurs g (active (phase_at i p.worker_threads)) ≡ 0)
      → Kept max tasks p
      → Kept max tasks (Base.turn silent i p)
  turned-Kept max i tasks p clear v = record {
    same_max = turn-max silent i p ∙ v.same_max;
    pool_kept = turn-Inv silent i p v.pool_kept;
    fits = turn-Fits max i p v.fits;
    all_due = λ g h. omega (arith, turn-due g i p, v.all_due g h, clear g h);
  }

  -- A test that goes on.
  pub tested-Kept :
      (max : Option ℕ) (f m : ℕ) (tasks : List Task) (p : ThreadPool ℕ E)
      → Kept max tasks p
      → Kept max (task_turn f m tasks).1 p
  tested-Kept max f m tasks p v = record {
    same_max = v.same_max;
    pool_kept = v.pool_kept;
    fits = v.fits;
    all_due = λ g h. v.all_due g (still_open g f m tasks h);
  }

  pub submitted-Kept :
      (max : Option ℕ) (tasks : List Task) (p q : ThreadPool ℕ E)
      → submit (length tasks) p ≡ some q
      → Kept max tasks p
      → Kept max (tasks ++ queued ∷ []) q
  submitted-Kept max tasks p q h v = record {
    same_max = submit-max (length tasks) p q h ∙ v.same_max;
    pool_kept = submit-Inv (length tasks) p q h v.pool_kept;
    fits = submit-Fits max (length tasks) p q v.same_max h v.fits;
    all_due = λ g o.
        ground (arith, over-append g tasks, v.all_due g, submit-due g (length tasks) p q h, o);
  }

  -- A `wait` that is over finds every test over.
  pub waited-over :
      (max : Option ℕ) (tasks : List Task) (p : ThreadPool ℕ E)
      → (wait p).1 ≢ blocked
      → Kept max tasks p
      → all_ended tasks ≡ true
  waited-over max tasks p h v = all_over tasks (λ i. elim (Bool-cases (is_over_at i tasks)) [
    | inl over ↦ over
    | inr left ↦
        absurd (omega (arith, v.all_due i left, wait-due max i p v.same_max v.fits v.pool_kept h))
  ])

  pub waited-Kept :
      (max : Option ℕ) (tasks : List Task) (p : ThreadPool ℕ E)
      → (wait p).1 ≢ blocked
      → Kept max tasks p
      → Kept max tasks (wait p).0
  waited-Kept max tasks p h v = record {
    same_max = wait-max p ∙ v.same_max;
    pool_kept = wait-Inv p v.pool_kept;
    fits = wait-Fits max p v.same_max v.fits;
    all_due = λ g o. cc (ended-over g tasks (waited-over max tasks p h v), o);
  }

pub begin-Kept {κ} : (E : Type κ) (max : Option ℕ) → max ≢ some 0 → Kept {E = E} max [] (create max)
begin-Kept E max h = record {
  same_max = refl;
  pool_kept = create-Inv max;
  fits = create-Fits E max h;
  all_due = λ i g. cc g;
}
