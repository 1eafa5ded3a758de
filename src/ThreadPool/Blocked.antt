-- ===== src/ThreadPool/Blocked.antt =====
-- Where `wait` is blocked some thread has a turn that brings the pool nearer to its end; and what the
-- operations do to the numbering of the tasks.
use spdlog_stress_test.Prelude.{
  ℕ, zero, suc, ◌+◌, ◌≤◌, ◌<◌, ◌≡◌, true, false, refl, ap, sym, subst, ◌∙◌, List, [], ◌∷◌, ◌++◌,
  Option, none, some, arith, ◌==◌, if◌then◌else◌, length-append,
}
use spdlog_stress_test.ThreadPool.{
  QueuedTask, Phase, waiting, spawned, gone, ThreadPool, submit, submit_in, enqueue, with_shared,
  int_max, take_task, spawned_turn, worker_turn, turn_at, turn, is_done, all_gone, wait, wait_in,
  rethrow, blocked,
}
use spdlog_stress_test.ThreadPool.Invariant.{Inv}
use spdlog_stress_test.ThreadPool.Progress.{work}
use spdlog_stress_test.ThreadPool.Finishing.{next_turn, work-turn}
use spdlog_stress_test.ThreadPool.Due.{silent}
use spdlog_stress_test.ThreadPool.Modes.{Fits, IsSingle, all_single}

module _ {κ} {E : Type κ} where
  abbrev pub count_spawned : List (Phase ℕ E) → ℕ
  count_spawned [] = 0
  count_spawned (spawned f ∷ ws) = 1 + count_spawned ws
  count_spawned (w ∷ ws) = count_spawned ws

  abbrev pub pool_left : Option ℕ → ThreadPool ℕ E → ℕ
  pool_left none p = count_spawned p.worker_threads
  pool_left (some n) p = work p

  spawned_turn_at :
      (ws : List (Phase ℕ E)) (p : ThreadPool ℕ E)
      → all_single ws ≡ true
      → all_gone ws ≡ false
      → (i : ℕ) × (count_spawned (turn_at silent i ws p).1 < count_spawned ws)
  unfolding turn_at worker_turn spawned_turn
  spawned_turn_at [] p s h = cc
  spawned_turn_at (spawned f ∷ ws) p s h = (0, omega arith)
  spawned_turn_at (gone ∷ ws) p s h = let (i, less) = spawned_turn_at ws p s h in (suc i, less)
  spawned_turn_at (w ∷ ws) p s h = cc

  spawned_turn-left :
      (p : ThreadPool ℕ E)
      → IsSingle p
      → all_gone p.worker_threads ≡ false
      → (i : ℕ) × (count_spawned (turn silent i p).worker_threads < count_spawned p.worker_threads)
  unfolding turn
  spawned_turn-left p s h = spawned_turn_at p.worker_threads p s.singles h

  wait_in-left :
      (max : Option ℕ) (p : ThreadPool ℕ E)
      → Fits max p
      → Inv p
      → (wait_in max p).1 ≡ blocked
      → (i : ℕ) × (pool_left max (turn silent i p) < pool_left max p)
  unfolding wait_in rethrow
  wait_in-left none p s v h = spawned_turn-left p s (ground arith)
  wait_in-left (some n) p s v h =
      let (i, turned) = next_turn silent p v s (undone p p.shared.first_exception h) in
      (i, work-turn silent i p turned)
    where
      undone :
          (q : ThreadPool ℕ E) (o : Option E)
          → (if is_done q.shared then rethrow o q else (q, blocked)).1 ≡ blocked
          → is_done q.shared ≡ false
      undone q none h = ground arith
      undone q (some e) h = ground arith

  pub wait-left :
      (max : Option ℕ) (p : ThreadPool ℕ E)
      → p.max_threads ≡ max
      → Fits max p
      → Inv p
      → (wait p).1 ≡ blocked
      → (i : ℕ) × (pool_left max (turn silent i p) < pool_left max p)
  unfolding wait
  wait-left max p e s v h = wait_in-left max p s v (ap (λ m. (wait_in m p).1) (sym e) ∙ h)

  wait_in-pool_left :
      (max : Option ℕ) (p : ThreadPool ℕ E) → pool_left max (wait_in max p).0 ≤ pool_left max p
  unfolding wait_in rethrow
  wait_in-pool_left none p = ground arith
  wait_in-pool_left (some n) p = ground arith

  -- A `wait` leaves no more than there was.
  pub wait-pool_left :
      (max : Option ℕ) (p : ThreadPool ℕ E)
      → p.max_threads ≡ max
      → pool_left max (wait p).0 ≤ pool_left max p
  unfolding wait
  wait-pool_left max p e =
      subst (λ m. pool_left max (wait_in m p).0 ≤ pool_left max p) (sym e) (wait_in-pool_left max p)

  take_task-next_task_id :
      (q : List (QueuedTask ℕ)) (p : ThreadPool ℕ E)
      → (take_task q p).0.shared.next_task_id ≡ p.shared.next_task_id
  unfolding take_task
  take_task-next_task_id [] p = refl
  take_task-next_task_id (t ∷ ts) p = refl

  worker_turn-next_task_id :
      (w : Phase ℕ E) (p : ThreadPool ℕ E)
      → (worker_turn silent w p).0.shared.next_task_id ≡ p.shared.next_task_id
  unfolding worker_turn spawned_turn
  worker_turn-next_task_id waiting p = take_task-next_task_id p.shared.queued_tasks p
  worker_turn-next_task_id w p = refl

  turn_at-next_task_id :
      (i : ℕ) (ws : List (Phase ℕ E)) (p : ThreadPool ℕ E)
      → (turn_at silent i ws p).0.shared.next_task_id ≡ p.shared.next_task_id
  unfolding turn_at
  turn_at-next_task_id i [] p = refl
  turn_at-next_task_id zero (w ∷ ws) p = worker_turn-next_task_id w p
  turn_at-next_task_id (suc i) (w ∷ ws) p = turn_at-next_task_id i ws p

  pub turn-next_task_id :
      (i : ℕ) (p : ThreadPool ℕ E) → (turn silent i p).shared.next_task_id ≡ p.shared.next_task_id
  unfolding turn
  turn-next_task_id i p = turn_at-next_task_id i p.worker_threads p

  wait_in-next_task_id :
      (max : Option ℕ) (p : ThreadPool ℕ E)
      → (wait_in max p).0.shared.next_task_id ≡ p.shared.next_task_id
  unfolding wait_in rethrow
  wait_in-next_task_id none p = ground arith
  wait_in-next_task_id (some n) p = ground arith

  pub wait-next_task_id :
      (p : ThreadPool ℕ E) → (wait p).0.shared.next_task_id ≡ p.shared.next_task_id
  unfolding wait
  wait-next_task_id p = wait_in-next_task_id p.max_threads p

  submit_in-next_task_id :
      (max : Option ℕ) (f : ℕ) (p q : ThreadPool ℕ E)
      → submit_in max f p ≡ some q
      → q.shared.next_task_id ≤ p.shared.next_task_id + 1
  unfolding submit_in with_shared enqueue
  submit_in-next_task_id none f p q h = ground arith
  submit_in-next_task_id (some n) f p q h = ground arith

  pub submit-next_task_id :
      (f : ℕ) (p q : ThreadPool ℕ E)
      → submit f p ≡ some q
      → q.shared.next_task_id ≤ p.shared.next_task_id + 1
  unfolding submit
  submit-next_task_id f p q h = submit_in-next_task_id p.max_threads f p q h

  count_spawned-append :
      (f : ℕ) (ws : List (Phase ℕ E)) → count_spawned (ws ++ spawned f ∷ []) ≡ count_spawned ws + 1
  count_spawned-append f [] = refl
  count_spawned-append f (spawned g ∷ ws) = omega (arith, count_spawned-append f ws)
  count_spawned-append f (w ∷ ws) = count_spawned-append f ws

  submit_in-left :
      (max : Option ℕ) (f : ℕ) (p : ThreadPool ℕ E)
      → p.shared.next_task_id < int_max
      → (q : ThreadPool ℕ E) × (submit_in max f p ≡ some q)
        × (pool_left max q ≤ pool_left max p + 4)
  unfolding submit_in with_shared enqueue
  submit_in-left none f p h = (
    record p { worker_threads = p.worker_threads ++ spawned f ∷ [] },
    refl,
    omega (arith, count_spawned-append f p.worker_threads),
  )
  submit_in-left (some n) f p h =
      let room : (p.shared.next_task_id == int_max) ≡ false = ground arith in
      let task : QueuedTask ℕ = record { id = p.shared.next_task_id; function = f } in
      (
        record p {
          shared = record p.shared {
            next_task_id = p.shared.next_task_id + 1;
            queued_tasks = p.shared.queued_tasks ++ task ∷ [];
          };
        },
        rw room,
        omega (arith, length-append p.shared.queued_tasks (task ∷ [])),
      )

  pub submit-left :
      (max : Option ℕ) (f : ℕ) (p : ThreadPool ℕ E)
      → p.max_threads ≡ max
      → p.shared.next_task_id < int_max
      → (q : ThreadPool ℕ E) × (submit f p ≡ some q) × (pool_left max q ≤ pool_left max p + 4)
  unfolding submit
  submit-left max f p e h =
      subst
        (λ m.
          (q : ThreadPool ℕ E) × (submit_in m f p ≡ some q)
          × (pool_left max q ≤ pool_left max p + 4))
        (sym e) (submit_in-left max f p h)
