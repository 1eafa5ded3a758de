-- ===== src/ThreadPool/Leaving.antt =====
-- The end of the destructor: its workers leave, so that they can be joined.
use mathlib.Core.Option.{none}
use spdlog_stress_test.Prelude.{
  subst, is_empty, if◌then◌else◌, ◌&&◌, sym, ℕ, zero, suc, ◌+◌, ◌<◌, ◌≡◌, refl, ap, ◌∙◌, Bool, true,
  false, List, [], ◌∷◌, Option, some, arith, dec_lt,
}
use spdlog_stress_test.ThreadPool.{
  create, blocked, wait, QueuedTask, WaitResult, begin_stop, is_done, rethrow, wait_in, Phase,
  waiting, running, catching, finishing, spawned, gone, ThreadPool, worker_turn, take_task, turn,
  turn_at, all_gone,
}
use spdlog_stress_test.ThreadPool.Events.{
  destroy, stop_if, joins_workers, after_wait, Event, turns, run, step,
}
use spdlog_stress_test.ThreadPool.History.{run-Inv, create-Inv, run-max}
use spdlog_stress_test.ThreadPool.Counting.{occurs, held_ids}
use spdlog_stress_test.ThreadPool.Progress.{all_workers}
use spdlog_stress_test.ThreadPool.Finishing.{create-IsStaffed, run-IsStaffed, no_stops, only_turns}

pub done_empty {ℓ} :
    {F : Type ℓ} (q : List (QueuedTask F)) (js : List ℕ)
    → is_empty q && is_empty js ≡ true
    → (q ≡ []) × (js ≡ [])
done_empty [] [] h = (refl, refl)
done_empty [] (j ∷ js) h = cc
done_empty (t ∷ q) js h = cc

module _ {ℓ κ} {F : Type ℓ} {E : Type κ} where
  -- Every thread is at its wait, or gone.
  abbrev pub all_idle : List (Phase F E) → Bool
  all_idle [] = true
  all_idle (waiting ∷ ws) = all_idle ws
  all_idle (gone ∷ ws) = all_idle ws
  all_idle (_ ∷ ws) = false

  abbrev pub count_waiting : List (Phase F E) → ℕ
  count_waiting [] = 0
  count_waiting (waiting ∷ ws) = 1 + count_waiting ws
  count_waiting (_ ∷ ws) = count_waiting ws

  -- Workers that hold no task are idle.
  pub idle_of_none_held :
      (ws : List (Phase F E))
      → all_workers ws ≡ true
      → ((i : ℕ) → occurs i (held_ids ws) ≡ 0)
      → all_idle ws ≡ true
  idle_of_none_held [] w h = refl
  idle_of_none_held (waiting ∷ ws) w h = idle_of_none_held ws w h
  idle_of_none_held (running t ∷ ws) w h = absurd (ground (arith, h t.id))
  idle_of_none_held (catching t e ∷ ws) w h = absurd (ground (arith, h t.id))
  idle_of_none_held (finishing t ∷ ws) w h = absurd (ground (arith, h t.id))
  idle_of_none_held (spawned f ∷ ws) w h = cc
  idle_of_none_held (gone ∷ ws) w h = cc

  gone_of_none_waiting :
      (ws : List (Phase F E)) → all_idle ws ≡ true → count_waiting ws ≡ 0 → all_gone ws ≡ true
  gone_of_none_waiting [] w h = refl
  gone_of_none_waiting (waiting ∷ ws) w h = absurd (omega arith)
  gone_of_none_waiting (gone ∷ ws) w h = gone_of_none_waiting ws w h
  gone_of_none_waiting (running t ∷ ws) w h = cc
  gone_of_none_waiting (catching t e ∷ ws) w h = cc
  gone_of_none_waiting (finishing t ∷ ws) w h = cc
  gone_of_none_waiting (spawned f ∷ ws) w h = cc

module _ {ℓ κ} {F : Type ℓ} {E : Type κ} (outcome : F → Option E) where
  -- A turn of the first thread that waits: it leaves, and nothing else changes.
  record OneLeaves (i : ℕ) (ws : List (Phase F E)) (p : ThreadPool F E) : Type (ℓ ⊔ κ) where
    same_pool : (turn_at outcome i ws p).0 ≡ p
    still_idle : all_idle (turn_at outcome i ws p).1 ≡ true
    fewer : count_waiting (turn_at outcome i ws p).1 < count_waiting ws

  one_leaves :
      (ws : List (Phase F E)) (p : ThreadPool F E)
      → all_idle ws ≡ true
      → p.shared.queued_tasks ≡ []
      → p.shared.stopping ≡ true
      → 0 < count_waiting ws
      → (i : ℕ) × OneLeaves i ws p
  unfolding turn_at worker_turn take_task
  one_leaves [] p w empty down some_left = absurd (omega arith)
  one_leaves (waiting ∷ ws) p w empty down some_left =
      (0, rw (empty, down) (record { same_pool = refl; still_idle = w; fewer = omega arith }))
  one_leaves (gone ∷ ws) p w empty down some_left =
      let (i, o) = one_leaves ws p w empty down some_left in
      (suc i, record { same_pool = o.same_pool; still_idle = o.still_idle; fewer = o.fewer })
  one_leaves (running t ∷ ws) p w empty down some_left = cc
  one_leaves (catching t e ∷ ws) p w empty down some_left = cc
  one_leaves (finishing t ∷ ws) p w empty down some_left = cc
  one_leaves (spawned f ∷ ws) p w empty down some_left = cc

  -- A schedule of turns alone, behind which every thread is gone.
  abbrev pub Leaves : ThreadPool F E → Type (ℓ ⊔ κ)
  Leaves p =
      (es : List (Event F)) × (q : ThreadPool F E) × (only_turns es ≡ true)
      × (run outcome p es ≡ some q)
      × (all_gone q.worker_threads ≡ true)

  Leaves-turn : (i : ℕ) (p : ThreadPool F E) → Leaves (turn outcome i p) → Leaves p
  unfolding run step
  Leaves-turn i p (es, q, o, r, d) = (turns i ∷ es, q, o, r, d)

  leave_within :
      (k : ℕ) (p : ThreadPool F E)
      → count_waiting p.worker_threads < k
      → all_idle p.worker_threads ≡ true
      → p.shared.queued_tasks ≡ []
      → p.shared.stopping ≡ true
      → Leaves p
  unfolding run turn
  leave_within zero p h w empty down = absurd (omega arith)
  leave_within (suc k) p h w empty down = elim (dec_lt 0 (count_waiting p.worker_threads)) [
    | no over ↦ ([], p, refl, refl, gone_of_none_waiting p.worker_threads w (omega (arith, over)))
    | yes some_left ↦
        let (i, o) = one_leaves p.worker_threads p w empty down some_left in
        Leaves-turn i p (
          leave_within k (turn outcome i p) (omega (arith, o.fewer)) o.still_idle
            (ap (λ q. q.shared.queued_tasks) o.same_pool ∙ empty)
            (ap (λ q. q.shared.stopping) o.same_pool ∙ down))
  ]

  pub begin_stop-Leaves :
      (p : ThreadPool F E)
      → p.shared.queued_tasks ≡ []
      → all_idle p.worker_threads ≡ true
      → Leaves (begin_stop p)
  unfolding begin_stop
  begin_stop-Leaves p empty idle =
      leave_within (suc (count_waiting p.worker_threads)) (begin_stop p) (omega arith) idle empty
        refl

module _ {ℓ κ} {F : Type ℓ} {E : Type κ} where
  after_rethrow :
      (o : Option E) (p : ThreadPool F E)
      → (after_wait (rethrow o p).0 (rethrow o p).1).1 ≡ joins_workers
      → (after_wait (rethrow o p).0 (rethrow o p).1).0 ≡ stop_if p.max_threads p
  unfolding after_wait rethrow
  after_rethrow none p h = refl
  after_rethrow (some e) p h = cc

  abbrev wait_if : Bool → ThreadPool F E → ThreadPool F E × WaitResult E
  wait_if b p = if b then rethrow p.shared.first_exception p else (p, blocked)

  joins_if :
      (b : Bool) (p : ThreadPool F E)
      → (after_wait (wait_if b p).0 (wait_if b p).1).1 ≡ joins_workers
      → (b ≡ true) × ((after_wait (wait_if b p).0 (wait_if b p).1).0 ≡ stop_if p.max_threads p)
  unfolding after_wait
  joins_if true p h = (refl, after_rethrow p.shared.first_exception p h)
  joins_if false p h = cc

  stop_if-some :
      (max : Option ℕ) (n : ℕ) (p : ThreadPool F E) → max ≡ some n → stop_if max p ≡ begin_stop p
  unfolding stop_if
  stop_if-some none n p m = cc
  stop_if-some (some k) n p m = refl

  -- A destructor that comes to its joins has found the tasks done, and has only set `stopping`.
  joins_workers_done :
      (max : Option ℕ) (n : ℕ) (p : ThreadPool F E)
      → max ≡ some n
      → p.max_threads ≡ some n
      → (after_wait (wait_in max p).0 (wait_in max p).1).1 ≡ joins_workers
      → (is_done p.shared ≡ true)
        × ((after_wait (wait_in max p).0 (wait_in max p).1).0 ≡ begin_stop p)
  unfolding wait_in
  joins_workers_done none n p m e h = cc
  joins_workers_done (some k) n p m e h =
      let (over, same) = joins_if (is_done p.shared) p h in
      (over, same ∙ stop_if-some p.max_threads n p e)

  -- From every state that a pool with at least one worker reaches before its destructor: where the
  -- destructor comes to its joins, some schedule of turns of the workers leaves all of them gone, so
  -- that the joins end.
  pub workers_leave :
      (outcome : F → Option E) (n : ℕ) (es : List (Event F)) (p : ThreadPool F E)
      → no_stops es ≡ true
      → run outcome (create (some (suc n))) es ≡ some p
      → (destroy p).1 ≡ joins_workers
      → Leaves outcome (destroy p).0
  unfolding destroy wait
  workers_leave outcome n es p calm reached joined =
      let v = run-Inv outcome (create (some (suc n))) p es reached (create-Inv (some (suc n))) in
      let staffed =
        run-IsStaffed outcome (suc n) (create (some (suc n))) p es refl calm reached
          (create-IsStaffed n) in
      let max = run-max outcome (create (some (suc n))) p es reached in
      let (over, same) = joins_workers_done p.max_threads (suc n) p max max joined in
      let (none_queued, none_marked) =
        done_empty p.shared.queued_tasks p.shared.in_progress_tasks over in
      subst (Leaves outcome) (sym same) (
        begin_stop-Leaves outcome p none_queued (
          idle_of_none_held p.worker_threads staffed.workers_only
            (λ i. sym (v.marked i) ∙ ap (occurs i) none_marked)))
