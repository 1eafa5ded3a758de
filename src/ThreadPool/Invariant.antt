-- ===== src/ThreadPool/Invariant.antt =====
-- Which tasks are queued, held by a worker, and finished: true at the start, and kept by every
-- operation of the pool.
use Prim.Native.Nat.{zero}
use mathlib.Core.Option.{some_inj}
use mathlib.Core.List.{map-append}
use native.Mathlib.Numerals.{add-one}
use spdlog_stress_test.Prelude.{
  subst, suc, ℕ, ◌+◌, ◌≤◌, ◌≡◌, refl, ap, sym, ◌∙◌, List, [], ◌∷◌, ◌++◌, Option, none, some, arith,
  count-append, append_assoc, ◌==◌,
}
use mathlib.Core.Option.{some_inj}
use spdlog_stress_test.Prelude.{Bool-cases, inl, inr}
use spdlog_stress_test.ThreadPool.{
  gone, int_max, submit_in, Shared, turn, submit, turn_at, waiting, ran, spawned_turn, spawned,
  running, Phase, catching, keep_first, QueuedTask, finishing, ThreadPool, take_task, worker_turn,
}
use spdlog_stress_test.ThreadPool.Counting.{
  held_ids-spawned, held_ids, held, occurs, occurs-insert, occurs-erase, upto, occurs-upto-le, ids,
}

abbrev pub first_of {κ} : {E : Type κ} → List E → Option E
first_of [] = none
first_of (e ∷ es) = some e

keep_first-append {κ} :
    {E : Type κ} (es : List E) (e : E) → keep_first (first_of es) e ≡ first_of (es ++ e ∷ [])
unfolding keep_first
keep_first-append [] e = refl
keep_first-append (x ∷ es) e = refl

module _ {ℓ κ} {F : Type ℓ} {E : Type κ} where
  -- `holding i` says how many workers hold the task `i`.
  pub record Keeps (holding : ℕ → ℕ) (p : ThreadPool F E) : Type (ℓ ⊔ κ) where
    pub numbered : p.started ++ ids p.shared.queued_tasks ≡ upto p.shared.next_task_id
    pub owned : (i : ℕ) → occurs i p.started ≡ occurs i p.finished + holding i
    pub marked : (i : ℕ) → occurs i p.shared.in_progress_tasks ≡ holding i
    pub noted : p.shared.first_exception ≡ first_of p.unreported

  pub Keeps-cong :
      {h k : ℕ → ℕ} {p : ThreadPool F E} → ((i : ℕ) → h i ≡ k i) → Keeps h p → Keeps k p
  Keeps-cong e v = record {
    numbered = v.numbered;
    owned = λ i. omega (arith, e i, v.owned i);
    marked = λ i. v.marked i ∙ e i;
    noted = v.noted;
  }

  -- A task is started once.
  started-le :
      {h : ℕ → ℕ} {p : ThreadPool F E}
      → Keeps h p
      → (i : ℕ) → occurs i p.started + occurs i (ids p.shared.queued_tasks) ≤ 1
  started-le {p} v i = omega (
    arith,
    count-append (λ j. j == i) p.started (ids p.shared.queued_tasks),
    ap (occurs i) v.numbered,
    occurs-upto-le i p.shared.next_task_id,
  )

  taken-Keeps :
      (r : ℕ → ℕ) (t : QueuedTask F) (ts : List (QueuedTask F)) (p : ThreadPool F E)
      → p.shared.queued_tasks ≡ t ∷ ts
      → Keeps r p
      → Keeps (λ i. occurs i (t.id ∷ []) + r i) (take_task (t ∷ ts) p).0
  unfolding take_task
  taken-Keeps r t ts p e v = record {
    numbered =
        append_assoc p.started (t.id ∷ []) (ids ts)
        ∙ ap (λ q. p.started ++ ids q) (sym e)
        ∙ v.numbered;
    owned = λ i. omega (arith, count-append (λ j. j == i) p.started (t.id ∷ []), v.owned i);
    marked = λ i. omega (arith, occurs-insert i t.id p.shared.in_progress_tasks fresh, v.marked i);
    noted = v.noted;
  }
    where
      queued : 1 ≤ occurs t.id (ids p.shared.queued_tasks)
      queued = rw e (ground arith)

      fresh : occurs t.id p.shared.in_progress_tasks ≡ 0
      fresh = omega (arith, started-le v t.id, v.owned t.id, v.marked t.id, queued)

  finished-Keeps :
      (outcome : F → Option E) (r : ℕ → ℕ) (t : QueuedTask F) (p : ThreadPool F E)
      → Keeps (λ i. occurs i (t.id ∷ []) + r i) p
      → Keeps r (worker_turn outcome (finishing t) p).0
  unfolding worker_turn
  finished-Keeps outcome r t p v = record {
    numbered = v.numbered;
    owned = λ i. omega (arith, count-append (λ j. j == i) p.finished (t.id ∷ []), v.owned i);
    marked = λ i. ground (
      arith,
      occurs-erase i t.id p.shared.in_progress_tasks,
      started-le v i,
      v.owned i,
      v.marked i,
    );
    noted = v.noted;
  }

  caught-Keeps :
      (outcome : F → Option E) (r : ℕ → ℕ) (t : QueuedTask F) (e : E) (p : ThreadPool F E)
      → Keeps r p
      → Keeps r (worker_turn outcome (catching t e) p).0
  unfolding worker_turn
  caught-Keeps outcome r t e p v = record {
    numbered = v.numbered;
    owned = v.owned;
    marked = v.marked;
    noted = ap (λ x. keep_first x e) v.noted ∙ keep_first-append p.unreported e;
  }

  waiting-Keeps :
      (r : ℕ → ℕ) (q : List (QueuedTask F)) (p : ThreadPool F E)
      → p.shared.queued_tasks ≡ q
      → Keeps r p
      → Keeps (λ i. occurs i (held (take_task q p).1) + r i) (take_task q p).0
  unfolding take_task
  waiting-Keeps r [] p e v = Keeps-cong (λ i. ground arith) v
  waiting-Keeps r (t ∷ ts) p e v = taken-Keeps r t ts p e v

  held-ran : (t : QueuedTask F) (o : Option E) → held (ran t o) ≡ t.id ∷ []
  unfolding ran
  held-ran t none = refl
  held-ran t (some e) = refl

  spawned-Keeps :
      (r : ℕ → ℕ) (o : Option E) (p : ThreadPool F E)
      → Keeps r p
      → Keeps (λ i. occurs i (held (spawned_turn o p).1) + r i) (spawned_turn o p).0
  unfolding spawned_turn
  spawned-Keeps r none p v = Keeps-cong (λ i. omega arith) v
  spawned-Keeps r (some e) p v =
      Keeps-cong (λ i. omega arith)
        (record { numbered = v.numbered; owned = v.owned; marked = v.marked; noted = v.noted })

  -- A turn changes what the thread holds as it changes the pool.
  worker_turn-Keeps :
      (outcome : F → Option E) (r : ℕ → ℕ) (w : Phase F E) (p : ThreadPool F E)
      → Keeps (λ i. occurs i (held w) + r i) p
      → Keeps (λ i. occurs i (held (worker_turn outcome w p).1) + r i) (worker_turn outcome w p).0
  unfolding worker_turn
  worker_turn-Keeps outcome r waiting p v =
      waiting-Keeps r p.shared.queued_tasks p refl (Keeps-cong (λ i. omega arith) v)
  worker_turn-Keeps outcome r (running t) p v = rw (held-ran t (outcome t.function)) v
  worker_turn-Keeps outcome r (catching t e) p v = caught-Keeps outcome _ t e p v
  worker_turn-Keeps outcome r (finishing t) p v =
      Keeps-cong (λ i. omega arith) (finished-Keeps outcome r t p v)
  worker_turn-Keeps outcome r (spawned f) p v =
      spawned-Keeps r (outcome f) p (Keeps-cong (λ i. omega arith) v)
  worker_turn-Keeps outcome r gone p v = v

  turn_at-Keeps :
      (outcome : F → Option E) (r : ℕ → ℕ) (i : ℕ) (ws : List (Phase F E)) (p : ThreadPool F E)
      → Keeps (λ j. occurs j (held_ids ws) + r j) p
      → Keeps (λ j. occurs j (held_ids (turn_at outcome i ws p).1) + r j) (turn_at outcome i ws p).0
  unfolding turn_at
  turn_at-Keeps outcome r i [] p v = v
  turn_at-Keeps outcome r zero (w ∷ ws) p v =
      Keeps-cong (λ j. split j (worker_turn outcome w p).1)
        (worker_turn-Keeps outcome (λ j. occurs j (held_ids ws) + r j) w p
          (Keeps-cong (λ j. sym (split j w)) v))
    where
      split :
          (j : ℕ) (x : Phase F E)
          → occurs j (held x) + (occurs j (held_ids ws) + r j)
            ≡ occurs j (held x ++ held_ids ws) + r j
      split j x = omega (arith, count-append (λ k. k == j) (held x) (held_ids ws))
  turn_at-Keeps outcome r (suc i) (w ∷ ws) p v =
      Keeps-cong (λ j. split j (turn_at outcome i ws p).1)
        (turn_at-Keeps outcome (λ j. occurs j (held w) + r j) i ws p
          (Keeps-cong (λ j. sym (split j ws)) v))
    where
      split :
          (j : ℕ) (xs : List (Phase F E))
          → occurs j (held_ids xs) + (occurs j (held w) + r j)
            ≡ occurs j (held w ++ held_ids xs) + r j
      split j xs = omega (arith, count-append (λ k. k == j) (held w) (held_ids xs))

  abbrev pub Inv : ThreadPool F E → Type (ℓ ⊔ κ)
  Inv p = Keeps (λ i. occurs i (held_ids p.worker_threads)) p

  pub turn-Inv :
      (outcome : F → Option E) (i : ℕ) (p : ThreadPool F E) → Inv p → Inv (turn outcome i p)
  unfolding turn
  turn-Inv outcome i p v =
      let t =
        turn_at-Keeps outcome (λ j. 0) i p.worker_threads p (Keeps-cong (λ j. omega arith) v) in
      let u =
        Keeps-cong {k = λ j. occurs j (held_ids (turn_at outcome i p.worker_threads p).1)}
          (λ j. omega arith) t in
      record { numbered = u.numbered; owned = u.owned; marked = u.marked; noted = u.noted }

  -- The shared part after a submission.
  abbrev queued_with : F → Shared F E → Shared F E
  queued_with f m = record m {
    next_task_id = m.next_task_id + 1;
    queued_tasks = m.queued_tasks ++ record { id = m.next_task_id; function = f } ∷ [];
  }

  queued-Inv :
      (f : F) (p : ThreadPool F E) → Inv p → Inv (record p { shared = queued_with f p.shared })
  queued-Inv f p v = record {
    numbered = rw (map-append, ← append_assoc, v.numbered, add-one) refl;
    owned = v.owned;
    marked = v.marked;
    noted = v.noted;
  }

  spawn-Inv :
      (f : F) (p : ThreadPool F E)
      → Inv p
      → Inv (record p { worker_threads = p.worker_threads ++ spawned f ∷ [] })
  spawn-Inv f p v =
      rw (held_ids-spawned f p.worker_threads)
        (record { numbered = v.numbered; owned = v.owned; marked = v.marked; noted = v.noted })

  submit_in-Inv :
      (max : Option ℕ) (f : F) (p q : ThreadPool F E) → submit_in max f p ≡ some q → Inv p → Inv q
  unfolding submit
  submit_in-Inv none f p q e v = subst Inv (some_inj.0 e) (spawn-Inv f p v)
  submit_in-Inv (some n) f p q e v = elim (Bool-cases (p.shared.next_task_id == int_max)) [
    | inl full ↦ let bad : none ≡ some q = rw full at e in cc
    | inr room ↦ subst Inv (some_inj.0 (rw room at e)) (queued-Inv f p v)
  ]

  pub submit-Inv : (f : F) (p q : ThreadPool F E) → submit f p ≡ some q → Inv p → Inv q
  unfolding submit
  submit-Inv f p q e v = submit_in-Inv p.max_threads f p q e v
