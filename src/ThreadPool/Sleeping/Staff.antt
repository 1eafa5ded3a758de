-- ===== src/ThreadPool/Sleeping/Staff.antt =====
-- What one turn keeps: the staff, the work to be seen, and the caller's sleep.
use spdlog_stress_test.Prelude.{
  ℕ, zero, suc, ◌≤◌, ◌≡◌, refl, ap, sym, ◌∙◌, Bool, true, false, List, [], ◌∷◌, Option, none, some,
  arith, is_empty, length,
}
use spdlog_stress_test.ThreadPool.{
  QueuedTask, Phase, waiting, running, catching, finishing, spawned, gone, ThreadPool, worker_turn,
  take_task, ran, is_done, insert, spawned_turn,
}
use spdlog_stress_test.ThreadPool.Progress.{is_worker}
use spdlog_stress_test.ThreadPool.Sleeping.{Thread, falls_asleep, wakes_caller, one_turn, turn_at}
use spdlog_stress_test.ThreadPool.Sleeping.Turns.{count_awake, count_asleep, all_staff}

insert_nonempty : (i : ℕ) (js : List ℕ) → is_empty (insert i js) ≡ false
unfolding insert
insert_nonempty i [] = refl
insert_nonempty i (j ∷ js) = ground arith

module _ {ℓ κ} {F : Type ℓ} {E : Type κ} where
  -- From a pool and threads to those behind a turn; `woken` says whether the caller was notified.
  pub record Keeps (ts us : List (Thread F E)) (p q : ThreadPool F E) (woken : Bool)
      : Type (ℓ ⊔ κ) where
    pub stopping : q.shared.stopping ≡ p.shared.stopping
    pub same_length : length us ≡ length ts
    pub staff : p.shared.stopping ≡ false → all_staff ts ≡ true → all_staff us ≡ true
    pub alert :
        p.shared.stopping ≡ false
        → is_empty q.shared.queued_tasks ≡ false
        → (is_empty p.shared.queued_tasks ≡ false)
          × (all_staff ts ≡ true → count_awake ts ≤ count_awake us)
    pub leaving : p.shared.stopping ≡ true → count_asleep us ≤ count_asleep ts
    pub undone : is_done p.shared ≡ false → woken ≡ false → is_done q.shared ≡ false

  same-Keeps : (ts : List (Thread F E)) (p : ThreadPool F E) → Keeps ts ts p p false
  same-Keeps ts p = record {
    stopping = refl;
    same_length = refl;
    staff = λ on s. s;
    alert = λ on h. (h, λ s. omega arith);
    leaving = λ down. omega arith;
    undone = λ h w. h;
  }

  -- A thread among the others.
  beside-Keeps :
      (t : Thread F E) (ts us : List (Thread F E)) (p q : ThreadPool F E) (woken : Bool)
      → Keeps ts us p q woken
      → Keeps (t ∷ ts) (t ∷ us) p q woken
  beside-Keeps t ts us p q woken k = record {
    stopping = k.stopping;
    same_length = ap suc k.same_length;
    staff = λ on s. ground (arith, k.staff on);
    alert = λ on h. ((k.alert on h).0, λ s. ground (arith, (k.alert on h).1));
    leaving = λ down. omega (arith, k.leaving down);
    undone = k.undone;
  }

  ahead-Keeps :
      (t u : Thread F E) (ts : List (Thread F E)) (p q : ThreadPool F E) (woken : Bool)
      → Keeps (t ∷ []) (u ∷ []) p q woken
      → Keeps (t ∷ ts) (u ∷ ts) p q woken
  ahead-Keeps t u ts p q woken k = record {
    stopping = k.stopping;
    same_length = refl;
    staff = λ on s. ground (arith, k.staff on);
    alert = λ on h. ((k.alert on h).0, λ s. ground (arith, (k.alert on h).1));
    leaving = λ down. omega (arith, k.leaving down);
    undone = k.undone;
  }

  module _ (outcome : F → Option E) where
    ran-is_worker : (t : QueuedTask F) (o : Option E) → is_worker (ran t o) ≡ true
    unfolding ran
    ran-is_worker t none = refl
    ran-is_worker t (some e) = refl

    spawned_turn-shared :
        (o : Option E) (p : ThreadPool F E) → (spawned_turn {F = F} o p).0.shared ≡ p.shared
    unfolding spawned_turn
    spawned_turn-shared none p = refl
    spawned_turn-shared (some e) p = refl

    taken-Keeps :
        (q : List (QueuedTask F)) (p : ThreadPool F E)
        → p.shared.queued_tasks ≡ q
        → let r = take_task q p in
          Keeps
            (record { phase = waiting; asleep = false } ∷ [])
            (record { phase = r.1; asleep = falls_asleep waiting p } ∷ [])
            p
            r.0
            false
    unfolding take_task
    taken-Keeps [] p e = record {
      stopping = refl;
      same_length = refl;
      staff = λ on s. ground arith;
      alert = λ on h. cc (ap is_empty (sym e) ∙ h);
      leaving = λ down. ground arith;
      undone = λ h w. h;
    }
    taken-Keeps (t ∷ ts) p e = record {
      stopping = refl;
      same_length = refl;
      staff = λ on s. refl;
      alert = λ on h. (ap is_empty e, λ s. ground (arith, ap is_empty e));
      leaving = λ down. ground arith;
      undone = λ h w. ground (arith, insert_nonempty t.id p.shared.in_progress_tasks);
    }

    -- Where the queue and the flag are left alone and the worker stays one, awake.
    steady-Keeps :
        (w w' : Phase F E) (p q : ThreadPool F E) (woken : Bool)
        → q.shared.stopping ≡ p.shared.stopping
        → q.shared.queued_tasks ≡ p.shared.queued_tasks
        → (is_worker w ≡ true → is_worker w' ≡ true)
        → (is_done p.shared ≡ false → woken ≡ false → is_done q.shared ≡ false)
        → Keeps
            (record { phase = w; asleep = false } ∷ [])
            (record { phase = w'; asleep = false } ∷ [])
            p
            q
            woken
    steady-Keeps w w' p q woken same_flag same_queue staff undone = record {
      stopping = same_flag;
      same_length = refl;
      staff = λ on s. ground (arith, staff);
      alert = λ on h. (ap is_empty (sym same_queue) ∙ h, λ s. ground (arith, staff));
      leaving = λ down. omega arith;
      undone = undone;
    }

    awake_turn-Keeps :
        (w : Phase F E) (p : ThreadPool F E)
        → let r = worker_turn outcome w p in
          Keeps
            (record { phase = w; asleep = false } ∷ [])
            (record { phase = r.1; asleep = falls_asleep w p } ∷ [])
            p
            r.0
            (wakes_caller w r.0)
    unfolding worker_turn
    awake_turn-Keeps waiting p = taken-Keeps p.shared.queued_tasks p refl
    awake_turn-Keeps (running t) p =
        steady-Keeps (running t) (ran t (outcome t.function)) p p false refl refl
          (λ s. ran-is_worker t (outcome t.function)) (λ h w. h)
    awake_turn-Keeps (catching t e) p =
        steady-Keeps (catching t e) (finishing t) p _ false refl refl (λ s. refl) (λ h w. h)
    awake_turn-Keeps (finishing t) p =
        steady-Keeps (finishing t) waiting p _ _ refl refl (λ s. refl) (λ h w. w)
    awake_turn-Keeps (spawned f) p =
        steady-Keeps (spawned f) _ p (spawned_turn (outcome f) p).0 false
          (ap (λ m. m.stopping) (spawned_turn-shared (outcome f) p))
          (ap (λ m. m.queued_tasks) (spawned_turn-shared (outcome f) p)) (λ s. cc)
          (λ h w. ap (λ m. is_done m) (spawned_turn-shared (outcome f) p) ∙ h)
    awake_turn-Keeps gone p = steady-Keeps gone gone p p false refl refl (λ s. s) (λ h w. h)

    one_turn-Keeps :
        (w : Phase F E) (dormant : Bool) (p : ThreadPool F E)
        → let t : Thread F E = record { phase = w; asleep = dormant } in
          let r = one_turn outcome t p in Keeps (t ∷ []) (r.threads ∷ []) p r.pool r.woken
    unfolding one_turn
    one_turn-Keeps w true p = same-Keeps (record { phase = w; asleep = true } ∷ []) p
    one_turn-Keeps w false p = awake_turn-Keeps w p

    pub turn_at-Keeps :
        (i : ℕ) (ts : List (Thread F E)) (p : ThreadPool F E)
        → let r = turn_at outcome i ts p in Keeps ts r.threads p r.pool r.woken
    unfolding turn_at
    turn_at-Keeps i [] p = same-Keeps [] p
    turn_at-Keeps zero (t ∷ ts) p =
        ahead-Keeps t (one_turn outcome t p).threads ts p (one_turn outcome t p).pool
          (one_turn outcome t p).woken (one_turn-Keeps t.phase t.asleep p)
    turn_at-Keeps (suc i) (t ∷ ts) p =
        beside-Keeps t ts (turn_at outcome i ts p).threads p (turn_at outcome i ts p).pool
          (turn_at outcome i ts p).woken (turn_at-Keeps i ts p)
