-- ===== src/ThreadPool/Sleeping/Watching.antt =====
-- What holds of the sleepers, and is kept by every event but a turn.
use mathlib.Core.Option.{some_inj}
use spdlog_stress_test.Prelude.{
  ℕ, ◌+◌, ◌-◌, ◌≤◌, ◌≡◌, ◌++◌, refl, ap, sym, subst, ◌∙◌, true, false, List, [], ◌∷◌, Option, none,
  some, arith, is_empty, length, Bool-cases, inl, inr, ◌==◌,
}
use spdlog_stress_test.ThreadPool.{
  ThreadPool, submit, submit_in, with_shared, enqueue, wait, wait_in, all_gone, rethrow, begin_stop,
  is_done, int_max,
}
use spdlog_stress_test.ThreadPool.Sleeping.{
  Thread, System, some_asleep, wake_one, wake_all, wake_at, submitted, call_wait,
}
use spdlog_stress_test.ThreadPool.Sleeping.Turns.{
  count_awake, count_asleep, all_staff, awake-asleep, length-wake_one, all_staff-wake_one,
  count_asleep-wake_one, asleep_of_some, count_asleep-wake_all, wake_all-staff, wake_at-staff,
}

append_nonempty {ℓ} : {A : Type ℓ} (xs : List A) (x : A) → is_empty (xs ++ x ∷ []) ≡ false
append_nonempty [] x = refl
append_nonempty (y ∷ xs) x = refl

module _ {ℓ κ} {F : Type ℓ} {E : Type κ} where
  pub record Watched (s : System F E) : Type 0 where
    pub staff : s.pool.shared.stopping ≡ false → all_staff s.threads ≡ true
    pub manned : 1 ≤ length s.threads
    pub alert :
        s.pool.shared.stopping ≡ false
        → is_empty s.pool.shared.queued_tasks ≡ false
        → 1 ≤ count_awake s.threads + s.notifies
    pub undone : s.caller_asleep ≡ true → is_done s.pool.shared ≡ false
    pub leaving :
        s.pool.shared.stopping ≡ true → s.notify_all_due ≡ false → count_asleep s.threads ≡ 0

  -- A notification finds a worker to wake, or all are awake.
  notifies_one-alert :
      (k n : ℕ) (ts : List (Thread F E))
      → all_staff ts ≡ true
      → 1 ≤ length ts
      → 1 ≤ count_awake (wake_one k ts) + n
  notifies_one-alert k n ts s h =
      let e = awake-asleep (wake_one k ts) (all_staff-wake_one k ts ∙ s) in
      let d = awake-asleep ts s in
      elim (Bool-cases (some_asleep ts)) [
        | inl b ↦ ground (arith, b, e, d, h, length-wake_one k ts, count_asleep-wake_one k ts)
        | inr b ↦ ground (
          arith,
          b,
          e,
          d,
          h,
          length-wake_one k ts,
          count_asleep-wake_one k ts,
          asleep_of_some ts b,
        )
      ]

  pub one-Watched :
      (k : ℕ) (s : System F E)
      → Watched s
      → Watched (record s { notifies = s.notifies - 1; threads = wake_one k s.threads })
  one-Watched k s v = record {
    staff = λ on. all_staff-wake_one k s.threads ∙ v.staff on;
    manned = omega (arith, length-wake_one k s.threads, v.manned);
    alert = λ on h. notifies_one-alert k (s.notifies - 1) s.threads (v.staff on) v.manned;
    undone = v.undone;
    leaving = λ down due. omega (arith, v.leaving down due, count_asleep-wake_one k s.threads);
  }

  pub all-Watched :
      (s : System F E)
      → Watched s
      → Watched (record s { threads = wake_all s.threads; notify_all_due = false })
  all-Watched s v =
      let w = wake_all-staff s.threads in
      record {
        staff = λ on. w.0 ∙ v.staff on;
        manned = omega (arith, w.1, v.manned);
        alert = λ on h. omega (arith, w.2, v.alert on h);
        undone = v.undone;
        leaving = λ down due. count_asleep-wake_all s.threads;
      }

  pub at-Watched :
      (i : ℕ) (s : System F E) → Watched s → Watched (record s { threads = wake_at i s.threads })
  at-Watched i s v =
      let w = wake_at-staff i s.threads in
      record {
        staff = λ on. w.0 ∙ v.staff on;
        manned = omega (arith, w.1, v.manned);
        alert = λ on h. omega (arith, w.2, v.alert on h);
        undone = v.undone;
        leaving = λ down due. omega (arith, w.3, v.leaving down due);
      }

  pub stop-Watched :
      (s : System F E)
      → Watched s
      → Watched (record s { pool = begin_stop s.pool; notify_all_due = true })
  unfolding begin_stop
  stop-Watched s v = record {
    staff = λ on. cc on;
    manned = v.manned;
    alert = λ on h. cc on;
    undone = v.undone;
    leaving = λ down due. cc due;
  }

  pub caller-Watched : (s : System F E) → Watched s → Watched (record s { caller_asleep = false })
  caller-Watched s v = record {
    staff = v.staff;
    manned = v.manned;
    alert = v.alert;
    undone = λ h. cc h;
    leaving = v.leaving;
  }

  accepted-Watched :
      (s : System F E) (p : ThreadPool F E)
      → Watched s
      → p.shared.stopping ≡ s.pool.shared.stopping
      → (is_done s.pool.shared ≡ false → is_done p.shared ≡ false)
      → Watched (record s { pool = p; notifies = s.notifies + 1 })
  accepted-Watched s p v same_flag undone = record {
    staff = λ on. v.staff (sym same_flag ∙ on);
    manned = v.manned;
    alert = λ on h. omega arith;
    undone = λ h. undone (v.undone h);
    leaving = λ down due. v.leaving (sym same_flag ∙ down) due;
  }

  submitted-Watched :
      (f : F) (max : Option ℕ) (s t : System F E)
      → Watched s
      → submitted s (submit_in max f s.pool) ≡ some t
      → Watched t
  unfolding submit_in with_shared enqueue
  submitted-Watched f none s t v =
      λ h. subst Watched (some_inj.0 h) (accepted-Watched s _ v refl (λ undone. undone))
  submitted-Watched f (some n) s t v = elim (Bool-cases (s.pool.shared.next_task_id == int_max)) [
    | inl full ↦ simp full (λ h. cc h)
    | inr room ↦ simp room (λ h. subst Watched (some_inj.0 h) (
        accepted-Watched s _ v refl (λ undone. ground (
          arith,
          append_nonempty s.pool.shared.queued_tasks
              (record { id = s.pool.shared.next_task_id; function = f }),
        ))))
  ]

  pub submit-Watched :
      (f : F) (s t : System F E) → Watched s → submitted s (submit f s.pool) ≡ some t → Watched t
  unfolding submit
  submit-Watched f s t v h = submitted-Watched f s.pool.max_threads s t v h

  -- A pool in place of another, with the same flag and the same tasks.
  replaced-Watched :
      (s : System F E) (p : ThreadPool F E)
      → p.shared.stopping ≡ s.pool.shared.stopping
      → p.shared.queued_tasks ≡ s.pool.shared.queued_tasks
      → p.shared.in_progress_tasks ≡ s.pool.shared.in_progress_tasks
      → Watched s
      → Watched (record s { pool = p })
  replaced-Watched s p flag queue held v = record {
    staff = λ on. v.staff (sym flag ∙ on);
    manned = v.manned;
    alert = λ on h. v.alert (sym flag ∙ on) (sym (ap is_empty queue) ∙ h);
    undone = λ h. ground (arith, v.undone h, ap is_empty queue, ap is_empty held);
    leaving = λ down due. v.leaving (sym flag ∙ down) due;
  }

  rethrow-Watched :
      (e : Option E) (s : System F E)
      → Watched s
      → Watched (record s { pool = (rethrow e s.pool).0 })
  unfolding rethrow
  rethrow-Watched none s v = v
  rethrow-Watched (some e) s v = replaced-Watched s _ refl refl refl v

  waited-Watched :
      (max : Option ℕ) (s : System F E)
      → Watched s
      → Watched (record s { pool = (wait_in max s.pool).0 })
  unfolding wait_in
  waited-Watched none s v = elim (Bool-cases (all_gone s.pool.worker_threads)) [
    | inl gone ↦ simp gone (replaced-Watched s _ refl refl refl v)
    | inr alive ↦ simp alive v
  ]
  waited-Watched (some n) s v = elim (Bool-cases (is_done s.pool.shared)) [
    | inl over ↦ simp over (rethrow-Watched s.pool.shared.first_exception s v)
    | inr undone ↦ simp undone v
  ]

  pub wait-Watched : (s : System F E) → Watched s → Watched (call_wait s)
  unfolding call_wait wait
  wait-Watched s v = elim (Bool-cases s.caller_asleep) [
    | inl asleep ↦ simp asleep v
    | inr awake ↦ elim (Bool-cases (is_done s.pool.shared)) [
      | inl over ↦
          simp (awake, over)
            (waited-Watched s.pool.max_threads (record s { caller_asleep = false })
              (caller-Watched s v))
      | inr undone ↦
          simp (awake, undone)
            (record {
              staff = v.staff;
              manned = v.manned;
              alert = v.alert;
              undone = λ h. undone;
              leaving = v.leaving;
            })
    ]
  ]
