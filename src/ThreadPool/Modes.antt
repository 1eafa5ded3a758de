-- ===== src/ThreadPool/Modes.antt =====
-- What the maximum of a pool says of its threads, and what a `wait` that is over says of its tasks.
use mathlib.Core.Option.{some_inj}
use spdlog_stress_test.Prelude.{
  ℕ, zero, suc, ◌≡◌, ◌≢◌, Bool, ◌&&◌, refl, subst, ap, sym, ◌∙◌, true, false, List, [], ◌∷◌, ◌++◌,
  Option, none, some, arith, count-append, ◌==◌, Bool-cases, inl, inr,
}
use spdlog_stress_test.ThreadPool.{
  Phase, running, spawned, gone, ThreadPool, create, submit, submit_in, spawned_turn, worker_turn,
  turn_at, turn, is_done, all_gone, wait, wait_in, blocked,
}
use spdlog_stress_test.ThreadPool.Counting.{occurs, held, held_ids}
use spdlog_stress_test.ThreadPool.Due.{silent, active, actives, functions, due}
use spdlog_stress_test.ThreadPool.Invariant.{Inv}
use spdlog_stress_test.ThreadPool.Finishing.{
  submit_in-IsStaffed, wait_in-IsStaffed, turn-keeps_staff, create-IsStaffed,
}
use spdlog_stress_test.ThreadPool.Progress.{is_worker, all_workers, IsStaffed}

module _ {κ} {E : Type κ} where
  -- A thread with a task of its own.
  abbrev pub is_single : Phase ℕ E → Bool
  is_single (spawned f) = true
  is_single gone = true
  is_single w = false

  abbrev pub all_single : List (Phase ℕ E) → Bool
  all_single [] = true
  all_single (w ∷ ws) = is_single w && all_single ws

  -- A pool without a maximum.
  pub record IsSingle (p : ThreadPool ℕ E) : Type κ where
    pub none_queued : p.shared.queued_tasks ≡ []
    pub singles : all_single p.worker_threads ≡ true

  -- What the maximum says of the threads and the queue.
  abbrev pub Fits : Option ℕ → ThreadPool ℕ E → Type κ
  Fits none p = IsSingle p
  Fits (some n) p = IsStaffed p

  held-none :
      (i : ℕ) (w : Phase ℕ E)
      → is_worker w ≡ true
      → ((j : ℕ) → occurs j (held w) ≡ 0)
      → occurs i (active w) ≡ 0
  held-none i (running t) s h = absurd (ground (arith, h t.id))
  held-none i (spawned f) s h = cc
  held-none i w s h = refl

  held_ids-none :
      (i : ℕ) (ws : List (Phase ℕ E))
      → all_workers ws ≡ true
      → ((j : ℕ) → occurs j (held_ids ws) ≡ 0)
      → occurs i (actives ws) ≡ 0
  held_ids-none i [] s h = refl
  held_ids-none i (w ∷ ws) s h = omega (
    arith,
    count-append (λ k. k == i) (active w) (actives ws),
    held-none i w (ground arith)
        (λ j. omega (arith, h j, count-append (λ k. k == j) (held w) (held_ids ws))),
    held_ids-none i ws (ground arith)
        (λ j. omega (arith, h j, count-append (λ k. k == j) (held w) (held_ids ws))),
  )

  all_gone-actives :
      (i : ℕ) (ws : List (Phase ℕ E)) → all_gone ws ≡ true → occurs i (actives ws) ≡ 0
  all_gone-actives i [] h = refl
  all_gone-actives i (gone ∷ ws) h = all_gone-actives i ws h
  all_gone-actives i (w ∷ ws) h = cc

  -- A `wait` that is over leaves nothing due.
  wait_in-due :
      (max : Option ℕ) (i : ℕ) (p : ThreadPool ℕ E)
      → Fits max p
      → Inv p
      → (wait_in max p).1 ≢ blocked
      → due i p ≡ 0
  unfolding wait_in
  wait_in-due none i p s v h = elim (Bool-cases (all_gone p.worker_threads)) [
    | inl over ↦
        ground (arith, ap functions s.none_queued, all_gone-actives i p.worker_threads over)
    | inr busy ↦ absurd (h (simp busy))
  ]
  wait_in-due (some n) i p s v h = elim (Bool-cases (is_done p.shared)) [
    | inl over ↦
        let none_queued : p.shared.queued_tasks ≡ [] = ground arith in
        let none_held : p.shared.in_progress_tasks ≡ [] = ground arith in
        omega (
          arith,
          ap (λ q. occurs i (functions q)) none_queued,
          held_ids-none i p.worker_threads s.workers_only
              (λ j. sym (v.marked j) ∙ ap (occurs j) none_held),
        )
    | inr busy ↦ absurd (h (simp busy))
  ]

  pub wait-due :
      (max : Option ℕ) (i : ℕ) (p : ThreadPool ℕ E)
      → p.max_threads ≡ max
      → Fits max p
      → Inv p
      → (wait p).1 ≢ blocked
      → due i p ≡ 0
  unfolding wait
  wait-due max i p e s v h = wait_in-due p.max_threads i p (subst (λ m. Fits m p) (sym e) s) v h

  single_turn :
      (w : Phase ℕ E) (p : ThreadPool ℕ E)
      → is_single w ≡ true
      → (is_single (worker_turn silent w p).1 ≡ true)
        × ((worker_turn silent w p).0.shared.queued_tasks ≡ p.shared.queued_tasks)
  unfolding worker_turn spawned_turn
  single_turn (spawned f) p h = (refl, refl)
  single_turn gone p h = (refl, refl)
  single_turn w p h = cc

  single_turn_at :
      (j : ℕ) (ws : List (Phase ℕ E)) (p : ThreadPool ℕ E)
      → all_single ws ≡ true
      → let r = turn_at silent j ws p in
        (all_single r.1 ≡ true) × (r.0.shared.queued_tasks ≡ p.shared.queued_tasks)
  unfolding turn_at
  single_turn_at j [] p h = (refl, refl)
  single_turn_at zero (w ∷ ws) p h = ground (arith, single_turn w p)
  single_turn_at (suc j) (w ∷ ws) p h = ground (arith, single_turn_at j ws p)

  turn-IsSingle : (j : ℕ) (p : ThreadPool ℕ E) → IsSingle p → IsSingle (turn silent j p)
  unfolding turn
  turn-IsSingle j p s =
      let (singles, same) = single_turn_at j p.worker_threads p s.singles in
      record { none_queued = same ∙ s.none_queued; singles = singles }

  pub turn-Fits :
      (max : Option ℕ) (j : ℕ) (p : ThreadPool ℕ E) → Fits max p → Fits max (turn silent j p)
  turn-Fits none j p s = turn-IsSingle j p s
  turn-Fits (some n) j p s = turn-keeps_staff silent j p s

  all_single-append :
      (f : ℕ) (ws : List (Phase ℕ E))
      → all_single ws ≡ true
      → all_single (ws ++ spawned f ∷ []) ≡ true
  all_single-append f [] h = refl
  all_single-append f (w ∷ ws) h = ground (arith, all_single-append f ws)

  submit_in-Fits :
      (max : Option ℕ) (f : ℕ) (p q : ThreadPool ℕ E)
      → submit_in max f p ≡ some q
      → Fits max p
      → Fits max q
  unfolding submit_in
  submit_in-Fits none f p q h s = subst IsSingle (some_inj.0 h) (record {
    none_queued = s.none_queued;
    singles = all_single-append f p.worker_threads s.singles;
  })
  submit_in-Fits (some n) f p q h s = submit_in-IsStaffed (some n) n f p q refl h s

  pub submit-Fits :
      (max : Option ℕ) (f : ℕ) (p q : ThreadPool ℕ E)
      → p.max_threads ≡ max
      → submit f p ≡ some q
      → Fits max p
      → Fits max q
  unfolding submit
  submit-Fits max f p q e h s = submit_in-Fits max f p q (sym (ap (λ m. submit_in m f p) e) ∙ h) s

  wait_in-Fits : (max : Option ℕ) (p : ThreadPool ℕ E) → Fits max p → Fits max (wait_in max p).0
  unfolding wait_in
  wait_in-Fits none p s = elim (Bool-cases (all_gone p.worker_threads)) [
    | inl over ↦ simp over (record { none_queued = s.none_queued; singles = refl })
    | inr busy ↦ simp busy s
  ]
  wait_in-Fits (some n) p s = wait_in-IsStaffed (some n) n p refl s

  pub wait-Fits :
      (max : Option ℕ) (p : ThreadPool ℕ E) → p.max_threads ≡ max → Fits max p → Fits max (wait p).0
  unfolding wait
  wait-Fits max p e s = subst (λ m. Fits max (wait_in m p).0) (sym e) (wait_in-Fits max p s)

pub create-Fits {κ} : (E : Type κ) (max : Option ℕ) → max ≢ some 0 → Fits {E = E} max (create max)
create-Fits E none h = record { none_queued = refl; singles = refl }
create-Fits E (some zero) h = absurd (h refl)
create-Fits E (some (suc n)) h = create-IsStaffed n
