-- ===== src/Ride/ObserverThread/Registered.antt =====
-- No pair is ever registered twice.
use spdlog_stress_test.Prelude.{
  ℕ, ◌≤◌, ◌≡◌, refl, sym, subst, ◌&&◌, List, [], ◌∷◌, Option, none, some, arith, count, is_empty,
  Bool-cases, inl, inr,
}
use spdlog_stress_test.Ride.{
  RideState, NotificationData, ObserverData, Owners, is_pair, Manager, drop_observer, unsubscribe,
  shut_down, try_changing_state,
}
use spdlog_stress_test.Ride.Observers.{IsUnique, subscribe-IsUnique}
use spdlog_stress_test.Ride.ObserverThread.{
  Outcome, Phase, at_head, waiting, popped, calling, exited, System, start_of, can_wake, collect,
  take_front, wake, thread_step, Event, turns, changes, subscribes, unsubscribes, shuts_down, stops,
  owners_become, change, step, run,
}

collect-count-le :
    (own : Owners) (es : List ObserverData) (d o : ℕ)
    → count (is_pair d o) (collect own es) ≤ count (is_pair d o) es
unfolding collect
collect-count-le own [] d o = omega arith
collect-count-le own (e ∷ es) d o = ground (arith, collect-count-le own es d o)

drop_observer-count-le :
    (own : Owners) (x : ℕ) (es : List ObserverData) (d o : ℕ)
    → count (is_pair d o) (drop_observer own x es) ≤ count (is_pair d o) es
unfolding drop_observer
drop_observer-count-le own x [] d o = omega arith
drop_observer-count-le own x (e ∷ es) d o = ground (arith, drop_observer-count-le own x es d o)

unsubscribe-IsUnique :
    (own : Owners) (o : Option ℕ) (m : Manager)
    → IsUnique m.observers
    → IsUnique (unsubscribe own o m).0.observers
unfolding unsubscribe
unsubscribe-IsUnique own none m u = u
unsubscribe-IsUnique own (some o) m u = elim (Bool-cases m.is_shutting_down) [
  | inl down ↦ simp down u
  | inr up ↦ simp up (λ d x. omega (arith, u d x, drop_observer-count-le own o m.observers d x))
]

try_changing_state-observers :
    (next : RideState) (m : Manager) → (try_changing_state next m).0.observers ≡ m.observers
unfolding try_changing_state
try_changing_state-observers next m = ground arith

take_front-observers :
    (q : List NotificationData) (s : System)
    → (take_front q s).manager.observers ≡ s.manager.observers
unfolding take_front
take_front-observers [] s = refl
take_front-observers (n ∷ ns) s = refl

wake-observers : (s : System) → (wake s).manager.observers ≡ s.manager.observers
unfolding wake
wake-observers s =
    elim (Bool-cases (s.manager.is_shutting_down && is_empty s.manager.notifications_queue)) [
      | inl over ↦ simp over refl
      | inr more ↦ simp more (take_front-observers s.manager.notifications_queue s)
    ]

module _ (react : ObserverData → NotificationData → Outcome) where
  thread_step-IsUnique :
      (p : Phase) (s : System)
      → IsUnique s.manager.observers
      → IsUnique (thread_step react p s).manager.observers
  unfolding thread_step
  thread_step-IsUnique at_head s u = elim (Bool-cases s.stop) [
    | inl stopped ↦ simp stopped u
    | inr going ↦ simp going u
  ]
  thread_step-IsUnique waiting s u = elim (Bool-cases (can_wake s.manager)) [
    | inl woken ↦ simp woken (subst IsUnique (sym (wake-observers s)) u)
    | inr asleep ↦ simp asleep u
  ]
  thread_step-IsUnique (popped n) s u =
      λ d o. omega (arith, u d o, collect-count-le s.owners s.manager.observers d o)
  thread_step-IsUnique (calling n []) s u = u
  thread_step-IsUnique (calling n (x ∷ xs)) s u = u
  thread_step-IsUnique exited s u = u

  step-IsUnique :
      (s : System) (e : Event)
      → IsUnique s.manager.observers
      → IsUnique (step react s e).manager.observers
  unfolding step change shut_down
  step-IsUnique s turns u = thread_step-IsUnique s.phase s u
  step-IsUnique s (changes next) u =
      subst IsUnique (sym (try_changing_state-observers next s.manager)) u
  step-IsUnique s (subscribes d o) u = subscribe-IsUnique s.owners d o s.manager u
  step-IsUnique s (unsubscribes o) u = unsubscribe-IsUnique s.owners o s.manager u
  step-IsUnique s shuts_down u = u
  step-IsUnique s stops u = u
  step-IsUnique s (owners_become own) u = u

  run-IsUnique :
      (s : System) (es : List Event)
      → IsUnique s.manager.observers
      → IsUnique (run react s es).manager.observers
  unfolding run
  run-IsUnique s [] u = u
  run-IsUnique s (e ∷ es) u = run-IsUnique (step react s e) es (step-IsUnique s e u)

  -- In every state that the clients, the owners of the observers and the thread come to, no pair of a
  -- dispatcher and an observer is registered twice.
  pub registered_once :
      (own : Owners) (es : List Event) → IsUnique (run react (start_of own) es).manager.observers
  registered_once own es = run-IsUnique (start_of own) es (λ d o. omega arith)
