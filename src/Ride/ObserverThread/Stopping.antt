-- ===== src/Ride/ObserverThread/Stopping.antt =====
-- The observer thread once `stop` is set: it leaves the queue as it is, or sleeps on.
use spdlog_stress_test.Prelude.{
  arith, if◌then◌else◌, Option, none, some, Bool, ◌&&◌, Bool-cases, inl, inr, ℕ, ◌≡◌, refl, ◌∙◌,
  true, false, List, [], ◌∷◌,
}
use spdlog_stress_test.Ride.{
  RideState, NotificationData, ObserverData, Owners, Manager, scan, subscribe, subscribe_pair,
  unsubscribe, try_changing_state,
}
use spdlog_stress_test.Ride.Transitions.{
  notice, try_changing_state-success, try_changing_state-Accepts, try_changing_state-same,
}
use spdlog_stress_test.Ride.ObserverThread.{
  wake, take_front, popped, Outcome, at_head, waiting, exited, System, Event, turns, changes,
  subscribes, unsubscribes, shuts_down, stops, owners_become, change, thread_step, step, run,
}

module _ (react : ObserverData → NotificationData → Outcome) where
  -- Nothing more is taken or delivered.
  abbrev pub IsOver : System → System → Type 0
  IsOver s t = (t.phase ≡ exited) × (t.calls ≡ s.calls) × (t.taken ≡ s.taken)

  step-exited : (s : System) (e : Event) → s.phase ≡ exited → IsOver s (step react s e)
  unfolding step thread_step change
  step-exited s turns h = rw h (refl, refl, refl)
  step-exited s (changes next) h = (h, refl, refl)
  step-exited s (subscribes d o) h = (h, refl, refl)
  step-exited s (unsubscribes o) h = (h, refl, refl)
  step-exited s shuts_down h = (h, refl, refl)
  step-exited s stops h = (h, refl, refl)
  step-exited s (owners_become own) h = (h, refl, refl)

  run-exited : (s : System) (es : List Event) → s.phase ≡ exited → IsOver s (run react s es)
  unfolding run
  run-exited s [] h = (h, refl, refl)
  run-exited s (e ∷ es) h =
      let now = step-exited s e h in
      let later = run-exited (step react s e) es now.0 in
      (later.0, later.1 ∙ now.1, later.2 ∙ now.2)

  -- If `stop` is set when the thread is at the head of its loop, its next turn ends it, whatever
  -- else happens then: the notifications that are in the queue are never taken nor delivered.
  pub stop-abandons :
      (s : System) (es : List Event)
      → s.phase ≡ at_head
      → s.stop ≡ true
      → IsOver s (run react s (turns ∷ es))
  unfolding run step thread_step
  stop-abandons s es head stopped =
      rw (head, stopped) (run-exited (record s { phase = exited; stop = true }) es refl)

  -- The thread waits on the empty queue, and the destructor has not asked for the end.
  abbrev pub IsAsleep : System → Type 0
  IsAsleep s =
      (s.phase ≡ waiting)
      × (s.manager.notifications_queue ≡ [])
      × (s.manager.is_shutting_down ≡ false)

  -- The events but a change of state and the destructor's request.
  abbrev pub leaves_asleep : Event → Bool
  leaves_asleep (changes next) = false
  leaves_asleep shuts_down = false
  leaves_asleep e = true

  abbrev pub all_leave_asleep : List Event → Bool
  all_leave_asleep [] = true
  all_leave_asleep (e ∷ es) = leaves_asleep e && all_leave_asleep es

  -- Nothing is taken nor delivered.
  abbrev pub SleepsOn : System → System → Type 0
  SleepsOn s t = IsAsleep t × (t.taken ≡ s.taken) × (t.calls ≡ s.calls)

  subscribe-kept :
      (own : Owners) (d o : Option ℕ) (m : Manager)
      → ((subscribe own d o m).0.notifications_queue ≡ m.notifications_queue)
        × ((subscribe own d o m).0.is_shutting_down ≡ m.is_shutting_down)
  unfolding subscribe subscribe_pair
  subscribe-kept own none none m = (refl, refl)
  subscribe-kept own none (some o) m = (refl, refl)
  subscribe-kept own (some d) none m = (refl, refl)
  subscribe-kept own (some d) (some o) m = elim (Bool-cases m.is_shutting_down) [
    | inl down ↦ simp down (refl, refl)
    | inr up ↦ elim (Bool-cases (scan own d o m.observers).1) [
      | inl found ↦ simp (up, found) (refl, refl)
      | inr missing ↦ simp (up, missing) (refl, refl)
    ]
  ]

  unsubscribe-kept :
      (own : Owners) (o : Option ℕ) (m : Manager)
      → ((unsubscribe own o m).0.notifications_queue ≡ m.notifications_queue)
        × ((unsubscribe own o m).0.is_shutting_down ≡ m.is_shutting_down)
  unfolding unsubscribe
  unsubscribe-kept own none m = (refl, refl)
  unsubscribe-kept own (some o) m = elim (Bool-cases m.is_shutting_down) [
    | inl down ↦ simp down (refl, refl)
    | inr up ↦ simp up (refl, refl)
  ]

  step-asleep :
      (s : System) (e : Event) → leaves_asleep e ≡ true → IsAsleep s → SleepsOn s (step react s e)
  unfolding step thread_step
  step-asleep s turns h a = rw (a.0, a.1, a.2) ((refl, refl, refl), refl, refl)
  step-asleep s (subscribes d o) h a =
      let kept = subscribe-kept s.owners d o s.manager in
      ((a.0, kept.0 ∙ a.1, kept.1 ∙ a.2), refl, refl)
  step-asleep s (unsubscribes o) h a =
      let kept = unsubscribe-kept s.owners o s.manager in
      ((a.0, kept.0 ∙ a.1, kept.1 ∙ a.2), refl, refl)
  step-asleep s stops h a = (a, refl, refl)
  step-asleep s (owners_become own) h a = (a, refl, refl)
  step-asleep s (changes next) h a = cc
  step-asleep s shuts_down h a = cc

  run-asleep :
      (s : System) (es : List Event)
      → all_leave_asleep es ≡ true
      → IsAsleep s
      → SleepsOn s (run react s es)
  unfolding run
  run-asleep s [] h a = (a, refl, refl)
  run-asleep s (e ∷ es) h a =
      let now = step-asleep s e (ground arith) a in
      let later = run-asleep (step react s e) es (ground arith) now.0 in
      (later.0, later.1 ∙ now.1, later.2 ∙ now.2)

  -- An accepted change wakes the thread, whose next turn takes the notice of it; a refused one does not.
  change-wakes :
      (s : System) (next : RideState)
      → IsAsleep s
      → (step react (step react s (changes next)) turns).phase ≡ (
          if (try_changing_state next s.manager).1 then popped (notice s.manager next) else waiting)
  unfolding step change thread_step wake take_front
  change-wakes s next a = elim (Bool-cases (try_changing_state next s.manager).1) [
    | inl done ↦
        rw
          (
            try_changing_state-success next s.manager
                (try_changing_state-Accepts next s.manager done),
            a.0,
            a.1,
            a.2,
          )
          refl
    | inr refused ↦ rw (try_changing_state-same next s.manager refused, a.0, a.1, a.2) refl
  ]

  -- A thread that waits on the empty queue is not ended by `stop`: whatever happens then but a change
  -- of state and the destructor's request, it waits on, and nothing is taken nor delivered; and a
  -- change of state that then comes, if it is accepted, ends the wait: the thread's next turn takes
  -- the notice of that change.
  pub run-stops_asleep :
      (s : System) (es : List Event) (next : RideState)
      → IsAsleep s
      → all_leave_asleep es ≡ true
      → let t = run react s (stops ∷ es) in
        SleepsOn s t
        × ((run react t (changes next ∷ turns ∷ [])).phase ≡ (
            if (try_changing_state next t.manager).1
            then popped (notice t.manager next)
            else waiting))
  unfolding run
  run-stops_asleep s es next a h =
      let slept = run-asleep s (stops ∷ es) h a in
      (slept, change-wakes (run react s (stops ∷ es)) next slept.0)
